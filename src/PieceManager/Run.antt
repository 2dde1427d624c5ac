-- ===== src/PieceManager/Run.antt =====
-- The calls on a piece manager as steps, and what holds after any sequence of them.
use cpp_torrent.Base.{
  ◌⊎◌, ℕ, zero, suc, ◌≤◌, ◌<◌, ◌≡◌, subst, Bool, true, false, not, ◌&&◌, Option, some, List, [],
  ◌∷◌, ◌++◌, arith, ◌==◌, length, get_or, get_or-replicate, u32_mod, ceil_div, Bool-cases, inl, inr,
}
use cpp_torrent.FileManager.{Files}
use cpp_torrent.Message.{bytes_equal}
use cpp_torrent.PieceManager.{
  PieceManager, Search, fault, found, exhausted, Sign, init, all_requested, endgame_blocks,
  check_endgame, conclude, search_pieces, sort_pieces, request_next_block, receive_block,
  add_available_piece, update_pieces_availability, update_avail, set_bits, increase, threshold,
  last_equal_piece, completed, ref_hash,
}
use cpp_torrent.Piece.{swap}
use cpp_torrent.PieceManager.Order.{upper_bound, sink}
use cpp_torrent.PieceManager.Requests.{Requested}
use cpp_torrent.PieceManager.Valid.{IsValid, BoundsOf, init-IsValid, count_true, count_true-le}
use cpp_torrent.PieceManager.Receive.{receive_block-IsValid}
use cpp_torrent.PieceManager.Request.{request_next_block-Offered}
use cpp_torrent.PieceManager.Rarity.{
  update_pieces_availability-IsValid, add_available_piece-IsValid, added,
}
use cpp_torrent.PieceManager.Intact.{Intact, receive_block-Intact}
use cpp_torrent.PieceManager.Intact.Bytes.{Stored, piece_on_disk}

module _ (sha1 : List ℕ → List ℕ) where
  -- One call on the piece manager that does not fault.
  pub data Step : PieceManager → PieceManager → Type 0 where
    received :
        {m m' : PieceManager} (k : ℕ) (block : List ℕ) (offset : ℕ)
        → offset < u32_mod
        → receive_block sha1 k block offset m ≡ some m'
        → Step m m'
    requested :
        {m m' : PieceManager} (bitfield : List Bool) (now : ℕ) (answer : Option (ℕ × ℕ × ℕ))
        → m.pieces_cnt ≤ length bitfield
        → request_next_block bitfield now m ≡ some (answer, m')
        → Step m m'
    announced : {m m' : PieceManager} (k : ℕ) → add_available_piece k m ≡ some m' → Step m m'
    joined_or_left :
        {m m' : PieceManager} (sign : Sign) (bitfield : List Bool)
        → update_pieces_availability sign bitfield m ≡ some m'
        → Step m m'

  -- A sequence of calls.
  pub data Reaches (m : PieceManager) : PieceManager → Type 0 where
    start : Reaches m m
    then_ : {n r : PieceManager} → Reaches m n → Step n r → Reaches m r

  -- The bytes on disk do not depend on what is asked for, nor on the order of the pieces.
  volatile-Intact :
      (m : PieceManager) (r : Requested) (avail sorted : List ℕ) (flag in_endgame : Bool)
      (blocks : List (ℕ × ℕ × ℕ))
      → Intact sha1 m
      → Intact sha1 (record m {
        requested_pieces = r;
        piece_avail = avail;
        sorted_pieces = sorted;
        are_pieces_sorted = flag;
        endgame = in_endgame;
        endgame_requests = blocks;
      })
  volatile-Intact m r avail sorted flag in_endgame blocks i = record {
    stored = record {
      laid = i.stored.laid;
      held = i.stored.held;
      addressable = i.stored.addressable;
    };
    hashed = i.hashed;
  }

  conclude-Intact :
      (m : PieceManager) (search : Search) (answer : Option (ℕ × ℕ × ℕ)) {m' : PieceManager}
      → Intact sha1 m
      → conclude m search ≡ some (answer, m')
      → Intact sha1 m'
  unfolding conclude check_endgame
  conclude-Intact m fault answer i e = absurd (ground arith)
  conclude-Intact m (found k offset size r) answer i e = subst (Intact sha1) (ground arith) (
      volatile-Intact m r m.piece_avail m.sorted_pieces m.are_pieces_sorted m.endgame
        m.endgame_requests i)
  conclude-Intact m (exhausted r) answer i e =
      elim (Bool-cases (not m.endgame && (m.pieces_left == length r) && all_requested r)) [
        | inl enter ↦ subst (Intact sha1) (ground arith) (
            volatile-Intact m r m.piece_avail m.sorted_pieces m.are_pieces_sorted true
              (m.endgame_requests ++ endgame_blocks r) i)
        | inr stay ↦ subst (Intact sha1) (ground arith) (
            volatile-Intact m r m.piece_avail m.sorted_pieces m.are_pieces_sorted m.endgame
              m.endgame_requests i)
      ]

  request_next_block-Intact :
      (bitfield : List Bool) (now : ℕ) (m : PieceManager) (answer : Option (ℕ × ℕ × ℕ))
      {m' : PieceManager}
      → Intact sha1 m
      → request_next_block bitfield now m ≡ some (answer, m')
      → Intact sha1 m'
  unfolding request_next_block sort_pieces
  request_next_block-Intact bitfield now m answer i e = elim (Bool-cases (completed m)) [
    | inl done ↦ subst (Intact sha1) (ground arith) i
    | inr more ↦
        let s = sort_pieces m in
        conclude-Intact s (search_pieces s bitfield now s.requested_pieces s.sorted_pieces) answer
          (volatile-Intact m m.requested_pieces m.piece_avail s.sorted_pieces true m.endgame
            m.endgame_requests i)
          (ground arith)
  ]

  announced-Intact :
      (m : PieceManager) (k : ℕ) {n : PieceManager}
      → Intact sha1 m
      → (k < m.pieces_cnt)
        × ((record m { piece_avail = increase m k } ≡ n)
            ⊎ ((0 < upper_bound m.piece_avail (threshold m k) m.sorted_pieces)
                × (record m {
                  sorted_pieces =
                      swap m.sorted_pieces
                        (sink m.sorted_pieces k (last_equal_piece m k))
                        (last_equal_piece m k);
                  piece_avail = increase m k;
                }
                    ≡ n)))
      → Intact sha1 n
  announced-Intact m k i (h, inl same) = subst (Intact sha1) same (
      volatile-Intact m m.requested_pieces (increase m k) m.sorted_pieces m.are_pieces_sorted
        m.endgame m.endgame_requests i)
  announced-Intact m k i (h, inr (bound, same)) = subst (Intact sha1) same (
      volatile-Intact m m.requested_pieces (increase m k)
        (swap m.sorted_pieces (sink m.sorted_pieces k (last_equal_piece m k))
          (last_equal_piece m k))
        m.are_pieces_sorted m.endgame m.endgame_requests i)

  pub Step-safe :
      {m n : PieceManager} → Step m n → IsValid m × Intact sha1 m → IsValid n × Intact sha1 n
  unfolding update_pieces_availability
  Step-safe {m} (received k block offset ho e) (v, i) = (
    receive_block-IsValid sha1 m k block offset v ho e,
    receive_block-Intact sha1 m k block offset v i ho e,
  )
  Step-safe {m} {n} (requested bitfield now answer long e) (v, i) =
      let (a, r, run, w, o) = request_next_block-Offered bitfield now m v long in
      (subst IsValid (ground arith) w, request_next_block-Intact bitfield now m answer i e)
  Step-safe {m} (announced k e) (v, i) =
      ((add_available_piece-IsValid k m v e).0, announced-Intact m k i (added k m e))
  Step-safe {m} (joined_or_left sign bits e) (v, i) = (
    update_pieces_availability-IsValid sign bits m v e,
    subst (Intact sha1) (ground arith) (
        volatile-Intact m m.requested_pieces (update_avail sign m.piece_avail bits) m.sorted_pieces
          (m.are_pieces_sorted && (set_bits m.pieces_cnt bits == 0)) m.endgame m.endgame_requests
          i),
  )

  -- Any sequence of calls that do not fault (blocks that arrive, requests for a peer with a bit for
  -- each piece, announced pieces, peers that come and go) keeps a valid piece manager valid, and
  -- every piece that counts as completed in the files with its hash.
  pub Reaches-safe :
      {m n : PieceManager} → Reaches m n → IsValid m → Intact sha1 m → IsValid n × Intact sha1 n
  Reaches-safe start v i = (v, i)
  Reaches-safe (then_ r s) v i = Step-safe s (Reaches-safe r v i)

  pub init-Intact :
      (piece_size torrent_size : ℕ) (files : Files) (hashes : List ℕ) (timeout : ℕ)
      → Stored (init piece_size torrent_size files hashes timeout)
      → Intact sha1 (init piece_size torrent_size files hashes timeout)
  unfolding init
  init-Intact piece_size torrent_size files hashes timeout st = record {
    stored = st;
    hashed = λ k h done.
        absurd (ground (arith, get_or-replicate (ceil_div torrent_size piece_size) k false));
  }

  all-completed :
      (bs : List Bool) (i : ℕ)
      → count_true bs ≡ length bs
      → i < length bs
      → get_or bs i false ≡ true
  unfolding count_true
  all-completed [] i e h = absurd (omega arith)
  all-completed (b ∷ bs) zero e h = ground (arith, count_true-le bs)
  all-completed (b ∷ bs) (suc i) e h = ground (arith, count_true-le bs, all-completed bs i)

  pub Reaches-on-disk :
      {m n : PieceManager}
      → Reaches m n
      → IsValid m
      → Intact sha1 m
      → completed n ≡ true
      → (k : ℕ) → k < n.pieces_cnt
      → bytes_equal (sha1 (piece_on_disk n k)) (ref_hash n k) ≡ true
  Reaches-on-disk {m} {n} r v i done k h =
      let (w, j) = Reaches-safe r v i in
      j.hashed k h (
        all-completed n.piece_completed k (ground (arith, w.counted, w.completed_length))
          (omega (arith, w.completed_length)))

  -- A piece manager that starts with `init`, within the bounds and with files that are laid out one
  -- behind the other and hold a torrent of at most 4 GiB, and that after any sequence of calls says
  -- that it is completed, has every piece in the files with the hash that it has for the piece,
  -- whatever function the hash is.
  pub completed-on-disk :
      (piece_size torrent_size : ℕ) (files : Files) (hashes : List ℕ) (timeout : ℕ)
      {m : PieceManager}
      → BoundsOf (init piece_size torrent_size files hashes timeout)
      → Stored (init piece_size torrent_size files hashes timeout)
      → Reaches (init piece_size torrent_size files hashes timeout) m
      → completed m ≡ true
      → (k : ℕ) → k < m.pieces_cnt
      → bytes_equal (sha1 (piece_on_disk m k)) (ref_hash m k) ≡ true
  completed-on-disk piece_size torrent_size files hashes timeout b st r done k h =
      Reaches-on-disk r (init-IsValid piece_size torrent_size files hashes timeout b)
        (init-Intact piece_size torrent_size files hashes timeout st) done k h
