-- ===== src/PieceManager/Request/Choice.antt =====
-- The search of `request_next_block` through the pieces: the block that it finds is one that may be asked for.
use cpp_torrent.Base.{
  ℕ, ◌+◌, ◌%◌, ◌^◌, ◌≤◌, ◌<◌, ◌≡◌, refl, subst, Bool, true, false, ◌||◌, Option, none, some, List,
  [], ◌∷◌, ◌++◌, arith, ltb, length, length-append, get_or, inl, inr, Bool-cases, Option-cases, All,
}
use cpp_torrent.Piece
use cpp_torrent.Piece.{Piece, block_size}
use cpp_torrent.Piece.Valid.{init-IsValid, piece_size-init}
use cpp_torrent.Piece.Request.{request_next_block_cases}
use cpp_torrent.PieceManager.{
  PieceManager, Search, fault, found, exhausted, passes, ensure, ask, search_pieces, piece_length,
  size_of_piece,
}
use cpp_torrent.PieceManager.Requests.{Requested, find}
use cpp_torrent.PieceManager.Requests.Laws.{find-append, contains-find, Distinct-append}
use cpp_torrent.PieceManager.Valid.{Slot, SlotsOf, BoundsOf, count}
use cpp_torrent.PieceManager.Receive.{replace-Slots}

pub listed-lt : (n : ℕ) (xs : List ℕ) → ((x : ℕ) → n ≤ x → count x xs ≡ 0) → All (λ x. x < n) xs
unfolding count
listed-lt n [] h = tt
listed-lt n (y ∷ ys) h = (ground (arith, h y), listed-lt n ys (λ x l. omega (arith, h x l)))

-- What is asked for of piece `k`: a block that lies in it.
pub record Asked (m : PieceManager) (k offset size : ℕ) : Type 0 where
  pub aligned : offset % block_size ≡ 0
  pub nonempty : 0 < size
  pub inside : offset + size ≤ size_of_piece m k

abbrev Answer : PieceManager → ℕ → Option (ℕ × ℕ) → Requested → Type 0
Answer m k none r = SlotsOf m r
Answer m k (some (offset, size)) r = SlotsOf m r × Asked m k offset size

module _ (m : PieceManager) (now : ℕ) where
  piece_length-le : (k : ℕ) → BoundsOf m → size_of_piece m k ≤ 2 ^ 30
  unfolding piece_length
  piece_length-le k b = ground (arith, b.some_size, b.few_blocks)

  ask-Answer :
      (k : ℕ) (r : Requested) (p : Piece)
      → SlotsOf m r
      → find k r ≡ some p
      → Answer m k (ask now r k).0 (ask now r k).1
  unfolding ask
  ask-Answer k r p s e =
      let old = s.slot k p e in
      elim (request_next_block_cases p now old.valid) [
        | inl (b, offset, size, q, run, h) ↦
            rw (e, ask, run)
              (
                replace-Slots r s k p q e h.valid h.same_size,
                record {
                  aligned = omega (arith, h.starts);
                  nonempty = h.nonempty;
                  inside = omega (arith, h.ends, old.sized);
                },
              )
        | inr (run, all) ↦ rw (e, ask, run) (replace-Slots r s k p p e old.valid refl)
      ]

  append-Slots :
      (k : ℕ) (q : Piece) (r : Requested)
      → SlotsOf m r
      → find k r ≡ none
      → Slot m.pieces_cnt m.torrent_size m.piece_size m.piece_completed k q
      → length r < m.max_active_requests
      → SlotsOf m (r ++ ((k, q) ∷ []))
  append-Slots k q r s e slot room = record {
    distinct = Distinct-append k q r s.distinct e;
    slot = λ j x f. elim (Option-cases (find j r)) [
      | inr (y, old) ↦
          subst (λ z. Slot m.pieces_cnt m.torrent_size m.piece_size m.piece_completed j z)
            (ground (arith, find-append j k q r)) (s.slot j y old)
      | inl new ↦
          let same : k ≡ j = ground (arith, find-append j k q r) in
          let there : q ≡ x = ground (arith, find-append j k q r) in
          subst (λ i. Slot m.pieces_cnt m.torrent_size m.piece_size m.piece_completed i x) same
            (subst (λ z. Slot m.pieces_cnt m.torrent_size m.piece_size m.piece_completed k z) there
              slot)
    ];
    few = omega (arith, length-append r ((k, q) ∷ []));
  }

  -- The piece that the loop turns to is there, started if it has to be.
  ensure-Slots :
      (bitfield : List Bool) (k : ℕ) (r : Requested)
      → BoundsOf m
      → SlotsOf m r
      → k < m.pieces_cnt
      → passes m bitfield r k ≡ false
      → SlotsOf m (ensure m r k) × ((p : Piece) × (find k (ensure m r k) ≡ some p))
  unfolding ensure passes
  ensure-Slots bitfield k r b s h n = elim (contains-find k r) [
    | inl (there, (p, e)) ↦ rw there (s, (p, e))
    | inr (new, e) ↦
        let size = size_of_piece m k in
        let fresh = Piece.init size m.block_request_timeout in
        let slot : Slot m.pieces_cnt m.torrent_size m.piece_size m.piece_completed k fresh =
          record {
            in_torrent = h;
            missing = ground arith;
            valid = init-IsValid size m.block_request_timeout (piece_length-le k b);
            sized = piece_size-init size m.block_request_timeout;
          } in
        rw new (
          append-Slots k fresh r s e slot (ground arith),
          (fresh, ground (arith, find-append k k fresh r, e)),
        )
  ]

  -- A block that is handed out lies in a piece of the torrent that is not there yet and that the peer
  -- has, and the slots are kept.
  pub record Handed (bitfield : List Bool) (k offset size : ℕ) (r : Requested) : Type 0 where
    pub in_torrent : k < m.pieces_cnt
    pub missing : get_or m.piece_completed k false ≡ false
    pub offered : get_or bitfield k false ≡ true
    pub asked : Asked m k offset size
    pub slots : SlotsOf m r

  abbrev pub SearchOk : List Bool → Search → Type 0
  SearchOk bitfield fault = ⊥
  SearchOk bitfield (found k offset size r) = Handed bitfield k offset size r
  SearchOk bitfield (exhausted r) = SlotsOf m r

  passes-false :
      (bitfield : List Bool) (k : ℕ) (r : Requested)
      → passes m bitfield r k ≡ false
      → (get_or m.piece_completed k false ≡ false) × (get_or bitfield k false ≡ true)
  unfolding passes
  passes-false bitfield k r e = ground arith

  choose :
      (bitfield : List Bool) (k : ℕ) (answer : Option (ℕ × ℕ)) (r : Requested) (later : Search)
      → k < m.pieces_cnt
      → (get_or m.piece_completed k false ≡ false) × (get_or bitfield k false ≡ true)
      → Answer m k answer r
      → (SlotsOf m r → SearchOk bitfield later)
      → SearchOk bitfield
          (elim answer [ none ↦ later | some (offset, size) ↦ found k offset size r ])
  choose bitfield k none r later h n a go = go a
  choose bitfield k (some (offset, size)) r later h n a go = record {
    in_torrent = h;
    missing = n.0;
    offered = n.1;
    asked = a.1;
    slots = a.0;
  }

  pub search_pieces-Ok :
      (bitfield : List Bool) (ps : List ℕ) (r : Requested)
      → BoundsOf m
      → SlotsOf m r
      → All (λ x. x < m.pieces_cnt) ps
      → m.pieces_cnt ≤ length bitfield
      → SearchOk bitfield (search_pieces m bitfield now r ps)
  unfolding search_pieces
  search_pieces-Ok bitfield [] r b s a long = s
  search_pieces-Ok bitfield (k ∷ ps) r b s (h, a) long =
      elim (Bool-cases (get_or m.piece_completed k false || ltb k (length bitfield))) [
        | inr out ↦ absurd (ground arith)
        | inl in_range ↦ elim (Bool-cases (passes m bitfield r k)) [
          | inl skip ↦ rw (in_range, skip) (search_pieces-Ok bitfield ps r b s a long)
          | inr go ↦
              let (t, (p, e)) = ensure-Slots bitfield k r b s h go in
              let asked = ask now (ensure m r k) k in
              rw (in_range, go)
                (choose bitfield k asked.0 asked.1 (search_pieces m bitfield now asked.1 ps) h
                  (passes-false bitfield k r go) (ask-Answer k (ensure m r k) p t e)
                  (λ u. search_pieces-Ok bitfield ps asked.1 b u a long))
        ]
      ]
