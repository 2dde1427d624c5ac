-- ===== src/PieceManager/Request.antt =====
-- What `PieceManager::request_next_block` hands out.
pub mod Choice
use cpp_torrent.Base.{
  ap, sym, ◌∙◌, ℕ, ◌+◌, ◌%◌, ◌^◌, ◌≤◌, ◌<◌, ◌≡◌, refl, subst, Bool, true, false, not, ◌&&◌, ◌||◌,
  Option, none, some, List, [], ◌∷◌, ◌++◌, arith, ltb, ◌==◌, length, length-append, get_or, inl,
  inr, Bool-cases, Option-cases, All,
}
use cpp_torrent.Piece
use cpp_torrent.Piece.{Piece, block_size}
use cpp_torrent.Piece.Valid.{init-IsValid, piece_size-init}
use cpp_torrent.Piece.Request.{request_next_block_cases}
use cpp_torrent.PieceManager.{
  PieceManager, conclude, all_requested, endgame_blocks, Search, fault, found, exhausted, passes,
  ensure, ask, search_pieces, check_endgame, sort_pieces, request_next_block, piece_length,
  size_of_piece, completed,
}
use cpp_torrent.PieceManager.Requests.{Requested, find}
use cpp_torrent.PieceManager.Requests.Laws.{find-append, contains-find, Distinct-append}
use cpp_torrent.PieceManager.Valid.{IsValid, Slot, SlotsOf, BoundsOf, count}
use cpp_torrent.PieceManager.Receive.{replace-Slots}
use cpp_torrent.PieceManager.Rarity.{sort_pieces-IsValid}
use cpp_torrent.PieceManager.Request.Choice.{listed-lt, Asked, SearchOk, search_pieces-Ok}

requested-IsValid :
    (m : PieceManager) (r : Requested)
    → IsValid m
    → SlotsOf m r
    → IsValid (record m { requested_pieces = r })
requested-IsValid m r v s = record {
  bounds = v.bounds;
  completed_length = v.completed_length;
  avail_length = v.avail_length;
  listed = v.listed;
  counted = v.counted;
  flagged = v.flagged;
  slots = s;
}

check_endgame-IsValid : (m : PieceManager) → IsValid m → IsValid (check_endgame m)
unfolding check_endgame
check_endgame-IsValid m v =
    elim (Bool-cases (
      not m.endgame
      && (m.pieces_left == length m.requested_pieces)
      && all_requested m.requested_pieces)) [
        | inl enter ↦
            subst IsValid (ground arith)
              (entered (m.endgame_requests ++ endgame_blocks m.requested_pieces))
        | inr stay ↦ subst IsValid (ground arith) v
      ]
  where
    entered :
        (blocks : List (ℕ × ℕ × ℕ))
        → IsValid (record m { endgame = true; endgame_requests = blocks })
    entered blocks = record {
      bounds = v.bounds;
      completed_length = v.completed_length;
      avail_length = v.avail_length;
      listed = v.listed;
      counted = v.counted;
      flagged = v.flagged;
      slots = v.slots;
    }

-- The block `(k, offset, size)` lies in a piece of the torrent that is not there yet and that the
-- peer has: it starts at a multiple of the block size, is not empty and ends within the piece.
abbrev pub Offered : PieceManager → List Bool → Option (ℕ × ℕ × ℕ) → Type 0
Offered m bitfield none = Unit {0}
Offered m bitfield (some (k, offset, size)) =
    (k < m.pieces_cnt)
    × (get_or m.piece_completed k false ≡ false)
    × (get_or bitfield k false ≡ true)
    × Asked m k offset size

abbrev Result : PieceManager → List Bool → Option (Option (ℕ × ℕ × ℕ) × PieceManager) → Type 0
Result m bitfield result =
    (answer : Option (ℕ × ℕ × ℕ)) × (m' : PieceManager) × (result ≡ some (answer, m'))
    × IsValid m'
    × Offered m bitfield answer

conclude-Result :
    (m : PieceManager) (bitfield : List Bool) (now : ℕ) (search : Search)
    → IsValid m
    → SearchOk m now bitfield search
    → Result m bitfield (conclude m search)
unfolding conclude
conclude-Result m bitfield now fault v s = absurd s
conclude-Result m bitfield now (found k offset size r) v s = (
  some (k, offset, size),
  record m { requested_pieces = r },
  refl,
  requested-IsValid m r v s.slots,
  (s.in_torrent, s.missing, s.offered, s.asked),
)
conclude-Result m bitfield now (exhausted r) v s = (
  none,
  check_endgame (record m { requested_pieces = r }),
  refl,
  check_endgame-IsValid (record m { requested_pieces = r }) (requested-IsValid m r v s),
  tt,
)

sorted-Result :
    (bitfield : List Bool) (now : ℕ) (m : PieceManager)
    → IsValid m
    → m.pieces_cnt ≤ length bitfield
    → Result m bitfield
        (conclude m (search_pieces m bitfield now m.requested_pieces m.sorted_pieces))
sorted-Result bitfield now m v long =
    conclude-Result m bitfield now (search_pieces m bitfield now m.requested_pieces m.sorted_pieces)
      v
      (search_pieces-Ok m now bitfield m.sorted_pieces m.requested_pieces v.bounds v.slots
        (listed-lt m.pieces_cnt m.sorted_pieces (λ x h. ground (arith, v.listed x))) long)

-- The sort changes nothing that this says.
unsort-Offered :
    (m : PieceManager) (bitfield : List Bool) (answer : Option (ℕ × ℕ × ℕ))
    → Offered (sort_pieces m) bitfield answer
    → Offered m bitfield answer
unfolding sort_pieces
unsort-Offered m bitfield none o = tt
unsort-Offered m bitfield (some (k, offset, size)) (h, n, b, a) =
    (h, n, b, record { aligned = a.aligned; nonempty = a.nonempty; inside = a.inside })

-- For a valid piece manager and a bitfield with a bit for each piece the call does not fault and
-- keeps the piece manager valid. A block that it hands out belongs to a piece of the torrent that
-- is not completed and that the peer has; it starts at a multiple of the block size, is not empty
-- and ends within the piece.
pub request_next_block-Offered :
    (bitfield : List Bool) (now : ℕ) (m : PieceManager)
    → IsValid m
    → m.pieces_cnt ≤ length bitfield
    → (answer : Option (ℕ × ℕ × ℕ)) × (m' : PieceManager) × (request_next_block bitfield now m
        ≡ some (answer, m'))
      × IsValid m'
      × Offered m bitfield answer
unfolding request_next_block
request_next_block-Offered bitfield now m v long = elim (Bool-cases (completed m)) [
  | inl done ↦ (none, m, rw (done, request_next_block), v, tt)
  | inr more ↦
      let (answer, m', run, w, o) =
        sorted-Result bitfield now (sort_pieces m) (sort_pieces-IsValid m v) long in
      (answer, m', rw (more, request_next_block) run, w, unsort-Offered m bitfield answer o)
]

-- What no call changes: the number of pieces, and their hashes.
abbrev pub Fixed : PieceManager → PieceManager → Type 0
Fixed m n = (n.pieces_cnt ≡ m.pieces_cnt) × (n.piece_hashes ≡ m.piece_hashes)

abbrev pub result_or : PieceManager → Option (Option (ℕ × ℕ × ℕ) × PieceManager) → PieceManager
result_or m none = m
result_or m (some (answer, n)) = n

conclude-Fixed : (m : PieceManager) (search : Search) → Fixed m (result_or m (conclude m search))
unfolding conclude check_endgame
conclude-Fixed m fault = (refl, refl)
conclude-Fixed m (found k offset size r) = (refl, refl)
conclude-Fixed m (exhausted r) = (ground arith, ground arith)

pub request_next_block-Fixed :
    (bitfield : List Bool) (now : ℕ) (m : PieceManager) (answer : Option (ℕ × ℕ × ℕ))
    {m' : PieceManager}
    → request_next_block bitfield now m ≡ some (answer, m')
    → Fixed m m'
unfolding request_next_block sort_pieces
request_next_block-Fixed bitfield now m answer {m'} e = elim (Bool-cases (completed m)) [
  | inl done ↦ (ground arith, ground arith)
  | inr more ↦
      let s = sort_pieces m in
      let search = search_pieces s bitfield now s.requested_pieces s.sorted_pieces in
      let run : conclude s search ≡ some (answer, m') = ground arith in
      subst (λ r. Fixed s (result_or s r)) run (conclude-Fixed s search)
]
