-- ===== src/PieceManager/Unsorted.antt =====
-- `add_available_piece` can break the order that it means to keep: `std::upper_bound` hands the
-- availability of the piece to a comparator that takes it for an index.
use cpp_torrent.Base.{
  ℕ, zero, suc, ◌+◌, ◌-◌, ◌%◌, ◌≤◌, ◌<◌, ◌≡◌, refl, true, some, List, [], ◌∷◌, arith, ◌==◌, length,
  get_or, get_or-set, u16_mod, inl, inr, Bool-cases,
}
use cpp_torrent.Piece.{swap}
use cpp_torrent.Piece.Valid.{get_or-swap, length-swap}
use cpp_torrent.PieceManager.{
  PieceManager, increase, threshold, last_equal_piece, add_available_piece,
}
use cpp_torrent.PieceManager.Order.{upper_bound, sink}
use cpp_torrent.PieceManager.Available.{From, IsSorted, upper_bound-le, upper_bound-last}

-- In a sorted order the first piece is no more available than any other.
first-le :
    (avail : List ℕ) (low : ℕ) (xs : List ℕ) (i : ℕ)
    → From avail low xs
    → i < length xs
    → low ≤ get_or avail (get_or xs i 0) 0
first-le avail low [] i f h = absurd (omega arith)
first-le avail low (x ∷ xs) zero f h = f.0
first-le avail low (x ∷ xs) (suc i) f h =
    omega (arith, f.0, first-le avail (get_or avail x 0) xs i f.1)

head-le :
    (avail xs : List ℕ) (i : ℕ)
    → IsSorted avail xs
    → i < length xs
    → get_or avail (get_or xs 0 0) 0 ≤ get_or avail (get_or xs i 0) 0
head-le avail [] i f h = absurd (omega arith)
head-le avail (x ∷ xs) zero f h = omega arith
head-le avail (x ∷ xs) (suc i) f h = first-le avail (get_or avail x 0) xs i f.1 (omega arith)

-- In a sorted order a piece is no more available than one behind it.
behind-le :
    (avail : List ℕ) (low : ℕ) (xs : List ℕ) (i j : ℕ)
    → From avail low xs
    → i ≤ j
    → j < length xs
    → get_or avail (get_or xs i 0) 0 ≤ get_or avail (get_or xs j 0) 0
behind-le avail low [] i j f l h = absurd (omega arith)
behind-le avail low (x ∷ xs) zero zero f l h = omega arith
behind-le avail low (x ∷ xs) zero (suc j) f l h =
    first-le avail (get_or avail x 0) xs j f.1 (omega arith)
behind-le avail low (x ∷ xs) (suc i) zero f l h = absurd (omega arith)
behind-le avail low (x ∷ xs) (suc i) (suc j) f l h =
    behind-le avail (get_or avail x 0) xs i j f.1 (omega arith) (omega arith)

-- What stands before the upper bound is not more available than the threshold.
get_or-le-threshold :
    (avail : List ℕ) (t : ℕ) (xs : List ℕ) (i : ℕ)
    → IsSorted avail xs
    → i < upper_bound avail t xs
    → get_or avail (get_or xs i 0) 0 ≤ t
get_or-le-threshold avail t xs i f h = omega (
  arith,
  upper_bound-le avail t xs,
  upper_bound-last avail t xs (omega arith),
  behind-le avail 0 xs i (upper_bound avail t xs - 1) f (omega arith)
      (omega (arith, upper_bound-le avail t xs)),
)

-- The search loop runs down to the front when the piece stands nowhere on its way.
sink-eq-zero :
    (avail : List ℕ) (t : ℕ) (xs : List ℕ) (p i : ℕ)
    → IsSorted avail xs
    → i < upper_bound avail t xs
    → t < get_or avail p 0
    → sink xs p i ≡ 0
unfolding sink
sink-eq-zero avail t xs p zero f h over = refl
sink-eq-zero avail t xs p (suc i) f h over = elim (Bool-cases (get_or xs (suc i) 0 == p)) [
  | inl hit ↦ absurd (ground (arith, get_or-le-threshold avail t xs (suc i)))
  | inr miss ↦ rw miss (sink-eq-zero avail t xs p i f (omega arith) over)
]

-- The pieces are flagged as sorted, and are; the announced piece `p` is more available than the piece
-- whose index is `p`'s availability, and of those that are at most as available as the latter the
-- first is rarer than the last. Then the call succeeds and leaves the flag set on an order that is
-- not sorted.
pub add_available_piece-unsorted :
    (p : ℕ) (m : PieceManager)
    → m.are_pieces_sorted ≡ true
    → IsSorted m.piece_avail m.sorted_pieces
    → p < m.pieces_cnt
    → length m.piece_avail ≡ m.pieces_cnt
    → get_or m.piece_avail p 0 < m.pieces_cnt
    → threshold m p < get_or m.piece_avail p 0
    → 1 < upper_bound m.piece_avail (threshold m p) m.sorted_pieces
    → get_or m.piece_avail (get_or m.sorted_pieces 0 0) 0
      < get_or m.piece_avail (get_or m.sorted_pieces (last_equal_piece m p) 0) 0
    → (m' : PieceManager) × (add_available_piece p m ≡ some m')
      × (m'.are_pieces_sorted ≡ true)
      × (¬ IsSorted m'.piece_avail m'.sorted_pieces)
unfolding add_available_piece
add_available_piece-unsorted p m sorted f h len_ small over several rarer = (
  record m { sorted_pieces = after; piece_avail = increase m p },
  ground (arith, front),
  sorted,
  λ s. absurd (omega (arith, wrong s)),
)
  where
    last : ℕ
    last = last_equal_piece m p

    after : List ℕ
    after = swap m.sorted_pieces 0 last

    front : sink m.sorted_pieces p last ≡ 0
    front = sink-eq-zero m.piece_avail (threshold m p) m.sorted_pieces p last f (omega arith) over

    room : upper_bound m.piece_avail (threshold m p) m.sorted_pieces ≤ length m.sorted_pieces
    room = upper_bound-le m.piece_avail (threshold m p) m.sorted_pieces

    -- The pieces before the bound are others than `p`, so their availability stays.
    stays :
        (i : ℕ)
        → i < upper_bound m.piece_avail (threshold m p) m.sorted_pieces
        → get_or (increase m p) (get_or m.sorted_pieces i 0) 0
          ≡ get_or m.piece_avail (get_or m.sorted_pieces i 0) 0
    stays i l = ground (
      arith,
      get_or-set m.piece_avail p (get_or m.sorted_pieces i 0)
          ((get_or m.piece_avail p 0 + 1) % u16_mod) 0,
      get_or-le-threshold m.piece_avail (threshold m p) m.sorted_pieces i f l,
    )

    wrong :
        IsSorted (increase m p) after
        → get_or m.piece_avail (get_or m.sorted_pieces last 0) 0
          ≤ get_or m.piece_avail (get_or m.sorted_pieces 0 0) 0
    wrong s = ground (
      arith,
      head-le (increase m p) after last s,
      length-swap m.sorted_pieces 0 last,
      get_or-swap m.sorted_pieces 0 last 0,
      get_or-swap m.sorted_pieces 0 last last,
      stays 0,
      stays last,
      room,
    )
