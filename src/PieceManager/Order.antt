-- ===== src/PieceManager/Order.antt =====
-- The order of the pieces by availability: the parts of the standard library that the piece manager
-- calls, and the search loop of `add_available_piece`.
use cpp_torrent.Base.{
  ℕ, zero, suc, ◌+◌, ◌-◌, ◌/◌, length, List, [], ◌∷◌, ltb, leb, ◌==◌, if◌then◌else◌, get_or,
}

-- One order that `std::ranges::sort` may give: equal pieces keep their places.
unfoldable pub insert : List ℕ → ℕ → List ℕ → List ℕ
insert avail x [] = x ∷ []
insert avail x (y ∷ ys) =
    if leb (get_or avail x 0) (get_or avail y 0) then x ∷ y ∷ ys else y ∷ insert avail x ys

unfoldable pub sort : List ℕ → List ℕ → List ℕ
unfolding insert
sort avail [] = []
sort avail (x ∷ xs) = insert avail x (sort avail xs)

-- The loop of `std::upper_bound`, on `len` pieces from the index `first` on: half of them go in each
-- turn, so that their number is enough fuel.
unfoldable pub bisect : ℕ → List ℕ → ℕ → List ℕ → ℕ → ℕ → ℕ
bisect zero avail t xs first len = first
bisect (suc fuel) avail t xs first len =
    let half = len / 2 in
    let lower = bisect fuel avail t xs first half in
    let upper = bisect fuel avail t xs (first + half + 1) (len - half - 1) in
    if len == 0
    then first
    else if ltb t (get_or avail (get_or xs (first + half) 0) 0)
    then lower
    else upper

-- `std::upper_bound`, which the source calls also where the order is not that of the availabilities: the
-- binary search of the standard libraries (libstdc++, libc++).
unfoldable pub upper_bound : List ℕ → ℕ → List ℕ → ℕ
unfolding bisect
upper_bound avail t xs = bisect (length xs) avail t xs 0 (length xs)

-- `for (; i > 0 && sorted[i] != piece; --i)`.
unfoldable pub sink : List ℕ → ℕ → ℕ → ℕ
sink sorted piece zero = 0
sink sorted piece (suc i) = if get_or sorted (suc i) 0 == piece then suc i else sink sorted piece i
