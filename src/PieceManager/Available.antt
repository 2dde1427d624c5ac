-- ===== src/PieceManager/Available.antt =====
-- The availability of the pieces, and the order by it.
use cpp_torrent.Base.{
  ℕ, zero, suc, ◌+◌, ◌-◌, ◌/◌, ◌≤◌, ◌<◌, ◌≡◌, refl, sym, subst, ap, Bool-cases, inl, inr, ltb, Bool,
  true, false, List, [], ◌∷◌, arith, ◌==◌, if◌then◌else◌, length, get_or, get_or-set, length-set,
  set, u16_mod, All,
}
use cpp_torrent.Piece.{swap}
use cpp_torrent.PieceManager.{Sign, plus, minus, bump, update_avail}
use cpp_torrent.PieceManager.Order.{insert, sort, bisect, upper_bound, sink}
use cpp_torrent.PieceManager.Valid.{count}

count-insert :
    (avail : List ℕ) (x y : ℕ) (ys : List ℕ)
    → count x (insert avail y ys) ≡ (if x == y then 1 else 0) + count x ys
unfolding count insert
count-insert avail x y [] = refl
count-insert avail x y (z ∷ zs) = ground (arith, count-insert avail x y zs)

pub count-sort : (avail : List ℕ) (x : ℕ) (xs : List ℕ) → count x (sort avail xs) ≡ count x xs
unfolding count sort
count-sort avail x [] = refl
count-sort avail x (y ∷ ys) =
    omega (arith, count-insert avail x y (sort avail ys), count-sort avail x ys)

count-set :
    (x i v : ℕ) (xs : List ℕ)
    → i < length xs
    → count x (set xs i v) + (if x == get_or xs i 0 then 1 else 0)
      ≡ count x xs + (if x == v then 1 else 0)
unfolding count
count-set x i v [] h = absurd (omega arith)
count-set x zero v (y ∷ ys) h = omega arith
count-set x (suc i) v (y ∷ ys) h = omega (arith, count-set x i v ys)

-- A swap moves pieces about and loses none.
pub count-swap :
    (x i j : ℕ) (xs : List ℕ) → i < length xs → j < length xs → count x (swap xs i j) ≡ count x xs
unfolding swap
count-swap x i j xs hi hj =
    let first = set xs i (get_or xs j 0) in
    ground (
      arith,
      count-set x j (get_or xs i 0) first,
      count-set x i (get_or xs j 0) xs,
      get_or-set xs i j (get_or xs j 0) 0,
      length-set xs i (get_or xs j 0),
    )

-- Ascending availability.
abbrev pub From : List ℕ → ℕ → List ℕ → Type 0
From avail low [] = Unit {0}
From avail low (x ∷ xs) = (low ≤ get_or avail x 0) × From avail (get_or avail x 0) xs

abbrev pub IsSorted : List ℕ → List ℕ → Type 0
IsSorted avail xs = From avail 0 xs

insert-From :
    (avail : List ℕ) (low x : ℕ) (ys : List ℕ)
    → low ≤ get_or avail x 0
    → From avail low ys
    → From avail low (insert avail x ys)
unfolding insert
insert-From avail low x [] h f = (h, tt)
insert-From avail low x (y ∷ ys) h f = ground (arith, insert-From avail (get_or avail y 0) x ys)

-- The sort of `request_next_block` puts the rarest pieces first.
pub sort-IsSorted : (avail xs : List ℕ) → IsSorted avail (sort avail xs)
unfolding sort
sort-IsSorted avail [] = tt
sort-IsSorted avail (x ∷ xs) =
    insert-From avail 0 x (sort avail xs) (omega arith) (sort-IsSorted avail xs)

pub length-update_avail :
    (sign : Sign) (avail : List ℕ) (bits : List Bool)
    → length (update_avail sign avail bits) ≡ length avail
unfolding update_avail
length-update_avail sign [] bits = refl
length-update_avail sign (a ∷ as_) [] = refl
length-update_avail sign (a ∷ as_) (b ∷ bits) = ap suc (length-update_avail sign as_ bits)

bisect-le :
    (fuel : ℕ) (avail : List ℕ) (t : ℕ) (xs : List ℕ) (first len : ℕ)
    → bisect fuel avail t xs first len ≤ first + len
unfolding bisect
bisect-le zero avail t xs first len = omega arith
bisect-le (suc fuel) avail t xs first len = ground (
  arith,
  bisect-le fuel avail t xs first (len / 2),
  bisect-le fuel avail t xs (first + len / 2 + 1) (len - len / 2 - 1),
)

pub upper_bound-le : (avail : List ℕ) (t : ℕ) (xs : List ℕ) → upper_bound avail t xs ≤ length xs
unfolding upper_bound
upper_bound-le avail t xs = omega (arith, bisect-le (length xs) avail t xs 0 (length xs))

le-bisect :
    (fuel : ℕ) (avail : List ℕ) (t : ℕ) (xs : List ℕ) (first len : ℕ)
    → first ≤ bisect fuel avail t xs first len
unfolding bisect
le-bisect zero avail t xs first len = omega arith
le-bisect (suc fuel) avail t xs first len = ground (
  arith,
  le-bisect fuel avail t xs first (len / 2),
  le-bisect fuel avail t xs (first + len / 2 + 1) (len - len / 2 - 1),
)

-- What the search steps over last is not more available than the threshold.
bisect-last :
    (fuel : ℕ) (avail : List ℕ) (t : ℕ) (xs : List ℕ) (first len r : ℕ)
    → bisect fuel avail t xs first len ≡ r
    → first < r
    → get_or avail (get_or xs (r - 1) 0) 0 ≤ t
unfolding bisect
bisect-last zero avail t xs first len r e h = absurd (omega arith)
bisect-last (suc fuel) avail t xs first len r e h =
    let half = len / 2 in
    let middle = get_or avail (get_or xs (first + half) 0) 0 in
    let upper = bisect fuel avail t xs (first + half + 1) (len - half - 1) in
    elim (Bool-cases (len == 0)) [
      | inl none_ ↦ absurd (omega (arith, rw none_ at e))
      | inr some_ ↦ elim (Bool-cases (ltb t middle)) [
        | inl below ↦ bisect-last fuel avail t xs first half r (rw (some_, below) at e) h
        | inr above ↦
            let on : upper ≡ r = rw (some_, above) at e in
            elim (Bool-cases (ltb (first + half + 1) r)) [
              | inl more ↦
                  bisect-last fuel avail t xs (first + half + 1) (len - half - 1) r on
                    (ground arith)
              | inr last ↦
                  let at_middle : r - 1 ≡ first + half =
                    ground
                      (arith, on, le-bisect fuel avail t xs (first + half + 1) (len - half - 1)) in
                  let small : middle ≤ t = ground arith in
                  subst (λ i. get_or avail (get_or xs i 0) 0 ≤ t) (sym at_middle) small
            ]
      ]
    ]

pub upper_bound-last :
    (avail : List ℕ) (t : ℕ) (xs : List ℕ)
    → 0 < upper_bound avail t xs
    → get_or avail (get_or xs (upper_bound avail t xs - 1) 0) 0 ≤ t
unfolding upper_bound
upper_bound-last avail t xs h = bisect-last (length xs) avail t xs 0 (length xs) _ refl h

pub sink-le : (xs : List ℕ) (p i : ℕ) → sink xs p i ≤ i
unfolding sink
sink-le xs p zero = omega arith
sink-le xs p (suc i) = ground (arith, sink-le xs p i)

-- Taking a peer's bitfield back undoes adding it, for counts that fit a uint16_t.
pub update_avail-minus-plus :
    (avail : List ℕ) (bits : List Bool)
    → All (λ a. a < u16_mod) avail
    → update_avail minus (update_avail plus avail bits) bits ≡ avail
unfolding update_avail bump
update_avail-minus-plus [] bits h = refl
update_avail-minus-plus (a ∷ as_) [] h = refl
update_avail-minus-plus (a ∷ as_) (true ∷ bits) h =
    ground (arith, update_avail-minus-plus as_ bits h.1)
update_avail-minus-plus (a ∷ as_) (false ∷ bits) h =
    ground (arith, update_avail-minus-plus as_ bits h.1)
