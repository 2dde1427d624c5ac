-- ===== src/PieceManager/Requests/Laws.antt =====
-- The laws of the map of requested pieces.
use cpp_torrent.Base.{
  ℕ, ◌≤◌, ◌≡◌, refl, true, false, Option, none, some, [], ◌∷◌, ◌++◌, arith, ◌==◌, if◌then◌else◌,
  length, ◌⊎◌, inl, inr, Bool-cases,
}
use cpp_torrent.Piece.{Piece}
use cpp_torrent.PieceManager.Requests.{Requested, find, contains, replace, erase}

-- No key stands in the map twice.
abbrev pub Distinct : Requested → Type 0
Distinct [] = Unit {0}
Distinct ((i, p) ∷ ps) = (find i ps ≡ none) × Distinct ps

abbrev pub or_else : Option Piece → Option Piece → Option Piece
or_else none q = q
or_else (some p) q = some p

pub find-replace :
    (j k : ℕ) (q : Piece) (r : Requested)
    → find j (replace k q r)
      ≡ (if k == j then (if contains k r then some q else none) else find j r)
unfolding find replace contains
find-replace j k q [] = ground arith
find-replace j k q ((i, p) ∷ ps) = ground (arith, find-replace j k q ps)

pub find-erase :
    (j k : ℕ) (r : Requested)
    → Distinct r
    → find j (erase k r) ≡ (if k == j then none else find j r)
unfolding find erase
find-erase j k [] d = ground arith
find-erase j k ((i, p) ∷ ps) d = ground (arith, find-erase j k ps d.1)

pub find-append :
    (j k : ℕ) (q : Piece) (r : Requested)
    → find j (r ++ ((k, q) ∷ [])) ≡ or_else (find j r) (if k == j then some q else none)
unfolding find
find-append j k q [] = refl
find-append j k q ((i, p) ∷ ps) = ground (arith, find-append j k q ps)

-- `contains` is whether `find` finds something.
pub contains-find :
    (k : ℕ) (r : Requested)
    → ((contains k r ≡ true) × ((p : Piece) × (find k r ≡ some p)))
      ⊎ ((contains k r ≡ false) × (find k r ≡ none))
unfolding find contains
contains-find k [] = inr (refl, refl)
contains-find k ((i, p) ∷ ps) = elim (Bool-cases (i == k)) [
  | inl hit ↦ rw hit (inl (refl, (p, refl)))
  | inr miss ↦ rw miss (contains-find k ps)
]

pub Distinct-replace : (k : ℕ) (q : Piece) (r : Requested) → Distinct r → Distinct (replace k q r)
unfolding replace
Distinct-replace k q [] d = tt
Distinct-replace k q ((i, p) ∷ ps) d =
    ground (arith, Distinct-replace k q ps d.1, find-replace i k q ps)

pub Distinct-erase : (k : ℕ) (r : Requested) → Distinct r → Distinct (erase k r)
unfolding erase
Distinct-erase k [] d = tt
Distinct-erase k ((i, p) ∷ ps) d = ground (arith, Distinct-erase k ps d.1, find-erase i k ps d.1)

pub Distinct-append :
    (k : ℕ) (q : Piece) (r : Requested)
    → Distinct r
    → find k r ≡ none
    → Distinct (r ++ ((k, q) ∷ []))
unfolding find
Distinct-append k q [] d e = (refl, tt)
Distinct-append k q ((i, p) ∷ ps) d e =
    ground (arith, Distinct-append k q ps d.1, find-append i k q ps)

pub length-replace : (k : ℕ) (q : Piece) (r : Requested) → length (replace k q r) ≡ length r
unfolding replace
length-replace k q [] = refl
length-replace k q ((i, p) ∷ ps) = ground (arith, length-replace k q ps)

pub length-erase : (k : ℕ) (r : Requested) → length (erase k r) ≤ length r
unfolding erase
length-erase k [] = omega arith
length-erase k ((i, p) ∷ ps) = ground (arith, length-erase k ps)

pub find-replaced :
    (k : ℕ) (p q : Piece) (r : Requested) → find k r ≡ some p → find k (replace k q r) ≡ some q
find-replaced k p q r e = ground (arith, find-replace k k q r, contains-find k r)
