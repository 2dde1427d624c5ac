-- ===== src/Base/Lists.antt =====
-- Vectors as lists with native indices, under the library's names.
use Prim.Native.Nat.{ℕ, zero, suc, ◌+◌, ◌-◌, ◌≤◌, ◌<◌, min}
use mathlib.Core.Path.{◌≡◌, refl, ap, sym, ◌∙◌}
use mathlib.Core.Logic.{◌≢◌}
use mathlib.Core.List.{List, [], ◌∷◌, ◌++◌, append_assoc}
use native.Mathlib.Omega.{arith}
use cpp_torrent.Base.Tests.{◌==◌, if◌then◌else◌}

module _ {ℓ} {A : Type ℓ} where
  abbrev pub length : List A → ℕ
  length [] = 0
  length (_ ∷ xs) = suc (length xs)

  abbrev pub get_or : List A → ℕ → A → A
  get_or [] _ d = d
  get_or (x ∷ _) zero _ = x
  get_or (_ ∷ xs) (suc i) d = get_or xs i d

  -- A write out of bounds changes nothing.
  abbrev pub set : List A → ℕ → A → List A
  set [] _ _ = []
  set (_ ∷ xs) zero v = v ∷ xs
  set (x ∷ xs) (suc i) v = x ∷ set xs i v

  abbrev pub take : ℕ → List A → List A
  take zero _ = []
  take (suc n) [] = []
  take (suc n) (x ∷ xs) = x ∷ take n xs

  abbrev pub drop : ℕ → List A → List A
  drop zero xs = xs
  drop (suc n) [] = []
  drop (suc n) (_ ∷ xs) = drop n xs

  abbrev pub replicate : ℕ → A → List A
  replicate zero _ = []
  replicate (suc n) a = a ∷ replicate n a

  pub length-append : (xs ys : List A) → length (xs ++ ys) ≡ length xs + length ys
  length-append [] ys = omega arith
  length-append (x ∷ xs) ys = omega (arith, length-append xs ys)

  pub length-set : (xs : List A) (i : ℕ) (v : A) → length (set xs i v) ≡ length xs
  length-set [] i v = refl
  length-set (x ∷ xs) zero v = refl
  length-set (x ∷ xs) (suc i) v = ap suc (length-set xs i v)

  pub get_or-set_self :
      (xs : List A) (i : ℕ) (v d : A) → i < length xs → get_or (set xs i v) i d ≡ v
  get_or-set_self [] i v d h = absurd (omega arith)
  get_or-set_self (x ∷ xs) zero v d h = refl
  get_or-set_self (x ∷ xs) (suc i) v d h = get_or-set_self xs i v d (omega arith)

  pub get_or-set_ne :
      (xs : List A) (i j : ℕ) (v d : A) → i ≢ j → get_or (set xs i v) j d ≡ get_or xs j d
  get_or-set_ne [] i j v d h = refl
  get_or-set_ne (x ∷ xs) zero zero v d h = absurd (h refl)
  get_or-set_ne (x ∷ xs) zero (suc j) v d h = refl
  get_or-set_ne (x ∷ xs) (suc i) zero v d h = refl
  get_or-set_ne (x ∷ xs) (suc i) (suc j) v d h = get_or-set_ne xs i j v d (λ e. h (ap suc e))

  -- A read after a write.
  pub get_or-set :
      (xs : List A) (i j : ℕ) (v d : A)
      → i < length xs
      → get_or (set xs i v) j d ≡ (if j == i then v else get_or xs j d)
  get_or-set [] i j v d h = absurd (omega arith)
  get_or-set (x ∷ xs) zero zero v d h = refl
  get_or-set (x ∷ xs) zero (suc j) v d h = ground arith
  get_or-set (x ∷ xs) (suc i) zero v d h = ground arith
  get_or-set (x ∷ xs) (suc i) (suc j) v d h = ground (arith, get_or-set xs i j v d)

  pub take-append-drop : (n : ℕ) (xs : List A) → take n xs ++ drop n xs ≡ xs
  take-append-drop zero xs = refl
  take-append-drop (suc n) [] = refl
  take-append-drop (suc n) (x ∷ xs) = ap (λ l. x ∷ l) (take-append-drop n xs)

  pub length-take : (n : ℕ) (xs : List A) → length (take n xs) ≡ min n (length xs)
  length-take zero xs = omega arith
  length-take (suc n) [] = omega arith
  length-take (suc n) (x ∷ xs) = omega (arith, length-take n xs)

  pub length-drop : (n : ℕ) (xs : List A) → length (drop n xs) ≡ length xs - n
  length-drop zero xs = omega arith
  length-drop (suc n) [] = omega arith
  length-drop (suc n) (x ∷ xs) = omega (arith, length-drop n xs)

  pub length-replicate : (n : ℕ) (a : A) → length (replicate n a) ≡ n
  length-replicate zero a = refl
  length-replicate (suc n) a = ap suc (length-replicate n a)

  pub get_or-replicate : (n i : ℕ) (a : A) → get_or (replicate n a) i a ≡ a
  get_or-replicate zero i a = refl
  get_or-replicate (suc n) zero a = refl
  get_or-replicate (suc n) (suc i) a = get_or-replicate n i a

  -- The front of a list read back, whatever follows it.
  pub take-append : (xs ys : List A) (n : ℕ) → length xs ≡ n → take n (xs ++ ys) ≡ xs
  take-append [] ys zero h = refl
  take-append [] ys (suc n) h = absurd (omega arith)
  take-append (x ∷ xs) ys zero h = absurd (omega arith)
  take-append (x ∷ xs) ys (suc n) h = ap (λ l. x ∷ l) (take-append xs ys n (omega arith))

  pub drop-append : (xs ys : List A) (n : ℕ) → length xs ≡ n → drop n (xs ++ ys) ≡ ys
  drop-append [] ys zero h = refl
  drop-append [] ys (suc n) h = absurd (omega arith)
  drop-append (x ∷ xs) ys zero h = absurd (omega arith)
  drop-append (x ∷ xs) ys (suc n) h = drop-append xs ys n (omega arith)

  pub drop-eq-nil : (n : ℕ) (xs : List A) → length xs ≤ n → drop n xs ≡ []
  drop-eq-nil zero [] h = refl
  drop-eq-nil zero (x ∷ xs) h = absurd (omega arith)
  drop-eq-nil (suc n) [] h = refl
  drop-eq-nil (suc n) (x ∷ xs) h = drop-eq-nil n xs (omega arith)

  -- What a predicate says of every element.
  abbrev pub All {κ} : (A → Type κ) → List A → Type κ
  All P [] = Unit
  All P (x ∷ xs) = P x × All P xs

-- `std::ranges::copy(block, begin(v | drop(off)))`, for a block that fits.
unfoldable pub splice {ℓ} : {A : Type ℓ} → List A → ℕ → List A → List A
splice v off block = take off v ++ (block ++ drop (off + length block) v)

module _ {ℓ} {A : Type ℓ} where
  pub length-splice :
      (v : List A) (off : ℕ) (block : List A)
      → off + length block ≤ length v
      → length (splice v off block) ≡ length v
  unfolding splice
  length-splice v off block h = omega (
    arith,
    length-append (take off v) (block ++ drop (off + length block) v),
    length-append block (drop (off + length block) v),
    length-take off v,
    length-drop (off + length block) v,
  )

  -- The copied block stands at its offset.
  pub take-drop-splice :
      (v : List A) (off : ℕ) (block : List A)
      → off + length block ≤ length v
      → take (length block) (drop off (splice v off block)) ≡ block
  unfolding splice
  take-drop-splice v off block h =
      rw
        (drop-append (take off v) (block ++ drop (off + length block) v) off
          (omega (arith, length-take off v)))
        (take-append block (drop (off + length block) v) (length block) refl)

  pub take-splice :
      (v : List A) (off : ℕ) (block : List A)
      → off + length block ≤ length v
      → take off (splice v off block) ≡ take off v
  unfolding splice
  take-splice v off block h =
      take-append (take off v) (block ++ drop (off + length block) v) off
        (omega (arith, length-take off v))

  pub drop-splice :
      (v : List A) (off : ℕ) (block : List A)
      → off + length block ≤ length v
      → drop (off + length block) (splice v off block) ≡ drop (off + length block) v
  unfolding splice
  drop-splice v off block h =
      let rest = drop (off + length block) v in
      rw (← append_assoc (take off v) block rest) (
        drop-append (take off v ++ block) rest (off + length block)
          (omega (arith, length-take off v, length-append (take off v) block)))

  -- Nothing is copied to anywhere.
  pub splice-nil : (v : List A) (off : ℕ) → splice v off [] ≡ v
  unfolding splice
  splice-nil v off = ap (λ n. take off v ++ drop n v) (omega arith) ∙ halves v off
    where
      halves : (xs : List A) (n : ℕ) → take n xs ++ drop n xs ≡ xs
      halves xs zero = refl
      halves [] (suc n) = refl
      halves (x ∷ xs) (suc n) = ap (λ l. x ∷ l) (halves xs n)

  -- A write in range is a copy of one element.
  pub set-eq-splice :
      (xs : List A) (n : ℕ) (v : A) → n < length xs → set xs n v ≡ splice xs n (v ∷ [])
  unfolding splice
  set-eq-splice [] n v h = absurd (omega arith)
  set-eq-splice (x ∷ xs) zero v h = refl
  set-eq-splice (x ∷ xs) (suc n) v h =
      let e : suc n + 1 ≡ suc (n + 1) = omega arith in
      ap (λ l. x ∷ l) (set-eq-splice xs n v (omega arith))
      ∙ ap (λ k. x ∷ (take n xs ++ (v ∷ drop k (x ∷ xs)))) (sym e)
