-- ===== src/Base/Members.antt =====
-- Membership in a list, by recursion, and the elements of a vector's front.
use Prim.Native.Nat.{ℕ, zero, suc, ◌≤◌, ◌<◌}
use mathlib.Core.Path.{◌≡◌, refl, sym}
use mathlib.Core.Logic.{◌⊎◌, inl, inr}
use mathlib.Core.List.{List, [], ◌∷◌}
use native.Mathlib.Omega.{arith}
use cpp_torrent.Base.Lists.{length, get_or, take}

abbrev pub In : {A : Type 0} → A → List A → Type 0
In a [] = ⊥
In a (x ∷ xs) = (a ≡ x) ⊎ In a xs

module _ {A : Type 0} (d : A) where
  pub get_or-In : (xs : List A) (n j : ℕ) → j < n → n ≤ length xs → In (get_or xs j d) (take n xs)
  get_or-In xs zero j h l = absurd (omega arith)
  get_or-In [] (suc n) j h l = absurd (omega arith)
  get_or-In (x ∷ xs) (suc n) zero h l = inl refl
  get_or-In (x ∷ xs) (suc n) (suc j) h l = inr (get_or-In xs n j (omega arith) (omega arith))

  pub In-get_or :
      (a : A) (xs : List A) (n : ℕ)
      → In a (take n xs)
      → (j : ℕ) × (j < n) × (j < length xs) × (get_or xs j d ≡ a)
  In-get_or a xs zero h = absurd h
  In-get_or a [] (suc n) h = absurd h
  In-get_or a (x ∷ xs) (suc n) (inl e) = (0, omega arith, omega arith, sym e)
  In-get_or a (x ∷ xs) (suc n) (inr h) =
      let (j, l, m, e) = In-get_or a xs n h in (suc j, omega arith, omega arith, e)
