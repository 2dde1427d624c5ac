-- ===== src/Bencode/Decimal.antt =====
-- Decimal numerals, and that the decoder reads them back.
use cpp_torrent.Base.{
  length, length-append, ℕ, zero, suc, ◌+◌, ◌-◌, ◌*◌, ◌/◌, ◌%◌, ◌^◌, ◌<◌, ◌≤◌, ◌≡◌, refl, sym, ap,
  ◌∙◌, true, false, some, List, [], ◌∷◌, ◌++◌, arith, ltb, leb, ◌==◌, if◌then◌else◌, Bool-cases,
  none-ne-some, inl, inr, All, subst, ==_refl,
}
use cpp_torrent.Bencode.{
  ℤ, pos, negsuc, is_digit, digits_from, digits, from_chars, getline, char_minus, char_e,
}

-- The digits of a number, by at most `fuel` divisions.
decimal_from : ℕ → ℕ → List ℕ
decimal_from zero n = (48 + n % 10) ∷ []
decimal_from (suc fuel) n =
    let front = decimal_from fuel (n / 10) in
    if ltb n 10 then (48 + n) ∷ [] else front ++ ((48 + n % 10) ∷ [])

unfoldable pub decimal : ℕ → List ℕ
unfolding decimal_from
decimal n = decimal_from n n

abbrev pub IsDigit : ℕ → Type 0
IsDigit c = is_digit c ≡ true

abbrev pub IsInRange : ℤ → Type 0
IsInRange (pos n) = n < 2 ^ 63
IsInRange (negsuc n) = n < 2 ^ 63

unfoldable pub decimal_of : ℤ → List ℕ
decimal_of (pos n) = decimal n
decimal_of (negsuc n) = char_minus ∷ decimal (suc n)

pub All-append : (P : ℕ → Type 0) (xs ys : List ℕ) → All P xs → All P ys → All P (xs ++ ys)
All-append P [] ys a b = b
All-append P (x ∷ xs) ys (h, a) b = (h, All-append P xs ys a b)

decimal_from-digits : (fuel n : ℕ) → n ≤ fuel → All IsDigit (decimal_from fuel n)
unfolding decimal_from
decimal_from-digits zero n h = (ground arith, tt)
decimal_from-digits (suc fuel) n h = elim (Bool-cases (ltb n 10)) [
  | inl few ↦ rw few (ground arith, tt)
  | inr many ↦ rw many (
      All-append IsDigit (decimal_from fuel (n / 10)) ((48 + n % 10) ∷ [])
        (decimal_from-digits fuel (n / 10) (ground arith)) (ground arith, tt))
]

pub decimal-digits : (n : ℕ) → All IsDigit (decimal n)
unfolding decimal
decimal-digits n = decimal_from-digits n n (omega arith)

-- One more digit behind the others.
digits_from-append :
    (acc d m : ℕ) (xs : List ℕ)
    → d < 10
    → digits_from acc xs ≡ some m
    → digits_from acc (xs ++ ((48 + d) ∷ [])) ≡ some (m * 10 + d)
unfolding digits_from
digits_from-append acc d m [] l h = ground arith
digits_from-append acc d m (c ∷ cs) l h = elim (Bool-cases (is_digit c)) [
  | inl digit ↦ rw digit (digits_from-append (acc * 10 + (c - 48)) d m cs l (rw digit at h))
  | inr other ↦ absurd (none-ne-some (rw other at h))
]

digits_from-decimal : (fuel n : ℕ) → n ≤ fuel → digits_from 0 (decimal_from fuel n) ≡ some n
unfolding digits_from decimal_from
digits_from-decimal zero n h = ground arith
digits_from-decimal (suc fuel) n h = elim (Bool-cases (ltb n 10)) [
  | inl few ↦ rw few (ground arith)
  | inr many ↦
      let whole : n / 10 * 10 + n % 10 ≡ n = omega arith in
      rw many (
        digits_from-append 0 (n % 10) (n / 10) (decimal_from fuel (n / 10)) (omega arith)
          (digits_from-decimal fuel (n / 10) (ground arith))
        ∙ ap some whole)
]

decimal_from-cons : (fuel n : ℕ) → (c : ℕ) × (cs : List ℕ) × (decimal_from fuel n ≡ c ∷ cs)
unfolding decimal_from
decimal_from-cons zero n = (48 + n % 10, [], refl)
decimal_from-cons (suc fuel) n = elim (Bool-cases (ltb n 10)) [
  | inl few ↦ rw few (48 + n, [], refl)
  | inr many ↦
      let (c, cs, e) = decimal_from-cons fuel (n / 10) in
      rw many (c, cs ++ ((48 + n % 10) ∷ []), ap (λ l. l ++ ((48 + n % 10) ∷ [])) e)
]

-- A numeral starts with a digit.
pub decimal-cons : (n : ℕ) → (c : ℕ) × (cs : List ℕ) × (decimal n ≡ c ∷ cs)
unfolding decimal
decimal-cons n = decimal_from-cons n n

digits-cons : (xs : List ℕ) (c : ℕ) (cs : List ℕ) → xs ≡ c ∷ cs → digits xs ≡ digits_from 0 xs
unfolding digits
digits-cons [] c cs e = cc
digits-cons (x ∷ xs) c cs e = refl

pub digits-decimal : (n : ℕ) → digits (decimal n) ≡ some n
unfolding decimal
digits-decimal n =
    let (c, cs, e) = decimal-cons n in
    digits-cons (decimal n) c cs e ∙ digits_from-decimal n n (omega arith)

-- Every `intmax_t` is read back from its numeral.
pub from_chars-decimal_of : (z : ℤ) → IsInRange z → from_chars (decimal_of z) ≡ some z
unfolding from_chars decimal_of
from_chars-decimal_of (pos n) h =
    let (c, cs, e) = decimal-cons n in
    let digit : All IsDigit (c ∷ cs) = subst (All IsDigit) e (decimal-digits n) in
    let no_sign : (c == char_minus) ≡ false = ground (arith, digit.0) in
    let value : digits (c ∷ cs) ≡ some n = ap digits (sym e) ∙ digits-decimal n in
    let fits : ltb n (2 ^ 63) ≡ true = ground arith in rw (e, no_sign, value, fits) refl
from_chars-decimal_of (negsuc n) h =
    let fits : leb (suc n) (2 ^ 63) ≡ true = ground arith in rw (digits-decimal (suc n), fits) refl

-- A line without the delimiter is read up to it.
pub getline-append :
    (delim : ℕ) (xs rest : List ℕ)
    → All (λ c. (c == delim) ≡ false) xs
    → getline delim (xs ++ (delim ∷ rest)) ≡ (xs, some rest)
unfolding getline
getline-append delim [] rest a = rw (==_refl delim) refl
getline-append delim (x ∷ xs) rest (h, a) = rw (h, getline-append delim xs rest a) refl

All-map : (P Q : ℕ → Type 0) (xs : List ℕ) → ((c : ℕ) → P c → Q c) → All P xs → All Q xs
All-map P Q [] f a = tt
All-map P Q (x ∷ xs) f (h, a) = (f x h, All-map P Q xs f a)

pub decimal-lacks :
    (delim n : ℕ) → is_digit delim ≡ false → All (λ c. (c == delim) ≡ false) (decimal n)
decimal-lacks delim n h =
    All-map IsDigit (λ c. (c == delim) ≡ false) (decimal n) (λ c digit. ground arith)
      (decimal-digits n)

pub decimal_of-lacks_e : (z : ℤ) → All (λ c. (c == char_e) ≡ false) (decimal_of z)
unfolding decimal_of
decimal_of-lacks_e (pos n) = decimal-lacks char_e n refl
decimal_of-lacks_e (negsuc n) = (refl, decimal-lacks char_e (suc n) refl)

abbrev pub power10 : ℕ → ℕ
power10 zero = 1
power10 (suc k) = 10 * power10 k

power10_pos : (k : ℕ) → 0 < power10 k
power10_pos zero = omega arith
power10_pos (suc k) = omega (arith, power10_pos k)

length-decimal_from :
    (k fuel n : ℕ)
    → n ≤ fuel
    → power10 k ≤ n
    → n < power10 (suc k)
    → length (decimal_from fuel n) ≡ suc k
unfolding decimal_from
length-decimal_from zero zero n h lo hi = refl
length-decimal_from (suc k) zero n h lo hi = absurd (omega (arith, power10_pos k))
length-decimal_from zero (suc fuel) n h lo hi =
    let few : ltb n 10 ≡ true = ground arith in rw few refl
length-decimal_from (suc k) (suc fuel) n h lo hi =
    let many : ltb n 10 ≡ false = ground (arith, power10_pos k) in
    rw many (
      length-append (decimal_from fuel (n / 10)) ((48 + n % 10) ∷ [])
      ∙ omega
          (arith, length-decimal_from k fuel (n / 10) (omega arith) (omega arith) (omega arith)))

-- A number of `k + 1` digits.
pub length-decimal : (k n : ℕ) → power10 k ≤ n → n < power10 (suc k) → length (decimal n) ≡ suc k
unfolding decimal
length-decimal k n lo hi = length-decimal_from k n n (omega arith) lo hi
