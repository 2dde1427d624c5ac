-- ===== src/Stats/Eta.antt =====
-- The time left can be read back from its text.
use cpp_torrent.Base.{
  ℕ, ◌+◌, ◌-◌, ◌*◌, ◌/◌, ◌%◌, ◌^◌, ◌<◌, ◌≡◌, refl, ap, ◌∙◌, true, false, inl, inr, some, List, [],
  ◌∷◌, ◌++◌, append_assoc, ltb, ◌==◌, if◌then◌else◌, Bool-cases, All, arith, some_injective,
  size_mod, codes,
}
use cpp_torrent.Bencode.{pos, is_digit, digits, digits_from}
use cpp_torrent.Bencode.Decimal.{decimal, decimal-digits, digits-decimal}
use cpp_torrent.Stats.{Stats, Double, field, format_eta, get_eta, get_formatted_eta}

-- The seconds in a unit of time; any other character counts as none.
abbrev pub seconds_in : ℕ → ℕ
seconds_in c =
    if c == 100
    then 86400
    else if c == 104
    then 3600
    else if c == 109
    then 60
    else if c == 115
    then 1
    else 0

-- A reader of such texts: `number` is the numeral that it is in, `seconds` what came before.
unfoldable pub read_from : ℕ → ℕ → List ℕ → ℕ
read_from number seconds [] = seconds
read_from number seconds (c ∷ cs) =
    if is_digit c
    then read_from (number * 10 + (c - 48)) seconds cs
    else read_from 0 (seconds + number * seconds_in c) cs

abbrev pub read_eta : List ℕ → ℕ
read_eta text = read_from 0 0 text

-- Digits are taken up like the decoder takes them.
read_from-digits :
    (number seconds n : ℕ) (xs rest : List ℕ)
    → All (λ c. is_digit c ≡ true) xs
    → digits_from number xs ≡ some n
    → read_from number seconds (xs ++ rest) ≡ read_from n seconds rest
unfolding read_from digits_from
read_from-digits number seconds n [] rest a h =
    ap (λ k. read_from k seconds rest) (some_injective h)
read_from-digits number seconds n (c ∷ cs) rest (digit, a) h =
    rw digit (read_from-digits (number * 10 + (c - 48)) seconds n cs rest a (rw digit at h))

digits-digits_from : (xs : List ℕ) (n : ℕ) → digits xs ≡ some n → digits_from 0 xs ≡ some n
unfolding digits
digits-digits_from [] n h = cc
digits-digits_from (x ∷ xs) n h = h

-- A numeral and its unit.
read_from-unit :
    (seconds n unit : ℕ) (rest : List ℕ)
    → is_digit unit ≡ false
    → read_from 0 seconds (decimal n ++ (unit ∷ rest))
      ≡ read_from 0 (seconds + n * seconds_in unit) rest
unfolding read_from
read_from-unit seconds n unit rest h =
    read_from-digits 0 seconds n (decimal n) (unit ∷ rest) (decimal-digits n)
      (digits-digits_from (decimal n) n (digits-decimal n))
    ∙ rw h refl

-- The field of a unit that is followed by a colon.
read_from-field :
    (seconds n unit : ℕ) (rest : List ℕ)
    → is_digit unit ≡ false
    → read_from 0 seconds (field n (unit ∷ codes ":") ++ rest)
      ≡ read_from 0 (seconds + n * seconds_in unit) rest
read_from-field seconds n unit rest h = elim (Bool-cases (ltb 0 n)) [
  | inr none_ ↦
      let z : n ≡ 0 = ground arith in rw (none_, z) (ap (λ k. read_from 0 k rest) (omega arith))
  | inl some_ ↦ rw some_ (
      ap (read_from 0 seconds) (append_assoc (decimal n) (unit ∷ codes ":") rest)
      ∙ (read_from-unit seconds n unit (codes ":" ++ rest) h
          ∙ (unfold read_from in ap (λ k. read_from 0 k rest) (omega arith))))
]

-- The text of a time gives it back.
read_eta-format_eta : (n : ℕ) → read_eta (format_eta n) ≡ n
unfolding format_eta
read_eta-format_eta n =
    read_from-field 0 (n / 86400) 100 _ refl
    ∙ (read_from-field _ (n % 86400 / 3600) 104 _ refl
        ∙ (read_from-field _ (n % 3600 / 60) 109 _ refl
            ∙ (read_from-unit _ (n % 60) 115 [] refl ∙ (unfold read_from in omega arith))))

module _ {W : Type 0} (d : Double W) where
  -- If an estimate of `n` seconds is given, and it is not the largest number of seconds, which stands for no
  -- estimate at all, then its text, read unit by unit, says `n` seconds.
  pub read_eta-get_formatted_eta :
      (s : Stats) (now n : ℕ)
      → get_eta d s now ≡ pos n
      → n < 2 ^ 63 - 1
      → read_eta (get_formatted_eta d s now) ≡ n
  unfolding get_formatted_eta
  read_eta-get_formatted_eta s now n h l =
      let finite : (n == 2 ^ 63 - 1) ≡ false = ground arith in
      let same : n % size_mod ≡ n = omega arith in rw (h, finite, same) (read_eta-format_eta n)
