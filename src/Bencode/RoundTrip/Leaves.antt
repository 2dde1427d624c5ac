-- ===== src/Bencode/RoundTrip/Leaves.antt =====
-- Strings and integers are read back from their encodings.
use cpp_torrent.Base.{
  ℕ, zero, suc, ◌-◌, ◌<◌, ◌≤◌, ◌≡◌, refl, sym, ap, subst, ◌∙◌, false, ◌||◌, List, [], ◌∷◌, ◌++◌,
  append_assoc, arith, ltb, ◌==◌, length, length-append, take-append, drop-append, All,
}
use cpp_torrent.Bencode.{
  ℤ, int_item, string_item, ok, parse, char_i, char_l, char_d, char_e, char_colon, max_string_len,
  parse_int, parse_string, made_string,
}
use cpp_torrent.Bencode.Decimal.{
  decimal, decimal_of, decimal-cons, decimal-digits, digits-decimal, from_chars-decimal_of,
  getline-append, decimal-lacks, decimal_of-lacks_e, IsDigit, IsInRange,
}
use cpp_torrent.Bencode.Encode.{encode_string}

made_string-whole :
    (start size : ℕ) (v rest : List ℕ)
    → length v ≤ max_string_len
    → made_string start size (length v) (v ++ rest)
      ≡ ok (string_item start (size - length rest) v) rest
unfolding made_string
made_string-whole start size v rest h =
    let n = length v in
    let fits : (ltb max_string_len n || ltb (length (v ++ rest)) n) ≡ false =
      ground (arith, length-append v rest) in
    let left : length (v ++ rest) - n ≡ length rest = omega (arith, length-append v rest) in
    rw (fits, left, take-append v rest n refl, drop-append v rest n refl) refl

parse_string-encode :
    (start : ℕ) (v rest : List ℕ)
    → length v ≤ max_string_len
    → parse_string start (encode_string v ++ rest)
      ≡ ok (string_item start (length (encode_string v)) v) rest
unfolding parse_string encode_string
parse_string-encode start v rest h =
    let number = decimal (length v) in
    let text : (number ++ (char_colon ∷ v)) ++ rest ≡ number ++ (char_colon ∷ (v ++ rest)) =
      append_assoc number (char_colon ∷ v) rest in
    let line =
      getline-append char_colon number (v ++ rest) (decimal-lacks char_colon (length v) refl) in
    let size : length (number ++ (char_colon ∷ (v ++ rest))) - length rest
        ≡ length (number ++ (char_colon ∷ v)) =
      omega (
        arith,
        length-append number (char_colon ∷ (v ++ rest)),
        length-append v rest,
        length-append number (char_colon ∷ v),
      ) in
    rw (text, line, digits-decimal (length v))
      (made_string-whole start (length (number ++ (char_colon ∷ (v ++ rest)))) v rest h
        ∙ ap (λ k. ok (string_item start k v) rest) size)

parse-digit :
    (fuel start c : ℕ) (cs : List ℕ)
    → IsDigit c
    → parse (suc fuel) start (c ∷ cs) ≡ parse_string start (c ∷ cs)
unfolding parse
parse-digit fuel start c cs h =
    let not_i : (c == char_i) ≡ false = ground arith in
    let not_l : (c == char_l) ≡ false = ground arith in
    let not_d : (c == char_d) ≡ false = ground arith in rw (not_i, not_l, not_d, h) refl

pub parse-encode_string :
    (fuel start : ℕ) (v rest : List ℕ)
    → length v ≤ max_string_len
    → 0 < fuel
    → parse fuel start (encode_string v ++ rest)
      ≡ ok (string_item start (length (encode_string v)) v) rest
parse-encode_string zero start v rest h p = absurd (omega arith)
parse-encode_string (suc fuel) start v rest h p =
    let (c, cs, e) = decimal-cons (length v) in
    let digit : All IsDigit (c ∷ cs) = subst (All IsDigit) e (decimal-digits (length v)) in
    let text : encode_string v ++ rest ≡ c ∷ ((cs ++ (char_colon ∷ v)) ++ rest) =
      unfold encode_string in ap (λ l. (l ++ (char_colon ∷ v)) ++ rest) e in
    ap (parse (suc fuel) start) text
    ∙ (parse-digit fuel start c ((cs ++ (char_colon ∷ v)) ++ rest) digit.0
        ∙ (sym (ap (parse_string start) text) ∙ parse_string-encode start v rest h))

pub parse-encode_int :
    (fuel start : ℕ) (z : ℤ) (rest : List ℕ)
    → IsInRange z
    → parse (suc fuel) start (char_i ∷ ((decimal_of z ++ (char_e ∷ [])) ++ rest))
      ≡ ok (int_item start (length (char_i ∷ (decimal_of z ++ (char_e ∷ [])))) z) rest
unfolding parse parse_int
parse-encode_int fuel start z rest h =
    let number = decimal_of z in
    let text : (number ++ (char_e ∷ [])) ++ rest ≡ number ++ (char_e ∷ rest) =
      append_assoc number (char_e ∷ []) rest in
    let line = getline-append char_e number rest (decimal_of-lacks_e z) in
    let size : suc (length (number ++ (char_e ∷ rest))) - length rest
        ≡ suc (length (number ++ (char_e ∷ []))) =
      omega (arith, length-append number (char_e ∷ rest), length-append number (char_e ∷ [])) in
    rw (text, line, from_chars-decimal_of z h, size) refl
