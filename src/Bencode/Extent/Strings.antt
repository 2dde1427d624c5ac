-- ===== src/Bencode/Extent/Strings.antt =====
-- How far a string reaches in the text that the decoder reads.
use cpp_torrent.Base.{
  ℕ, suc, ◌+◌, ◌-◌, ◌<◌, ◌≡◌, refl, sym, ap, ◌∙◌, ◌||◌, Option, none, some, List, [], ◌∷◌, arith,
  ltb, ◌==◌, length, drop, length-drop, Bool-cases, inl, inr,
}
use cpp_torrent.Net.Layout.{drop-add}
use cpp_torrent.Bencode.{
  ℤ, Item, start_off, elem_len, getline, digits, from_chars, Parsed, ok, error, out_of_fuel,
  made_string, string_of, parse_string, int_of, parse_int, char_e, char_colon, max_string_len,
}

-- `rest` is what is left of `text` behind at least one byte.
abbrev pub Behind : {A : Type 0} → List ℕ → Parsed A → Type 0
Behind text (ok a rest) = (k : ℕ) × (0 < k) × (k + length rest ≡ length text) × (rest ≡ drop k text)
Behind text error = Unit {0}
Behind text out_of_fuel = Unit {0}

-- The item starts at `start`, and its length is the number of bytes that were read.
abbrev pub ItemAt : ℕ → List ℕ → Parsed Item → Type 0
ItemAt start text (ok i rest) =
    (start_off i ≡ start)
    × (0 < elem_len i)
    × (elem_len i + length rest ≡ length text)
    × (rest ≡ drop (elem_len i) text)
ItemAt start text error = Unit {0}
ItemAt start text out_of_fuel = Unit {0}

abbrev LineOf : List ℕ → List ℕ → Option (List ℕ) → Type 0
LineOf text line none = Unit {0}
LineOf text line (some rest) =
    (suc (length line) + length rest ≡ length text) × (rest ≡ drop (suc (length line)) text)

getline-LineOf :
    (delim : ℕ) (text : List ℕ) → LineOf text (getline delim text).0 (getline delim text).1
unfolding getline
getline-LineOf delim [] = tt
getline-LineOf delim (c ∷ cs) = elim (Bool-cases (c == delim)) [
  | inl here ↦ rw here (omega arith, refl)
  | inr there ↦
      rw there (longer (getline delim cs).0 (getline delim cs).1 (getline-LineOf delim cs))
]
  where
    longer :
        (line : List ℕ) (rest : Option (List ℕ))
        → LineOf cs line rest
        → LineOf (c ∷ cs) (c ∷ line) rest
    longer line none l = tt
    longer line (some rest) (n, e) = (omega arith, e)

made_string-At :
    (start k n : ℕ) (text rest : List ℕ)
    → 0 < k
    → k + length rest ≡ length text
    → rest ≡ drop k text
    → ItemAt start text (made_string start (length text) n rest)
unfolding made_string
made_string-At start k n text rest p len e =
    elim (Bool-cases (ltb max_string_len n || ltb (length rest) n)) [
      | inl bad ↦ rw bad tt
      | inr good ↦
          let size : length text - (length rest - n) ≡ k + n = ground arith in
          rw (good, size)
            (
              refl,
              omega arith,
              ground (arith, length-drop n rest),
              ap (drop n) e ∙ sym (drop-add k n text),
            )
    ]

pub parse_string-At : (start : ℕ) (text : List ℕ) → ItemAt start text (parse_string start text)
unfolding parse_string
parse_string-At start text =
    made (digits (getline char_colon text).0) (getline char_colon text).0
      (getline char_colon text).1 (getline-LineOf char_colon text)
  where
    made :
        (n : Option ℕ) (line : List ℕ) (rest : Option (List ℕ))
        → LineOf text line rest
        → ItemAt start text (string_of start (length text) n rest)
    made (some n) line (some rest) (len, e) =
        made_string-At start (suc (length line)) n text rest (omega arith) len e
    made none line rest l = tt
    made (some n) line none l = tt

pub parse_int-At : (start c : ℕ) (text : List ℕ) → ItemAt start (c ∷ text) (parse_int start text)
unfolding parse_int
parse_int-At start c text =
    made (from_chars (getline char_e text).0) (getline char_e text).0 (getline char_e text).1
      (getline-LineOf char_e text)
  where
    made :
        (z : Option ℤ) (line : List ℕ) (rest : Option (List ℕ))
        → LineOf text line rest
        → ItemAt start (c ∷ text) (int_of start (suc (length text)) z rest)
    made (some z) line (some rest) (len, e) =
        let size : suc (length text) - length rest ≡ suc (suc (length line)) = omega arith in
        rw size (refl, omega arith, omega arith, e)
    made none line rest l = tt
    made (some z) line none l = tt
