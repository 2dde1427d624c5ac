-- ===== src/Bencode/Encode.antt =====
-- The format of bencoded text, as the protocol has it: each item as its bytes. The start offsets and the
-- lengths of the items do not matter to it; `place` gives those that the items have in the text.
use cpp_torrent.Base.{
  ℕ, suc, ◌+◌, ◌≤◌, ◌≡◌, refl, ap, false, none, some, List, [], ◌∷◌, ◌++◌, arith, ◌==◌, length,
  length-append, All, subst, Bool-cases, inl, inr,
}
use cpp_torrent.Message.{bytes_equal}
use cpp_torrent.Bencode.{
  Item, Items, Entries, int_item, string_item, list_item, dict_item, item, entry, no_items,
  no_entries, without, char_i, char_l, char_d, char_e, char_colon, max_string_len,
}
use cpp_torrent.Bencode.Dict.{find}
use cpp_torrent.Bencode.Decimal.{
  decimal, decimal_of, decimal-cons, decimal-digits, IsDigit, IsInRange,
}

unfoldable pub encode_string : List ℕ → List ℕ
encode_string s = decimal (length s) ++ (char_colon ∷ s)

unfoldable mutual
  unfolding encode_string

  pub encode : Item → List ℕ
  encode (int_item s n z) = char_i ∷ (decimal_of z ++ (char_e ∷ []))
  encode (string_item s n v) = encode_string v
  encode (list_item s n is) = char_l ∷ (encode_items is ++ (char_e ∷ []))
  encode (dict_item s n es) = char_d ∷ (encode_entries es ++ (char_e ∷ []))

  pub encode_items : Items → List ℕ
  encode_items no_items = []
  encode_items (item i is) = encode i ++ encode_items is

  pub encode_entries : Entries → List ℕ
  encode_entries no_entries = []
  encode_entries (entry k i es) = encode_string k ++ (encode i ++ encode_entries es)

unfoldable mutual
  unfolding encode

  pub place : ℕ → Item → Item
  place at (int_item s n z) = int_item at (length (encode (int_item s n z))) z
  place at (string_item s n v) = string_item at (length (encode (string_item s n v))) v
  place at (list_item s n is) =
      list_item at (length (encode (list_item s n is))) (place_items (suc at) is)
  place at (dict_item s n es) =
      dict_item at (length (encode (dict_item s n es))) (place_entries (suc at) es)

  pub place_items : ℕ → Items → Items
  place_items at no_items = no_items
  place_items at (item i is) = item (place at i) (place_items (at + length (encode i)) is)

  pub place_entries : ℕ → Entries → Entries
  place_entries at no_entries = no_entries
  place_entries at (entry k i es) =
      entry k (place (at + length (encode_string k)) i)
        (place_entries (at + length (encode_string k) + length (encode i)) es)

-- What the program's types can hold: integers of 64 bits, strings up to the maximum, distinct keys.
abbrev mutual
  pub IsWellFormed : Item → Type 0
  IsWellFormed (int_item s n z) = IsInRange z
  IsWellFormed (string_item s n v) = length v ≤ max_string_len
  IsWellFormed (list_item s n is) = AllWellFormed is
  IsWellFormed (dict_item s n es) = EntriesWellFormed es

  pub AllWellFormed : Items → Type 0
  AllWellFormed no_items = Unit {0}
  AllWellFormed (item i is) = IsWellFormed i × AllWellFormed is

  pub EntriesWellFormed : Entries → Type 0
  EntriesWellFormed no_entries = Unit {0}
  EntriesWellFormed (entry k i es) =
      (length k ≤ max_string_len) × (find k es ≡ none) × IsWellFormed i × EntriesWellFormed es

pub length-encode_string :
    (v : List ℕ) → length (encode_string v) ≡ length (decimal (length v)) + suc (length v)
unfolding encode_string
length-encode_string v = length-append (decimal (length v)) (char_colon ∷ v)

-- A string starts with a digit.
pub encode_string-cons :
    (v : List ℕ) → (c : ℕ) × (cs : List ℕ) × (encode_string v ≡ c ∷ cs) × ((c == char_e) ≡ false)
unfolding encode_string
encode_string-cons v =
    let (c, cs, e) = decimal-cons (length v) in
    let digit : All IsDigit (c ∷ cs) = subst (All IsDigit) e (decimal-digits (length v)) in
    (c, cs ++ (char_colon ∷ v), ap (λ l. l ++ (char_colon ∷ v)) e, ground (arith, digit.0))

-- An item starts with a byte that ends no list and no dictionary.
pub encode-cons :
    (i : Item) → (c : ℕ) × (cs : List ℕ) × (encode i ≡ c ∷ cs) × ((c == char_e) ≡ false)
unfolding encode
encode-cons (int_item s n z) = (char_i, decimal_of z ++ (char_e ∷ []), refl, refl)
encode-cons (list_item s n is) = (char_l, encode_items is ++ (char_e ∷ []), refl, refl)
encode-cons (dict_item s n es) = (char_d, encode_entries es ++ (char_e ∷ []), refl, refl)
encode-cons (string_item s n v) = encode_string-cons v

-- Without its key, nothing else of the entries is dropped.
pub without-place_entries :
    (key : List ℕ) (at : ℕ) (es : Entries)
    → find key es ≡ none
    → without key (place_entries at es) ≡ place_entries at es
unfolding without find place
without-place_entries key at no_entries h = refl
without-place_entries key at (entry k i es) h = elim (Bool-cases (bytes_equal k key)) [
  | inl same ↦ absurd (some-ne-none (rw same at h))
  | inr other ↦
      let here = at + length (encode_string k) in
      rw other (
        ap (entry k (place here i))
          (without-place_entries key (here + length (encode i)) es (rw other at h)))
]
  where
    some-ne-none : {A : Type 0} {a : A} → ¬ some a ≡ none
    some-ne-none e = cc
