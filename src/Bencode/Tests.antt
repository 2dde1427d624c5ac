-- ===== src/Bencode/Tests.antt =====
-- Texts that decode, and texts that do not.
use cpp_torrent.Base.{ℕ, ◌+◌, ◌<◌, ◌≡◌, refl, true, List, [], ◌∷◌, arith, length, drop}
use cpp_torrent.Bencode.Extent.{parse-ItemAt}
use cpp_torrent.Bencode.Fuel.{finished, b_decode-finished}
use cpp_torrent.Bencode.Dict.{find}
use cpp_torrent.Bencode.Decimal.{decimal, decimal_of}
use cpp_torrent.Bencode.Encode.{encode, place}
use cpp_torrent.Bencode.RoundTrip.{b_decode-encode}
use cpp_torrent.Bencode.{
  Item, int_item, string_item, list_item, no_items, item, pos, negsuc, ok, error, b_decode, parse,
  start_off, elem_len, dict_item, entry, no_entries,
}

-- `i-12e`
negative_number : b_decode 20 (105 ∷ 45 ∷ 49 ∷ 50 ∷ 101 ∷ []) ≡ ok (int_item 0 5 (negsuc 11)) []
unfolding b_decode
negative_number = refl

-- `l1:ai7ee`
list_of_two :
    b_decode 20 (108 ∷ 49 ∷ 58 ∷ 97 ∷ 105 ∷ 55 ∷ 101 ∷ 101 ∷ [])
    ≡ ok
        (list_item 0 8 (item (string_item 1 3 (97 ∷ [])) (item (int_item 4 3 (pos 7)) no_items)))
        []
unfolding b_decode
list_of_two = refl

-- `2:a`
too_short : b_decode 20 (50 ∷ 58 ∷ 97 ∷ []) ≡ error
unfolding b_decode
too_short = refl

-- `l1:ai7ee`
abbrev list_text : List ℕ
list_text = 108 ∷ 49 ∷ 58 ∷ 97 ∷ 105 ∷ 55 ∷ 101 ∷ 101 ∷ []

b_decode-finished_example : finished (b_decode 17 list_text) ≡ true
b_decode-finished_example = b_decode-finished 17 list_text (omega arith)

-- `1:a` with a byte behind it, and what is behind it.
abbrev string_text : List ℕ
string_text = 49 ∷ 58 ∷ 97 ∷ 101 ∷ []

abbrev behind_string : List ℕ
behind_string = 101 ∷ []

abbrev decoded : Item
decoded = string_item 40 3 (97 ∷ [])

decoded_run : parse 3 40 string_text ≡ ok decoded behind_string
unfolding parse
decoded_run = refl

parse-ItemAt_example :
    (start_off decoded ≡ 40)
    × (0 < elem_len decoded)
    × (elem_len decoded + length behind_string ≡ length string_text)
    × (behind_string ≡ drop (elem_len decoded) string_text)
parse-ItemAt_example = parse-ItemAt 3 40 string_text decoded_run

-- `d1:ai5ee`, with offsets that the format does not see.
abbrev one_entry : Item
one_entry = dict_item 0 0 (entry (97 ∷ []) (int_item 0 0 (pos 5)) no_entries)

b_decode-encode_example : b_decode 20 (encode one_entry) ≡ ok (place 0 one_entry) []
b_decode-encode_example =
    b_decode-encode one_entry 20 (unfold find in (omega arith, refl, omega arith, tt))
      (unfold encode decimal decimal_of in omega arith)
