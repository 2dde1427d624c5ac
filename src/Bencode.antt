-- ===== src/Bencode.antt =====
-- src/Bencode.hpp and src/Bencode.cpp: the decoder of bencoded text. A stream is the bytes that are left
-- and the position of the first of them; an exception is `error`. The decoder calls itself through its
-- loops, so the three of them are one function on fuel, told apart by `Mode`. The unordered map of a
-- dictionary is the list of its entries in the order of their keys in the text.
pub mod Dict
pub mod Extent
pub mod Fuel
pub mod Decimal
pub mod Encode
pub mod RoundTrip
pub mod Parts
mod Tests
use cpp_torrent.Base.{
  ℕ, zero, suc, ◌+◌, ◌-◌, ◌*◌, ◌^◌, Bool, true, false, ◌&&◌, ◌||◌, not, Option, none, some, List,
  [], ◌∷◌, ◌++◌, ltb, leb, ◌==◌, if◌then◌else◌, length, take, drop,
}
use cpp_torrent.Message.{bytes_equal}

-- `intmax_t`; `negsuc n` is -(n + 1).
pub data ℤ : Type 0 where
  pos : ℕ → ℤ
  negsuc : ℕ → ℤ

-- The characters that the decoder looks at.
abbrev pub char_i : ℕ
char_i = 105

abbrev pub char_l : ℕ
char_l = 108

abbrev pub char_d : ℕ
char_d = 100

abbrev pub char_e : ℕ
char_e = 101

abbrev pub char_minus : ℕ
char_minus = 45

abbrev pub char_colon : ℕ
char_colon = 58

abbrev pub max_string_len : ℕ
max_string_len = 134217728

mutual
  -- Each item with its start offset and its length in the text.
  pub data Item : Type 0 where
    int_item : ℕ → ℕ → ℤ → Item
    string_item : ℕ → ℕ → List ℕ → Item
    list_item : ℕ → ℕ → Items → Item
    dict_item : ℕ → ℕ → Entries → Item

  pub data Items : Type 0 where
    no_items : Items
    item : Item → Items → Items

  pub data Entries : Type 0 where
    no_entries : Entries
    entry : List ℕ → Item → Entries → Entries

abbrev pub start_off : Item → ℕ
start_off (int_item s n v) = s
start_off (string_item s n v) = s
start_off (list_item s n v) = s
start_off (dict_item s n v) = s

abbrev pub elem_len : Item → ℕ
elem_len (int_item s n v) = n
elem_len (string_item s n v) = n
elem_len (list_item s n v) = n
elem_len (dict_item s n v) = n

abbrev pub is_digit : ℕ → Bool
is_digit c = leb 48 c && leb c 57

-- `std::getline`: what stands before the delimiter, and behind it if it is there.
unfoldable pub getline : ℕ → List ℕ → List ℕ × Option (List ℕ)
getline delim [] = ([], none)
getline delim (c ∷ cs) =
    let (line, rest) = getline delim cs in if c == delim then ([], some cs) else (c ∷ line, rest)

-- The value of decimal digits, `acc` being that of those before; `none` if another character comes.
unfoldable pub digits_from : ℕ → List ℕ → Option ℕ
digits_from acc [] = some acc
digits_from acc (c ∷ cs) =
    let rest = digits_from (acc * 10 + (c - 48)) cs in if is_digit c then rest else none

unfoldable pub digits : List ℕ → Option ℕ
unfolding digits_from
digits [] = none
digits (c ∷ cs) = digits_from 0 (c ∷ cs)

negative : ℕ → ℤ
negative zero = pos 0
negative (suc n) = negsuc n

negative_in_range : Option ℕ → Option ℤ
unfolding negative
negative_in_range none = none
negative_in_range (some n) = if leb n (2 ^ 63) then some (negative n) else none

in_range : Option ℕ → Option ℤ
in_range none = none
in_range (some n) = if ltb n (2 ^ 63) then some (pos n) else none

-- `std::from_chars` on the whole string.
unfoldable pub from_chars : List ℕ → Option ℤ
unfolding digits negative_in_range in_range
from_chars [] = none
from_chars (c ∷ cs) =
    if c == char_minus then negative_in_range (digits cs) else in_range (digits (c ∷ cs))

-- What a call gives: a result with the bytes that are left, an exception, or no result for want of fuel.
pub data Parsed (A : Type 0) : Type 0 where
  ok : A → List ℕ → Parsed A
  error : Parsed A
  out_of_fuel : Parsed A

-- The item that starts at `start`, when `left` of the `size` bytes are left.
made_string : ℕ → ℕ → ℕ → List ℕ → Parsed Item
made_string start size n rest =
    if ltb max_string_len n || ltb (length rest) n
    then error
    else ok (string_item start (size - (length rest - n)) (take n rest)) (drop n rest)

string_of : ℕ → ℕ → Option ℕ → Option (List ℕ) → Parsed Item
unfolding made_string
string_of start size (some n) (some rest) = made_string start size n rest
string_of start size none rest = error
string_of start size (some n) none = error

-- `parse_string` on the text from the first digit on.
unfoldable pub parse_string : ℕ → List ℕ → Parsed Item
unfolding getline digits string_of
parse_string start text =
    let (line, rest) = getline char_colon text in string_of start (length text) (digits line) rest

int_of : ℕ → ℕ → Option ℤ → Option (List ℕ) → Parsed Item
int_of start size (some z) (some rest) = ok (int_item start (size - length rest) z) rest
int_of start size none rest = error
int_of start size (some z) none = error

-- `parse_int` on the text behind the `i`.
unfoldable pub parse_int : ℕ → List ℕ → Parsed Item
unfolding getline from_chars int_of
parse_int start text =
    let (line, rest) = getline char_e text in
    int_of start (suc (length text)) (from_chars line) rest

abbrev pub bind : {A B : Type 0} → Parsed A → (A → List ℕ → Parsed B) → Parsed B
bind (ok a rest) k = k a rest
bind error k = error
bind out_of_fuel k = out_of_fuel

-- `std::get<BencodeString>` on a key.
abbrev key_of : Item → (List ℕ → Parsed Entries) → Parsed Entries
key_of (string_item s n key) k = k key
key_of (int_item s n v) k = error
key_of (list_item s n v) k = error
key_of (dict_item s n v) k = error

-- The entries with other keys: `insert` keeps the first entry of a key.
unfoldable pub without : List ℕ → Entries → Entries
without key no_entries = no_entries
without key (entry k i es) =
    if bytes_equal k key then without key es else entry k i (without key es)

-- `parse` on the text at `start`, with the loops of `parse_list` and `parse_dict` behind their first
-- letters.
unfoldable mutual
  unfolding parse_string parse_int without

  pub parse : ℕ → ℕ → List ℕ → Parsed Item
  parse zero start text = out_of_fuel
  parse (suc fuel) start [] = error
  parse (suc fuel) start (c ∷ cs) =
      let as_list =
        bind (list_loop fuel (suc start) cs)
          (λ is rest. ok (list_item start (suc (length cs) - length rest) is) rest) in
      let as_dict =
        bind (dict_loop fuel (suc start) cs)
          (λ es rest. ok (dict_item start (suc (length cs) - length rest) es) rest) in
      if c == char_i
      then parse_int start cs
      else if c == char_l
      then as_list
      else if c == char_d
      then as_dict
      else if is_digit c
      then parse_string start (c ∷ cs)
      else error

  pub list_loop : ℕ → ℕ → List ℕ → Parsed Items
  list_loop zero start text = out_of_fuel
  list_loop (suc fuel) start [] = error
  list_loop (suc fuel) start (c ∷ cs) =
      let rest = bind (parse fuel start (c ∷ cs)) (λ i left.
        bind (list_loop fuel (start + (suc (length cs) - length left)) left)
          (λ is end. ok (item i is) end)) in
      if c == char_e then ok no_items cs else rest

  pub dict_loop : ℕ → ℕ → List ℕ → Parsed Entries
  dict_loop zero start text = out_of_fuel
  dict_loop (suc fuel) start [] = error
  dict_loop (suc fuel) start (c ∷ cs) =
      let rest = bind (parse fuel start (c ∷ cs)) (λ k left. key_of k (λ key.
        bind (parse fuel (start + (suc (length cs) - length left)) left) (λ i behind.
          bind (dict_loop fuel (start + (suc (length cs) - length behind)) behind)
            (λ es end. ok (entry key i (without key es)) end)))) in
      if c == char_e then ok no_entries cs else rest

-- `BDecode`: nothing may be left behind the item.
unfoldable pub b_decode : ℕ → List ℕ → Parsed Item
unfolding parse
b_decode fuel input =
    bind (parse fuel 0 input) (λ i rest. if length rest == 0 then ok i rest else error)
