-- ===== src/Bencode/Extent.antt =====
-- Each item of the result knows where it stands in the text: its bytes are those that were read.
pub mod Strings
use cpp_torrent.Base.{
  ℕ, zero, suc, ◌+◌, ◌-◌, ◌<◌, ◌≡◌, refl, sym, ap, subst, ◌∙◌, ◌||◌, Option, none, some, List, [],
  ◌∷◌, arith, ltb, ◌==◌, length, drop, length-drop, Bool-cases, inl, inr,
}
use cpp_torrent.Net.Layout.{drop-add}
use cpp_torrent.Bencode.{
  ℤ, Item, Items, Entries, int_item, string_item, list_item, dict_item, item, entry, no_items,
  start_off, elem_len, getline, digits, from_chars, Parsed, ok, error, out_of_fuel, made_string,
  string_of, parse_string, int_of, parse_int, bind, key_of, without, parse, list_loop, dict_loop,
  is_digit, char_i, char_l, char_d, char_e, char_colon, max_string_len,
}
use cpp_torrent.Bencode.Extent.Strings.{Behind, ItemAt, parse_string-At, parse_int-At}

-- The item that a loop makes, `k` bytes behind its first letter.
made_loop :
    (c : ℕ) (cs rest : List ℕ) (k : ℕ)
    → k + length rest ≡ length cs
    → rest ≡ drop k cs
    → (0 < suc (length cs) - length rest)
      × (suc (length cs) - length rest + length rest ≡ length (c ∷ cs))
      × (rest ≡ drop (suc (length cs) - length rest) (c ∷ cs))
made_loop c cs rest k len e =
    let size : suc (length cs) - length rest ≡ suc k = omega arith in
    rw size (omega arith, omega arith, e)

list-At :
    (start c : ℕ) (cs : List ℕ) (r : Parsed Items)
    → Behind cs r
    → ItemAt start
        (c ∷ cs)
        (bind r (λ is rest. ok (list_item start (suc (length cs) - length rest) is) rest))
list-At start c cs (ok is rest) (k, p, len, e) =
    let (a, b, d) = made_loop c cs rest k len e in (refl, a, b, d)
list-At start c cs error b = tt
list-At start c cs out_of_fuel b = tt

dict-At :
    (start c : ℕ) (cs : List ℕ) (r : Parsed Entries)
    → Behind cs r
    → ItemAt start
        (c ∷ cs)
        (bind r (λ es rest. ok (dict_item start (suc (length cs) - length rest) es) rest))
dict-At start c cs (ok es rest) (k, p, len, e) =
    let (a, b, d) = made_loop c cs rest k len e in (refl, a, b, d)
dict-At start c cs error b = tt
dict-At start c cs out_of_fuel b = tt

-- What is behind the rest is behind the text.
further :
    {A B : Type 0} (text left : List ℕ) (k : ℕ) (r : Parsed A) (f : A → B)
    → k + length left ≡ length text
    → left ≡ drop k text
    → Behind left r
    → Behind text (bind r (λ a end. ok (f a) end))
further text left k (ok a rest) f len e (j, p, n, d) =
    (k + j, omega arith, omega arith, d ∙ (ap (drop j) e ∙ sym (drop-add k j text)))
further text left k error f len e b = tt
further text left k out_of_fuel f len e b = tt

list_step :
    (start : ℕ) (text : List ℕ) (r : Parsed Item) (loop : List ℕ → Parsed Items)
    → ItemAt start text r
    → ((left : List ℕ) → Behind left (loop left))
    → Behind text (bind r (λ i left. bind (loop left) (λ is end. ok (item i is) end)))
list_step start text (ok i left) loop (s, p, len, e) go =
    further text left (elem_len i) (loop left) (item i) len e (go left)
list_step start text error loop a go = tt
list_step start text out_of_fuel loop a go = tt

value_step :
    (start : ℕ) (text left key : List ℕ) (k : ℕ) (r : Parsed Item) (loop : List ℕ → Parsed Entries)
    → k + length left ≡ length text
    → left ≡ drop k text
    → ItemAt start left r
    → ((behind : List ℕ) → Behind behind (loop behind))
    → Behind text
        (bind r (λ i behind. bind (loop behind) (λ es end. ok (entry key i (without key es)) end)))
value_step start text left key k (ok i behind) loop len e (s, p, n, d) go =
    further text behind (k + elem_len i) (loop behind) (λ es. entry key i (without key es))
      (omega arith) (d ∙ (ap (drop (elem_len i)) e ∙ sym (drop-add k (elem_len i) text)))
      (go behind)
value_step start text left key k error loop len e a go = tt
value_step start text left key k out_of_fuel loop len e a go = tt

abbrev pub AllAt : ℕ → Type 0
AllAt fuel =
    ((start : ℕ) (text : List ℕ) → ItemAt start text (parse fuel start text))
    × ((start : ℕ) (text : List ℕ) → Behind text (list_loop fuel start text))
    × ((start : ℕ) (text : List ℕ) → Behind text (dict_loop fuel start text))

parse_step :
    (fuel : ℕ)
    → AllAt fuel
    → (start : ℕ) (text : List ℕ) → ItemAt start text (parse (suc fuel) start text)
unfolding parse
parse_step fuel (p, l, d) start [] = tt
parse_step fuel (p, l, d) start (c ∷ cs) = elim (Bool-cases (c == char_i)) [
  | inl number ↦ rw number (parse_int-At start c cs)
  | inr not_i ↦ elim (Bool-cases (c == char_l)) [
    | inl list ↦
        rw (not_i, list) (list-At start c cs (list_loop fuel (suc start) cs) (l (suc start) cs))
    | inr not_l ↦ elim (Bool-cases (c == char_d)) [
      | inl dict ↦
          rw (not_i, not_l, dict)
            (dict-At start c cs (dict_loop fuel (suc start) cs) (d (suc start) cs))
      | inr not_d ↦ elim (Bool-cases (is_digit c)) [
        | inl digit ↦ rw (not_i, not_l, not_d, digit) (parse_string-At start (c ∷ cs))
        | inr bad ↦ rw (not_i, not_l, not_d, bad) tt
      ]
    ]
  ]
]

closed_list : (c : ℕ) (cs : List ℕ) → Behind (c ∷ cs) (ok no_items cs)
closed_list c cs = (1, omega arith, omega arith, refl)

loop_step :
    (fuel : ℕ)
    → AllAt fuel
    → (start : ℕ) (text : List ℕ) → Behind text (list_loop (suc fuel) start text)
unfolding parse
loop_step fuel (p, l, d) start [] = tt
loop_step fuel (p, l, d) start (c ∷ cs) = elim (Bool-cases (c == char_e)) [
  | inl end ↦ rw end (closed_list c cs)
  | inr more ↦ rw more (
      list_step start (c ∷ cs) (parse fuel start (c ∷ cs))
        (λ left. list_loop fuel (start + (suc (length cs) - length left)) left) (p start (c ∷ cs))
        (λ left. l (start + (suc (length cs) - length left)) left))
]

key_step :
    (start : ℕ) (text : List ℕ) (r : Parsed Item) (value : List ℕ → Parsed Item) (at : List ℕ → ℕ)
    (loop : List ℕ → Parsed Entries)
    → ItemAt start text r
    → ((left : List ℕ) → ItemAt (at left) left (value left))
    → ((behind : List ℕ) → Behind behind (loop behind))
    → Behind text (
        bind r (λ k left. key_of k (λ key.
          bind
            (value left)
            (λ i behind. bind (loop behind) (λ es end. ok (entry key i (without key es)) end)))))
key_step start text (ok (string_item s n key) left) value at loop (e, p, len, d) v go =
    value_step (at left) text left key n (value left) loop len d (v left) go
key_step start text (ok (int_item s n z) left) value at loop a v go = tt
key_step start text (ok (list_item s n z) left) value at loop a v go = tt
key_step start text (ok (dict_item s n z) left) value at loop a v go = tt
key_step start text error value at loop a v go = tt
key_step start text out_of_fuel value at loop a v go = tt

entry_step :
    (fuel : ℕ)
    → AllAt fuel
    → (start : ℕ) (text : List ℕ) → Behind text (dict_loop (suc fuel) start text)
unfolding parse
entry_step fuel (p, l, d) start [] = tt
entry_step fuel (p, l, d) start (c ∷ cs) = elim (Bool-cases (c == char_e)) [
  | inl end ↦ rw end (1, omega arith, omega arith, refl)
  | inr more ↦
      let at = λ (left : List ℕ). start + (suc (length cs) - length left) in
      rw more (
        key_step start (c ∷ cs) (parse fuel start (c ∷ cs)) (λ left. parse fuel (at left) left) at
          (λ behind. dict_loop fuel (at behind) behind) (p start (c ∷ cs))
          (λ left. p (at left) left) (λ behind. d (at behind) behind))
]

pub all-At : (fuel : ℕ) → AllAt fuel
unfolding parse
all-At zero = (λ start text. tt, λ start text. tt, λ start text. tt)
all-At (suc fuel) =
    let below = all-At fuel in (parse_step fuel below, loop_step fuel below, entry_step fuel below)

-- An item that is parsed from a text starts at the position that it says, and its length is the number
-- of bytes that were read, at least one: what is left is the text behind them.
pub parse-ItemAt :
    (fuel start : ℕ) (text : List ℕ) {i : Item} {rest : List ℕ}
    → parse fuel start text ≡ ok i rest
    → (start_off i ≡ start)
      × (0 < elem_len i)
      × (elem_len i + length rest ≡ length text)
      × (rest ≡ drop (elem_len i) text)
parse-ItemAt fuel start text {i} {rest} e = subst (ItemAt start text) e ((all-At fuel).0 start text)
