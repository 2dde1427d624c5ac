-- ===== src/Bencode/Parts.antt =====
-- The values of a dictionary are what the decoder reads at the offsets that they carry.
use cpp_torrent.Base.{
  ℕ, zero, suc, ◌+◌, ◌-◌, ◌≡◌, refl, sym, ap, subst, ◌∙◌, Option, none, some, List, [], ◌∷◌, arith,
  ◌==◌, length, drop, Bool-cases, inl, inr, some_injective,
}
use cpp_torrent.Message.{bytes_equal}
use cpp_torrent.Net.Layout.{drop-add}
use cpp_torrent.Bencode.{
  ℤ, Item, Items, Entries, int_item, string_item, list_item, dict_item, entry, no_entries, elem_len,
  Parsed, ok, error, out_of_fuel, bind, key_of, without, parse, list_loop, dict_loop, is_digit,
  char_i, char_l, char_d, char_e, parse_int, parse_string, int_of, string_of, digits, from_chars,
  getline, char_colon,
}
use cpp_torrent.Bencode.Extent.{parse-ItemAt}
use cpp_torrent.Bencode.Dict.{find}

-- The decoder reads `i` in `text`, whose first byte stands at `start`, `n` bytes behind that.
abbrev pub ReadIn : ℕ → List ℕ → Item → Type 0
ReadIn start text i =
    (n : ℕ) × (fuel : ℕ) × (rest : List ℕ) × (parse fuel (start + n) (drop n text) ≡ ok i rest)

abbrev pub AllRead : ℕ → List ℕ → Entries → Type 0
AllRead start text no_entries = Unit {0}
AllRead start text (entry k i es) = ReadIn start text i × AllRead start text es

AllRead-without :
    (start : ℕ) (text key : List ℕ) (es : Entries)
    → AllRead start text es
    → AllRead start text (without key es)
unfolding without
AllRead-without start text key no_entries a = tt
AllRead-without start text key (entry k i es) (r, a) = elim (Bool-cases (bytes_equal k key)) [
  | inl same ↦ rw same (AllRead-without start text key es a)
  | inr other ↦ rw other (r, AllRead-without start text key es a)
]

ReadIn-drop :
    (start m : ℕ) (text : List ℕ) (i : Item)
    → ReadIn (start + m) (drop m text) i
    → ReadIn start text i
ReadIn-drop start m text i (n, fuel, rest, e) =
    let at : start + m + n ≡ start + (m + n) = omega arith in
    (
      m + n,
      fuel,
      rest,
      subst (λ k. parse fuel k (drop (m + n) text) ≡ ok i rest) at
          (subst (λ l. parse fuel (start + m + n) l ≡ ok i rest) (sym (drop-add m n text)) e),
    )

AllRead-drop :
    (start m : ℕ) (text : List ℕ) (es : Entries)
    → AllRead (start + m) (drop m text) es
    → AllRead start text es
AllRead-drop start m text no_entries a = tt
AllRead-drop start m text (entry k i es) (r, a) =
    (ReadIn-drop start m text i r, AllRead-drop start m text es a)

pub AllRead-find :
    (start : ℕ) (text key : List ℕ) (es : Entries) (i : Item)
    → AllRead start text es
    → find key es ≡ some i
    → ReadIn start text i
unfolding find
AllRead-find start text key no_entries i a h = cc
AllRead-find start text key (entry k j es) i (r, a) h = elim (Bool-cases (bytes_equal k key)) [
  | inl same ↦ subst (ReadIn start text) (some_injective (rw same at h)) r
  | inr other ↦ AllRead-find start text key es i a (rw other at h)
]

pub bind-eq-ok :
    {A B : Type 0} (r : Parsed A) (k : A → List ℕ → Parsed B) {b : B} {end : List ℕ}
    → bind r k ≡ ok b end
    → (a : A) × (rest : List ℕ) × (r ≡ ok a rest) × (k a rest ≡ ok b end)
bind-eq-ok (ok a rest) k h = (a, rest, refl, h)
bind-eq-ok error k h = cc
bind-eq-ok out_of_fuel k h = cc

key_of-eq-ok :
    (i : Item) (k : List ℕ → Parsed Entries) {es : Entries} {end : List ℕ}
    → key_of i k ≡ ok es end
    → (key : List ℕ) × (k key ≡ ok es end)
key_of-eq-ok (string_item s n key) k h = (key, h)
key_of-eq-ok (int_item s n v) k h = cc
key_of-eq-ok (list_item s n v) k h = cc
key_of-eq-ok (dict_item s n v) k h = cc

pub ok_injective : {A : Type 0} {a b : A} {x y : List ℕ} → ok a x ≡ ok b y → (a ≡ b) × (x ≡ y)
ok_injective h = (cc, cc)

-- A value that is read behind its key, and entries that are read behind the value.
entry-AllRead :
    (fuel start : ℕ) (text left behind key : List ℕ) (k i : Item) (es : Entries)
    → parse fuel start text ≡ ok k left
    → parse fuel (start + (length text - length left)) left ≡ ok i behind
    → AllRead (start + (length text - length behind)) behind es
    → AllRead start text (entry key i (without key es))
entry-AllRead fuel start text left behind key k i es e0 e1 later =
    let m0 = length text - length left in
    let m1 = length text - length behind in
    let (s0, p0, len0, d0) = parse-ItemAt fuel start text e0 in
    let (s1, p1, len1, d1) = parse-ItemAt fuel (start + m0) left e1 in
    let n0 : elem_len k ≡ m0 = omega arith in
    let n1 : m0 + elem_len i ≡ m1 = omega arith in
    let at0 : left ≡ drop m0 text = d0 ∙ ap (λ m. drop m text) n0 in
    let at1 : behind ≡ drop m1 text =
      d1
      ∙ (ap (drop (elem_len i)) at0
          ∙ (sym (drop-add m0 (elem_len i) text) ∙ ap (λ m. drop m text) n1)) in
    (
      (m0, fuel, behind, subst (λ l. parse fuel (start + m0) l ≡ ok i behind) at0 e1),
      AllRead-without start text key es
          (AllRead-drop start m1 text es (subst (λ l. AllRead (start + m1) l es) at1 later)),
    )

dict_loop-AllRead :
    (fuel start : ℕ) (text : List ℕ) (es : Entries) (end : List ℕ)
    → dict_loop fuel start text ≡ ok es end
    → AllRead start text es
unfolding parse
dict_loop-AllRead zero start text es end h = cc
dict_loop-AllRead (suc fuel) start [] es end h = cc
dict_loop-AllRead (suc fuel) start (c ∷ cs) es end h = elim (Bool-cases (c == char_e)) [
  | inl last ↦ let e = ok_injective (rw last at h) in subst (AllRead start (c ∷ cs)) e.0 tt
  | inr more ↦
      let at = λ (l : List ℕ). start + (suc (length cs) - length l) in
      let (k, left, e0, h0) = bind-eq-ok (parse fuel start (c ∷ cs)) _ (rw more at h) in
      let (key, h1) = key_of-eq-ok k _ h0 in
      let (i, behind, e1, h2) = bind-eq-ok (parse fuel (at left) left) _ h1 in
      let (rest, end', e2, h3) = bind-eq-ok (dict_loop fuel (at behind) behind) _ h2 in
      subst (AllRead start (c ∷ cs)) {x = entry key i (without key rest)} (ok_injective h3).0 (
        entry-AllRead fuel start (c ∷ cs) left behind key k i rest e0 e1
          (dict_loop-AllRead fuel (at behind) behind rest end' e2))
]

pub error-ne-ok : {A : Type 0} {a : A} {rest : List ℕ} → ¬ error ≡ ok a rest
error-ne-ok h = cc

dict_injective :
    {s n t m : ℕ} {es fs : Entries} {x y : List ℕ}
    → ok (dict_item s n es) x ≡ ok (dict_item t m fs) y
    → es ≡ fs
dict_injective h = cc

-- The loop's letter is one byte in front of the entries.
dict-AllRead :
    (fuel start : ℕ) (c : ℕ) (cs : List ℕ) (s n : ℕ) (es : Entries) (rest : List ℕ)
    → bind
        (dict_loop fuel (suc start) cs)
        (λ is end. ok (dict_item start (suc (length cs) - length end) is) end)
      ≡ ok (dict_item s n es) rest
    → AllRead start (c ∷ cs) es
dict-AllRead fuel start c cs s n es rest h =
    let (is, end, e, h1) = bind-eq-ok (dict_loop fuel (suc start) cs) _ h in
    let same : is ≡ es = dict_injective h1 in
    let one : suc start ≡ start + 1 = omega arith in
    AllRead-drop start 1 (c ∷ cs) es (
      subst (AllRead (start + 1) cs) same
        (subst (λ k. AllRead k cs is) one (dict_loop-AllRead fuel (suc start) cs is end e)))

int_of-ne-dict :
    (start size : ℕ) (z : Option ℤ) (r : Option (List ℕ)) {s n : ℕ} {es : Entries} {rest : List ℕ}
    → ¬ int_of start size z r ≡ ok (dict_item s n es) rest
unfolding int_of
int_of-ne-dict start size (some z) (some r) h = cc
int_of-ne-dict start size none r h = cc
int_of-ne-dict start size (some z) none h = cc

string_of-ne-dict :
    (start size : ℕ) (m : Option ℕ) (r : Option (List ℕ)) {s n : ℕ} {es : Entries} {rest : List ℕ}
    → ¬ string_of start size m r ≡ ok (dict_item s n es) rest
unfolding string_of
string_of-ne-dict start size (some m) (some r) h = ground arith
string_of-ne-dict start size none r h = cc
string_of-ne-dict start size (some m) none h = cc

list-ne-dict :
    (start size : ℕ) (r : Parsed Items) {s n : ℕ} {es : Entries} {rest : List ℕ}
    → ¬ bind r (λ is left. ok (list_item start (size - length left) is) left)
      ≡ ok (dict_item s n es) rest
list-ne-dict start size (ok is left) h = cc
list-ne-dict start size error h = cc
list-ne-dict start size out_of_fuel h = cc

-- Every value of a dictionary that is decoded from a text is what the decoder reads in that text at
-- the offset where the value says that it starts.
pub parse-AllRead :
    (fuel start : ℕ) (text : List ℕ) (s n : ℕ) (es : Entries) (rest : List ℕ)
    → parse fuel start text ≡ ok (dict_item s n es) rest
    → AllRead start text es
unfolding parse parse_int parse_string
parse-AllRead zero start text s n es rest h = cc
parse-AllRead (suc fuel) start [] s n es rest h = cc
parse-AllRead (suc fuel) start (c ∷ cs) s n es rest h = elim (Bool-cases (c == char_i)) [
  | inl number ↦ absurd (
      int_of-ne-dict start (suc (length cs)) (from_chars (getline char_e cs).0)
        (getline char_e cs).1 (rw number at h))
  | inr not_i ↦ elim (Bool-cases (c == char_l)) [
    | inl list ↦ absurd (
        list-ne-dict start (suc (length cs)) (list_loop fuel (suc start) cs)
          (rw (not_i, list) at h))
    | inr not_l ↦ elim (Bool-cases (c == char_d)) [
      | inl dict ↦ dict-AllRead fuel start c cs s n es rest (rw (not_i, not_l, dict) at h)
      | inr not_d ↦ elim (Bool-cases (is_digit c)) [
        | inl digit ↦ absurd (
            string_of-ne-dict start (suc (length cs)) (digits (getline char_colon (c ∷ cs)).0)
              (getline char_colon (c ∷ cs)).1 (rw (not_i, not_l, not_d, digit) at h))
        | inr bad ↦ absurd (error-ne-ok (rw (not_i, not_l, not_d, bad) at h))
      ]
    ]
  ]
]
