-- ===== src/Bencode/Fuel.antt =====
-- The decoder needs fuel for two calls at each byte: it does not stop for want of fuel.
use cpp_torrent.Base.{
  ℕ, zero, suc, ◌+◌, ◌*◌, ◌-◌, ◌<◌, ◌≡◌, refl, Bool, true, false, ◌||◌, Option, none, some, List,
  [], ◌∷◌, arith, ltb, ◌==◌, if◌then◌else◌, length, Bool-cases, inl, inr,
}
use cpp_torrent.Bencode.{
  ℤ, Item, Entries, int_item, string_item, list_item, dict_item, item, entry, getline, digits,
  from_chars, Parsed, ok, error, out_of_fuel, string_of, parse_string, int_of, parse_int, bind,
  key_of, without, parse, list_loop, dict_loop, b_decode, is_digit, char_i, char_l, char_d, char_e,
  char_colon, max_string_len,
}
use cpp_torrent.Bencode.Extent.{all-At}
use cpp_torrent.Bencode.Extent.Strings.{ItemAt}

-- The call came to an end, with a result or an exception.
abbrev pub finished : {A : Type 0} → Parsed A → Bool
finished (ok a rest) = true
finished error = true
finished out_of_fuel = false

abbrev Shorter : {A : Type 0} → List ℕ → Parsed A → Type 0
Shorter text (ok a rest) = length rest < length text
Shorter text error = Unit {0}
Shorter text out_of_fuel = Unit {0}

ItemAt-Shorter :
    (start : ℕ) (text : List ℕ) (r : Parsed Item) → ItemAt start text r → Shorter text r
ItemAt-Shorter start text (ok i rest) (s, p, len, e) = omega arith
ItemAt-Shorter start text error a = tt
ItemAt-Shorter start text out_of_fuel a = tt

bind-finished :
    {A B : Type 0} (text : List ℕ) (r : Parsed A) (k : A → List ℕ → Parsed B)
    → finished r ≡ true
    → Shorter text r
    → ((a : A) (rest : List ℕ) → length rest < length text → finished (k a rest) ≡ true)
    → finished (bind r k) ≡ true
bind-finished text (ok a rest) k f s go = go a rest s
bind-finished text error k f s go = refl
bind-finished text out_of_fuel k f s go = f

-- A result that is only wrapped.
wrap-finished :
    {A B : Type 0} (r : Parsed A) (f : A → List ℕ → B)
    → finished r ≡ true
    → finished (bind r (λ a rest. ok (f a rest) rest)) ≡ true
wrap-finished (ok a rest) f e = refl
wrap-finished error f e = refl
wrap-finished out_of_fuel f e = e

key_of-finished :
    (i : Item) (k : List ℕ → Parsed Entries)
    → ((key : List ℕ) → finished (k key) ≡ true)
    → finished (key_of i k) ≡ true
key_of-finished (string_item s n key) k go = go key
key_of-finished (int_item s n v) k go = refl
key_of-finished (list_item s n v) k go = refl
key_of-finished (dict_item s n v) k go = refl

string_of-finished :
    (start size : ℕ) (n : Option ℕ) (rest : Option (List ℕ))
    → finished (string_of start size n rest) ≡ true
unfolding string_of
string_of-finished start size (some n) (some rest) =
    elim (Bool-cases (ltb max_string_len n || ltb (length rest) n)) [
      | inl bad ↦ rw bad refl
      | inr good ↦ rw good refl
    ]
string_of-finished start size none rest = refl
string_of-finished start size (some n) none = refl

int_of-finished :
    (start size : ℕ) (z : Option ℤ) (rest : Option (List ℕ))
    → finished (int_of start size z rest) ≡ true
unfolding int_of
int_of-finished start size (some z) (some rest) = refl
int_of-finished start size none rest = refl
int_of-finished start size (some z) none = refl

-- With fuel for two calls at each byte, the three functions come to an end.
abbrev AllFinished : ℕ → Type 0
AllFinished fuel =
    ((start : ℕ) (text : List ℕ) → 2 * length text < fuel → finished (parse fuel start text) ≡ true)
    × ((start : ℕ) (text : List ℕ)
        → 2 * length text + 1 < fuel
        → finished (list_loop fuel start text) ≡ true)
    × ((start : ℕ) (text : List ℕ)
        → 2 * length text + 1 < fuel
        → finished (dict_loop fuel start text) ≡ true)

parse_step :
    (fuel : ℕ)
    → AllFinished fuel
    → (start : ℕ) (text : List ℕ) → 2 * length text < suc fuel
    → finished (parse (suc fuel) start text) ≡ true
unfolding parse parse_string parse_int
parse_step fuel (p, l, d) start [] b = refl
parse_step fuel (p, l, d) start (c ∷ cs) b = elim (Bool-cases (c == char_i)) [
  | inl number ↦ rw number (
      int_of-finished start (suc (length cs)) (from_chars (getline char_e cs).0)
        (getline char_e cs).1)
  | inr not_i ↦ elim (Bool-cases (c == char_l)) [
    | inl list ↦
        rw (not_i, list)
          (wrap-finished (list_loop fuel (suc start) cs)
            (λ is rest. list_item start (suc (length cs) - length rest) is)
            (l (suc start) cs (omega arith)))
    | inr not_l ↦ elim (Bool-cases (c == char_d)) [
      | inl dict ↦
          rw (not_i, not_l, dict)
            (wrap-finished (dict_loop fuel (suc start) cs)
              (λ es rest. dict_item start (suc (length cs) - length rest) es)
              (d (suc start) cs (omega arith)))
      | inr not_d ↦ elim (Bool-cases (is_digit c)) [
        | inl digit ↦
            rw (not_i, not_l, not_d, digit)
              (string_of-finished start (suc (length cs)) (digits (getline char_colon (c ∷ cs)).0)
                (getline char_colon (c ∷ cs)).1)
        | inr bad ↦ rw (not_i, not_l, not_d, bad) refl
      ]
    ]
  ]
]

loop_step :
    (fuel : ℕ)
    → AllFinished fuel
    → (start : ℕ) (text : List ℕ) → 2 * length text + 1 < suc fuel
    → finished (list_loop (suc fuel) start text) ≡ true
unfolding parse
loop_step fuel (p, l, d) start [] b = refl
loop_step fuel (p, l, d) start (c ∷ cs) b = elim (Bool-cases (c == char_e)) [
  | inl end ↦ rw end refl
  | inr more ↦
      let at = λ (left : List ℕ). start + (suc (length cs) - length left) in
      rw more (
        bind-finished (c ∷ cs) (parse fuel start (c ∷ cs))
          (λ i left. bind (list_loop fuel (at left) left) (λ is end. ok (item i is) end))
          (p start (c ∷ cs) (omega arith))
          (ItemAt-Shorter start (c ∷ cs) (parse fuel start (c ∷ cs))
            ((all-At fuel).0 start (c ∷ cs)))
          (λ i left short.
            wrap-finished (list_loop fuel (at left) left) (λ is end. item i is)
              (l (at left) left (omega arith))))
]

entry_step :
    (fuel : ℕ)
    → AllFinished fuel
    → (start : ℕ) (text : List ℕ) → 2 * length text + 1 < suc fuel
    → finished (dict_loop (suc fuel) start text) ≡ true
unfolding parse
entry_step fuel (p, l, d) start [] b = refl
entry_step fuel (p, l, d) start (c ∷ cs) b = elim (Bool-cases (c == char_e)) [
  | inl end ↦ rw end refl
  | inr more ↦
      let at = λ (left : List ℕ). start + (suc (length cs) - length left) in
      let loop = λ (key : List ℕ) (i : Item) (behind : List ℕ).
        bind (dict_loop fuel (at behind) behind)
          (λ es end. ok (entry key i (without key es)) end) in
      rw more (
        bind-finished (c ∷ cs) (parse fuel start (c ∷ cs))
          (λ k left. key_of k (λ key. bind (parse fuel (at left) left) (loop key)))
          (p start (c ∷ cs) (omega arith))
          (ItemAt-Shorter start (c ∷ cs) (parse fuel start (c ∷ cs))
            ((all-At fuel).0 start (c ∷ cs)))
          (λ k left short.
            key_of-finished k (λ key. bind (parse fuel (at left) left) (loop key))
              (λ key.
                bind-finished left (parse fuel (at left) left) (loop key)
                  (p (at left) left (omega arith))
                  (ItemAt-Shorter (at left) left (parse fuel (at left) left)
                    ((all-At fuel).0 (at left) left))
                  (λ i behind nearer.
                    wrap-finished (dict_loop fuel (at behind) behind)
                      (λ es end. entry key i (without key es))
                      (d (at behind) behind (omega arith))))))
]

all-finished : (fuel : ℕ) → AllFinished fuel
all-finished zero = (
  λ start text b. absurd (omega arith),
  λ start text b. absurd (omega arith),
  λ start text b. absurd (omega arith),
)
all-finished (suc fuel) =
    let below = all-finished fuel in
    (parse_step fuel below, loop_step fuel below, entry_step fuel below)

-- The decoder comes to an end on every text, with an item or an exception, when its fuel is more than
-- twice the length of the text.
pub b_decode-finished :
    (fuel : ℕ) (text : List ℕ) → 2 * length text < fuel → finished (b_decode fuel text) ≡ true
unfolding b_decode
b_decode-finished fuel text b =
    bind-finished text (parse fuel 0 text) (λ i rest. if length rest == 0 then ok i rest else error)
      ((all-finished fuel).0 0 text b)
      (ItemAt-Shorter 0 text (parse fuel 0 text) ((all-At fuel).0 0 text))
      (λ i rest short. elim (Bool-cases (length rest == 0)) [
        | inl end ↦ rw end refl
        | inr more ↦ rw more refl
      ])
