-- ===== src/Bencode/RoundTrip.antt =====
-- What is encoded by the format is decoded again.
pub mod Leaves
use cpp_torrent.Base.{
  ℕ, zero, suc, ◌+◌, ◌-◌, ◌*◌, ◌<◌, ◌≤◌, ◌≡◌, refl, sym, ap, subst, ◌∙◌, false, ◌||◌, List, [], ◌∷◌,
  ◌++◌, append_assoc, append-nil, arith, ltb, ◌==◌, length, length-append, take-append, drop-append,
  All,
}
use cpp_torrent.Bencode.{
  ℤ, Item, Items, Entries, int_item, string_item, list_item, dict_item, item, entry, no_items,
  no_entries, ok, without, parse, list_loop, dict_loop, b_decode, char_i, char_l, char_d, char_e,
  char_colon, max_string_len, parse_int, parse_string, made_string,
}
use cpp_torrent.Bencode.Decimal.{
  decimal, decimal_of, decimal-cons, decimal-digits, digits-decimal, from_chars-decimal_of,
  getline-append, decimal-lacks, decimal_of-lacks_e, IsDigit, IsInRange,
}
use cpp_torrent.Bencode.Encode.{
  encode_string, encode, encode_items, encode_entries, place, place_items, place_entries,
  IsWellFormed, AllWellFormed, EntriesWellFormed, encode-cons, encode_string-cons,
  without-place_entries,
}
use cpp_torrent.Bencode.RoundTrip.Leaves.{parse-encode_string, parse-encode_int}

-- One turn of the loop of a list, whose item is `front`.
list_loop-front :
    (fuel start c : ℕ) (front cs tail end : List ℕ) (i : Item) (is : Items)
    → front ≡ c ∷ cs
    → (c == char_e) ≡ false
    → parse fuel start (front ++ tail) ≡ ok i tail
    → list_loop fuel (start + length front) tail ≡ ok is end
    → list_loop (suc fuel) start (front ++ tail) ≡ ok (item i is) end
unfolding parse
list_loop-front fuel start c [] cs tail end i is e h p l = cc
list_loop-front fuel start c (d ∷ front) cs tail end i is e h p l =
    let more : (d == char_e) ≡ false = subst (λ k. (k == char_e) ≡ false) (head_eq e) h in
    let at : start + (suc (length (front ++ tail)) - length tail) ≡ start + suc (length front) =
      omega (arith, length-append front tail) in
    rw (more, p, at, l) refl
  where
    head_eq : {a b : ℕ} {xs ys : List ℕ} → a ∷ xs ≡ b ∷ ys → b ≡ a
    head_eq q = cc

-- One turn of the loop of a dictionary, whose key is `name` and whose value is `front`.
dict_loop-front :
    (fuel start c s n : ℕ) (name cs front tail end key : List ℕ) (i : Item) (es : Entries)
    → name ≡ c ∷ cs
    → (c == char_e) ≡ false
    → parse fuel start (name ++ (front ++ tail)) ≡ ok (string_item s n key) (front ++ tail)
    → parse fuel (start + length name) (front ++ tail) ≡ ok i tail
    → dict_loop fuel (start + length name + length front) tail ≡ ok es end
    → dict_loop (suc fuel) start (name ++ (front ++ tail)) ≡ ok (entry key i (without key es)) end
unfolding parse
dict_loop-front fuel start c s n [] cs front tail end key i es e h p v l = cc
dict_loop-front fuel start c s n (d ∷ name) cs front tail end key i es e h p v l =
    let more : (d == char_e) ≡ false = subst (λ k. (k == char_e) ≡ false) (head_eq e) h in
    let all = name ++ (front ++ tail) in
    let at0 : start + (suc (length all) - length (front ++ tail)) ≡ start + suc (length name) =
      omega (arith, length-append name (front ++ tail)) in
    let at1 : start + (suc (length all) - length tail) ≡ start + suc (length name) + length front =
      omega (arith, length-append name (front ++ tail), length-append front tail) in
    rw (more, p, at0, v, at1, l) refl
  where
    head_eq : {a b : ℕ} {xs ys : List ℕ} → a ∷ xs ≡ b ∷ ys → b ≡ a
    head_eq q = cc

-- The brackets of a list and of a dictionary.
parse-list :
    (fuel start : ℕ) (body rest : List ℕ) (is : Items)
    → list_loop fuel (suc start) (body ++ (char_e ∷ rest)) ≡ ok is rest
    → parse (suc fuel) start ((char_l ∷ (body ++ (char_e ∷ []))) ++ rest)
      ≡ ok (list_item start (length (char_l ∷ (body ++ (char_e ∷ [])))) is) rest
unfolding parse
parse-list fuel start body rest is h =
    let text : (body ++ (char_e ∷ [])) ++ rest ≡ body ++ (char_e ∷ rest) =
      append_assoc body (char_e ∷ []) rest in
    let size : suc (length (body ++ (char_e ∷ rest))) - length rest
        ≡ suc (length (body ++ (char_e ∷ []))) =
      omega (arith, length-append body (char_e ∷ rest), length-append body (char_e ∷ [])) in
    rw (text, h, size) refl

parse-dict :
    (fuel start : ℕ) (body rest : List ℕ) (es : Entries)
    → dict_loop fuel (suc start) (body ++ (char_e ∷ rest)) ≡ ok es rest
    → parse (suc fuel) start ((char_d ∷ (body ++ (char_e ∷ []))) ++ rest)
      ≡ ok (dict_item start (length (char_d ∷ (body ++ (char_e ∷ [])))) es) rest
unfolding parse
parse-dict fuel start body rest es h =
    let text : (body ++ (char_e ∷ [])) ++ rest ≡ body ++ (char_e ∷ rest) =
      append_assoc body (char_e ∷ []) rest in
    let size : suc (length (body ++ (char_e ∷ rest))) - length rest
        ≡ suc (length (body ++ (char_e ∷ []))) =
      omega (arith, length-append body (char_e ∷ rest), length-append body (char_e ∷ [])) in
    rw (text, h, size) refl

loops_end :
    (fuel start : ℕ) (rest : List ℕ)
    → (list_loop (suc fuel) start (char_e ∷ rest) ≡ ok no_items rest)
      × (dict_loop (suc fuel) start (char_e ∷ rest) ≡ ok no_entries rest)
unfolding parse
loops_end fuel start rest = (refl, refl)

mutual
  unfolding encode place

  parse-encode :
      (i : Item) (fuel start : ℕ) (rest : List ℕ)
      → IsWellFormed i
      → 2 * length (encode i) < fuel
      → parse fuel start (encode i ++ rest) ≡ ok (place start i) rest
  parse-encode (int_item s n z) zero start rest w b = absurd (omega arith)
  parse-encode (int_item s n z) (suc fuel) start rest w b = parse-encode_int fuel start z rest w
  parse-encode (string_item s n v) fuel start rest w b =
      parse-encode_string fuel start v rest w (omega arith)
  parse-encode (list_item s n is) zero start rest w b = absurd (omega arith)
  parse-encode (list_item s n is) (suc fuel) start rest w b =
      parse-list fuel start (encode_items is) rest (place_items (suc start) is) (
        list_loop-encode is fuel (suc start) rest w
          (omega (arith, length-append (encode_items is) (char_e ∷ []))))
  parse-encode (dict_item s n es) zero start rest w b = absurd (omega arith)
  parse-encode (dict_item s n es) (suc fuel) start rest w b =
      parse-dict fuel start (encode_entries es) rest (place_entries (suc start) es) (
        dict_loop-encode es fuel (suc start) rest w
          (omega (arith, length-append (encode_entries es) (char_e ∷ []))))

  list_loop-encode :
      (is : Items) (fuel start : ℕ) (rest : List ℕ)
      → AllWellFormed is
      → 2 * length (encode_items is) + 1 < fuel
      → list_loop fuel start (encode_items is ++ (char_e ∷ rest)) ≡ ok (place_items start is) rest
  list_loop-encode no_items zero start rest w b = absurd (omega arith)
  list_loop-encode no_items (suc fuel) start rest w b = (loops_end fuel start rest).0
  list_loop-encode (item i is) zero start rest w b = absurd (omega arith)
  list_loop-encode (item i is) (suc fuel) start rest (w, ws) b =
      let (c, cs, e, more) = encode-cons i in
      let tail = encode_items is ++ (char_e ∷ rest) in
      let some_ : length (encode i) ≡ suc (length cs) = ap length e in
      let whole = length-append (encode i) (encode_items is) in
      ap (list_loop (suc fuel) start) (append_assoc (encode i) (encode_items is) (char_e ∷ rest))
      ∙ list_loop-front fuel start c (encode i) cs tail rest (place start i)
          (place_items (start + length (encode i)) is) e more
          (parse-encode i fuel start tail w (omega arith))
          (list_loop-encode is fuel (start + length (encode i)) rest ws (omega arith))

  dict_loop-encode :
      (es : Entries) (fuel start : ℕ) (rest : List ℕ)
      → EntriesWellFormed es
      → 2 * length (encode_entries es) + 1 < fuel
      → dict_loop fuel start (encode_entries es ++ (char_e ∷ rest))
        ≡ ok (place_entries start es) rest
  dict_loop-encode no_entries zero start rest w b = absurd (omega arith)
  dict_loop-encode no_entries (suc fuel) start rest w b = (loops_end fuel start rest).1
  dict_loop-encode (entry k i es) zero start rest w b = absurd (omega arith)
  dict_loop-encode (entry k i es) (suc fuel) start rest (short, fresh, w, ws) b =
      let (c, cs, e, more) = encode_string-cons k in
      let name = encode_string k in
      let tail = encode_entries es ++ (char_e ∷ rest) in
      let some_ : length name ≡ suc (length cs) = ap length e in
      let whole = length-append name (encode i ++ encode_entries es) in
      let inner = length-append (encode i) (encode_entries es) in
      let here = start + length name in
      let text : (name ++ (encode i ++ encode_entries es)) ++ (char_e ∷ rest)
          ≡ name ++ (encode i ++ tail) =
        append_assoc name (encode i ++ encode_entries es) (char_e ∷ rest)
        ∙ ap (λ l. name ++ l) (append_assoc (encode i) (encode_entries es) (char_e ∷ rest)) in
      ap (dict_loop (suc fuel) start) text
      ∙ (dict_loop-front fuel start c start (length name) name cs (encode i) tail rest k
            (place here i) (place_entries (here + length (encode i)) es) e more
            (parse-encode_string fuel start k (encode i ++ tail) short (omega arith))
            (parse-encode i fuel here tail w (omega arith))
            (dict_loop-encode es fuel (here + length (encode i)) rest ws (omega arith))
          ∙ ap (λ fs. ok (entry k (place here i) fs) rest)
              (without-place_entries k (here + length (encode i)) es fresh))

-- Every item that the program's types can hold is decoded from its bytes as it was, each part with the
-- offset and the length that it has in the text, when the fuel is more than twice their number.
pub b_decode-encode :
    (i : Item) (fuel : ℕ)
    → IsWellFormed i
    → 2 * length (encode i) < fuel
    → b_decode fuel (encode i) ≡ ok (place 0 i) []
unfolding b_decode
b_decode-encode i fuel w b =
    let read : parse fuel 0 (encode i) ≡ ok (place 0 i) [] =
      ap (parse fuel 0) (sym (append-nil (encode i))) ∙ parse-encode i fuel 0 [] w b in
    rw read refl
