-- ===== src/Net/Layout.antt =====
-- A buffer that is written field by field, each field behind the one before.
use cpp_torrent.Base.{
  ℕ, zero, suc, ◌+◌, ◌≡◌, refl, sym, ap, ◌∙◌, List, [], ◌∷◌, ◌++◌, arith, length, length-append,
  drop, take-append, drop-append, splice, append_assoc, append-nil, subst,
}
use cpp_torrent.Net.{write_all}

-- The fields in order.
abbrev pub fields : List (ℕ × List ℕ) → List ℕ
fields [] = []
fields ((offset, bytes) ∷ ws) = bytes ++ fields ws

-- Each field starts where the one before it ends.
abbrev pub Contiguous : ℕ → List (ℕ × List ℕ) → Type 0
Contiguous o [] = Unit {0}
Contiguous o ((offset, bytes) ∷ ws) = (offset ≡ o) × Contiguous (o + length bytes) ws

drop-nil {ℓ} : {A : Type ℓ} (n : ℕ) → drop {A = A} n [] ≡ []
drop-nil zero = refl
drop-nil (suc n) = refl

pub drop-add {ℓ} : {A : Type ℓ} (m n : ℕ) (xs : List A) → drop (m + n) xs ≡ drop n (drop m xs)
drop-add zero n xs = ap (λ k. drop k xs) (omega arith)
drop-add (suc m) n [] = drop-nil (suc m + n) ∙ sym (drop-nil n)
drop-add (suc m) n (x ∷ xs) =
    let e : suc m + n ≡ suc (m + n) = omega arith in ap (λ k. drop k (x ∷ xs)) e ∙ drop-add m n xs

drop_all : (xs : List ℕ) → drop (length xs) xs ≡ []
drop_all [] = refl
drop_all (x ∷ xs) = drop_all xs

splice-append :
    (written rest bytes : List ℕ) (offset : ℕ)
    → length written ≡ offset
    → splice (written ++ rest) offset bytes ≡ (written ++ bytes) ++ drop (length bytes) rest
unfolding splice
splice-append written rest bytes offset h = rw (
  take-append written rest offset h,
  drop-add offset (length bytes) (written ++ rest),
  drop-append written rest offset h,
  append_assoc written bytes (drop (length bytes) rest),
)

-- Contiguous fields stand in the buffer one behind the other, before what the writes leave alone.
pub write_all-append :
    (written rest : List ℕ) (ws : List (ℕ × List ℕ))
    → Contiguous (length written) ws
    → write_all (written ++ rest) ws ≡ written ++ (fields ws ++ drop (length (fields ws)) rest)
unfolding write_all
write_all-append written rest [] c = refl
write_all-append written rest ((offset, bytes) ∷ ws) (e, c) =
    ap (λ buffer. write_all buffer ws) (splice-append written rest bytes offset (sym e))
    ∙ write_all-append (written ++ bytes) (drop (length bytes) rest) ws
        (subst (λ o. Contiguous o ws) (sym (length-append written bytes)) c)
    ∙ rw (
      ← drop-add (length bytes) (length (fields ws)) rest,
      append_assoc written bytes (fields ws ++ drop (length bytes + length (fields ws)) rest),
      length-append bytes (fields ws),
      append_assoc bytes (fields ws) (drop (length bytes + length (fields ws)) rest),
    )

-- A buffer that the fields fill holds them and nothing else, whatever it held before.
pub write_all-fields :
    (buffer : List ℕ) (ws : List (ℕ × List ℕ))
    → Contiguous 0 ws
    → length buffer ≡ length (fields ws)
    → write_all buffer ws ≡ fields ws
write_all-fields buffer ws c e =
    write_all-append [] buffer ws c ∙ rw (← e, drop_all buffer) (append-nil (fields ws))
