-- ===== src/Net/Order.antt =====
-- What goes over the wire does not depend on the host's byte order.
use mathlib.Core.List.{reverse, reverse-reverse, reverse-cons}
use cpp_torrent.Base.{
  ℕ, zero, suc, ◌*◌, ◌/◌, ◌<◌, ◌≡◌, refl, ap, subst, ◌∙◌, List, [], ◌∷◌, ◌++◌, arith, length,
  length-append, All,
}
use cpp_torrent.Net.{Endian, little, big, le_bytes, from_le, byteswap, put, get}

-- The numbers of `k` bytes lie below it.
abbrev pub limit : ℕ → ℕ
limit zero = 1
limit (suc k) = 256 * limit k

-- The wire format: the highest byte first.
unfoldable pub be_bytes : ℕ → ℕ → List ℕ
be_bytes k v = reverse (le_bytes k v)

abbrev pub AreBytes : List ℕ → Type 0
AreBytes bs = All (λ b. b < 256) bs

pub length-le_bytes : (k n : ℕ) → length (le_bytes k n) ≡ k
unfolding le_bytes
length-le_bytes zero n = refl
length-le_bytes (suc k) n = ap suc (length-le_bytes k (n / 256))

from_le-le_bytes : (k n : ℕ) → n < limit k → from_le (le_bytes k n) ≡ n
unfolding le_bytes from_le
from_le-le_bytes zero n h = omega arith
from_le-le_bytes (suc k) n h = omega (arith, from_le-le_bytes k (n / 256) (omega arith))

le_bytes-from_le : (bs : List ℕ) → AreBytes bs → le_bytes (length bs) (from_le bs) ≡ bs
unfolding le_bytes from_le
le_bytes-from_le [] h = refl
le_bytes-from_le (b ∷ bs) h = ground (arith, le_bytes-from_le bs h.1)

from_le-lt : (bs : List ℕ) → AreBytes bs → from_le bs < limit (length bs)
unfolding from_le
from_le-lt [] h = omega arith
from_le-lt (b ∷ bs) h = omega (arith, from_le-lt bs h.1)

le_bytes-AreBytes : (k n : ℕ) → AreBytes (le_bytes k n)
unfolding le_bytes
le_bytes-AreBytes zero n = tt
le_bytes-AreBytes (suc k) n = (omega arith, le_bytes-AreBytes k (n / 256))

All-append : (xs ys : List ℕ) → AreBytes xs → AreBytes ys → AreBytes (xs ++ ys)
All-append [] ys h k = k
All-append (x ∷ xs) ys h k = (h.0, All-append xs ys h.1 k)

reverse-AreBytes : (xs : List ℕ) → AreBytes xs → AreBytes (reverse xs)
reverse-AreBytes [] h = tt
reverse-AreBytes (x ∷ xs) h =
    rw (reverse-cons x xs) (All-append (reverse xs) (x ∷ []) (reverse-AreBytes xs h.1) (h.0, tt))

length-reverse : (xs : List ℕ) → length (reverse xs) ≡ length xs
length-reverse [] = refl
length-reverse (x ∷ xs) =
    omega
      (arith, ap length (reverse-cons x xs), length-append (reverse xs) (x ∷ []), length-reverse xs)

le_bytes-byteswap : (k v : ℕ) → le_bytes k (byteswap k v) ≡ reverse (le_bytes k v)
unfolding byteswap
le_bytes-byteswap k v =
    let swapped = reverse (le_bytes k v) in
    let n : length swapped ≡ k = length-reverse (le_bytes k v) ∙ length-le_bytes k v in
    rw n at (le_bytes-from_le swapped (reverse-AreBytes (le_bytes k v) (le_bytes-AreBytes k v)))

byteswap-byteswap : (k v : ℕ) → v < limit k → byteswap k (byteswap k v) ≡ v
unfolding byteswap
byteswap-byteswap k v h =
    ap (λ bs. from_le (reverse bs)) (le_bytes-byteswap k v)
    ∙ (ap from_le (reverse-reverse (le_bytes k v)) ∙ from_le-le_bytes k v h)

-- The bytes on the wire are those of the number, highest first, on every host.
pub put-be_bytes : (e : Endian) (k v : ℕ) → put e k v ≡ be_bytes k v
unfolding put be_bytes
put-be_bytes little k v = le_bytes-byteswap k v
put-be_bytes big k v = refl

-- A number of `k` bytes that was put in network order on one host is read back on any other.
pub get-put : (e f : Endian) (k v : ℕ) → v < limit k → get f k (put e k v) ≡ v
unfolding get be_bytes
get-put e little k v h = rw (put-be_bytes e k v, be_bytes) (byteswap-byteswap k v h)
get-put e big k v h =
    rw (put-be_bytes e k v, be_bytes, reverse-reverse (le_bytes k v)) (from_le-le_bytes k v h)

pub length-put : (e : Endian) (k v : ℕ) → length (put e k v) ≡ k
unfolding be_bytes
length-put e k v =
    rw (put-be_bytes e k v, be_bytes) (length-reverse (le_bytes k v) ∙ length-le_bytes k v)

get_lem : (e : Endian) (bs : List ℕ) → AreBytes bs → get e (length bs) bs ≡ from_le (reverse bs)
unfolding get byteswap
get_lem little bs h = ap (λ l. from_le (reverse l)) (le_bytes-from_le bs h)
get_lem big bs h = refl

-- A number that is read from `k` bytes has `k` bytes.
pub get-lt : (e : Endian) (k : ℕ) (bs : List ℕ) → AreBytes bs → length bs ≡ k → get e k bs < limit k
get-lt e k bs h n =
    subst (λ k. get e k bs < limit k) n
      (rw (get_lem e bs h) (
        subst (λ j. from_le (reverse bs) < limit j) (length-reverse bs)
          (from_le-lt (reverse bs) (reverse-AreBytes bs h))))
