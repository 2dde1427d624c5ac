-- ===== src/Piece/Valid/Swap.antt =====
-- Two vectors that are inverse to one another stay so when `receive_block` swaps in both.
use cpp_torrent.Base.{
  ℕ, zero, suc, ◌+◌, ◌≤◌, ◌<◌, ◌≡◌, refl, ap, List, arith, ◌==◌, if◌then◌else◌, length, get_or, set,
  length-set, get_or-set, u16_mod,
}
use cpp_torrent.Piece.{swap, iota_u16}

-- Two vectors of `n` elements, each the inverse of the other.
pub record Inverse (n : ℕ) (rem pos : List ℕ) : Type 0 where
  pub rem_length : length rem ≡ n
  pub pos_length : length pos ≡ n
  pub rem_lt : (j : ℕ) → j < n → get_or rem j 0 < n
  pub pos_lt : (i : ℕ) → i < n → get_or pos i 0 < n
  pub pos_rem : (j : ℕ) → j < n → get_or pos (get_or rem j 0) 0 ≡ j
  pub rem_pos : (i : ℕ) → i < n → get_or rem (get_or pos i 0) 0 ≡ i

pub length-swap : (xs : List ℕ) (i j : ℕ) → length (swap xs i j) ≡ length xs
unfolding swap
length-swap xs i j = omega (
  arith,
  length-set (set xs i (get_or xs j 0)) j (get_or xs i 0),
  length-set xs i (get_or xs j 0),
)

pub get_or-swap :
    (xs : List ℕ) (i j k : ℕ)
    → i < length xs
    → j < length xs
    → get_or (swap xs i j) k 0
      ≡ (if k == j then get_or xs i 0 else if k == i then get_or xs j 0 else get_or xs k 0)
unfolding swap
get_or-swap xs i j k hi hj = ground (
  arith,
  get_or-set (set xs i (get_or xs j 0)) j k (get_or xs i 0) 0,
  get_or-set xs i k (get_or xs j 0) 0,
  length-set xs i (get_or xs j 0),
)

module _ {n : ℕ} {rem pos : List ℕ} (v : Inverse n rem pos) (a k : ℕ) (ha : a < n)
    (hk : k < n) where
  swap-rem_lt : (j : ℕ) → j < n → get_or (swap rem (get_or pos a 0) k) j 0 < n
  swap-rem_lt j h = ground (
    arith,
    get_or-swap rem (get_or pos a 0) k j,
    v.pos_lt a ha,
    v.rem_lt k hk,
    v.rem_lt j h,
    v.rem_pos a ha,
    v.rem_length,
  )

  swap-pos_lt : (i : ℕ) → i < n → get_or (swap pos a (get_or rem k 0)) i 0 < n
  swap-pos_lt i h = ground (
    arith,
    get_or-swap pos a (get_or rem k 0) i,
    v.pos_lt a ha,
    v.rem_lt k hk,
    v.pos_lt i h,
    v.pos_rem k hk,
    v.pos_length,
  )

  swap-pos_rem :
      (j : ℕ)
      → j < n
      → get_or (swap pos a (get_or rem k 0)) (get_or (swap rem (get_or pos a 0) k) j 0) 0 ≡ j
  swap-pos_rem j h = ground (
    arith,
    get_or-swap rem (get_or pos a 0) k j,
    get_or-swap pos a (get_or rem k 0) (get_or (swap rem (get_or pos a 0) k) j 0),
    v.pos_lt a ha,
    v.rem_lt k hk,
    v.rem_lt j h,
    v.rem_pos a ha,
    v.pos_rem k hk,
    v.pos_rem j h,
    v.rem_length,
    v.pos_length,
  )

  swap-rem_pos :
      (i : ℕ)
      → i < n
      → get_or (swap rem (get_or pos a 0) k) (get_or (swap pos a (get_or rem k 0)) i 0) 0 ≡ i
  swap-rem_pos i h = ground (
    arith,
    get_or-swap pos a (get_or rem k 0) i,
    get_or-swap rem (get_or pos a 0) k (get_or (swap pos a (get_or rem k 0)) i 0),
    v.pos_lt a ha,
    v.rem_lt k hk,
    v.pos_lt i h,
    v.rem_pos a ha,
    v.pos_rem k hk,
    v.rem_pos i h,
    v.rem_length,
    v.pos_length,
  )

  pub swap-Inverse : Inverse n (swap rem (get_or pos a 0) k) (swap pos a (get_or rem k 0))
  swap-Inverse = record {
    rem_length = omega (arith, length-swap rem (get_or pos a 0) k, v.rem_length);
    pos_length = omega (arith, length-swap pos a (get_or rem k 0), v.pos_length);
    rem_lt = swap-rem_lt;
    pos_lt = swap-pos_lt;
    pos_rem = swap-pos_rem;
    rem_pos = swap-rem_pos;
  }

pub length-iota_u16 : (i n : ℕ) → length (iota_u16 i n) ≡ n
unfolding iota_u16
length-iota_u16 i zero = refl
length-iota_u16 i (suc n) = ap suc (length-iota_u16 (suc i) n)

pub get_or-iota_u16 : (i n j : ℕ) → j < n → i + n ≤ u16_mod → get_or (iota_u16 i n) j 0 ≡ i + j
unfolding iota_u16
get_or-iota_u16 i zero j h le = absurd (omega arith)
get_or-iota_u16 i (suc n) zero h le = omega arith
get_or-iota_u16 i (suc n) (suc j) h le =
    omega (arith, get_or-iota_u16 (suc i) n j (omega arith) (omega arith))
