-- ===== src/PieceManager/Layout.antt =====
-- Where the pieces lie in the torrent: one behind the other, and the last one ends it.
use native.Mathlib.Nat.{div-add-mod, mod-lt}
use cpp_torrent.Base.{
  ℕ, ◌+◌, ◌-◌, ◌*◌, ◌/◌, ◌%◌, ◌^◌, ◌≤◌, ◌<◌, ◌≡◌, ◌≢◌, sym, ◌⊎◌, inl, inr, arith, ltb, ◌==◌,
  size_mod, u32_mod, ceil_div, sub_size, Bool-cases, ==_iff,
}
use cpp_torrent.PieceManager.{piece_length}

-- A quotient and a rest are determined.
pub quotient_unique : (d q r t n : ℕ) → n * d + r ≡ n * q + t → r < n → t < n → d ≡ q
quotient_unique d q r t n e hr ht = grind arith

-- The number of pieces: so many whole ones, and one more for a rest.
ceil_div_cases :
    (total size : ℕ)
    → 0 < size
    → ((ceil_div total size ≡ total / size) × (total ≡ size * (total / size)))
      ⊎ ((r : ℕ) × (0 < r)
          × (r < size)
          × (ceil_div total size ≡ total / size + 1)
          × (total ≡ size * (total / size) + r))
ceil_div_cases total size s =
    let whole = div-add-mod total size in
    elim (Bool-cases (total % size == 0)) [
      | inl none_ ↦ inl (ground arith, ground (arith, whole))
      | inr some_ ↦ inr (total % size, ground arith, mod-lt total s, ground arith, sym whole)
    ]

pub before_end : (total size k : ℕ) → 0 < size → k < ceil_div total size → k * size < total
before_end total size k s h = elim (ceil_div_cases total size s) [
  | inl (e, w) ↦ grind arith
  | inr (r, p, l, e, w) ↦ grind arith
]

last_piece :
    (total size : ℕ)
    → 0 < size
    → 0 < total
    → (ceil_div total size - 1) * size + (1 + (total - 1) % size) ≡ total
last_piece total size s t =
    let d = (total - 1) / size in
    let r = (total - 1) % size in
    let split : size * d + r ≡ total - 1 = div-add-mod (total - 1) size in
    let small : r < size = mod-lt (total - 1) s in
    elim (ceil_div_cases total size s) [
      | inl (e, w) ↦
          let q = total / size in
          let some_ : 0 < q = grind arith in
          let step : size * (q - 1) + size ≡ size * q = grind arith in
          let same =
            quotient_unique d (q - 1) r (size - 1) size (omega (arith, step)) small (omega arith) in
          grind arith
      | inr (r0, p, l, e, w) ↦
          let same =
            quotient_unique d (total / size) r (r0 - 1) size (omega arith) small (omega arith) in
          grind arith
    ]

pub ceil_div-le : (total size : ℕ) → 0 < size → ceil_div total size ≤ total
ceil_div-le total size s = elim (ceil_div_cases total size s) [
  | inl (e, w) ↦ grind arith
  | inr (r, p, l, e, w) ↦ grind arith
]

-- The last piece ends the torrent, the others are full.
pub piece_end :
    (total size k : ℕ)
    → 0 < size
    → total < size_mod
    → size ≤ 2 ^ 30
    → k < ceil_div total size
    → k * size + piece_length (ceil_div total size) total size k ≤ total
unfolding piece_length
piece_end total size k s t f h =
    let some_ = before_end total size k s h in
    let cnt = ceil_div total size in
    let last : sub_size cnt 1 ≡ cnt - 1 = omega (arith, ceil_div-le total size s) in
    let less : sub_size total 1 ≡ total - 1 = omega arith in
    let small : (1 + (total - 1) % size) % u32_mod ≡ 1 + (total - 1) % size =
      omega (arith, mod-lt (total - 1) s) in
    elim (Bool-cases (k == cnt - 1)) [
      | inl end ↦
          rw (last, end, less, small)
            (let k_last : k ≡ cnt - 1 = (==_iff k (cnt - 1)).0 end in
              rw k_last (omega (arith, last_piece total size s (omega arith))))
      | inr full ↦
          rw (last, full)
            (let next = before_end total size (k + 1) s (ground arith) in omega (arith, next))
    ]

pub length_within :
    (cnt total size k : ℕ) → 0 < size → size ≤ 2 ^ 30 → piece_length cnt total size k ≤ size
unfolding piece_length
length_within cnt total size k s f = ground (arith, mod-lt (sub_size total 1) s)

-- Two pieces do not overlap.
pub apart :
    (cnt total size j k : ℕ)
    → 0 < size
    → size ≤ 2 ^ 30
    → j ≢ k
    → (j * size + piece_length cnt total size j ≤ k * size)
      ⊎ (k * size + piece_length cnt total size k ≤ j * size)
apart cnt total size j k s f n =
    let a = length_within cnt total size j s f in
    let b = length_within cnt total size k s f in
    elim (Bool-cases (ltb j k)) [
      | inl lo ↦ inl (below j k a (ground arith))
      | inr hi ↦ inr (below k j b (ground arith))
    ]
  where
    below :
        (j k : ℕ)
        → piece_length cnt total size j ≤ size
        → j < k
        → j * size + piece_length cnt total size j ≤ k * size
    below j k a h = grind arith

pub length_pos :
    (cnt total size k : ℕ) → 0 < size → size ≤ 2 ^ 30 → 0 < piece_length cnt total size k
unfolding piece_length
length_pos cnt total size k s f = ground (arith, mod-lt (sub_size total 1) s)
