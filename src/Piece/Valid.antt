-- ===== src/Piece/Valid.antt =====
-- The bookkeeping of a piece: `remaining_blocks_` and `block_pos_in_rem_` are inverse to one another.
-- Piece.hpp, the comments on the two vectors and on `unrequested_blocks_`.
mod Swap
use cpp_torrent.Base.{
  ℕ, zero, suc, ◌+◌, ◌-◌, ◌*◌, ◌/◌, ◌%◌, ◌≤◌, ◌<◌, ◌≡◌, ◌≢◌, refl, sym, Option, none, some, List,
  [], ◌∷◌, arith, ltb, ◌==◌, if◌then◌else◌, length, get_or, get_or-replicate, length-replicate,
  replicate, set, ap, ◌^◌, u16_mod, u32_mod, ceil_div,
}
use Swap.{Inverse, get_or-iota_u16, length-iota_u16}
pub use Swap.{Inverse, get_or-swap, length-swap, swap-Inverse}
use cpp_torrent.Piece.{Piece, block_size, init, iota_u16}

-- The number of blocks that were never requested.
unfoldable pub count_none : List (Option ℕ) → ℕ
count_none [] = 0
count_none (none ∷ ts) = suc (count_none ts)
count_none (some t ∷ ts) = count_none ts

pub record IsValid (p : Piece) : Type 0 where
  pub blocks : p.blocks_cnt ≡ ceil_div p.piece_size block_size
  pub indexed : p.blocks_cnt ≤ u16_mod
  pub within : p.blocks_left ≤ p.blocks_cnt
  pub data_length : length p.piece_data ≡ p.piece_size
  pub time_length : length p.block_request_time ≡ p.blocks_cnt
  pub inverse : Inverse p.blocks_cnt p.remaining_blocks p.block_pos_in_rem
  pub unrequested : p.unrequested_blocks ≡ count_none p.block_request_time

count_none-replicate : (n : ℕ) → n ≡ count_none (replicate n none)
unfolding count_none
count_none-replicate zero = refl
count_none-replicate (suc n) = ap suc (count_none-replicate n)

init-Inverse : (n : ℕ) → n ≤ u16_mod → Inverse n (iota_u16 0 n) (iota_u16 0 n)
init-Inverse n h = record {
  rem_length = length-iota_u16 0 n;
  pos_length = length-iota_u16 0 n;
  rem_lt = λ j l. omega (arith, get_or-iota_u16 0 n j l (omega arith));
  pos_lt = λ j l. omega (arith, get_or-iota_u16 0 n j l (omega arith));
  pos_rem = λ j l. ground (arith, get_or-iota_u16 0 n j l (omega arith));
  rem_pos = λ j l. ground (arith, get_or-iota_u16 0 n j l (omega arith));
}

-- A new piece is valid if its blocks can be numbered by a uint16_t.
pub init-IsValid : (size timeout : ℕ) → size ≤ 2 ^ 30 → IsValid (init size timeout)
unfolding init
init-IsValid size timeout h = record {
  blocks = refl;
  indexed = ground arith;
  within = omega arith;
  data_length = length-replicate size 0;
  time_length = length-replicate (ceil_div size block_size) none;
  inverse = init-Inverse (ceil_div size block_size) (ground arith);
  unrequested = count_none-replicate (ceil_div size block_size);
}

pub piece_size-init : (size timeout : ℕ) → (init size timeout).piece_size ≡ size
unfolding init
piece_size-init size timeout = refl
