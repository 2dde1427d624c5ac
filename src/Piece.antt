-- ===== src/Piece.antt =====
-- src/Piece.hpp and src/Piece.cpp: one piece under download, its blocks and their bookkeeping.
-- The clock is an argument, read once for each call; `none` is a request time of `time_point::min()`.
-- A faulting call (an index out of range, a copy past the end) returns `none`.
pub mod Valid
pub mod Receive
pub mod Request
pub mod Missing
mod Tests
use cpp_torrent.Base.{
  ℕ, zero, suc, ◌+◌, ◌-◌, ◌*◌, ◌/◌, ◌%◌, ◌^◌, Bool, true, false, ◌&&◌, ◌||◌, not, Option, none,
  some, List, [], ◌∷◌, ltb, leb, ◌==◌, if◌then◌else◌, length, get_or, set, take, replicate, splice,
  u16_mod, u32_mod, sub_size, ceil_div,
}

abbrev pub block_size : ℕ
block_size = 2 ^ 14

pub record Piece : Type 0 where
  pub piece_size : ℕ
  pub blocks_cnt : ℕ
  pub blocks_left : ℕ
  pub unrequested_blocks : ℕ
  pub block_request_timeout : ℕ
  pub piece_data : List ℕ
  pub block_request_time : List (Option ℕ)
  pub remaining_blocks : List ℕ
  pub block_pos_in_rem : List ℕ

-- `n` numbers from `i`, each kept in a uint16_t.
unfoldable pub iota_u16 : ℕ → ℕ → List ℕ
iota_u16 i zero = []
iota_u16 i (suc n) = (i % u16_mod) ∷ iota_u16 (suc i) n

-- The constructor.
unfoldable pub init : ℕ → ℕ → Piece
init size timeout = record {
  piece_size = size;
  blocks_cnt = ceil_div size block_size;
  blocks_left = ceil_div size block_size;
  unrequested_blocks = ceil_div size block_size;
  block_request_timeout = timeout;
  piece_data = replicate size 0;
  block_request_time = replicate (ceil_div size block_size) none;
  remaining_blocks = iota_u16 0 (ceil_div size block_size);
  block_pos_in_rem = iota_u16 0 (ceil_div size block_size);
}

abbrev pub is_complete : Piece → Bool
is_complete p = p.blocks_left == 0

abbrev pub get_block_index : ℕ → ℕ
get_block_index offset = offset / block_size

abbrev pub get_block_offset : ℕ → ℕ
get_block_offset block_index = (block_index * block_size) % u32_mod

abbrev pub get_unreq_blocks_cnt : Piece → ℕ
get_unreq_blocks_cnt p = p.unrequested_blocks

abbrev pub get_remaining_blocks : Piece → List ℕ
get_remaining_blocks p = take p.blocks_left p.remaining_blocks

-- The body of `is_block_received`, for an index within `block_pos_in_rem_`.
abbrev pub is_block_received : Piece → ℕ → Bool
is_block_received p block_index = leb p.blocks_left (get_or p.block_pos_in_rem block_index 0)

abbrev timed_out_at : Option ℕ → ℕ → ℕ → Bool
timed_out_at none timeout now = true
timed_out_at (some t) timeout now = ltb (t + timeout) now

abbrev pub is_block_timed_out : Piece → ℕ → ℕ → Bool
is_block_timed_out p now block_index =
    timed_out_at (get_or p.block_request_time block_index none) p.block_request_timeout now

abbrev is_set : Option ℕ → Bool
is_set none = false
is_set (some t) = true

abbrev pub is_block_requested : Piece → ℕ → Bool
is_block_requested p block_index = is_set (get_or p.block_request_time block_index none)

-- `std::swap` on two elements of a vector.
unfoldable pub swap : List ℕ → ℕ → ℕ → List ℕ
swap xs i j = set (set xs i (get_or xs j 0)) j (get_or xs i 0)

-- The block moves behind the blocks that are left, and `swapped_block` takes its place.
unfoldable pub mark_received : Piece → ℕ → Piece
mark_received p block_index =
    let swapped_block = get_or p.remaining_blocks (sub_size p.blocks_left 1) 0 in
    record p {
      remaining_blocks =
          swap p.remaining_blocks (get_or p.block_pos_in_rem block_index 0)
            (sub_size p.blocks_left 1);
      block_pos_in_rem = swap p.block_pos_in_rem block_index swapped_block;
      blocks_left = sub_size p.blocks_left 1;
    }

-- Whether the copy of a block leaves the piece; `views::drop` stops at the end of the data, so that no bytes may
-- be copied to any offset.
abbrev pub overruns : Piece → List ℕ → ℕ → Bool
overruns p block offset = ltb 0 (length block) && ltb p.piece_size (offset + length block)

-- `is_block_received` takes a uint16_t, so the index is cut before the assertion.
unfoldable pub receive_block : Piece → List ℕ → ℕ → Option Piece
unfolding mark_received
receive_block p block offset =
    let index = get_block_index (offset % u32_mod) in
    if not (ltb (index % u16_mod) p.blocks_cnt)
    then none
    else if is_block_received p (index % u16_mod)
    then some p
    else if overruns p block offset || not (ltb index p.blocks_cnt)
    then none
    else some (mark_received (record p { piece_data = splice p.piece_data offset block }) index)

-- The loop of `request_next_block` skips a received block, and one that was requested in time.
abbrev pub skips : Piece → ℕ → ℕ → Bool
skips p now b =
    is_block_received p b || (is_block_requested p b && not (is_block_timed_out p now b))

unfoldable pub next_block : Piece → ℕ → List ℕ → Option ℕ
next_block p now [] = none
next_block p now (b ∷ bs) = if skips p now b then next_block p now bs else some b

unfoldable pub size_of_block : Piece → ℕ → ℕ
size_of_block p b =
    if b == sub_size p.blocks_cnt 1 then 1 + sub_size p.piece_size 1 % block_size else block_size

-- What the loop does to the block that it settles on.
unfoldable pub mark_requested : Piece → ℕ → ℕ → Piece
mark_requested p now b = record p {
  unrequested_blocks = sub_size p.unrequested_blocks (if is_block_requested p b then 0 else 1);
  block_request_time = set p.block_request_time b (some now);
}

-- The offset and the size of the block to request, and the piece after the call.
unfoldable pub request_next_block : Piece → ℕ → Option (ℕ × ℕ) × Piece
unfolding next_block mark_requested size_of_block
request_next_block p now = elim (next_block p now (get_remaining_blocks p)) [
  | none ↦ (none, p)
  | some b ↦ (some ((b * block_size) % u32_mod, size_of_block p b), mark_requested p now b)
]
