-- ===== src/Piece/Receive/Marks.antt =====
-- What marking a block as received, and storing its bytes, do to a piece.
use cpp_torrent.Base.{
  ℕ, ◌+◌, ◌-◌, ◌≤◌, ◌<◌, ◌≡◌, true, false, ◌||◌, some, List, arith, ◌==◌, if◌then◌else◌, length,
  get_or, take, drop, splice, length-splice, u32_mod, sub_size,
}
use cpp_torrent.Piece.{Piece, mark_received, receive_block, is_block_received, get_block_index}
use cpp_torrent.Piece.Valid.{IsValid, get_or-swap, swap-Inverse}

-- Decrementing the count of blocks that are left does not wrap.
pub last_left :
    (p : Piece) → IsValid p → 0 < p.blocks_left → sub_size p.blocks_left 1 ≡ p.blocks_left - 1
last_left p v h = omega (arith, v.within, v.indexed)

-- A block within the piece that has not been received leaves at least one block to receive.
pub left_pos : (p : Piece) (b : ℕ) → is_block_received p b ≡ false → 0 < p.blocks_left
left_pos p b h = ground arith

pub mark_received-IsValid :
    (p : Piece) (b : ℕ)
    → IsValid p
    → b < p.blocks_cnt
    → is_block_received p b ≡ false
    → IsValid (mark_received p b)
unfolding mark_received
mark_received-IsValid p b v h n =
    let pos = left_pos p b n in
    let e = last_left p v pos in
    record {
      blocks = v.blocks;
      indexed = v.indexed;
      within = omega (arith, e, v.within, pos);
      data_length = v.data_length;
      time_length = v.time_length;
      inverse =
          swap-Inverse v.inverse b (sub_size p.blocks_left 1) h (omega (arith, e, v.within, pos));
      unrequested = v.unrequested;
    }

-- The block is received, and no other block's status changes.
pub mark_received-received :
    (p : Piece) (b c : ℕ)
    → IsValid p
    → b < p.blocks_cnt
    → c < p.blocks_cnt
    → is_block_received p b ≡ false
    → is_block_received (mark_received p b) c ≡ (c == b || is_block_received p c)
unfolding mark_received
mark_received-received p b c v hb hc n =
    let inv = v.inverse in
    let last = sub_size p.blocks_left 1 in
    let e = last_left p v (left_pos p b n) in
    let swapped = get_or p.remaining_blocks last 0 in
    ground (
      arith,
      e,
      left_pos p b n,
      v.within,
      get_or-swap p.block_pos_in_rem b swapped c,
      inv.pos_length,
      inv.pos_rem last (omega (arith, e, v.within, left_pos p b n)),
      inv.rem_lt last (omega (arith, e, v.within, left_pos p b n)),
      inv.rem_pos c hc,
      inv.rem_pos b hb,
      inv.pos_lt c hc,
    )

pub receive_block-eq_some :
    (p : Piece) (block : List ℕ) (offset : ℕ)
    → IsValid p
    → offset < u32_mod
    → get_block_index offset < p.blocks_cnt
    → is_block_received p (get_block_index offset) ≡ false
    → offset + length block ≤ p.piece_size
    → receive_block p block offset
      ≡ some (
          mark_received
            (record p { piece_data = splice p.piece_data offset block })
            (get_block_index offset))
unfolding receive_block
receive_block-eq_some p block offset v ho hi n fits = ground (arith, v.indexed)

-- What one delivered block changes: `q` is the piece after `block` came for `offset`.
pub record Delivered (p : Piece) (block : List ℕ) (offset : ℕ) (q : Piece) : Type 0 where
  pub valid : IsValid q
  pub status :
      (c : ℕ)
      → c < p.blocks_cnt
      → is_block_received q c ≡ (c == get_block_index offset || is_block_received p c)
  pub left :
      q.blocks_left + (if is_block_received p (get_block_index offset) then 0 else 1)
      ≡ p.blocks_left
  pub stored :
      is_block_received p (get_block_index offset) ≡ false
      → take (length block) (drop offset q.piece_data) ≡ block
  pub before : take offset q.piece_data ≡ take offset p.piece_data
  pub behind : drop (offset + length block) q.piece_data ≡ drop (offset + length block) p.piece_data
  pub again : is_block_received p (get_block_index offset) ≡ true → q ≡ p
  pub times : q.block_request_time ≡ p.block_request_time

pub set_data-IsValid :
    (p : Piece) (block : List ℕ) (offset : ℕ)
    → IsValid p
    → offset + length block ≤ p.piece_size
    → IsValid (record p { piece_data = splice p.piece_data offset block })
set_data-IsValid p block offset v h = record {
  blocks = v.blocks;
  indexed = v.indexed;
  within = v.within;
  data_length = omega (
    arith,
    v.data_length,
    length-splice p.piece_data offset block (omega (arith, v.data_length)),
  );
  time_length = v.time_length;
  inverse = v.inverse;
  unrequested = v.unrequested;
}
