-- ===== src/Piece/Missing.antt =====
-- The blocks that a piece still misses, as a set: `get_remaining_blocks` and `is_complete`. Piece.hpp.
use cpp_torrent.Base.{
  ℕ, ◌<◌, ◌≡◌, true, false, ◌↔◌, arith, get_or, In, get_or-In, In-get_or, Bool-cases, inl, inr,
  subst,
}
use cpp_torrent.Piece.{Piece, is_block_received, get_remaining_blocks, is_complete}
use cpp_torrent.Piece.Valid.{IsValid}

-- For a valid piece: a number is listed as a remaining block exactly when it is a block of the
-- piece that was not received.
pub In-get_remaining_blocks :
    (p : Piece) (b : ℕ)
    → IsValid p
    → In b (get_remaining_blocks p) ↔ ((b < p.blocks_cnt) × (is_block_received p b ≡ false))
In-get_remaining_blocks p b v = (listed, λ (h, n). missing h n)
  where
    listed : In b (get_remaining_blocks p) → (b < p.blocks_cnt) × (is_block_received p b ≡ false)
    listed h =
        let (j, l, m, e) = In-get_or 0 b p.remaining_blocks p.blocks_left h in
        ground (arith, e, v.inverse.rem_lt j, v.inverse.pos_rem j, v.within)

    missing : b < p.blocks_cnt → is_block_received p b ≡ false → In b (get_remaining_blocks p)
    missing h n =
        subst (λ c. In c (get_remaining_blocks p)) (v.inverse.rem_pos b h)
          (get_or-In 0 p.remaining_blocks p.blocks_left (get_or p.block_pos_in_rem b 0)
            (ground arith) (omega (arith, v.within, v.inverse.rem_length)))

-- A valid piece says that it is complete exactly when each of its blocks was received.
pub is_complete_iff :
    (p : Piece)
    → IsValid p
    → (is_complete p ≡ true) ↔ ((b : ℕ) → b < p.blocks_cnt → is_block_received p b ≡ true)
is_complete_iff p v = (
  λ e b h. ground arith,
  λ all. elim (Bool-cases (is_complete p)) [
    | inl done ↦ done
    | inr open_ ↦ ground (
      arith,
      v.within,
      v.inverse.rem_lt 0,
      v.inverse.pos_rem 0,
      all (get_or p.remaining_blocks 0 0),
    )
  ],
)
