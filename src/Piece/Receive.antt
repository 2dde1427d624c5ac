-- ===== src/Piece/Receive.antt =====
-- What `Piece::receive_block` does on each of its branches. Piece.cpp.
pub mod Marks
use cpp_torrent.Base.{
  ℕ, ◌+◌, ◌-◌, ◌%◌, ◌≤◌, ◌<◌, ◌≡◌, refl, true, false, ◌||◌, none, some, List, [], ◌∷◌, sym,
  splice-nil, arith, ◌==◌, if◌then◌else◌, length, get_or, take, drop, splice, length-splice,
  take-drop-splice, subst, take-splice, u16_mod, u32_mod, sub_size, ◌↔◌, drop-splice, ◌⊎◌, inl, inr,
  Bool-cases,
}
use cpp_torrent.Piece.{
  Piece, overruns, mark_received, receive_block, is_block_received, get_block_index,
}
use cpp_torrent.Piece.Valid.{IsValid, get_or-swap, swap-Inverse}
use cpp_torrent.Piece.Receive.Marks.{
  last_left, left_pos, mark_received-IsValid, mark_received-received, receive_block-eq_some,
  Delivered, set_data-IsValid,
}

first_delivery :
    (p : Piece) (block : List ℕ) (offset : ℕ)
    → IsValid p
    → get_block_index offset < p.blocks_cnt
    → is_block_received p (get_block_index offset) ≡ false
    → offset + length block ≤ p.piece_size
    → Delivered p block offset (
        mark_received
          (record p { piece_data = splice p.piece_data offset block })
          (get_block_index offset))
unfolding mark_received
first_delivery p block offset v hi n fits =
    let w = set_data-IsValid p block offset v fits in
    let s = record p { piece_data = splice p.piece_data offset block } in
    let room : offset + length block ≤ length p.piece_data = omega (arith, v.data_length) in
    record {
      valid = mark_received-IsValid s (get_block_index offset) w hi n;
      status = λ c hc. mark_received-received s (get_block_index offset) c w hi hc n;
      left = ground (
        arith,
        last_left p v (left_pos p (get_block_index offset) n),
        left_pos p (get_block_index offset) n,
      );
      stored = λ _. take-drop-splice p.piece_data offset block room;
      before = take-splice p.piece_data offset block room;
      behind = drop-splice p.piece_data offset block room;
      again = λ e. cc;
      times = refl;
    }

-- A block whose offset lies in a block of a valid piece, and that ends within the piece, is
-- received without a fault. The piece stays valid, and exactly that block becomes received; if it
-- was not received before, its bytes stand at its offset, and the bytes around them stay; if it
-- was, nothing changes.
pub receive_block-Delivered :
    (p : Piece) (block : List ℕ) (offset : ℕ)
    → IsValid p
    → offset < u32_mod
    → get_block_index offset < p.blocks_cnt
    → offset + length block ≤ p.piece_size
    → (q : Piece) × (receive_block p block offset ≡ some q) × Delivered p block offset q
unfolding receive_block
receive_block-Delivered p block offset v ho hi fits =
    elim (Bool-cases (is_block_received p (get_block_index offset))) [
      | inl old ↦ (
        p,
        ground (arith, v.indexed),
        record {
          valid = v;
          status = λ c hc. ground arith;
          left = ground arith;
          stored = λ e. cc;
          before = refl;
          behind = refl;
          again = λ _. refl;
          times = refl;
        },
      )
      | inr new ↦ (
        mark_received (record p { piece_data = splice p.piece_data offset block })
            (get_block_index offset),
        receive_block-eq_some p block offset v ho hi new fits,
        first_delivery p block offset v hi new fits,
      )
    ]

-- For a valid piece and an offset whose block has a uint16_t index: the call faults exactly when
-- the offset lies behind the last block, or when a block that was not received yet has bytes and
-- reaches past the end of the piece.
pub receive_block-none_iff :
    (p : Piece) (block : List ℕ) (offset : ℕ)
    → IsValid p
    → offset < u32_mod
    → get_block_index offset < u16_mod
    → (receive_block p block offset ≡ none) ↔ (
        (p.blocks_cnt ≤ get_block_index offset)
        ⊎ ((is_block_received p (get_block_index offset) ≡ false)
            × (0 < length block)
            × (p.piece_size < offset + length block)))
unfolding receive_block
receive_block-none_iff p block offset v ho hi =
    (λ e. ground (arith, v.indexed), λ d. ground (arith, v.indexed))

-- A call that does not fault returns the piece itself, or with the block stored and marked.
receive_block-inversion :
    (p : Piece) (block : List ℕ) (offset : ℕ) {q : Piece}
    → IsValid p
    → offset < u32_mod
    → receive_block p block offset ≡ some q
    → (p ≡ q)
      ⊎ ((get_block_index offset < p.blocks_cnt)
          × (is_block_received p (get_block_index offset) ≡ false)
          × (overruns p block offset ≡ false)
          × (mark_received
                (record p { piece_data = splice p.piece_data offset block })
                (get_block_index offset)
              ≡ q))
unfolding receive_block
receive_block-inversion p block offset {q} v ho e =
    let i = get_block_index (offset % u32_mod) in
    elim (Bool-cases (is_block_received p (i % u16_mod))) [
      | inl old ↦ inl (ground arith)
      | inr new ↦
          let inside : i < p.blocks_cnt = ground arith in
          let same : i % u16_mod ≡ get_block_index offset = omega (arith, v.indexed) in
          let whole : i ≡ get_block_index offset = omega arith in
          inr (omega arith, rw (← same) new, ground arith, ground arith)
    ]

stored-IsValid :
    (p : Piece) (block : List ℕ) (offset : ℕ)
    → IsValid p
    → overruns p block offset ≡ false
    → IsValid (record p { piece_data = splice p.piece_data offset block })
stored-IsValid p [] offset v h =
    subst (λ bytes. IsValid (record p { piece_data = bytes }))
      (sym (splice-nil p.piece_data offset)) v
stored-IsValid p (b ∷ bs) offset v h = set_data-IsValid p (b ∷ bs) offset v (ground arith)

-- A call that does not fault keeps the piece valid, and its size.
pub receive_block_kept :
    (p : Piece) (block : List ℕ) (offset : ℕ) {q : Piece}
    → IsValid p
    → offset < u32_mod
    → receive_block p block offset ≡ some q
    → IsValid q × (q.piece_size ≡ p.piece_size)
unfolding mark_received
receive_block_kept p block offset {q} v ho e =
    elim (receive_block-inversion p block offset v ho e) [
      | inl same ↦ subst (λ x. IsValid x × (x.piece_size ≡ p.piece_size)) same (v, refl)
      | inr (hi, n, fits, same) ↦
          subst (λ x. IsValid x × (x.piece_size ≡ p.piece_size)) same
            (
              mark_received-IsValid (record p { piece_data = splice p.piece_data offset block })
                  (get_block_index offset) (stored-IsValid p block offset v fits) hi n,
              refl,
            )
    ]
