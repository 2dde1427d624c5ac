-- ===== src/PeerConnection/Endgame.antt =====
-- Loading requests into the send buffer in the endgame.
use cpp_torrent.Base.{
  ℕ, zero, suc, ◌+◌, ◌-◌, ◌≤◌, ◌≡◌, refl, sym, subst, ◌⊎◌, inl, inr, Option, none, some, List, [],
  ◌∷◌, arith, length, min, u32_mod, ◌%◌,
}
use cpp_torrent.Net.{Endian}
use cpp_torrent.PieceManager.Valid.{IsValid}
use cpp_torrent.PeerConnection.{Block, max_blocks_in_flight, max_blocks_per_request}
use cpp_torrent.PeerConnection.Requests.{
  Sending, cleared, push_request, swap_out, endgame_load_from, endgame_load_block_requests,
  endgame_send_blocks,
}
use cpp_torrent.PeerConnection.Pending.{Ready}
use cpp_torrent.PeerConnection.Load.Pushed.{Loaded, pushed, untouched}

pub blocks_cases : (bs : List Block) → (bs ≡ []) ⊎ ((b : Block) × (cs : List Block) × (bs ≡ b ∷ cs))
blocks_cases [] = inl refl
blocks_cases (b ∷ bs) = inr (b, bs, refl)

-- The first block that is left is taken out.
abbrev swapped : Sending → Sending
swapped t = record t {
  connection = record t.connection {
    endgame_remaining_blocks = swap_out t.connection.endgame_remaining_blocks 0;
  };
}

module _ (e : Endian) (now : ℕ) where
  loads :
      (n : ℕ) (s : Sending) (block : Block) (blocks : List Block) {t u : Sending}
      → s.connection.endgame_remaining_blocks ≡ block ∷ blocks
      → push_request e now block s ≡ some t
      → endgame_load_from e now n (swapped t) ≡ some u
      → endgame_load_from e now (suc n) s ≡ some u
  unfolding endgame_load_from
  loads n s block blocks {t} {u} left push on =
      let pushing : Option Sending → Option Sending =
        λ p. elim p [ none ↦ none | some v ↦ endgame_load_from e now n (swapped v) ] in
      let branch : List Block → Option Sending =
        λ bs. elim bs [ [] ↦ some s | b ∷ cs ↦ pushing (push_request e now b s) ] in
      subst (λ bs. branch bs ≡ some u) (sym left) (subst (λ p. pushing p ≡ some u) (sym push) on)

  endgame_load_from-Loaded :
      (n : ℕ) (s : Sending)
      → Ready s.connection
      → s.connection.count + n ≤ max_blocks_in_flight
      → IsValid s.manager
      → s.manager.pieces_cnt ≤ length s.connection.bitfield
      → length s.request_payload ≡ 12
      → (t : Sending) × (endgame_load_from e now n s ≡ some t)
        × Loaded e now s t
        × (t.connection.count ≤ s.connection.count + n)
  unfolding endgame_load_from
  endgame_load_from-Loaded zero s r room v bits twelve =
      (s, refl, untouched e now s r v bits twelve, omega arith)
  endgame_load_from-Loaded (suc n) s r room v bits twelve =
      elim (blocks_cases s.connection.endgame_remaining_blocks) [
        | inl none_left ↦
            (s, simp (endgame_load_from, none_left), untouched e now s r v bits twelve, omega arith)
        | inr (block, blocks, left) ↦
            let (t, push, l, c) = pushed e now block s r (omega arith) v bits twelve in
            let (u, on, k, d) =
              endgame_load_from-Loaded n (swapped t)
                (record { places = l.ready.places; taken = l.ready.taken }) (omega arith) l.manager
                l.bits l.payload in
            (
              u,
              loads n s block blocks left push on,
              record {
                ready = k.ready;
                manager = k.manager;
                bits = k.bits;
                payload = k.payload;
                pending = omega (arith, l.pending, k.pending);
                buffer = omega (arith, l.buffer, k.buffer);
              },
              omega arith,
            )
      ]

  -- The requests of a turn in the endgame do not fault, and are five at most.
  pub endgame_send_blocks-Loaded :
      (s : Sending)
      → Ready s.connection
      → IsValid s.manager
      → s.manager.pieces_cnt ≤ length s.connection.bitfield
      → length s.request_payload ≡ 12
      → (t : Sending) × (endgame_send_blocks e now s ≡ some t)
        × Ready t.connection
        × (t.messages ≤ max_blocks_per_request)
  unfolding endgame_send_blocks endgame_load_block_requests
  endgame_send_blocks-Loaded s r v bits twelve =
      let n =
        min ((max_blocks_in_flight + u32_mod - s.connection.count) % u32_mod)
          max_blocks_per_request in
      let (t, run, l, c) =
        endgame_load_from-Loaded n (cleared s) r (omega (arith, r.taken)) v bits twelve in
      (t, run, l.ready, omega (arith, l.pending, c))
