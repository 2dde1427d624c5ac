-- ===== src/Swarm/Endgame.antt =====
-- A turn of the coroutine that sends in the endgame does not touch the piece manager, nor the bitfield.
use cpp_torrent.Base.{
  ℕ, Bool, if◌then◌else◌, zero, suc, ◌+◌, ◌-◌, ◌≡◌, sym, ap, subst, some, [], ◌∷◌, ◌++◌, ltb, leb,
  length, get_or, Bool-cases, Option-cases, inl, inr, some_injective, none-ne-some, min, u32_mod,
  ◌%◌,
}
use cpp_torrent.Net.{Endian}
use cpp_torrent.PieceManager
use cpp_torrent.PeerConnection.{
  no_request, max_blocks_in_flight, max_blocks_per_request, request_timeout, remove_pending,
}
use cpp_torrent.PeerConnection.Requests.{
  Sending, cleared, push_request, push_cancel, swap_out, endgame_load_from,
  endgame_load_block_requests, resolve_pending, drop_received, endgame_refresh_pending_requests,
  endgame_send_cancels, endgame_send_blocks,
}
use cpp_torrent.PeerConnection.Endgame.{blocks_cases}
use cpp_torrent.Swarm.Requests.{Same, Same-trans, push_request-Same, push_cancel-Same}

endgame_load_from-Same :
    (e : Endian) (now k : ℕ) (s : Sending) {t : Sending}
    → endgame_load_from e now k s ≡ some t
    → Same s t
unfolding endgame_load_from Same
endgame_load_from-Same e now zero s h =
    let same = some_injective h in
    (sym (ap (λ x. x.manager) same), sym (ap (λ x. x.connection.bitfield) same))
endgame_load_from-Same e now (suc k) s {t} h =
    elim (blocks_cases s.connection.endgame_remaining_blocks) [
      | inl none_left ↦
          let same = some_injective (rw (endgame_load_from, none_left) at h) in
          (sym (ap (λ x. x.manager) same), sym (ap (λ x. x.connection.bitfield) same))
      | inr (block, blocks, left) ↦ elim (Option-cases (push_request e now block s)) [
        | inl bad ↦ absurd (none-ne-some (rw (endgame_load_from, left, bad) at h))
        | inr (u, pushed) ↦
            let v : Sending = record u {
              connection = record u.connection {
                endgame_remaining_blocks = swap_out u.connection.endgame_remaining_blocks 0;
              };
            } in
            Same-trans s u t (push_request-Same e now block s pushed)
              (endgame_load_from-Same e now k v {t = t} (rw (endgame_load_from, left, pushed) at h))
      ]
    ]

-- The pending request `i` goes back to the blocks to ask for.
abbrev pub requeued : ℕ → Sending → Sending
requeued i s = record s {
  connection = record (remove_pending i s.connection) {
    endgame_remaining_blocks =
        s.connection.endgame_remaining_blocks
        ++ ((get_or s.connection.blocks_info i no_request).0 ∷ []);
  };
}

-- A request is taken off the pending ones, or not.
resolve_pending-Same :
    (e : Endian) (now fuel i : ℕ) (s : Sending) {t : Sending}
    → resolve_pending e now fuel i s ≡ some t
    → Same s t
unfolding resolve_pending Same remove_pending
resolve_pending-Same e now zero i s h =
    let same = some_injective h in
    (sym (ap (λ x. x.manager) same), sym (ap (λ x. x.connection.bitfield) same))
resolve_pending-Same e now (suc fuel) i s {t} h =
    let ((p, o, n), time) = get_or s.connection.blocks_info i no_request in
    let removed : Sending = record s { connection = remove_pending i s.connection } in
    elim (Bool-cases (ltb i s.connection.count)) [
      | inr past ↦
          let same = some_injective (rw (resolve_pending, past) at h) in
          (sym (ap (λ x. x.manager) same), sym (ap (λ x. x.connection.bitfield) same))
      | inl inside ↦ elim (Option-cases (PieceManager.is_block_received p o s.manager)) [
        | inl bad ↦ absurd (none-ne-some (rw (resolve_pending, inside, bad) at h))
        | inr (received, asked) ↦ elim (Bool-cases received) [
          | inl there ↦ elim (Option-cases (push_cancel e now (p, o, n) removed)) [
            | inl bad ↦ absurd (none-ne-some (rw (resolve_pending, inside, asked, there, bad) at h))
            | inr (u, pushed) ↦ Same-trans s u t (push_cancel-Same e now (p, o, n) removed pushed) (
                resolve_pending-Same e now fuel i u {t = t}
                  (rw (resolve_pending, inside, asked, there, pushed) at h))
          ]
          | inr missing ↦ elim (Bool-cases (leb now (time + request_timeout))) [
            | inl fresh ↦
                resolve_pending-Same e now fuel i (requeued i s) {t = t}
                  (rw (resolve_pending, inside, asked, missing, fresh) at h)
            | inr stale ↦
                resolve_pending-Same e now fuel (i + 1) s {t = t}
                  (rw (resolve_pending, inside, asked, missing, stale) at h)
          ]
        ]
      ]
    ]

refresh-Same :
    (e : Endian) (now : ℕ) (s : Sending) {t : Sending}
    → endgame_refresh_pending_requests e now s ≡ some t
    → Same s t
unfolding endgame_refresh_pending_requests Same
refresh-Same e now s {t} h =
    let blocks = s.connection.endgame_remaining_blocks in
    elim (Option-cases (drop_received e now (length blocks) 0 s.manager blocks)) [
      | inl bad ↦ absurd (none-ne-some (rw (endgame_refresh_pending_requests, bad) at h))
      | inr (left, dropped) ↦
          resolve_pending-Same e now s.connection.count 0
            (cleared
              (record s { connection = record s.connection { endgame_remaining_blocks = left } }))
            {t = t} (rw (endgame_refresh_pending_requests, dropped) at h)
    ]

pub endgame_send_cancels-Same :
    (e : Endian) (now : ℕ) (s : Sending) {t : Sending}
    → endgame_send_cancels e now s ≡ some t
    → Same s t
unfolding endgame_send_cancels Same
endgame_send_cancels-Same e now s {t} h =
    let branch : Bool → Type 0 =
      λ b. (if b then some (cleared s) else endgame_refresh_pending_requests e now s) ≡ some t in
    elim (Bool-cases s.connection.peer_choking) [
      | inl choked ↦
          let same = some_injective (subst branch choked h) in
          (sym (ap (λ x. x.manager) same), sym (ap (λ x. x.connection.bitfield) same))
      | inr free ↦ refresh-Same e now s {t = t} (subst branch free h)
    ]

pub endgame_send_blocks-Same :
    (e : Endian) (now : ℕ) (s : Sending) {t : Sending}
    → endgame_send_blocks e now s ≡ some t
    → Same s t
unfolding endgame_send_blocks endgame_load_block_requests Same
endgame_send_blocks-Same e now s {t} h =
    endgame_load_from-Same e now
      (min ((max_blocks_in_flight + u32_mod - s.connection.count) % u32_mod) max_blocks_per_request)
      (cleared s) {t = t} h
