-- ===== src/Swarm/InFlight.antt =====
-- The requests that a connection has in flight, in its turns.
use cpp_torrent.Base.{
  ℕ, zero, suc, ◌+◌, ◌-◌, ◌≡◌, ap, subst, ◌∙◌, Bool, some, arith, ltb, leb, if◌then◌else◌, length,
  length-set, replicate, get_or, Bool-cases, Option-cases, inl, inr, some_injective, none-ne-some,
  min, u32_mod, ◌%◌,
}
use cpp_torrent.Net.{Endian}
use cpp_torrent.Message.{create_request_message, create_cancel_message}
use cpp_torrent.PieceManager
use cpp_torrent.PeerConnection.{
  Block, no_request, max_blocks_in_flight, max_blocks_per_request, request_timeout, remove_pending,
  add_pending,
}
use cpp_torrent.PeerConnection.Pending.{Ready, remove_pending-Ready}
use cpp_torrent.PeerConnection.Refresh.{refresh_pending_requests-stale}
use cpp_torrent.PeerConnection.Requests.{
  Sending, request_size, cleared, push_request, push_cancel, load_from, load_block_requests,
  refresh_pending_requests, wanted, send_requests, swap_out, endgame_load_from,
  endgame_load_block_requests, resolve_pending, drop_received, endgame_refresh_pending_requests,
  endgame_send_cancels, endgame_send_blocks, enter_endgame,
}
use cpp_torrent.PeerConnection.Endgame.{blocks_cases}
use cpp_torrent.Swarm.Endgame.{requeued}

push_request-Ready :
    (e : Endian) (now : ℕ) (block : Block) (s : Sending) {t : Sending}
    → Ready s.connection
    → push_request e now block s ≡ some t
    → Ready t.connection
unfolding push_request add_pending
push_request-Ready e now (p, o, n) s {t} r h =
    elim (Option-cases
      (create_request_message e s.request_payload (replicate request_size 0) p o n).1) [
        | inl bad ↦ absurd (none-ne-some (rw bad at h))
        | inr (message, good) ↦
            elim (Bool-cases (ltb s.connection.count (length s.connection.blocks_info))) [
              | inr full ↦ absurd (none-ne-some (rw (good, full) at h))
              | inl place ↦
                  subst (λ x. Ready x.connection) (some_injective (rw (good, place) at h))
                    (record {
                      places =
                          length-set s.connection.blocks_info s.connection.count ((p, o, n), now)
                          ∙ r.places;
                      taken = ground (arith, place, r.places);
                    })
            ]
      ]

push_cancel-connection :
    (e : Endian) (now : ℕ) (block : Block) (s : Sending) {t : Sending}
    → push_cancel e now block s ≡ some t
    → s.connection ≡ t.connection
unfolding push_cancel
push_cancel-connection e now (p, o, n) s h =
    elim (Option-cases
      (create_cancel_message e s.cancel_payload (replicate request_size 0) p o n).1) [
        | inl bad ↦ absurd (none-ne-some (rw bad at h))
        | inr (message, good) ↦ ap (λ x. x.connection) (some_injective (rw good at h))
      ]

load_from-Ready :
    (e : Endian) (now k : ℕ) (s : Sending) {t : Sending}
    → Ready s.connection
    → load_from e now k s ≡ some t
    → Ready t.connection
unfolding load_from
load_from-Ready e now zero s r h = subst (λ x. Ready x.connection) (some_injective h) r
load_from-Ready e now (suc k) s {t} r h =
    elim (Option-cases (PieceManager.request_next_block s.connection.bitfield now s.manager)) [
      | inl bad ↦ absurd (none-ne-some (rw (load_from, bad) at h))
      | inr ((answer, m), asked) ↦ elim (Option-cases answer) [
        | inl no_more ↦
            subst (λ x. Ready x.connection) (some_injective (rw (load_from, asked, no_more) at h)) r
        | inr (block, more) ↦
            elim (Option-cases (push_request e now block (record s { manager = m }))) [
              | inl bad ↦ absurd (none-ne-some (rw (load_from, asked, more, bad) at h))
              | inr (u, pushed) ↦
                  load_from-Ready e now k u {t = t}
                    (push_request-Ready e now block (record s { manager = m }) r pushed)
                    (rw (load_from, asked, more, pushed) at h)
            ]
      ]
    ]

pub send_requests-Ready :
    (e : Endian) (now : ℕ) (s : Sending) {t : Sending}
    → Ready s.connection
    → send_requests e now s ≡ some t
    → Ready t.connection
unfolding send_requests load_block_requests
send_requests-Ready e now s {t} r h =
    let c = refresh_pending_requests e now s.connection in
    let loading = cleared (record s { connection = c }) in
    let going : Bool → Type 0 = λ b.
      (if b then some (enter_endgame e now s) else load_from e now (wanted e now c) loading)
      ≡ some t in
    let branch : Bool → Type 0 = λ b.
      (if b
        then some (cleared s)
        else if s.manager.endgame
        then some (enter_endgame e now s)
        else load_from e now (wanted e now c) loading)
      ≡ some t in
    elim (Bool-cases s.connection.peer_choking) [
      | inl choked ↦ subst (λ x. Ready x.connection) (some_injective (subst branch choked h)) r
      | inr free ↦ elim (Bool-cases s.manager.endgame) [
        | inl endgame ↦
            subst (λ x. Ready x.connection)
              (some_injective (subst going endgame (subst branch free h)))
              (record { places = r.places; taken = r.taken })
        | inr more ↦
            load_from-Ready e now (wanted e now c) loading {t = t}
              (refresh_pending_requests-stale e now s.connection r).0
              (subst going more (subst branch free h))
      ]
    ]

endgame_load_from-Ready :
    (e : Endian) (now k : ℕ) (s : Sending) {t : Sending}
    → Ready s.connection
    → endgame_load_from e now k s ≡ some t
    → Ready t.connection
unfolding endgame_load_from
endgame_load_from-Ready e now zero s r h = subst (λ x. Ready x.connection) (some_injective h) r
endgame_load_from-Ready e now (suc k) s {t} r h =
    elim (blocks_cases s.connection.endgame_remaining_blocks) [
      | inl none_left ↦
          subst (λ x. Ready x.connection) (some_injective (rw (endgame_load_from, none_left) at h))
            r
      | inr (block, blocks, left) ↦ elim (Option-cases (push_request e now block s)) [
        | inl bad ↦ absurd (none-ne-some (rw (endgame_load_from, left, bad) at h))
        | inr (u, pushed) ↦
            let v : Sending = record u {
              connection = record u.connection {
                endgame_remaining_blocks = swap_out u.connection.endgame_remaining_blocks 0;
              };
            } in
            let k' = push_request-Ready e now block s r pushed in
            endgame_load_from-Ready e now k v {t = t}
              (record { places = k'.places; taken = k'.taken })
              (rw (endgame_load_from, left, pushed) at h)
      ]
    ]

resolve_pending-Ready :
    (e : Endian) (now fuel i : ℕ) (s : Sending) {t : Sending}
    → Ready s.connection
    → resolve_pending e now fuel i s ≡ some t
    → Ready t.connection
unfolding resolve_pending
resolve_pending-Ready e now zero i s r h = subst (λ x. Ready x.connection) (some_injective h) r
resolve_pending-Ready e now (suc fuel) i s {t} r h =
    let ((p, o, n), time) = get_or s.connection.blocks_info i no_request in
    let removed : Sending = record s { connection = remove_pending i s.connection } in
    let less = remove_pending-Ready i s.connection r in
    elim (Bool-cases (ltb i s.connection.count)) [
      | inr past ↦
          subst (λ x. Ready x.connection) (some_injective (rw (resolve_pending, past) at h)) r
      | inl inside ↦ elim (Option-cases (PieceManager.is_block_received p o s.manager)) [
        | inl bad ↦ absurd (none-ne-some (rw (resolve_pending, inside, bad) at h))
        | inr (received, asked) ↦ elim (Bool-cases received) [
          | inl there ↦ elim (Option-cases (push_cancel e now (p, o, n) removed)) [
            | inl bad ↦ absurd (none-ne-some (rw (resolve_pending, inside, asked, there, bad) at h))
            | inr (u, pushed) ↦
                resolve_pending-Ready e now fuel i u {t = t}
                  (subst Ready (push_cancel-connection e now (p, o, n) removed pushed) less)
                  (rw (resolve_pending, inside, asked, there, pushed) at h)
          ]
          | inr missing ↦ elim (Bool-cases (leb now (time + request_timeout))) [
            | inl fresh ↦
                resolve_pending-Ready e now fuel i (requeued i s) {t = t}
                  (record { places = less.places; taken = less.taken })
                  (rw (resolve_pending, inside, asked, missing, fresh) at h)
            | inr stale ↦
                resolve_pending-Ready e now fuel (i + 1) s {t = t} r
                  (rw (resolve_pending, inside, asked, missing, stale) at h)
          ]
        ]
      ]
    ]

refresh-Ready :
    (e : Endian) (now : ℕ) (s : Sending) {t : Sending}
    → Ready s.connection
    → endgame_refresh_pending_requests e now s ≡ some t
    → Ready t.connection
unfolding endgame_refresh_pending_requests
refresh-Ready e now s {t} r h =
    let blocks = s.connection.endgame_remaining_blocks in
    elim (Option-cases (drop_received e now (length blocks) 0 s.manager blocks)) [
      | inl bad ↦ absurd (none-ne-some (rw (endgame_refresh_pending_requests, bad) at h))
      | inr (left, dropped) ↦
          resolve_pending-Ready e now s.connection.count 0
            (cleared
              (record s { connection = record s.connection { endgame_remaining_blocks = left } }))
            {t = t} (record { places = r.places; taken = r.taken })
            (rw (endgame_refresh_pending_requests, dropped) at h)
    ]

pub endgame_send_cancels-Ready :
    (e : Endian) (now : ℕ) (s : Sending) {t : Sending}
    → Ready s.connection
    → endgame_send_cancels e now s ≡ some t
    → Ready t.connection
unfolding endgame_send_cancels
endgame_send_cancels-Ready e now s {t} r h =
    let branch : Bool → Type 0 =
      λ b. (if b then some (cleared s) else endgame_refresh_pending_requests e now s) ≡ some t in
    elim (Bool-cases s.connection.peer_choking) [
      | inl choked ↦ subst (λ x. Ready x.connection) (some_injective (subst branch choked h)) r
      | inr free ↦ refresh-Ready e now s {t = t} r (subst branch free h)
    ]

pub endgame_send_blocks-Ready :
    (e : Endian) (now : ℕ) (s : Sending) {t : Sending}
    → Ready s.connection
    → endgame_send_blocks e now s ≡ some t
    → Ready t.connection
unfolding endgame_send_blocks endgame_load_block_requests
endgame_send_blocks-Ready e now s {t} r h =
    endgame_load_from-Ready e now
      (min ((max_blocks_in_flight + u32_mod - s.connection.count) % u32_mod) max_blocks_per_request)
      (cleared s) {t = t} r h
