-- ===== src/Swarm/Requests.antt =====
-- A turn of the coroutine that sends: it only calls the piece manager, and keeps the bitfield.
use cpp_torrent.Base.{
  ℕ, Bool, zero, suc, ◌+◌, ◌≤◌, ◌≡◌, refl, sym, ap, subst, ◌∙◌, some, List, arith, ltb, leb,
  if◌then◌else◌, length, replicate, get_or, Bool-cases, Option-cases, inl, inr, some_injective,
  none-ne-some,
}
use cpp_torrent.Net.{Endian}
use cpp_torrent.Message.{create_request_message, create_cancel_message}
use cpp_torrent.PieceManager
use cpp_torrent.PieceManager.{PieceManager, plus}
use cpp_torrent.PieceManager.Run.{Step, Reaches, requested, start, then_}
use cpp_torrent.PieceManager.Count.{Step-Fixed, Reaches-trans}
use cpp_torrent.PeerConnection.{
  PeerConnection, Block, no_request, request_timeout, remove_pending, add_pending,
}
use cpp_torrent.PeerConnection.Requests.{
  Sending, request_size, cleared, push_request, load_from, load_block_requests, refresh_from,
  refresh_pending_requests, wanted, enter_endgame, send_requests, push_cancel,
}

-- What the sending side of a connection leaves as it is, while it fills its buffer.
unfoldable pub Same : Sending → Sending → Type 0
Same s t = (t.manager ≡ s.manager) × (t.connection.bitfield ≡ s.connection.bitfield)

pub Same-trans : (s t u : Sending) → Same s t → Same t u → Same s u
unfolding Same
Same-trans s t u a b = (b.0 ∙ a.0, b.1 ∙ a.1)

refresh_from-bitfield :
    (e : Endian) (now fuel i : ℕ) (c : PeerConnection)
    → (refresh_from e now fuel i c).bitfield ≡ c.bitfield
unfolding refresh_from remove_pending
refresh_from-bitfield e now zero i c = refl
refresh_from-bitfield e now (suc fuel) i c =
    elim (Bool-cases (leb now ((get_or c.blocks_info i no_request).1 + request_timeout))) [
      | inl fresh ↦ ground (arith, fresh, refresh_from-bitfield e now fuel i (remove_pending i c))
      | inr stale ↦ ground (arith, stale, refresh_from-bitfield e now fuel (i + 1) c)
    ]

pub push_request-Same :
    (e : Endian) (now : ℕ) (block : Block) (s : Sending) {t : Sending}
    → push_request e now block s ≡ some t
    → Same s t
unfolding push_request Same add_pending
push_request-Same e now (p, o, n) s {t} h =
    elim (Option-cases
      (create_request_message e s.request_payload (replicate request_size 0) p o n).1) [
        | inl bad ↦ absurd (none-ne-some (rw bad at h))
        | inr (message, good) ↦
            elim (Bool-cases (ltb s.connection.count (length s.connection.blocks_info))) [
              | inl place ↦
                  let made = some_injective (rw (good, place) at h) in
                  (sym (ap (λ x. x.manager) made), sym (ap (λ x. x.connection.bitfield) made))
              | inr full ↦ absurd (none-ne-some (rw (good, full) at h))
            ]
      ]

pub push_cancel-Same :
    (e : Endian) (now : ℕ) (block : Block) (s : Sending) {t : Sending}
    → push_cancel e now block s ≡ some t
    → Same s t
unfolding push_cancel Same
push_cancel-Same e now (p, o, n) s h =
    elim (Option-cases
      (create_cancel_message e s.cancel_payload (replicate request_size 0) p o n).1) [
        | inl bad ↦ absurd (none-ne-some (rw bad at h))
        | inr (message, good) ↦
            let made = some_injective (rw good at h) in
            (sym (ap (λ x. x.manager) made), sym (ap (λ x. x.connection.bitfield) made))
      ]

module _ (sha1 : List ℕ → List ℕ) where
  -- The piece manager goes on by calls, and the bitfield keeps its length.
  pub record Moves (c : PeerConnection) (m : PieceManager) (d : PeerConnection) (n : PieceManager)
      : Type 0 where
    pub calls : Reaches sha1 m n
    pub count : n.pieces_cnt ≡ m.pieces_cnt
    pub bits : length d.bitfield ≡ length c.bitfield

  pub stays :
      (c d : PeerConnection) (m n : PieceManager) → n ≡ m → d.bitfield ≡ c.bitfield → Moves c m d n
  stays c d m n same kept =
      subst (λ x. Moves c m d x) (sym same)
        (record { calls = start; count = refl; bits = ap length kept })

  pub called :
      {c d : PeerConnection} {m n : PieceManager}
      → Step sha1 m n
      → length d.bitfield ≡ length c.bitfield
      → Moves c m d n
  called step kept = record {
    calls = then_ start step;
    count = (Step-Fixed sha1 step).0;
    bits = kept;
  }

  Moves-trans :
      {c d f : PeerConnection} {m n r : PieceManager}
      → Moves c m d n
      → Moves d n f r
      → Moves c m f r
  Moves-trans a b = record {
    calls = Reaches-trans sha1 a.calls b.calls;
    count = b.count ∙ a.count;
    bits = b.bits ∙ a.bits;
  }

  load_from-Moves :
      (e : Endian) (now k : ℕ) (s : Sending) {t : Sending}
      → s.manager.pieces_cnt ≤ length s.connection.bitfield
      → load_from e now k s ≡ some t
      → Moves s.connection s.manager t.connection t.manager
  unfolding load_from Same
  load_from-Moves e now zero s l h =
      let same = some_injective h in
      stays s.connection _ s.manager _ (ap (λ x. x.manager) (sym same))
        (ap (λ x. x.connection.bitfield) (sym same))
  load_from-Moves e now (suc k) s {t} l h =
      elim (Option-cases (PieceManager.request_next_block s.connection.bitfield now s.manager)) [
        | inl bad ↦ absurd (none-ne-some (rw (load_from, bad) at h))
        | inr ((answer, m), asked) ↦
            let first : Moves s.connection s.manager s.connection m =
              called (requested s.connection.bitfield now answer l asked) refl in
            elim (Option-cases answer) [
              | inl no_more ↦
                  let same = some_injective (rw (load_from, asked, no_more) at h) in
                  subst (λ x. Moves s.connection s.manager x.connection x.manager) same first
              | inr (block, more) ↦
                  elim (Option-cases (push_request e now block (record s { manager = m }))) [
                    | inl bad ↦ absurd (none-ne-some (rw (load_from, asked, more, bad) at h))
                    | inr (u, pushed) ↦
                        let (same, kept) =
                          push_request-Same e now block (record s { manager = m }) pushed in
                        let rest : load_from e now k u ≡ some t =
                          rw (load_from, asked, more, pushed) at h in
                        let second = stays s.connection u.connection m u.manager same kept in
                        let both = Moves-trans first second in
                        Moves-trans both
                          (load_from-Moves e now k u (omega (arith, both.count, both.bits)) rest)
                  ]
            ]
      ]

  pub send_requests-Moves :
      (e : Endian) (now : ℕ) (s : Sending) {t : Sending}
      → s.manager.pieces_cnt ≤ length s.connection.bitfield
      → send_requests e now s ≡ some t
      → Moves s.connection s.manager t.connection t.manager
  unfolding send_requests load_block_requests refresh_pending_requests
  send_requests-Moves e now s {t} l h =
      let c = refresh_pending_requests e now s.connection in
      let loading = cleared (record s { connection = c }) in
      let going : Bool → Type 0 = λ b.
        (if b then some (enter_endgame e now s) else load_from e now (wanted e now c) loading)
        ≡ some t in
      let branch : Bool → Type 0 = λ b.
        (if b
          then some (cleared s)
          else if s.manager.endgame
          then some (enter_endgame e now s)
          else load_from e now (wanted e now c) loading)
        ≡ some t in
      elim (Bool-cases s.connection.peer_choking) [
        | inl choked ↦
            subst (λ x. Moves s.connection s.manager x.connection x.manager)
              (some_injective (subst branch choked h)) (stays s.connection _ s.manager _ refl refl)
        | inr free ↦ elim (Bool-cases s.manager.endgame) [
          | inl endgame ↦
              subst (λ x. Moves s.connection s.manager x.connection x.manager)
                (some_injective (subst going endgame (subst branch free h)))
                (stays s.connection _ s.manager _ refl refl)
          | inr more ↦
              let kept : c.bitfield ≡ s.connection.bitfield =
                refresh_from-bitfield e now s.connection.count 0 s.connection in
              let first = stays s.connection c s.manager s.manager refl kept in
              Moves-trans first (
                load_from-Moves e now (wanted e now c) loading {t = t}
                  (omega (arith, l, first.bits)) (subst going more (subst branch free h)))
        ]
      ]
