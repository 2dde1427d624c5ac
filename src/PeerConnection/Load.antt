-- ===== src/PeerConnection/Load.antt =====
-- Loading requests into the send buffer: `load_block_requests` and `send_requests`.
pub mod Pushed
use cpp_torrent.Base.{
  ℕ, zero, suc, ◌+◌, ◌*◌, ◌≤◌, ◌<◌, ◌≡◌, refl, sym, ap, ◌∙◌, Bool, true, false, Option, none, some,
  ◌∷◌, ◌++◌, arith, ltb, if◌then◌else◌, length, length-append, length-set, set, replicate,
  Bool-cases, inl, inr, subst,
}
use cpp_torrent.Net.{Endian, put}
use cpp_torrent.Net.Order.{length-put}
use cpp_torrent.Message.{create_request_message}
use cpp_torrent.Message.Serialize.{create_messages, length-payload}
use cpp_torrent.PieceManager
use cpp_torrent.PieceManager.{PieceManager}
use cpp_torrent.PieceManager.Valid.{IsValid}
use cpp_torrent.PieceManager.Request.{request_next_block-Offered, request_next_block-Fixed}
use cpp_torrent.PeerConnection.{Block, max_blocks_in_flight, max_blocks_per_request, add_pending}
use cpp_torrent.PeerConnection.Requests.{
  Sending, cleared, request_size, push_request, load_from, load_block_requests,
  refresh_pending_requests, wanted, enter_endgame, send_requests,
}
use cpp_torrent.PeerConnection.Load.Pushed.{Loaded, pushed, untouched}
use cpp_torrent.PeerConnection.Pending.{Ready}
use cpp_torrent.PeerConnection.Refresh.{refresh_pending_requests-stale}

module _ (e : Endian) (now : ℕ) where
  abbrev LoadedFrom : ℕ → Sending → Type 0
  LoadedFrom n s =
      (t : Sending) × (load_from e now n s ≡ some t)
      × Loaded e now s t
      × (t.connection.count ≤ s.connection.count + n)

  after_answer :
      (n : ℕ) (s : Sending) (answer : Option Block) (m : PieceManager)
      → Ready s.connection
      → s.connection.count + suc n ≤ max_blocks_in_flight
      → IsValid m
      → m.pieces_cnt ≤ length s.connection.bitfield
      → length s.request_payload ≡ 12
      → PieceManager.request_next_block s.connection.bitfield now s.manager ≡ some (answer, m)
      → ((t : Sending)
          → Ready t.connection
          → t.connection.count + n ≤ max_blocks_in_flight
          → IsValid t.manager
          → t.manager.pieces_cnt ≤ length t.connection.bitfield
          → length t.request_payload ≡ 12
          → LoadedFrom n t)
      → LoadedFrom (suc n) s
  unfolding load_from
  after_answer n s none m r room v bits twelve run go = (
    record s { manager = m },
    rw (load_from, run) refl,
    record {
      ready = r;
      manager = v;
      bits = bits;
      payload = twelve;
      pending = omega arith;
      buffer = omega arith;
    },
    omega arith,
  )
  after_answer n s (some block) m r room v bits twelve run go =
      let (t, push, l, c) =
        pushed e now block (record s { manager = m }) r (omega arith) v bits twelve in
      let (u, on, k, d) = go t l.ready (omega arith) l.manager l.bits l.payload in
      (
        u,
        rw (load_from, run, push) on,
        record {
          ready = k.ready;
          manager = k.manager;
          bits = k.bits;
          payload = k.payload;
          pending = omega (arith, l.pending, k.pending);
          buffer = omega (arith, l.buffer, k.buffer);
        },
        omega arith,
      )

  -- As many requests as there is room for are loaded without a fault.
  load_from-Loaded :
      (n : ℕ) (s : Sending)
      → Ready s.connection
      → s.connection.count + n ≤ max_blocks_in_flight
      → IsValid s.manager
      → s.manager.pieces_cnt ≤ length s.connection.bitfield
      → length s.request_payload ≡ 12
      → (t : Sending) × (load_from e now n s ≡ some t)
        × Loaded e now s t
        × (t.connection.count ≤ s.connection.count + n)
  unfolding load_from
  load_from-Loaded zero s r room v bits twelve =
      (s, refl, untouched e now s r v bits twelve, omega arith)
  load_from-Loaded (suc n) s r room v bits twelve =
      let (answer, m, run, w, o) =
        request_next_block-Offered s.connection.bitfield now s.manager v bits in
      let same = request_next_block-Fixed s.connection.bitfield now s.manager answer run in
      after_answer n s answer m r room w (omega (arith, same)) twelve run (load_from-Loaded n)

  -- Loading `n` requests, for a connection with ten places of which `n` are free, a valid piece
  -- manager with no more pieces than the bitfield has bits, and a static payload of twelve bytes,
  -- does not fault. At most `n` are made; each is pending afterwards, and has 17 bytes in the
  -- buffer.
  pub load_block_requests-Loaded :
      (n : ℕ) (s : Sending)
      → Ready s.connection
      → s.connection.count + n ≤ max_blocks_in_flight
      → IsValid s.manager
      → s.manager.pieces_cnt ≤ length s.connection.bitfield
      → length s.request_payload ≡ 12
      → (t : Sending) × (load_block_requests e now n s ≡ some t)
        × Ready t.connection
        × IsValid t.manager
        × (t.connection.count ≡ s.connection.count + t.messages)
        × (t.messages ≤ n)
        × (length t.send_buffer ≡ request_size * t.messages)
  unfolding load_block_requests
  load_block_requests-Loaded n s r room v bits twelve =
      let (t, run, l, c) = load_from-Loaded n (cleared s) r room v bits twelve in
      (
        t,
        run,
        l.ready,
        l.manager,
        omega (arith, l.pending),
        omega (arith, l.pending, c),
        omega (arith, l.buffer),
      )

  abbrev outside_endgame : Sending → Option Sending
  outside_endgame s =
      load_block_requests e now (wanted e now (refresh_pending_requests e now s.connection))
        (record s { connection = refresh_pending_requests e now s.connection })

  turn :
      (s t : Sending) (b c : Bool)
      → b ≡ s.connection.peer_choking
      → c ≡ s.manager.endgame
      → (if b
          then some (cleared s)
          else if c
          then some (enter_endgame e now s)
          else outside_endgame s)
        ≡ some t
      → send_requests e now s ≡ some t
  unfolding send_requests
  turn s t b c h k run =
      subst
        (λ x.
          (if x
            then some (cleared s)
            else if s.manager.endgame
            then some (enter_endgame e now s)
            else outside_endgame s)
          ≡ some t)
        h
        (subst
          (λ x.
            (if b
              then some (cleared s)
              else if x
              then some (enter_endgame e now s)
              else outside_endgame s)
            ≡ some t)
          k run)

  -- One turn of `send_requests`, for a connection with ten places and at most ten pending requests,
  -- a valid piece manager with no more pieces than the bitfield has bits, and a static payload of
  -- twelve bytes, does not fault and keeps them so. To a peer that chokes no request is made; to
  -- another five at most, of 17 bytes each in the buffer.
  pub send_requests-Loaded :
      (s : Sending)
      → Ready s.connection
      → IsValid s.manager
      → s.manager.pieces_cnt ≤ length s.connection.bitfield
      → length s.request_payload ≡ 12
      → (t : Sending) × (send_requests e now s ≡ some t)
        × Ready t.connection
        × IsValid t.manager
        × (t.messages ≤ (if s.connection.peer_choking then 0 else max_blocks_per_request))
        × (length t.send_buffer ≡ request_size * t.messages)
  send_requests-Loaded s r v bits twelve = elim (Bool-cases s.connection.peer_choking) [
    | inl choked ↦
        (cleared s, turn s (cleared s) true _ (sym choked) refl refl, r, v, omega arith, refl)
    | inr free ↦ elim (Bool-cases s.manager.endgame) [
      | inl last ↦ (
        enter_endgame e now s,
        turn s (enter_endgame e now s) false true (sym free) (sym last) refl,
        record { places = r.places; taken = r.taken },
        v,
        omega arith,
        refl,
      )
      | inr more ↦
          let c = refresh_pending_requests e now s.connection in
          let (a, d, b, stale) = refresh_pending_requests-stale e now s.connection r in
          let (t, run, l, w, count, few, size) =
            load_block_requests-Loaded (wanted e now c) (record s { connection = c }) a
              (ground (arith, a.taken)) v (omega (arith, bits, ap length d)) twelve in
          (t, turn s t false false (sym free) (sym more) run, l, w, ground (arith, few), size)
    ]
  ]
