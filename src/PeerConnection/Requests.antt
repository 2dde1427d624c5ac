-- ===== src/PeerConnection/Requests.antt =====
-- The requests of a connection: loading them into the send buffer, and going through those that are
-- pending. The loops over the pending requests run on fuel, for which their count is enough.
use cpp_torrent.Base.{
  ℕ, zero, suc, ◌+◌, ◌-◌, true, false, not, Option, none, some, List, [], ◌∷◌, ◌++◌, ltb, leb,
  if◌then◌else◌, length, get_or, take, replicate, min, u32_mod, ◌%◌,
}
use cpp_torrent.Net.{Endian}
use cpp_torrent.Message.{create_request_message, create_cancel_message}
use cpp_torrent.PieceManager
use cpp_torrent.PieceManager.{PieceManager}
use cpp_torrent.PeerConnection.{
  PeerConnection, Block, no_request, max_blocks_in_flight, max_blocks_per_request, request_timeout,
  swap, remove_pending, add_pending,
}

-- The size of a request and of a cancel message.
abbrev pub request_size : ℕ
request_size = 17

-- A connection with its piece manager, while it fills its send buffer: the static payloads of the two
-- messages, the buffer, and the number of messages in it.
pub record Sending : Type 0 where
  pub connection : PeerConnection
  pub manager : PieceManager
  pub request_payload : List ℕ
  pub cancel_payload : List ℕ
  pub send_buffer : List ℕ
  pub messages : ℕ

-- `send_buffer_.clear()` and the counter.
abbrev pub cleared : Sending → Sending
cleared s = record s { send_buffer = []; messages = 0 }

module _ (e : Endian) (now : ℕ) where
  -- The message fills the 17 bytes that were just appended, and the block becomes pending.
  with_request : Block → List ℕ → Option (List ℕ) → Option PeerConnection → Sending → Option Sending
  with_request block payload (some message) (some c) s = some (record s {
    connection = c;
    request_payload = payload;
    send_buffer = s.send_buffer ++ message;
    messages = s.messages + 1;
  })
  with_request block payload none c s = none
  with_request block payload (some message) none s = none

  unfoldable pub push_request : Block → Sending → Option Sending
  unfolding with_request
  push_request (piece_index, offset, size) s =
      let (payload, message) =
        create_request_message e s.request_payload (replicate request_size 0) piece_index offset
          size in
      with_request (piece_index, offset, size) payload message
        (add_pending (piece_index, offset, size) now s.connection) s

  -- The loop of `load_block_requests`.
  unfoldable pub load_from : ℕ → Sending → Option Sending
  unfolding push_request
  load_from zero s = some s
  load_from (suc n) s = elim (PieceManager.request_next_block s.connection.bitfield now s.manager) [
    | none ↦ none
    | some (answer, m) ↦ elim answer [
      | none ↦ some (record s { manager = m })
      | some block ↦ elim (push_request block (record s { manager = m })) [
        | none ↦ none
        | some t ↦ load_from n t
      ]
    ]
  ]

  unfoldable pub load_block_requests : ℕ → Sending → Option Sending
  unfolding load_from
  load_block_requests num_blocks s = load_from num_blocks (cleared s)

  -- The loop of `refresh_pending_requests` from index `i`.
  unfoldable pub refresh_from : ℕ → ℕ → PeerConnection → PeerConnection
  refresh_from zero i c = c
  refresh_from (suc fuel) i c =
      let fresh = leb now ((get_or c.blocks_info i no_request).1 + request_timeout) in
      let rest =
        refresh_from fuel (if fresh then i else i + 1) (if fresh then remove_pending i c else c) in
      if ltb i c.count then rest else c

  unfoldable pub refresh_pending_requests : PeerConnection → PeerConnection
  unfolding refresh_from
  refresh_pending_requests c = refresh_from c.count 0 c

  -- How many blocks `send_requests` asks for.
  abbrev pub wanted : PeerConnection → ℕ
  wanted c =
      if leb (max_blocks_per_request + c.count) max_blocks_in_flight
      then max_blocks_per_request
      else 0

  -- The start of `endgame_send_requests`: the blocks that are left.
  abbrev pub enter_endgame : Sending → Sending
  enter_endgame s = record (cleared s) {
    connection = record s.connection {
      endgame_remaining_blocks =
          PieceManager.endgame_remaining_blocks s.connection.bitfield s.manager;
    };
  }

  -- One turn of `send_requests`, up to the transfer of the buffer; in the endgame it goes over to
  -- `endgame_send_requests`, up to the first wait there.
  unfoldable pub send_requests : Sending → Option Sending
  unfolding refresh_pending_requests load_block_requests
  send_requests s =
      if s.connection.peer_choking
      then some (cleared s)
      else if s.manager.endgame
      then some (enter_endgame s)
      else let c = refresh_pending_requests s.connection in
        load_block_requests (wanted c) (record s { connection = c })

-- The element `i` is swapped with the last one, which is popped.
unfoldable pub swap_out : List Block → ℕ → List Block
unfolding swap
swap_out blocks i = take (length blocks - 1) (swap blocks (0, 0, 0) i (length blocks - 1))

module _ (e : Endian) (now : ℕ) where
  -- The loop of `endgame_load_block_requests`.
  unfoldable pub endgame_load_from : ℕ → Sending → Option Sending
  unfolding push_request swap_out
  endgame_load_from zero s = some s
  endgame_load_from (suc n) s = elim s.connection.endgame_remaining_blocks [
    | [] ↦ some s
    | block ∷ blocks ↦ elim (push_request e now block s) [
      | none ↦ none
      | some t ↦ endgame_load_from n (record t {
        connection = record t.connection {
          endgame_remaining_blocks = swap_out t.connection.endgame_remaining_blocks 0;
        };
      })
    ]
  ]

  unfoldable pub endgame_load_block_requests : ℕ → Sending → Option Sending
  unfolding endgame_load_from
  endgame_load_block_requests num_blocks s = endgame_load_from num_blocks (cleared s)

  -- The first loop of `endgame_refresh_pending_requests`: blocks that are there are not asked for.
  unfoldable pub drop_received : ℕ → ℕ → PieceManager → List Block → Option (List Block)
  unfolding swap_out
  drop_received zero i m blocks = some blocks
  drop_received (suc fuel) i m blocks =
      if not (ltb i (length blocks))
      then some blocks
      else let (piece_index, offset, size) = get_or blocks i (0, 0, 0) in
        elim (PieceManager.is_block_received piece_index offset m) [
          | none ↦ none
          | some received ↦
              drop_received fuel (if received then i else i + 1) m
                (if received then swap_out blocks i else blocks)
        ]

  with_cancel : List ℕ → Option (List ℕ) → Sending → Option Sending
  with_cancel payload none s = none
  with_cancel payload (some message) s = some (record s {
    cancel_payload = payload;
    send_buffer = s.send_buffer ++ message;
    messages = s.messages + 1;
  })

  unfoldable pub push_cancel : Block → Sending → Option Sending
  unfolding with_cancel
  push_cancel (piece_index, offset, size) s =
      let (payload, message) =
        create_cancel_message e s.cancel_payload (replicate request_size 0) piece_index offset
          size in
      with_cancel payload message s

  -- A pending request that has not timed out goes back to the blocks to ask for.
  abbrev requeue : ℕ → Sending → Sending
  requeue i s = record s {
    connection = record (remove_pending i s.connection) {
      endgame_remaining_blocks =
          s.connection.endgame_remaining_blocks
          ++ ((get_or s.connection.blocks_info i no_request).0 ∷ []);
    };
  }

  -- The second loop.
  unfoldable pub resolve_pending : ℕ → ℕ → Sending → Option Sending
  unfolding push_cancel
  resolve_pending zero i s = some s
  resolve_pending (suc fuel) i s =
      if not (ltb i s.connection.count)
      then some s
      else let ((piece_index, offset, size), time) = get_or s.connection.blocks_info i no_request in
        let fresh = leb now (time + request_timeout) in
        elim (PieceManager.is_block_received piece_index offset s.manager) [
          | none ↦ none
          | some received ↦ elim received [
            | true ↦
                elim (push_cancel (piece_index, offset, size)
                  (record s { connection = remove_pending i s.connection })) [
                    | none ↦ none
                    | some t ↦ resolve_pending fuel i t
                  ]
            | false ↦
                resolve_pending fuel (if fresh then i else i + 1) (if fresh then requeue i s else s)
          ]
        ]

  unfoldable pub endgame_refresh_pending_requests : Sending → Option Sending
  unfolding drop_received resolve_pending
  endgame_refresh_pending_requests s =
      let blocks = s.connection.endgame_remaining_blocks in
      elim (drop_received (length blocks) 0 s.manager blocks) [
        | none ↦ none
        | some left ↦ resolve_pending s.connection.count 0 (
            cleared
              (record s { connection = record s.connection { endgame_remaining_blocks = left } }))
      ]

  -- A turn of `endgame_send_requests`, up to the transfer of the cancel messages.
  unfoldable pub endgame_send_cancels : Sending → Option Sending
  unfolding endgame_refresh_pending_requests
  endgame_send_cancels s =
      if s.connection.peer_choking then some (cleared s) else endgame_refresh_pending_requests s

  -- What follows that transfer, up to the transfer of the requests.
  unfoldable pub endgame_send_blocks : Sending → Option Sending
  unfolding endgame_load_block_requests
  endgame_send_blocks s =
      endgame_load_block_requests
        (min ((max_blocks_in_flight + u32_mod - s.connection.count) % u32_mod)
          max_blocks_per_request)
        s
