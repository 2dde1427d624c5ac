-- ===== src/PeerConnection/Receive.antt =====
-- The messages of the peer: `handle_message` and its parts, and the framing of `receive_messages`. The
-- bytes that the peer sends are a list; at its end a transfer fails.
use cpp_torrent.Base.{
  ℕ, zero, suc, ◌+◌, ◌-◌, ◌/◌, ◌%◌, ◌^◌, Bool, true, false, ◌&&◌, ◌||◌, not, Option, none, some,
  List, [], ◌∷◌, ltb, ◌==◌, if◌then◌else◌, length, get_or, set, take, drop, u32_mod, max, ceil_div,
}
use cpp_torrent.Net.{Endian, get}
use cpp_torrent.Message.{
  MessageType, choke, unchoke, interested, not_interested, have, bitfield, request, piece, cancel,
  port, keep_alive, nothing, invalid, unnamed, Message, parse_piece_message,
}
use cpp_torrent.Piece.{block_size}
use cpp_torrent.PieceManager
use cpp_torrent.PieceManager.{PieceManager}
use cpp_torrent.PeerConnection.{
  PeerConnection, Block, no_request, Failure, remove_pending, handle_failure,
}

-- `static_cast<message::MessageType>(id)`.
unfoldable pub type_of_byte : ℕ → MessageType
type_of_byte b =
    get_or
      (choke ∷ unchoke ∷ interested ∷ not_interested ∷ have ∷ bitfield ∷ request ∷ piece ∷ cancel
        ∷ port ∷ keep_alive ∷ nothing ∷ invalid ∷ [])
      b (unnamed b)

-- A connection with its piece manager.
pub record Session : Type 0 where
  pub connection : PeerConnection
  pub manager : PieceManager

abbrev pub with_manager : PeerConnection → Option PieceManager → Option Session
with_manager c none = none
with_manager c (some m) = some (record { connection = c; manager = m })

-- The bit of piece `i`: the first piece is the highest bit of the first byte.
unfoldable pub bit : List ℕ → ℕ → Bool
bit payload i = (get_or payload (i / 8) 0 / 2 ^ (7 - i % 8)) % 2 == 1

unfoldable pub bits_from : List ℕ → ℕ → ℕ → List Bool
unfolding bit
bits_from payload i zero = []
bits_from payload i (suc n) = bit payload i ∷ bits_from payload (suc i) n

unfoldable pub handle_bitfield_message : List ℕ → Session → Option Session
unfolding bits_from
handle_bitfield_message payload s =
    let bits = bits_from payload 0 (length s.connection.bitfield) in
    if ltb (length payload) (ceil_div (length s.connection.bitfield) 8)
    then none
    else with_manager (record s.connection { bitfield = bits; bitfield_received = true })
        (PieceManager.add_peer_bitfield bits s.manager)

abbrev pub same_block : Block → Block → Bool
same_block (p, o, n) (q, u, k) = p == q && (o == u && n == k)

-- The loop of `handle_piece_message`, over the `n` pending requests from index `i`.
unfoldable pub forget : Block → ℕ → ℕ → PeerConnection → PeerConnection
forget block zero i c = c
forget block (suc n) i c =
    if same_block (get_or c.blocks_info i no_request).0 block
    then remove_pending i c
    else forget block n (suc i) c

module _ (e : Endian) (sha1 : List ℕ → List ℕ) where
  unfoldable pub handle_have_message : List ℕ → Session → Option Session
  handle_have_message payload s =
      let piece_index = get e 4 payload in
      if not (length payload == 4) || not (ltb piece_index (length s.connection.bitfield))
      then none
      else with_manager
          (record s.connection { bitfield = set s.connection.bitfield piece_index true })
          (PieceManager.add_available_piece piece_index s.manager)

  unfoldable pub piece_received : Option (ℕ × List ℕ × ℕ) → Session → Option Session
  unfolding forget
  piece_received none s = some s
  piece_received (some (piece_index, block_data, block_offset)) s =
      with_manager
        (forget (piece_index, block_offset, length block_data % u32_mod) s.connection.count 0
          s.connection)
        (PieceManager.receive_block sha1 piece_index block_data block_offset s.manager)

  unfoldable pub handle_piece_message : List ℕ → Session → Option Session
  unfolding piece_received
  handle_piece_message payload s = piece_received (parse_piece_message e payload) s

  unfoldable pub handle_message : Message → Session → Option Session
  unfolding handle_have_message handle_bitfield_message handle_piece_message
  handle_message msg s = elim msg.id [
    | choke ↦ some (record s { connection = record s.connection { peer_choking = true } })
    | unchoke ↦ some (record s { connection = record s.connection { peer_choking = false } })
    | have ↦ elim msg.payload [ none ↦ none | some p ↦ handle_have_message p s ]
    | bitfield ↦ elim msg.payload [ none ↦ none | some p ↦ handle_bitfield_message p s ]
    | piece ↦ elim msg.payload [ none ↦ none | some p ↦ handle_piece_message p s ]
    | _ ↦ some s
  ]

  -- `receive_buffer_.resize(...)` in `run`.
  abbrev pub receive_buffer_size : PeerConnection → ℕ
  receive_buffer_size c = max (8 + block_size) (ceil_div (length c.bitfield) 8)

  -- How one turn of `receive_messages` ends: with a fault, a failed transfer, or the bytes behind the
  -- message.
  pub data Turn : Type 0 where
    fault : Turn
    failed : Session → Turn
    next : List ℕ → Session → Turn

  unfoldable pub handled : List ℕ → Option Session → Turn
  handled rest none = fault
  handled rest (some s) = next rest s

  abbrev pub payload_of : ℕ → List ℕ → Option (List ℕ)
  payload_of size bytes = if ltb 1 size then some (take (size - 1) bytes) else none

  -- The type byte and the payload of a message of `size` bytes.
  unfoldable pub receive_body : ℕ → List ℕ → Failure → Session → Turn
  unfolding handle_failure handled type_of_byte
  receive_body size [] ec s = failed (record s { connection = handle_failure ec s.connection })
  receive_body size (id ∷ bytes) ec s =
      if ltb (receive_buffer_size s.connection) (size - 1)
      then fault
      else if ltb (length bytes) (size - 1)
      then failed (record s { connection = handle_failure ec s.connection })
      else handled (drop (size - 1) bytes)
          (handle_message (record { id = type_of_byte id; payload = payload_of size bytes }) s)

  -- One turn of the loop, `ec` being the failure at the end of the bytes.
  unfoldable pub receive_message : List ℕ → Failure → Session → Turn
  unfolding handle_failure receive_body
  receive_message bytes ec s =
      let size = get e 4 (take 4 bytes) in
      if ltb (length bytes) 4
      then failed (record s { connection = handle_failure ec s.connection })
      else if size == 0
      then next (drop 4 bytes) s
      else receive_body size (drop 4 bytes) ec s

  -- How the loop ends: with the session after it, with a fault, or without fuel.
  pub data Ending : Type 0 where
    ended : Session → Ending
    faulted : Ending
    out_of_fuel : Ending

  unfoldable pub receive_messages : ℕ → List ℕ → Failure → Session → Ending
  unfolding receive_message
  receive_messages zero bytes ec s = out_of_fuel
  receive_messages (suc fuel) bytes ec s = elim (PieceManager.completed s.manager) [
    | true ↦ ended s
    | false ↦ elim (receive_message bytes ec s) [
      | fault ↦ faulted
      | failed t ↦ ended t
      | next rest t ↦ receive_messages fuel rest ec t
    ]
  ]
