-- ===== src/Message.antt =====
-- src/TorrentMessage.hpp and src/TorrentMessage.cpp: the peer wire messages, with the constants of
-- src/Constant.hpp that lay them out. `none` is a failed assertion, or an access out of a span.
pub mod Handshake
pub mod Serialize
mod Tests
use cpp_torrent.Base.{
  ℕ, ◌+◌, ◌%◌, Bool, true, false, ◌||◌, not, Option, none, some, List, [], ◌∷◌, ltb, ◌==◌,
  if◌then◌else◌, length, take, drop, set, replicate, splice, u32_mod,
}
use cpp_torrent.Net.{Endian, put, get, write_all}

-- A uint8_t; a received byte may also be none of the named values.
pub data MessageType : Type 0 where
  choke unchoke interested not_interested have bitfield request piece cancel port : MessageType
  keep_alive nothing invalid : MessageType
  unnamed : ℕ → MessageType

-- `static_cast<std::byte>(id)`.
abbrev pub byte_of_type : MessageType → ℕ
byte_of_type choke = 0
byte_of_type unchoke = 1
byte_of_type interested = 2
byte_of_type not_interested = 3
byte_of_type have = 4
byte_of_type bitfield = 5
byte_of_type request = 6
byte_of_type piece = 7
byte_of_type cancel = 8
byte_of_type port = 9
byte_of_type keep_alive = 10
byte_of_type nothing = 11
byte_of_type invalid = 12
byte_of_type (unnamed b) = b

pub record Message : Type 0 where
  pub id : MessageType
  pub payload : Option (List ℕ)

abbrev pub is_keep_alive : MessageType → Bool
is_keep_alive keep_alive = true
is_keep_alive _ = false

abbrev payload_size : Option (List ℕ) → ℕ
payload_size none = 0
payload_size (some p) = length p

abbrev pub message_size : Message → ℕ
message_size msg = (1 + payload_size msg.payload) % u32_mod

abbrev copy_payload : Option (List ℕ) → List ℕ → List ℕ
copy_payload none buffer = buffer
copy_payload (some p) buffer = splice buffer 5 p

module _ (e : Endian) where
  -- The buffer after the call.
  unfoldable pub serialize_message : Message → List ℕ → Option (List ℕ)
  serialize_message msg buffer =
      if length buffer == 0
      then none
      else if is_keep_alive msg.id
      then some (set buffer 0 0)
      else if ltb (length buffer) ((4 + message_size msg) % u32_mod)
      then none
      else some (
          copy_payload msg.payload
            (set (splice buffer 0 (put e 4 (message_size msg))) 4 (byte_of_type msg.id)))

  unfoldable pub create_interested_message : List ℕ → Option (List ℕ)
  unfolding serialize_message
  create_interested_message buffer =
      serialize_message (record { id = interested; payload = none }) buffer

  -- The three copies to the static `request_payload`, which holds the last call's values before.
  unfoldable pub request_payload : List ℕ → ℕ → ℕ → ℕ → List ℕ
  unfolding write_all
  request_payload static_payload piece_index offset len =
      write_all static_payload
        ((0, put e 4 piece_index) ∷ (4, put e 4 offset) ∷ (8, put e 4 len) ∷ [])

  -- The static payload and the buffer after the call.
  unfoldable pub create_request_message : List ℕ → List ℕ → ℕ → ℕ → ℕ → List ℕ × Option (List ℕ)
  unfolding request_payload serialize_message
  create_request_message static_payload buffer piece_index offset len =
      let payload = request_payload static_payload piece_index offset len in
      (payload, serialize_message (record { id = request; payload = some payload }) buffer)

  unfoldable pub create_cancel_message : List ℕ → List ℕ → ℕ → ℕ → ℕ → List ℕ × Option (List ℕ)
  unfolding request_payload serialize_message
  create_cancel_message static_payload buffer piece_index offset len =
      let payload = request_payload static_payload piece_index offset len in
      (payload, serialize_message (record { id = cancel; payload = some payload }) buffer)

  -- The piece index, the block and its offset.
  unfoldable pub parse_piece_message : List ℕ → Option (ℕ × List ℕ × ℕ)
  parse_piece_message payload =
      if ltb (length payload) 8
      then none
      else some (get e 4 (take 4 payload), drop 8 payload, get e 4 (take 4 (drop 4 payload)))

-- "BitTorrent protocol"
abbrev pub protocol_identifier : List ℕ
protocol_identifier =
    b'B' ∷ b'i' ∷ b't' ∷ b'T' ∷ b'o' ∷ b'r' ∷ b'r' ∷ b'e' ∷ b'n' ∷ b't' ∷ 32 ∷ b'p' ∷ b'r' ∷ b'o'
    ∷ b't' ∷ b'o' ∷ b'c' ∷ b'o' ∷ b'l' ∷ []

abbrev pub protocol_identifier_size : ℕ
protocol_identifier_size = 19

abbrev pub reserved_size : ℕ
reserved_size = 8

abbrev pub info_hash_size : ℕ
info_hash_size = 20

abbrev pub peer_id_size : ℕ
peer_id_size = 20

abbrev pub handshake_message_size : ℕ
handshake_message_size = 68

-- The five steps that fill the zeroed array.
abbrev pub handshake_fields : List ℕ → List ℕ → List (ℕ × List ℕ)
handshake_fields info_hash peer_id =
    (0, protocol_identifier_size ∷ [])
    ∷ (1, protocol_identifier)
    ∷ (1 + protocol_identifier_size, replicate reserved_size 0)
    ∷ (1 + protocol_identifier_size + reserved_size, info_hash)
    ∷ (1 + protocol_identifier_size + reserved_size + info_hash_size, peer_id)
    ∷ []

unfoldable pub create_handshake_message : List ℕ → List ℕ → List ℕ
unfolding write_all
create_handshake_message info_hash peer_id =
    write_all (replicate handshake_message_size 0) (handshake_fields info_hash peer_id)

-- `std::ranges::equal` on bytes.
abbrev pub bytes_equal : List ℕ → List ℕ → Bool
bytes_equal [] [] = true
bytes_equal [] (b ∷ bs) = false
bytes_equal (a ∷ as_) [] = false
bytes_equal (a ∷ as_) (b ∷ bs) = if a == b then bytes_equal as_ bs else false

abbrev first_byte : List ℕ → ℕ
first_byte [] = 0
first_byte (b ∷ bs) = b

-- The caller hands over 68 bytes.
unfoldable pub parse_handshake_message : List ℕ → Option (List ℕ)
parse_handshake_message message =
    if not (first_byte message == protocol_identifier_size)
    then none
    else if not (bytes_equal (take protocol_identifier_size (drop 1 message)) protocol_identifier)
    then none
    else some (take info_hash_size (drop (1 + protocol_identifier_size + reserved_size) message))
