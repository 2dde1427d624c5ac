-- ===== src/Message/Handshake.antt =====
-- The handshake that is sent is the one that is read back.
use cpp_torrent.Base.{
  ℕ, ◌+◌, ◌≡◌, refl, true, ◌↔◌, some, List, [], ◌∷◌, ◌++◌, arith, length, length-append, take, drop,
  take-append, replicate, sym, ◌∙◌, append-nil,
}
use cpp_torrent.Net.Layout.{write_all-fields}
use cpp_torrent.Message.{
  create_handshake_message, handshake_fields, parse_handshake_message, protocol_identifier,
  protocol_identifier_size, reserved_size, info_hash_size, peer_id_size, handshake_message_size,
  bytes_equal,
}

-- For an info hash and a peer id of 20 bytes each, the handshake is laid out as the protocol says:
-- length, name, eight zeros, info hash, peer id.
pub create_handshake_message_lem :
    (info_hash peer_id : List ℕ)
    → length info_hash ≡ info_hash_size
    → length peer_id ≡ peer_id_size
    → create_handshake_message info_hash peer_id
      ≡ protocol_identifier_size
        ∷ (protocol_identifier ++ (replicate reserved_size 0 ++ (info_hash ++ peer_id)))
unfolding create_handshake_message
create_handshake_message_lem info_hash peer_id h k =
    write_all-fields (replicate handshake_message_size 0) (handshake_fields info_hash peer_id)
      (omega (arith, h))
      (omega (arith, h, k, length-append info_hash (peer_id ++ []), length-append peer_id []))
    ∙ rw (append-nil peer_id)

pub bytes_equal_iff : (xs ys : List ℕ) → (bytes_equal xs ys ≡ true) ↔ (xs ≡ ys)
bytes_equal_iff [] [] = (λ _. refl, λ _. refl)
bytes_equal_iff [] (y ∷ ys) = (λ e. cc, λ e. cc)
bytes_equal_iff (x ∷ xs) [] = (λ e. cc, λ e. cc)
bytes_equal_iff (x ∷ xs) (y ∷ ys) =
    (λ e. ground (arith, bytes_equal_iff xs ys), λ e. ground (arith, bytes_equal_iff xs ys))

-- A message parses to a hash exactly when it begins with the protocol's length and name, and the
-- hash is the one behind the reserved bytes, whose contents do not matter.
pub parse_handshake_message-eq_some_iff :
    (b : ℕ) (message hash : List ℕ)
    → (parse_handshake_message (b ∷ message) ≡ some hash) ↔ (
        (b ≡ protocol_identifier_size)
        × (take protocol_identifier_size message ≡ protocol_identifier)
        × (hash ≡ take info_hash_size (drop (protocol_identifier_size + reserved_size) message)))
unfolding parse_handshake_message
parse_handshake_message-eq_some_iff b message hash =
    let same = bytes_equal_iff (take protocol_identifier_size message) protocol_identifier in
    (λ e. ground (arith, same), λ d. ground (arith, same.1 d.1))

-- A handshake made of an info hash and a peer id of 20 bytes each parses to that info hash.
pub parse_handshake_message-create :
    (info_hash peer_id : List ℕ)
    → length info_hash ≡ info_hash_size
    → length peer_id ≡ peer_id_size
    → parse_handshake_message (create_handshake_message info_hash peer_id) ≡ some info_hash
parse_handshake_message-create info_hash peer_id h k =
    rw (create_handshake_message_lem info_hash peer_id h k) (
      (parse_handshake_message-eq_some_iff protocol_identifier_size _ info_hash).1
        (refl, refl, sym (take-append info_hash peer_id info_hash_size h)))
