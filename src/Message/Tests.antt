-- ===== src/Message/Tests.antt =====
-- Runs of the message functions, and the theorems applied to concrete messages.
use cpp_torrent.Base.{◌≡◌, refl, none, some, [], ◌∷◌, replicate, splice}
use cpp_torrent.Net.{little, big, put}
use cpp_torrent.Message.{
  keep_alive, serialize_message, create_interested_message, create_handshake_message,
  parse_handshake_message,
}
use cpp_torrent.Message.Handshake.{parse_handshake_message-create}

interested_bytes : create_interested_message little (replicate 5 9) ≡ some (0 ∷ 0 ∷ 0 ∷ 1 ∷ 2 ∷ [])
unfolding create_interested_message put splice
interested_bytes = refl

-- A keep-alive message is one zero byte here, where the protocol has four.
keep_alive_byte :
    serialize_message big (record { id = keep_alive; payload = none }) (9 ∷ 9 ∷ [])
    ≡ some (0 ∷ 9 ∷ [])
unfolding serialize_message
keep_alive_byte = refl

parse_handshake_message-create_example :
    parse_handshake_message (create_handshake_message (replicate 20 3) (replicate 20 4))
    ≡ some (replicate 20 3)
parse_handshake_message-create_example =
    parse_handshake_message-create (replicate 20 3) (replicate 20 4) refl refl
