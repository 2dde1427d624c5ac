-- ===== src/PeerConnection/Load/Pushed.antt =====
-- One request that is pushed into the send buffer, and what loading keeps.
use cpp_torrent.Base.{
  ℕ, suc, ◌+◌, ◌*◌, ◌≤◌, ◌<◌, ◌≡◌, refl, ◌∙◌, true, some, ◌∷◌, ◌++◌, arith, ltb, length,
  length-append, length-set, set, replicate,
}
use cpp_torrent.Net.{Endian, put}
use cpp_torrent.Net.Order.{length-put}
use cpp_torrent.Message.{create_request_message}
use cpp_torrent.Message.Serialize.{create_messages, length-payload}
use cpp_torrent.PieceManager.Valid.{IsValid}
use cpp_torrent.PeerConnection.{Block, max_blocks_in_flight, add_pending}
use cpp_torrent.PeerConnection.Requests.{Sending, request_size, push_request}
use cpp_torrent.PeerConnection.Pending.{Ready}

module _ (e : Endian) (now : ℕ) where
  -- What loading requests keeps and gives.
  pub record Loaded (s t : Sending) : Type 0 where
    pub ready : Ready t.connection
    pub manager : IsValid t.manager
    pub bits : t.manager.pieces_cnt ≤ length t.connection.bitfield
    pub payload : length t.request_payload ≡ 12
    pub pending : s.messages + t.connection.count ≡ t.messages + s.connection.count
    pub buffer :
        length s.send_buffer + request_size * t.messages
        ≡ length t.send_buffer + request_size * s.messages

  pub pushed :
      (b : Block) (s : Sending)
      → Ready s.connection
      → s.connection.count < max_blocks_in_flight
      → IsValid s.manager
      → s.manager.pieces_cnt ≤ length s.connection.bitfield
      → length s.request_payload ≡ 12
      → (t : Sending) × (push_request e now b s ≡ some t)
        × Loaded s t
        × (t.connection.count ≡ suc s.connection.count)
  unfolding push_request add_pending
  pushed (p, o, n) s r room v bits twelve =
      let numbers = put e 4 p ++ (put e 4 o ++ put e 4 n) in
      let message = put e 4 13 ++ (6 ∷ numbers) in
      let run =
        (create_messages e s.request_payload (replicate request_size 0) p o n twelve
          (omega arith)).0 in
      let place : ltb s.connection.count (length s.connection.blocks_info) ≡ true =
        ground (arith, r.places) in
      let payload =
        (create_request_message e s.request_payload (replicate request_size 0) p o n).0 in
      let c = record s.connection {
        blocks_info = set s.connection.blocks_info s.connection.count ((p, o, n), now);
        count = s.connection.count + 1;
      } in
      (
        record s {
          connection = c;
          request_payload = payload;
          send_buffer = s.send_buffer ++ message;
          messages = s.messages + 1;
        },
        rw (run, place) refl,
        record {
          ready = record {
            places =
                length-set s.connection.blocks_info s.connection.count ((p, o, n), now) ∙ r.places;
            taken = omega arith;
          };
          manager = v;
          bits = bits;
          payload = length-payload e s.request_payload (replicate request_size 0) p o n twelve;
          pending = omega arith;
          buffer = omega (
            arith,
            length-append s.send_buffer message,
            length-append (put e 4 13) (6 ∷ numbers),
            length-append (put e 4 p) (put e 4 o ++ put e 4 n),
            length-append (put e 4 o) (put e 4 n),
            length-put e 4 13,
            length-put e 4 p,
            length-put e 4 o,
            length-put e 4 n,
          );
        },
        omega arith,
      )

  pub untouched :
      (s : Sending)
      → Ready s.connection
      → IsValid s.manager
      → s.manager.pieces_cnt ≤ length s.connection.bitfield
      → length s.request_payload ≡ 12
      → Loaded s s
  untouched s r v bits twelve = record {
    ready = r;
    manager = v;
    bits = bits;
    payload = twelve;
    pending = omega arith;
    buffer = omega arith;
  }
