-- ===== src/UdpTracker/Packets.antt =====
-- The packets that are sent to the tracker, against their layout in the protocol (BEP 15).
use cpp_torrent.Base.{
  ℕ, ◌≡◌, refl, sym, ap, ◌∙◌, List, [], ◌++◌, arith, length, length-append, drop, append-nil,
  sub_size,
}
use cpp_torrent.Net.{Endian, little, big, to_memory, le_bytes}
use cpp_torrent.Net.Order.{be_bytes, put-be_bytes, length-put}
use cpp_torrent.Net.Layout.{fields, write_all-fields, write_all-append}
use cpp_torrent.UdpTracker.{
  UdpTracker, Network, protocol_id, connect_size, tracker_num_want, connect_fields,
  send_connect_request, announce_fields, send_announce_request,
}

pub length-be_bytes : (k v : ℕ) → length (be_bytes k v) ≡ k
length-be_bytes k v = ap length (sym (put-be_bytes big k v)) ∙ length-put big k v

-- A zero has the same bytes in either order.
zero_bytes : (e : Endian) → to_memory e 4 0 ≡ be_bytes 4 0
unfolding be_bytes to_memory le_bytes
zero_bytes little = refl
zero_bytes big = refl

-- A connect request: the magic number, the action 0 and the transaction id.
abbrev pub connect_packet : ℕ → List ℕ
connect_packet t = be_bytes 8 protocol_id ++ (be_bytes 4 0 ++ be_bytes 4 t)

-- An announce request.
abbrev pub announce_packet : UdpTracker → ℕ → ℕ → List ℕ
announce_packet tracker c t =
    be_bytes 8 c
    ++ (be_bytes 4 1
        ++ (be_bytes 4 t
            ++ (tracker.info_hash
                ++ (tracker.torr_client_id
                    ++ (be_bytes 8 tracker.downloaded
                        ++ (be_bytes 8 (sub_size tracker.torrent_size tracker.downloaded)
                            ++ (be_bytes 8 tracker.uploaded
                                ++ (be_bytes 4 0
                                    ++ (be_bytes 4 0
                                        ++ (be_bytes 4 0
                                            ++ (be_bytes 4 tracker_num_want
                                                ++ be_bytes 2 tracker.torr_client_port)))))))))))

module _ (e : Endian) where
  length-zero : length (to_memory e 4 0) ≡ 4
  length-zero = ap length (zero_bytes e) ∙ length-be_bytes 4 0

  connect_fields_lem : (t : ℕ) → fields (connect_fields e t) ≡ connect_packet t
  connect_fields_lem t =
      rw (put-be_bytes e 8 protocol_id, zero_bytes e, put-be_bytes e 4 t, append-nil (be_bytes 4 t))
        refl

  length-connect_packet : (t : ℕ) → length (connect_packet t) ≡ connect_size
  length-connect_packet t = omega (
    arith,
    length-append (be_bytes 8 protocol_id) (be_bytes 4 0 ++ be_bytes 4 t),
    length-append (be_bytes 4 0) (be_bytes 4 t),
    length-be_bytes 8 protocol_id,
    length-be_bytes 4 0,
    length-be_bytes 4 t,
  )

  -- The connect request on the wire is that of the protocol, on every host and whatever the buffer of
  -- 16 bytes held before.
  pub send_connect_request_lem :
      (buffer : List ℕ) (t : ℕ) (net : Network)
      → length buffer ≡ connect_size
      → (send_connect_request e buffer t net).0 ≡ connect_packet t
  unfolding send_connect_request
  send_connect_request_lem buffer t net h =
      write_all-fields buffer (connect_fields e t)
        (omega (arith, length-put e 8 protocol_id, length-zero))
        (h ∙ (sym (length-connect_packet t) ∙ ap length (sym (connect_fields_lem t))))
      ∙ connect_fields_lem t

  announce_fields_lem :
      (tracker : UdpTracker) (c t : ℕ)
      → fields (announce_fields e tracker c t) ≡ announce_packet tracker c t
  announce_fields_lem tracker c t =
      rw
        (
          put-be_bytes e 8 c,
          put-be_bytes e 4 1,
          put-be_bytes e 4 t,
          put-be_bytes e 8 tracker.downloaded,
          put-be_bytes e 8 (sub_size tracker.torrent_size tracker.downloaded),
          put-be_bytes e 8 tracker.uploaded,
          zero_bytes e,
          put-be_bytes e 4 tracker_num_want,
          put-be_bytes e 2 tracker.torr_client_port,
          append-nil (be_bytes 2 tracker.torr_client_port),
        )
        refl

  -- The announce request on the wire is that of the protocol, with the bytes that are left as the
  -- difference of two uint64_t, for an info hash and a client id of 20 bytes; behind it the old
  -- contents of the buffer are sent as well.
  pub send_announce_request_lem :
      (tracker : UdpTracker) (buffer : List ℕ) (c t : ℕ) (net : Network)
      → length tracker.info_hash ≡ 20
      → length tracker.torr_client_id ≡ 20
      → (send_announce_request e tracker buffer c t net).0
        ≡ announce_packet tracker c t ++ drop (length (announce_packet tracker c t)) buffer
  unfolding send_announce_request
  send_announce_request_lem tracker buffer c t net h i =
      write_all-append [] buffer (announce_fields e tracker c t) (
        omega (
          arith,
          length-put e 8 c,
          length-put e 4 1,
          length-put e 4 t,
          length-put e 8 tracker.downloaded,
          length-put e 8 (sub_size tracker.torrent_size tracker.downloaded),
          length-put e 8 tracker.uploaded,
          length-zero,
          length-put e 4 tracker_num_want,
        ))
      ∙ ap (λ packet. packet ++ drop (length packet) buffer) (announce_fields_lem tracker c t)
