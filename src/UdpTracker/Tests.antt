-- ===== src/UdpTracker/Tests.antt =====
-- One exchange with a tracker that answers with one peer, and the theorems applied to it.
use cpp_torrent.Base.{
  codes, ℕ, ◌≡◌, refl, ap, take, true, none, some, List, [], ◌∷◌, ◌++◌, arith, length, drop,
  replicate,
}
use cpp_torrent.Net.{little, get}
use cpp_torrent.UdpTracker.{
  UdpTracker, PeerInfo, Network, World, announce_size, value, unexpected, protocol_error,
  extract_peers, send_connect_request, send_announce_request, retrieve_peers,
}
use cpp_torrent.UdpTracker.Packets.{announce_packet, send_announce_request_lem}
use cpp_torrent.Bencode.{char_colon, digits}
use cpp_torrent.Bencode.Decimal.{decimal}
use cpp_torrent.UdpTracker.Url.{extract_url_info, extract_url_info-url}
use cpp_torrent.UdpTracker.Answers.{Answers, retrieve_peers-Answers}
use cpp_torrent.UdpTracker.Exchange.{connect_reply, announce_reply, retrieve_peers-answered}

abbrev peer : PeerInfo
peer = record { ip = 10 ∷ 0 ∷ 0 ∷ 7 ∷ []; port = 6881 }

abbrev tracker : UdpTracker
tracker = record {
  host = codes "t";
  host_port = 80;
  info_hash = replicate 20 3;
  torr_client_id = replicate 20 4;
  torr_client_port = 6881;
  uploaded = 0;
  downloaded = 0;
  torrent_size = 1000;
  interval = 0;
}

abbrev silent : Network
silent = record { sent = none; received = unexpected protocol_error }

one_peer : extract_peers little (10 ∷ 0 ∷ 0 ∷ 7 ∷ 26 ∷ 225 ∷ []) ≡ value (peer ∷ [])
unfolding extract_peers get
one_peer = refl

send_announce_request_lem_example :
    (send_announce_request little tracker (replicate 620 9) 5 78 silent).0
    ≡ announce_packet tracker 5 78 ++ drop (length (announce_packet tracker 5 78)) (replicate 620 9)
send_announce_request_lem_example =
    send_announce_request_lem little tracker (replicate 620 9) 5 78 silent (omega arith)
      (omega arith)

retrieve_peers-answered_example :
    retrieve_peers little tracker 500 0 (record {
      resolved = true;
      connect_buffer = replicate 16 9;
      announce_buffer = replicate 620 9;
      connect_id = 77;
      announce_id = 78;
      connecting = record { sent = none; received = value (connect_reply 77 5) };
      announcing = record {
        sent = none;
        received = value (announce_reply 78 1800 1 2 (peer ∷ []));
      };
    })
    ≡ (record tracker { downloaded = 500; uploaded = 0; interval = 1800 }, some (peer ∷ []))
retrieve_peers-answered_example =
    retrieve_peers-answered little tracker 500 0 77 78 5 1800 1 2 (replicate 16 9) (replicate 620 9)
      (peer ∷ []) (omega arith) (omega arith) (omega arith) (omega arith) (omega arith)
      (omega arith)

-- The exchange above, with the full buffers.
abbrev world : World little
world = record {
  resolved = true;
  connect_buffer = replicate 16 9;
  announce_buffer = replicate 620 9;
  connect_id = 77;
  announce_id = 78;
  connecting = record { sent = none; received = value (connect_reply 77 5) };
  announcing = record { sent = none; received = value (announce_reply 78 1800 1 2 (peer ∷ [])) };
}

world_run : (retrieve_peers little tracker 500 0 world).1 ≡ some (peer ∷ [])
world_run =
    ap (λ r. r.1)
      (retrieve_peers-answered little tracker 500 0 77 78 5 1800 1 2 (replicate 16 9)
        (replicate 620 9) (peer ∷ []) (omega arith) (omega arith) (omega arith) (omega arith)
        (omega arith) (omega arith))

retrieve_peers-Answers_example :
    (true ≡ true)
    × ((c : ℕ) × ((send_connect_request little world.connect_buffer 77 world.connecting).1
          ≡ value c))
    × (world.announcing.sent ≡ none)
    × ((datagram : List ℕ) × (world.announcing.received ≡ value datagram)
        × Answers little 78 (take announce_size datagram) (peer ∷ []))
retrieve_peers-Answers_example =
    retrieve_peers-Answers little tracker 500 0 world (peer ∷ []) world_run

-- A port of more than 16 bits is an exception.
big_port : extract_url_info (codes "udp://a:65536/announce") ≡ none
unfolding extract_url_info digits
big_port = refl

extract_url_info-url_example :
    extract_url_info
      (codes "udp://" ++ (codes "t.org" ++ (char_colon ∷ (decimal 1337 ++ codes "/announce"))))
    ≡ some (codes "t.org", 1337)
extract_url_info-url_example =
    extract_url_info-url (codes "t.org") (codes "/announce") 1337 (λ e. cc)
      (refl, (refl, (refl, (refl, (refl, tt))))) (omega arith) refl
