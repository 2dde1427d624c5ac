-- ===== src/PeerRetriever/Tests.antt =====
-- A client with three announces: an unknown scheme, a server that fails, and one that replies.
use cpp_torrent.Base.{ℕ, ◌≡◌, refl, Option, none, some, List, [], ◌∷◌, ◌++◌, codes, replicate}
use cpp_torrent.Net.{little, get}
use cpp_torrent.Bencode.Dict.{find}
use cpp_torrent.UdpTracker.{PeerInfo, peers_from}
use cpp_torrent.HttpTracker
use cpp_torrent.HttpTracker.{Query, Response}
use cpp_torrent.PeerRetriever.{
  Client, PeerRetriever, Retrieved, returned, init, retrieve_peers, move_to_front,
}
use cpp_torrent.PeerRetriever.Kinds.{Tracker, Event, http_reply, ask, trackers}

abbrev client : Client
client = record {
  info_hash = replicate 20 3;
  client_id = replicate 20 4;
  client_port = 6881;
  torrent_size = 1000;
}

abbrev retriever : PeerRetriever Tracker
retriever = record {
  cur_tracker = none;
  announce_list = (codes "wss://c" ∷ codes "http://a" ∷ codes "http://b" ∷ []) ∷ [];
  client = client;
}

-- `6:` and one peer.
abbrev reply : List ℕ
reply = codes "d8:intervali9e5:peers6:" ++ (10 ∷ 0 ∷ 0 ∷ 7 ∷ 26 ∷ 225 ∷ codes "e")

abbrev events : List (Event little)
events =
    http_reply (λ q. record { status_code = 404; text = [] })
    ∷ http_reply (λ q. record { status_code = 200; text = reply })
    ∷ []

-- The announce is put in front of the first group.
announce_in_front :
    init (trackers little) (codes "http://x") (((codes "udp://y") ∷ []) ∷ []) client
    ≡ some (record {
      cur_tracker = none;
      announce_list = (codes "http://x" ∷ codes "udp://y" ∷ []) ∷ [];
      client = client;
    })
unfolding init
announce_in_front = refl

abbrev peers_of : Retrieved (trackers little) → Option (List PeerInfo) × List (List (List ℕ))
peers_of (returned r peers world) = (peers, r.announce_list)
peers_of other = (none, [])

second_server : peers_of (retrieve_peers (trackers little) retriever 0 0 events) ≡ (
  some (record { ip = 10 ∷ 0 ∷ 0 ∷ 7 ∷ []; port = 6881 } ∷ []),
  (codes "http://b" ∷ codes "http://a" ∷ codes "wss://c" ∷ []) ∷ [],
)
unfolding retrieve_peers ask HttpTracker.retrieve_peers HttpTracker.init find peers_from
    move_to_front get
second_server = refl
