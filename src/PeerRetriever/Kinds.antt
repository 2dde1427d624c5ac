-- ===== src/PeerRetriever/Kinds.antt =====
-- The two kinds of trackers behind the interface. What the network will do is a list of events, one for
-- each call: what an HTTP server replies, or what a UDP exchange meets. Where the next event is of
-- the other kind, the call fails.
use cpp_torrent.Base.{ℕ, Option, none, some, List, [], ◌∷◌}
use cpp_torrent.Net.{Endian}
use cpp_torrent.Bencode.{ℤ, pos}
use cpp_torrent.UdpTracker
use cpp_torrent.UdpTracker.{UdpTracker, PeerInfo}
use cpp_torrent.UdpTracker.Url
use cpp_torrent.HttpTracker
use cpp_torrent.HttpTracker.{HttpTracker, Query, Response}
use cpp_torrent.PeerRetriever.{Trackers}

pub data Tracker : Type 0 where
  http_tracker : HttpTracker → Tracker
  udp_tracker : UdpTracker → Tracker

abbrev some_http : Option HttpTracker → Option Tracker
some_http none = none
some_http (some h) = some (http_tracker h)

abbrev some_udp : Option UdpTracker → Option Tracker
some_udp none = none
some_udp (some u) = some (udp_tracker u)

module _ (e : Endian) where
  pub data Event : Type 0 where
    http_reply : (Query → Response) → Event
    udp_exchange : UdpTracker.World e → Event

  abbrev asked_http :
      HttpTracker × Option (List PeerInfo)
      → List Event
      → Tracker × Option (List PeerInfo) × List Event
  asked_http (h, peers) events = (http_tracker h, peers, events)

  abbrev asked_udp :
      UdpTracker × Option (List PeerInfo)
      → List Event
      → Tracker × Option (List PeerInfo) × List Event
  asked_udp (u, peers) events = (udp_tracker u, peers, events)

  unfoldable pub ask : Tracker → ℕ → ℕ → List Event → Tracker × Option (List PeerInfo) × List Event
  ask (http_tracker h) downloaded uploaded (http_reply get ∷ events) =
      asked_http (HttpTracker.retrieve_peers e h downloaded uploaded get) events
  ask (udp_tracker u) downloaded uploaded (udp_exchange world ∷ events) =
      asked_udp (UdpTracker.retrieve_peers e u downloaded uploaded world) events
  ask (http_tracker h) downloaded uploaded (udp_exchange world ∷ events) =
      (http_tracker h, none, events)
  ask (udp_tracker u) downloaded uploaded (http_reply get ∷ events) = (udp_tracker u, none, events)
  ask (http_tracker h) downloaded uploaded [] = (http_tracker h, none, [])
  ask (udp_tracker u) downloaded uploaded [] = (udp_tracker u, none, [])

  abbrev seconds : Tracker → ℤ
  seconds (http_tracker h) = h.interval
  seconds (udp_tracker u) = pos u.interval

  abbrev pub trackers : Trackers Tracker (List Event)
  trackers = record {
    make_http = λ announce client. some_http (
        HttpTracker.init announce client.info_hash client.client_id client.client_port
          client.torrent_size);
    make_udp = λ announce client. some_udp (
        UdpTracker.Url.init announce client.info_hash client.client_id client.client_port
          client.torrent_size);
    ask = ask;
    interval = seconds;
  }
