-- ===== src/HttpTracker/Tests.antt =====
-- A tracker that replies with two peers.
use cpp_torrent.Base.{◌≡◌, refl, true, none, some, List, [], ◌∷◌, arith, codes, replicate}
use cpp_torrent.Net.{big}
use cpp_torrent.Bencode.{Entries, int_item, string_item, dict_item, no_entries, entry, pos}
use cpp_torrent.Bencode.Dict.{find}
use cpp_torrent.Bencode.Encode.{encode}
use cpp_torrent.UdpTracker.{PeerInfo}
use cpp_torrent.UdpTracker.Peers.{compact, length-compact}
use cpp_torrent.HttpTracker.{HttpTracker, Query, Response, retrieve_peers}
use cpp_torrent.HttpTracker.Reply.{retrieve_peers-reply}

abbrev peers : List PeerInfo
peers =
    record { ip = 10 ∷ 0 ∷ 0 ∷ 7 ∷ []; port = 6881 }
    ∷ record { ip = 10 ∷ 0 ∷ 0 ∷ 8 ∷ []; port = 51413 }
    ∷ []

abbrev tracker : HttpTracker
tracker = record {
  announce = codes "http://t/announce";
  info_hash = replicate 20 3;
  torr_client_id = replicate 20 4;
  torr_client_port = 6881;
  torrent_size = 1000;
  compact = true;
  interval = pos 0;
}

abbrev entries : Entries
entries = entry (codes "complete") (int_item 0 0 (pos 2)) (
    entry (codes "interval") (int_item 0 0 (pos 1800))
      (entry (codes "peers") (string_item 0 0 (compact peers)) no_entries))

abbrev get : Query → Response
get q = record { status_code = 200; text = encode (dict_item 0 0 entries) }

retrieve_peers-reply_example :
    retrieve_peers big tracker 500 0 get ≡ (record tracker { interval = pos 1800 }, some peers)
retrieve_peers-reply_example =
    retrieve_peers-reply big tracker 500 0 get entries 0 0 0 0 (pos 1800) peers
      (unfold find in
        (
          omega arith,
          refl,
          omega arith,
          (
            omega arith,
            refl,
            omega arith,
            (omega arith, refl, omega (arith, length-compact peers (omega arith)), tt),
          ),
        ))
      (unfold find in refl) (unfold find in refl) (omega arith) refl

failed :
    retrieve_peers big tracker 500 0 (λ q. record { status_code = 404; text = [] })
    ≡ (tracker, none)
unfolding retrieve_peers
failed = refl
