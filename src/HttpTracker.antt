-- ===== src/HttpTracker.antt =====
-- src/HttpTracker.hpp and src/HttpTracker.cpp: the announce request of a tracker over HTTP. The HTTP client
-- (cpr) is a parameter, from a query to a response. An exception inside `extract_peers` or
-- `update_interval` is `none`. Numbers of the query stand for their decimal texts.
pub mod Reply
mod Tests
use cpp_torrent.Base.{
  ℕ, suc, ◌+◌, ◌*◌, ◌%◌, Bool, true, false, Option, none, some, List, ◌==◌, if◌then◌else◌, length,
  sub_size, ◌>>=◌, codes,
}
use cpp_torrent.Net.{Endian}
use cpp_torrent.Bencode.{ℤ, pos, Item, Entries, b_decode}
use cpp_torrent.Bencode.Dict.{find, get_int, get_string, get_dict}
use cpp_torrent.TorrentMetadata.{field, decoded}
use cpp_torrent.UdpTracker.{PeerInfo, peers_from, tracker_num_want}

pub record HttpTracker : Type 0 where
  pub announce : List ℕ
  pub info_hash : List ℕ
  pub torr_client_id : List ℕ
  pub torr_client_port : ℕ
  pub torrent_size : ℕ
  pub compact : Bool
  pub interval : ℤ

-- The constructor; a client id of another length is an exception.
unfoldable pub init : List ℕ → List ℕ → List ℕ → ℕ → ℕ → Option HttpTracker
init announce info_hash client_id client_port torrent_size =
    if length client_id == 20
    then some (record {
      announce = announce;
      info_hash = info_hash;
      torr_client_id = client_id;
      torr_client_port = client_port;
      torrent_size = torrent_size;
      compact = true;
      interval = pos 0;
    })
    else none

-- `cpr::Parameters`, with the URL.
pub record Query : Type 0 where
  pub url : List ℕ
  pub info_hash : List ℕ
  pub peer_id : List ℕ
  pub port : ℕ
  pub uploaded : ℕ
  pub downloaded : ℕ
  pub left : ℕ
  pub compact : Bool
  pub numwant : ℕ

pub record Response : Type 0 where
  pub status_code : ℕ
  pub text : List ℕ

unfoldable pub query : HttpTracker → ℕ → ℕ → Query
query tracker downloaded uploaded = record {
  url = tracker.announce;
  info_hash = tracker.info_hash;
  peer_id = tracker.torr_client_id;
  port = tracker.torr_client_port;
  uploaded = uploaded;
  downloaded = downloaded;
  left = sub_size tracker.torrent_size downloaded;
  compact = tracker.compact;
  numwant = tracker_num_want;
}

unfoldable pub update_interval : Entries → HttpTracker → Option HttpTracker
update_interval response_dict tracker =
    field get_int response_dict (codes "interval") >>= λ seconds.
    some (record tracker { interval = seconds })

module _ (e : Endian) where
  -- The inner `none` is `std::nullopt`.
  unfoldable pub extract_peers : Entries → Option (Option (List PeerInfo))
  extract_peers response_dict = field get_string response_dict (codes "peers") >>= λ peers.
      some (if length peers % 6 == 0 then some (peers_from e peers) else none)

  -- Behind `update_interval`: the tracker has its new interval also if there are no peers.
  peers_of : HttpTracker → Option (Option (List PeerInfo)) → HttpTracker × Option (List PeerInfo)
  peers_of tracker none = (tracker, none)
  peers_of tracker (some peers) = (tracker, peers)

  read_dict : HttpTracker → Entries → Option HttpTracker → HttpTracker × Option (List PeerInfo)
  unfolding extract_peers peers_of
  read_dict tracker response_dict none = (tracker, none)
  read_dict tracker response_dict (some updated) = peers_of updated (extract_peers response_dict)

  -- The block under `try`, once the text is decoded.
  read_text : HttpTracker → Option Entries → HttpTracker × Option (List PeerInfo)
  unfolding update_interval read_dict
  read_text tracker none = (tracker, none)
  read_text tracker (some response_dict) =
      read_dict tracker response_dict (update_interval response_dict tracker)

  unfoldable pub retrieve_peers :
      HttpTracker → ℕ → ℕ → (Query → Response) → HttpTracker × Option (List PeerInfo)
  unfolding query b_decode read_text
  retrieve_peers tracker downloaded uploaded get =
      let response = get (query tracker downloaded uploaded) in
      if response.status_code == 200
      then read_text tracker
          (decoded (b_decode (2 * length response.text + 1) response.text) >>= get_dict)
      else (tracker, none)
