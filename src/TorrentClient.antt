-- ===== src/TorrentClient.antt =====
-- src/TorrentClient.hpp and src/TorrentClient.cpp: the client puts the parts together and runs the download.
-- The torrent file is its bytes; one that cannot be opened is left out. `none` is an exception, or the
-- division by zero of a piece size of zero. The digits of the client id and the clock, in milliseconds, are
-- inputs, and so is what has become of the pieces and the connections since the last look at them.
pub mod Build
pub mod Rounds
pub mod Tests
use cpp_torrent.Base.{
  ℕ, ◌^◌, ◌+◌, ◌*◌, ◌%◌, Bool, true, false, ◌&&◌, not, Option, none, some, List, [], ceil_div, ◌-◌,
  ◌++◌, ltb, leb, ◌==◌, if◌then◌else◌, length, u16_mod, u32_mod, ◌>>=◌, guard, codes,
}
use cpp_torrent.Bencode.{ℤ, pos, negsuc}
use cpp_torrent.Bencode.Decimal.{decimal}
use cpp_torrent.FileManager
use cpp_torrent.FileManager.Disk.{Handle, open_files}
use cpp_torrent.PieceManager
use cpp_torrent.PieceManager.{PieceManager}
use cpp_torrent.PeerConnection.{request_timeout}
use cpp_torrent.PeerManager
use cpp_torrent.PeerManager.{PeerManager}
use cpp_torrent.PeerRetriever
use cpp_torrent.PeerRetriever.{PeerRetriever, Trackers, Client, Retrieved, raised, returned}
use cpp_torrent.UdpTracker.{PeerInfo}
use cpp_torrent.Stats
use cpp_torrent.Stats.{Stats}
use cpp_torrent.TorrentMetadata.{TorrentMetadata, parse_torrent_file}

pub data DownloadStatus : Type 0 where
  stopped downloading finished : DownloadStatus

abbrev pub target_peer_count : ℕ
target_peer_count = 30

pub record TorrentClient (Tracker : Type 0) : Type 0 where
  pub torrent_md : TorrentMetadata
  pub file_manager : List Handle
  pub piece_manager : PieceManager
  pub peer_manager : PeerManager
  pub peer_retriever : PeerRetriever Tracker
  pub stats : Stats
  pub download_status : DownloadStatus

-- `CLIENT_ID_BASE` and twelve digits.
unfoldable pub client_id : ℕ → List ℕ
client_id random = codes "-qB4650-" ++ decimal random

-- `std::vector<uint32_t>::max_size`, the widest elements of the vectors with one for each piece.
abbrev pub max_pieces : ℕ
max_pieces = 2 ^ 61 - 1

-- The constructor of the piece manager; it divides by the piece size, which is a `uint32_t`, and its
-- vectors throw for more pieces than they can have.
unfoldable pub make_piece_manager : TorrentMetadata → Option PieceManager
make_piece_manager md =
    let files = FileManager.init md.files in
    let piece_size = md.piece_length % u32_mod in
    if piece_size == 0
    then none
    else if ltb max_pieces (ceil_div (FileManager.get_total_length files) piece_size)
    then none
    else some (
        PieceManager.init piece_size (FileManager.get_total_length files) files md.piece_hashes
          request_timeout)

module _ (sha1 : List ℕ → List ℕ) (opens : List (List ℕ) → List ℕ → Option ℕ)
    {Tracker World : Type 0} (t : Trackers Tracker World) where
  -- The constructor, on the bytes of the torrent file. The files are those that the paths lead to, and the
  -- piece manager starts with what they show once they are opened.
  unfoldable pub construct : List ℕ → ℕ → ℕ → Option (TorrentClient Tracker)
  unfolding make_piece_manager client_id Stats.init open_files
  construct torrent_file port random = do
    md ← parse_torrent_file sha1 torrent_file
    file_manager ← open_files opens [] md.files
    piece_manager ← make_piece_manager md
    peer_manager ← PeerManager.init (client_id random)
    peer_retriever ← PeerRetriever.init t md.announce md.announce_list (record {
      info_hash = md.info_hash;
      client_id = client_id random;
      client_port = port;
      torrent_size = FileManager.get_total_length (FileManager.init md.files);
    })
    some (record {
      torrent_md = md;
      file_manager = file_manager;
      piece_manager = piece_manager;
      peer_manager = peer_manager;
      peer_retriever = peer_retriever;
      stats = record Stats.init {
        total_bytes = FileManager.get_total_length (FileManager.init md.files);
      };
      download_status = stopped;
    })

-- `now + interval`, for a time in milliseconds: the seconds are turned into nanoseconds and added to a
-- time point, both in an int64_t; `none` is an overflow, which the source does not define. Behind a
-- negative interval every later time is late enough, as behind none.
abbrev pub after : ℕ → ℤ → Option ℕ
after now (pos seconds) =
    if ltb (now * 1000000 + seconds * 1000000000) (2 ^ 63)
    then some (now + seconds * 1000)
    else none
after now (negsuc seconds) = if leb ((seconds + 1) * 1000000000) (2 ^ 63) then some now else none

module _ {Tracker World : Type 0} (t : Trackers Tracker World) where
  -- A client in its download, with the time of its next request.
  pub record Download : Type 0 where
    pub client : TorrentClient Tracker
    pub next_request_time : ℕ

  next_time : ℕ → PeerRetriever Tracker → Option ℕ
  unfolding PeerRetriever.get_interval
  next_time now r = after now (PeerRetriever.get_interval t r)

  -- The client with the time of its next request.
  waiting : TorrentClient Tracker → World → Option ℕ → Option (Download × World)
  waiting c world none = none
  waiting c world (some time) = some (record { client = c; next_request_time = time }, world)

  -- What `start_download` does with the first answer of the trackers.
  begin : TorrentClient Tracker → ℕ → Retrieved t → Option (Download × World)
  unfolding next_time waiting
  begin c now (raised world) = none
  begin c now (returned r none world) = none
  begin c now (returned r (some peers) world) =
      waiting
        (record c {
          peer_retriever = r;
          peer_manager = PeerManager.add_peers peers (PeerManager.start c.peer_manager);
          stats = record c.stats { start_time = now };
          download_status = downloading;
        })
        world (next_time now r)

  -- `start_download` up to its loop; `none` is an exception, or an overflow of the time.
  unfoldable pub start_download : TorrentClient Tracker → ℕ → World → Option (Download × World)
  unfolding begin
  start_download c now world =
      begin c now (PeerRetriever.retrieve_peers t c.peer_retriever 0 0 world)

  add_found : Option (List PeerInfo) → PeerManager → PeerManager
  add_found none m = m
  add_found (some peers) m = PeerManager.add_peers peers m

  refill : Download → ℕ → Retrieved t → Option (Download × World)
  unfolding add_found next_time waiting
  refill d now (raised world) = none
  refill d now (returned r peers world) =
      waiting
        (record d.client {
          peer_retriever = r;
          peer_manager = add_found peers d.client.peer_manager;
        })
        world (next_time now r)

  -- One round of the loop, behind its wait.
  unfoldable pub download_round : Download → ℕ → World → Option (Download × World)
  unfolding refill PieceManager.get_downloaded_bytes
  download_round d now world =
      if leb d.next_request_time now && ltb d.client.peer_manager.connected_peers target_peer_count
      then refill d now (
          PeerRetriever.retrieve_peers t d.client.peer_retriever
            (PieceManager.get_downloaded_bytes d.client.piece_manager) 0 world)
      else some (d, world)

-- The end of `start_download`, once the pieces are complete.
unfoldable pub finish_download : {Tracker : Type 0} → TorrentClient Tracker → TorrentClient Tracker
finish_download c = record c {
  peer_manager = PeerManager.stop c.peer_manager;
  download_status = finished;
}

unfoldable pub update_stats : {Tracker : Type 0} → TorrentClient Tracker → TorrentClient Tracker
unfolding PieceManager.get_downloaded_bytes
update_stats c = record c {
  stats = record c.stats {
    downloaded_bytes = PieceManager.get_downloaded_bytes c.piece_manager;
    connected_peers = c.peer_manager.connected_peers % u16_mod;
  };
}

-- The statistics, and the client behind the call.
unfoldable pub get_stats :
    {Tracker : Type 0} → TorrentClient Tracker → Stats × TorrentClient Tracker
unfolding update_stats
get_stats c = let updated = update_stats c in (updated.stats, updated)
