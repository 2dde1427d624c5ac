-- ===== src/TorrentClient/Tests.antt =====
-- A torrent of one piece of two bytes, from its torrent file to the piece on disk.
use cpp_torrent.Base.{
  ℕ, ◌<◌, ◌≡◌, refl, true, Option, none, some, List, [], ◌∷◌, ◌++◌, arith, length, take, replicate,
  splice, codes,
}
use cpp_torrent.Bencode.Decimal.{decimal}
use cpp_torrent.Bencode.{pos}
use cpp_torrent.Bencode.Dict.{find}
use cpp_torrent.Net.{little, get}
use cpp_torrent.UdpTracker.{peers_from}
use cpp_torrent.FileManager
use cpp_torrent.FileManager.Disk.{Disk, open_files, truncated, view, Different, Absent}
use cpp_torrent.PieceManager.Disk.{Writes}
use cpp_torrent.FileManager.Bytes.{total}
use cpp_torrent.HttpTracker
use cpp_torrent.HttpTracker.{Query, Response}
use cpp_torrent.Message.{bytes_equal}
use cpp_torrent.Piece
use cpp_torrent.Piece.{iota_u16}
use cpp_torrent.PieceManager
use cpp_torrent.PieceManager.{
  PieceManager, iota_u32, finish_piece, receive_block, request_next_block, completed, ref_hash,
}
use cpp_torrent.PieceManager.Requests
use cpp_torrent.PieceManager.Order.{sort}
use cpp_torrent.PieceManager.Intact.Bytes.{piece_on_disk}
use cpp_torrent.PieceManager.Run.{Reaches, received, requested, start, then_}
use cpp_torrent.PeerManager
use cpp_torrent.PeerRetriever
use cpp_torrent.PeerRetriever.{PeerRetriever}
use cpp_torrent.PeerRetriever.Kinds.{Tracker, Event, http_reply, ask, trackers}
use cpp_torrent.Stats
use cpp_torrent.TorrentMetadata.{TorrentMetadata, parse_torrent_file}
use cpp_torrent.TorrentClient.{
  TorrentClient, stopped, client_id, make_piece_manager, construct, Download, start_download,
  download_round,
}
use cpp_torrent.TorrentClient.Build.{hash_of_piece, construct-on-disk}
use cpp_torrent.TorrentClient.Rounds.{Ask, Spaced, started, round, noted, due, ask_at, Loop-Spaced}

-- In place of SHA-1: the bytes themselves, filled up.
abbrev pub digest : List ℕ → List ℕ
digest bytes = take 20 (bytes ++ replicate 20 0)

abbrev hashes : List ℕ
hashes = digest (7 ∷ 8 ∷ [])

abbrev info_text : List ℕ
info_text = codes "d6:lengthi2e4:name1:t12:piece lengthi2e6:pieces20:" ++ (hashes ++ codes "e")

abbrev pub torrent_text : List ℕ
torrent_text = codes "d8:announce8:http://a4:info" ++ (info_text ++ codes "e")

abbrev metadata : TorrentMetadata
metadata = record {
  name = codes "t";
  announce = codes "http://a";
  announce_list = [];
  piece_hashes = hashes;
  piece_length = 2;
  files = record { path = codes "t"; start_off = 0; len = 2 } ∷ [];
  info_hash = digest info_text;
}

abbrev pub pieces : PieceManager
pieces = PieceManager.init 2 2 (FileManager.init metadata.files) hashes 5000

-- Each path leads to a file of its own, numbered as they are opened.
abbrev pub open_path : List (List ℕ) → List ℕ → Option ℕ
open_path opened path = some (length opened)

abbrev pub random : ℕ
random = 123456789012

abbrev pub made : TorrentClient Tracker
made = record {
  torrent_md = metadata;
  file_manager = record { start_off = 0; len = 2; file = 0 } ∷ [];
  piece_manager = pieces;
  peer_manager = PeerManager.new;
  peer_retriever = record {
    cur_tracker = none;
    announce_list = (codes "http://a" ∷ []) ∷ [];
    client = record {
      info_hash = digest info_text;
      client_id = codes "-qB4650-123456789012";
      client_port = 6881;
      torrent_size = 2;
    };
  };
  stats = record Stats.init { total_bytes = 2 };
  download_status = stopped;
}

parses : parse_torrent_file digest torrent_text ≡ some metadata
unfolding parse_torrent_file find
parses = refl

pub constructed : construct digest open_path (trackers little) torrent_text 6881 random ≡ some made
unfolding construct open_files parse_torrent_file find make_piece_manager client_id decimal
    FileManager.init PeerManager.init PeerRetriever.init FileManager.get_total_length
constructed = refl

abbrev result : Option (Option (ℕ × ℕ × ℕ) × PieceManager) → PieceManager
result none = pieces
result (some (answer, m)) = m

abbrev or_pieces : Option PieceManager → PieceManager
or_pieces none = pieces
or_pieces (some m) = m

abbrev asked : PieceManager
asked = result (request_next_block (true ∷ []) 100 pieces)

abbrev there : PieceManager
there = or_pieces (receive_block digest 0 (7 ∷ 8 ∷ []) 0 asked)

asks : request_next_block (true ∷ []) 100 pieces ≡ some (some (0, 0, 2), asked)
unfolding request_next_block PieceManager.init sort iota_u32 PieceManager.Requests.contains
    PieceManager.Requests.find Piece.request_next_block Piece.init iota_u16 FileManager.init
asks = refl

stores : receive_block digest 0 (7 ∷ 8 ∷ []) 0 asked ≡ some there
unfolding request_next_block receive_block PieceManager.init PieceManager.Requests.find sort
    iota_u32 PieceManager.Requests.contains Piece.request_next_block Piece.init iota_u16
    PieceManager.Requests.replace Piece.receive_block finish_piece splice FileManager.write
    FileManager.init
stores = refl

done : (completed there ≡ true) × (0 < there.pieces_cnt)
unfolding request_next_block receive_block PieceManager.init PieceManager.Requests.find sort
    iota_u32 PieceManager.Requests.contains Piece.request_next_block Piece.init iota_u16
    PieceManager.Requests.replace Piece.receive_block finish_piece splice FileManager.write
    FileManager.init
done = (refl, omega arith)

run : Reaches digest made.piece_manager there
unfolding PieceManager.init
run =
    then_ (then_ start (requested (true ∷ []) 100 (some (0, 0, 2)) (omega arith) asks))
      (received 0 (7 ∷ 8 ∷ []) 0 (omega arith) stores)

abbrev pub blank : Disk
blank file = []

pub apart : Different made.file_manager
unfolding Different Absent
apart = (tt, tt)

construct-on-disk_example :
    (after : Disk) × Writes made.file_manager (truncated made.file_manager blank) after
    × (view made.file_manager after ≡ there.files)
    × (bytes_equal (digest (piece_on_disk there 0)) (hash_of_piece metadata 0) ≡ true)
construct-on-disk_example =
    construct-on-disk digest open_path (trackers little) torrent_text 6881 random blank constructed
      apart (omega arith) (unfold FileManager.init total in omega arith) run done.0 0
      (unfold FileManager.init total in omega arith)

-- Two replies, both with an interval of nine seconds.
abbrev reply : List ℕ
reply = codes "d8:intervali9e5:peers6:" ++ (10 ∷ 0 ∷ 0 ∷ 7 ∷ 26 ∷ 225 ∷ codes "e")

abbrev replies : List (Event little)
replies =
    http_reply (λ q. record { status_code = 200; text = reply })
    ∷ http_reply (λ q. record { status_code = 200; text = reply })
    ∷ []

abbrev Running : Type 0
Running = Option (Download (trackers little) × List (Event little))

abbrev unmade : Download (trackers little) × List (Event little)
unmade = (record { client = made; next_request_time = 0 }, [])

abbrev or_unmade : Running → Download (trackers little) × List (Event little)
or_unmade none = unmade
or_unmade (some p) = p

abbrev first : Download (trackers little) × List (Event little)
first = or_unmade (start_download (trackers little) made 100 replies)

abbrev second : Download (trackers little) × List (Event little)
second = or_unmade (download_round (trackers little) first.0 9100 first.1)

starts : start_download (trackers little) made 100 replies ≡ some first
unfolding start_download PeerRetriever.retrieve_peers ask HttpTracker.retrieve_peers
    HttpTracker.init find peers_from PeerRetriever.move_to_front get PeerManager.start
starts = refl

goes_on : download_round (trackers little) first.0 9100 first.1 ≡ some second
unfolding start_download download_round PeerRetriever.retrieve_peers ask HttpTracker.retrieve_peers
    HttpTracker.init find peers_from PeerRetriever.move_to_front get PeerManager.start
    PeerManager.add_peers PeerRetriever.get_interval PeerManager.new
goes_on = refl

-- What is noted of the two requests.
abbrev requests : List Ask
requests =
    noted (trackers little) (due (trackers little) first.0 9100)
      (ask_at (trackers little) 9100 second.0) (ask_at (trackers little) 100 first.0 ∷ [])

both :
    requests ≡ record { at = 9100; interval = pos 9 } ∷ record { at = 100; interval = pos 9 } ∷ []
unfolding start_download download_round PeerRetriever.retrieve_peers ask HttpTracker.retrieve_peers
    HttpTracker.init find peers_from PeerRetriever.move_to_front get PeerManager.start
    PeerManager.add_peers PeerRetriever.get_interval PeerManager.new
both = refl

Loop-Spaced_example : Spaced requests
Loop-Spaced_example = Loop-Spaced (trackers little) (round 9100 (started 100 starts) goes_on)
