-- ===== src/Swarm/Tests.antt =====
-- A swarm of one peer, from its handshake to the block that completes the torrent.
use cpp_torrent.Base.{
  ℕ, ◌<◌, ◌≡◌, refl, true, Option, none, some, inl, List, [], ◌∷◌, ◌++◌, arith, replicate, splice,
  codes,
}
use cpp_torrent.Net.{little, get, put}
use cpp_torrent.FileManager
use cpp_torrent.FileManager.Disk.{Disk, truncated, view}
use cpp_torrent.PieceManager.Disk.{Writes}
use cpp_torrent.FileManager.Bytes.{total}
use cpp_torrent.Message.{
  bytes_equal, Message, bitfield, unchoke, piece, parse_handshake_message, parse_piece_message,
  create_request_message,
}
use cpp_torrent.Piece
use cpp_torrent.Piece.{iota_u16}
use cpp_torrent.PieceManager
use cpp_torrent.PieceManager.{
  PieceManager, iota_u32, finish_piece, receive_block, completed, ref_hash,
}
use cpp_torrent.PieceManager.Requests
use cpp_torrent.PieceManager.Order.{sort}
use cpp_torrent.PieceManager.Intact.Bytes.{piece_on_disk}
use cpp_torrent.PeerConnection
use cpp_torrent.PeerConnection.{PeerConnection, Attempt, connect, start_running}
use cpp_torrent.PeerConnection.Requests.{Sending, send_requests}
use cpp_torrent.PeerConnection.Receive.{Session, handle_message}
use cpp_torrent.PeerRetriever.Kinds.{trackers}
use cpp_torrent.TorrentClient.Tests.{
  open_path, blank, apart, digest, torrent_text, random, made, constructed,
}
use cpp_torrent.TorrentClient.Build.{hash_of_piece}
use cpp_torrent.Swarm.{running_with, Reaches, alone, joined, turned, tried, ran, handled, sent}
use cpp_torrent.Swarm.Download.{swarm-on-disk}

abbrev handshake : List ℕ
handshake =
    (19 ∷ codes "BitTorrent protocol")
    ++ (replicate 8 0 ++ (made.torrent_md.info_hash ++ replicate 20 5))

abbrev net : Attempt
net = record { established = none; sent = none; received = inl handshake }

abbrev shaken : PeerConnection
shaken = connect made.torrent_md.info_hash net PeerConnection.init

abbrev begun : Session
begun = record {
  connection = start_running made.piece_manager shaken;
  manager = made.piece_manager;
}

abbrev or_begun : Option Session → Session
or_begun none = begun
or_begun (some s) = s

-- The peer has the piece.
abbrev has : Message
has = record { id = bitfield; payload = some (128 ∷ []) }

abbrev known : Session
known = or_begun (handle_message little digest has begun)

abbrev free : Message
free = record { id = unchoke; payload = none }

abbrev unchoked : Session
unchoked = or_begun (handle_message little digest free known)

abbrev sending : Sending
sending = record {
  connection = unchoked.connection;
  manager = unchoked.manager;
  request_payload = replicate 12 0;
  cancel_payload = replicate 12 0;
  send_buffer = [];
  messages = 0;
}

abbrev or_sending : Option Sending → Sending
or_sending none = sending
or_sending (some s) = s

abbrev asked : Sending
asked = or_sending (send_requests little 100 sending)

-- Its block.
abbrev block : Message
block = record { id = piece; payload = some (replicate 8 0 ++ (7 ∷ 8 ∷ [])) }

abbrev waiting : Session
waiting = record { connection = asked.connection; manager = asked.manager }

abbrev there : Session
there = or_begun (handle_message little digest block waiting)

runs :
    (shaken.state ≡ PeerConnection.connected)
    × (handle_message little digest has begun ≡ some known)
    × (handle_message little digest free known ≡ some unchoked)
    × (send_requests little 100 sending ≡ some asked)
    × (asked.messages ≡ 1)
    × (handle_message little digest block waiting ≡ some there)
    × (completed there.manager ≡ true)
    × (0 < there.manager.pieces_cnt)
unfolding handle_message connect PeerConnection.init PeerConnection.reset_state
    parse_handshake_message start_running PieceManager.init PieceManager.update_pieces_availability
    send_requests PieceManager.request_next_block sort iota_u32 Requests.contains Requests.find
    Requests.replace Piece.request_next_block Piece.init Piece.receive_block iota_u16
    create_request_message splice parse_piece_message get put receive_block finish_piece
    FileManager.write FileManager.init PeerConnection.add_pending
runs = (refl, refl, refl, refl, refl, refl, refl, omega arith)

before_request :
    Reaches little digest made.piece_manager
      (record { runners = running_with unchoked.connection ∷ []; manager = unchoked.manager })
before_request =
    let (connects, knows, frees, asks, one, stores, done, some_piece) = runs in
    let joined_ = joined alone in
    let tried_ = turned [] [] joined_ (tried made.torrent_md.info_hash net) in
    let ran_ = turned [] [] tried_ (ran connects) in
    let knows_ = turned [] [] ran_ (handled has (ground arith) knows) in
    turned [] [] knows_ (handled free tt frees)

swarm :
    Reaches little digest made.piece_manager
      (record { runners = running_with there.connection ∷ []; manager = there.manager })
swarm =
    let (connects, knows, frees, asks, one, stores, done, some_piece) = runs in
    let asks_ = turned [] [] before_request (sent sending asked 100 asks) in
    turned [] [] asks_ (handled block (ground arith) stores)

swarm-on-disk_example :
    (after : Disk) × Writes made.file_manager (truncated made.file_manager blank) after
    × (view made.file_manager after ≡ there.manager.files)
    × (bytes_equal (digest (piece_on_disk there.manager 0)) (hash_of_piece made.torrent_md 0)
        ≡ true)
swarm-on-disk_example =
    let (connects, knows, frees, asks, one, stores, done, some_piece) = runs in
    swarm-on-disk little digest open_path (trackers little) torrent_text 6881 random blank
      constructed apart (omega arith) (unfold FileManager.init total in omega arith) swarm done 0
      (unfold FileManager.init total in omega arith)
