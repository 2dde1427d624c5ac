-- ===== src/Lib.antt =====
-- A BitTorrent client: what it downloads is checked, and lies where it belongs.
--
-- The program (src/ of the repository) connects to peers that trackers name, asks them for blocks of
-- 16 KiB, puts the blocks together to pieces, checks each piece with its SHA-1 hash and writes it to the
-- files of the torrent. This library models that core:
--
--   Base          shared names, lists with defaults out of range, words; ceil_div of src/Utils.hpp
--   Net           src/Utils.hpp: byte order, numbers in buffers, buffers written field by field
--   Message       src/TorrentMessage.hpp, src/TorrentMessage.cpp: handshake, requests, piece messages
--   FileManager   src/File.*, src/FileManager.*: the files and the writes that cross their borders, each
--                 file on its own; Disk has the paths and the disk that the files share
--   Piece         src/Piece.*: the blocks of one piece, which are there and which are asked for
--   PieceManager  src/PieceManager.*: the pieces of a torrent; it owns pieces and writes through the
--                 file manager. Requests models its map, Order the calls of sort and upper_bound.
--   PeerConnection  src/PeerConnection.*: one connection, its retries, its pending requests (Requests)
--                 and the messages that it receives (Receive), which act on the piece manager
--   MemoryPool    src/MemoryPool.*, src/FixedSizeAllocator.hpp: the memory of the pieces, a free list in
--                 the blocks themselves
--   UdpTracker    src/UdpTracker.*, src/PeerInfo.hpp: the two exchanges with a tracker over UDP
--   Bencode       src/Bencode.*: the decoder of the metadata file and of the answers of HTTP trackers; Dict
--                 reads its items, Encode is the format as the protocol has it
--   TorrentMetadata  src/TorrentMetadata.*: what a torrent file says, from its bytes
--   PeerRetriever src/PeerRetriever.*, src/ITracker.hpp: the trackers asked in turn, over an interface that
--                 Kinds fills with both kinds of trackers
--   PeerManager   src/PeerManager.*: the connections to all peers, added, cleaned up and made again
--   Swarm         src/PeerManager.*, src/PeerConnection.*, src/PieceManager.*: all connections over the one
--                 piece manager, as steps in any order
--   Transfer      src/Utils.cpp: a transfer over a socket with a timeout, and the watchdog
--   Stats         src/Stats.*: progress, and its texts
--   TorrentClient src/TorrentClient.*: the parts put together; the rounds of the download
--   HttpTracker   src/HttpTracker.*: the announce request of a tracker over HTTP
--
-- State is passed explicitly: an operation takes the record that stands for the object and returns the
-- record after the call. `none` stands for what the source does not define or asserts against: an
-- index out of range, a copy past the end, a failed assertion. Fields, functions and constants have the
-- source's names without the trailing underscore. A time is a number of milliseconds that the caller
-- passes; a block that was never requested has no time. SHA-1 (OpenSSL) is a parameter, any function
-- from bytes to bytes.
--
-- Numbers: a uint32_t and a uint16_t keep their wrap-around as a remainder where the source computes
-- with them; a size_t keeps it where it could matter. The invariant of the piece manager bounds a piece
-- to 2^30 bytes, so that a uint16_t numbers its blocks, and a torrent to what a size_t counts; that the
-- bytes on disk are right needs a torrent of at most 4 GiB besides (PieceManager.Intact.Stored), since
-- the source computes the offset of a piece in a uint32_t. Loops are structural recursions on
-- the list or the number that they run over, or run on fuel: the loops over pending requests on their
-- number, since each turn removes one or steps on, and the loop that receives messages on more than the
-- number of bytes that arrive, since each turn takes four of them at least. The decoder of bencoded text makes two
-- calls for a byte at most, so that more than twice the length of the text is enough.
--
-- Which file a path leads to is a parameter, the part of the file system (FileManager.Disk); two paths
-- may lead to one file, and opening may fail. The piece manager writes to files that are bytes of their
-- own, which is what the disk shows as long as no two paths of the torrent lead to one file: that is
-- proved, and a condition (Different) of every theorem about the disk. Memory is always there, but a vector
-- of more elements than it can have is an exception.
--
-- What a socket does is an input: the errors of connecting and sending, and the bytes that arrive.
--
-- Not modelled: the timers that only let time pass, threads (each call runs on
-- its own), the command line, the progress bar, log lines, and failures of a write to the disk. Floating-point
-- numbers are an interface with the operations that src/Stats.* calls.
pub mod Base
pub mod Net
pub mod Message
pub mod FileManager
pub mod Piece
pub mod PieceManager
pub mod PeerConnection
pub mod UdpTracker
pub mod Bencode
pub mod TorrentMetadata
pub mod HttpTracker
pub mod PeerRetriever
pub mod PeerManager
pub mod Transfer
pub mod Stats
pub mod Swarm
pub mod TorrentClient
pub mod MemoryPool
