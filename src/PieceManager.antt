-- ===== src/PieceManager.antt =====
-- src/PieceManager.hpp and src/PieceManager.cpp: which pieces are there, asked for and wanted.
-- SHA-1 (src/Crypto.hpp calls OpenSSL) is a parameter. The map of requested pieces is a list in the
-- order of insertion; the source's order is unspecified. `none` is a fault: an index out of range, a
-- failed assertion, or a fault of the piece or of the files. Log lines are left out, and each call
-- runs on its own: the atomics of the source are plain values.
pub mod Requests
pub mod Order
mod State
pub mod Valid
pub mod Receive
pub mod Request
pub mod Available
pub mod Rarity
pub mod Unsorted
pub mod Layout
pub mod Intact
pub mod Run
pub mod Count
pub mod Disk
mod Tests
use cpp_torrent.Base.{
  ℕ, zero, suc, ◌+◌, ◌-◌, ◌*◌, ◌/◌, ◌%◌, Bool, true, false, ◌&&◌, ◌||◌, not, Option, none, some,
  List, [], ◌∷◌, ◌++◌, map, ltb, leb, ◌==◌, if◌then◌else◌, length, get_or, set, take, drop,
  replicate, u16_mod, u32_mod, size_mod, sub_size, ceil_div,
}
use cpp_torrent.FileManager
use cpp_torrent.FileManager.{Files}
use cpp_torrent.Message.{bytes_equal}
use cpp_torrent.Piece
use cpp_torrent.Piece.{Piece, block_size, get_block_index, get_block_offset, get_remaining_blocks}
unfoldable pub use State.*
use Requests.{Requested, contains, find, replace, erase}
use Order.{sort, upper_bound, sink}

-- `fetch_sub` on the pieces that are left, and the flag that the last of them sets.
abbrev mark_completed : ℕ → Files → PieceManager → PieceManager
mark_completed piece_index files m = record m {
  files = files;
  piece_completed = set m.piece_completed piece_index true;
  pieces_left = sub_size m.pieces_left 1;
  completion_flag = m.completion_flag || (m.pieces_left == 1);
  requested_pieces = erase piece_index m.requested_pieces;
}

abbrev written_or_fault : ℕ → Option Files → PieceManager → Option PieceManager
written_or_fault piece_index none m = none
written_or_fault piece_index (some files) m = some (mark_completed piece_index files m)

-- `piece_hashes_.data() + piece_index * SHA1_SIZE`, a uint32_t product.
abbrev pub ref_hash : PieceManager → ℕ → List ℕ
ref_hash m piece_index = take sha1_size (drop ((piece_index * sha1_size) % u32_mod) m.piece_hashes)

-- `piece_index * piece_size_`, a uint32_t product too.
abbrev pub write_offset : PieceManager → ℕ → ℕ
write_offset m piece_index = (piece_index * m.piece_size) % u32_mod

module _ (sha1 : List ℕ → List ℕ) where
  -- The part of `receive_block` behind `is_complete`.
  unfoldable pub finish_piece : ℕ → Piece → PieceManager → Option PieceManager
  finish_piece piece_index piece m =
      if ltb (length m.piece_hashes) ((piece_index * sha1_size) % u32_mod + sha1_size)
      then none
      else if bytes_equal (sha1 piece.piece_data) (ref_hash m piece_index)
      then written_or_fault piece_index
          (FileManager.write m.files piece.piece_data (write_offset m piece_index)) m
      else some (record m {
        piece_completed = set m.piece_completed piece_index false;
        requested_pieces = erase piece_index m.requested_pieces;
      })

  after_block : ℕ → Option Piece → PieceManager → Option PieceManager
  after_block piece_index none m = none
  after_block piece_index (some piece) m =
      if Piece.is_complete piece
      then finish_piece piece_index piece
          (record m { requested_pieces = replace piece_index piece m.requested_pieces })
      else some (record m { requested_pieces = replace piece_index piece m.requested_pieces })

  at_piece : ℕ → List ℕ → ℕ → Option Piece → PieceManager → Option PieceManager
  unfolding after_block
  at_piece piece_index block offset none m = some m
  at_piece piece_index block offset (some piece) m =
      after_block piece_index (Piece.receive_block piece block offset) m

  unfoldable pub receive_block : ℕ → List ℕ → ℕ → PieceManager → Option PieceManager
  unfolding at_piece
  receive_block piece_index block offset m =
      at_piece piece_index block offset (find piece_index m.requested_pieces) m

-- The size of piece `k` among `cnt` pieces of `size` bytes that make `total` bytes.
unfoldable pub piece_length : ℕ → ℕ → ℕ → ℕ → ℕ
piece_length cnt total size k =
    if k == sub_size cnt 1 then (1 + sub_size total 1 % size) % u32_mod else size

-- The size of the piece that `request_next_block` starts.
abbrev pub size_of_piece : PieceManager → ℕ → ℕ
size_of_piece m = piece_length m.pieces_cnt m.torrent_size m.piece_size

-- How the loop over the sorted pieces ends: out of range, with a block, or at its end.
pub data Search : Type 0 where
  fault : Search
  found : ℕ → ℕ → ℕ → Requested → Search
  exhausted : Requested → Search

-- Whether the loop passes the piece over before it asks it for a block.
unfoldable pub passes : PieceManager → List Bool → Requested → ℕ → Bool
passes m bitfield requested p =
    get_or m.piece_completed p false
    || not (get_or bitfield p false)
    || (not (contains p requested) && leb m.max_active_requests (length requested))

-- The requested pieces with `p` among them, which is started if it is not there.
unfoldable pub ensure : PieceManager → Requested → ℕ → Requested
unfolding piece_length
ensure m requested p =
    if contains p requested
    then requested
    else requested ++ ((p, Piece.init (size_of_piece m p) m.block_request_timeout) ∷ [])

unfoldable pub ask : ℕ → Requested → ℕ → Option (ℕ × ℕ) × Requested
ask now requested p = elim (find p requested) [
  | none ↦ (none, requested)
  | some piece ↦ (
    (Piece.request_next_block piece now).0,
    replace p (Piece.request_next_block piece now).1 requested,
  )
]

unfoldable pub search_pieces : PieceManager → List Bool → ℕ → Requested → List ℕ → Search
search_pieces m bitfield now requested [] = exhausted requested
search_pieces m bitfield now requested (p ∷ ps) =
    let rest = search_pieces m bitfield now requested ps in
    let asked = ask now (ensure m requested p) p in
    let later = search_pieces m bitfield now asked.1 ps in
    if not (get_or m.piece_completed p false || ltb p (length bitfield))
    then fault
    else if passes m bitfield requested p
    then rest
    else elim asked.0 [ none ↦ later | some (offset, size) ↦ found p offset size asked.1 ]

unfoldable pub all_requested : Requested → Bool
all_requested [] = true
all_requested ((p, piece) ∷ ps) =
    if ltb 0 (Piece.get_unreq_blocks_cnt piece) then false else all_requested ps

-- Every block that is missing, with the full block size.
unfoldable pub endgame_blocks : Requested → List (ℕ × ℕ × ℕ)
endgame_blocks [] = []
endgame_blocks ((p, piece) ∷ ps) =
    map (λ b. (p, get_block_offset b, block_size)) (get_remaining_blocks piece) ++ endgame_blocks ps

-- The end of `request_next_block`, which may enter the endgame.
unfoldable pub check_endgame : PieceManager → PieceManager
unfolding all_requested endgame_blocks
check_endgame m =
    if not m.endgame
      && (m.pieces_left == length m.requested_pieces)
      && all_requested m.requested_pieces
    then record m {
      endgame = true;
      endgame_requests = m.endgame_requests ++ endgame_blocks m.requested_pieces;
    }
    else m

unfoldable pub sort_pieces : PieceManager → PieceManager
sort_pieces m = record m {
  sorted_pieces =
      if m.are_pieces_sorted then m.sorted_pieces else sort m.piece_avail m.sorted_pieces;
  are_pieces_sorted = true;
}

-- What follows the loop.
unfoldable pub conclude : PieceManager → Search → Option (Option (ℕ × ℕ × ℕ) × PieceManager)
unfolding check_endgame
conclude m fault = none
conclude m (found p offset size requested) =
    some (some (p, offset, size), record m { requested_pieces = requested })
conclude m (exhausted requested) =
    some (none, check_endgame (record m { requested_pieces = requested }))

-- The piece, the offset and the size of the next block, and the piece manager after the call.
unfoldable pub request_next_block :
    List Bool → ℕ → PieceManager → Option (Option (ℕ × ℕ × ℕ) × PieceManager)
unfolding search_pieces passes ensure ask sort_pieces conclude
request_next_block bitfield now m =
    let s = sort_pieces m in
    let answer = conclude s (search_pieces s bitfield now s.requested_pieces s.sorted_pieces) in
    if completed m then some (none, m) else answer

unfoldable pub wanted_from : List Bool → List (ℕ × ℕ × ℕ) → List (ℕ × ℕ × ℕ)
wanted_from bitfield [] = []
wanted_from bitfield ((p, offset, size) ∷ bs) =
    if get_or bitfield p false
    then (p, offset, size) ∷ wanted_from bitfield bs
    else wanted_from bitfield bs

unfoldable pub endgame_remaining_blocks : List Bool → PieceManager → List (ℕ × ℕ × ℕ)
unfolding wanted_from
endgame_remaining_blocks bitfield m =
    if m.endgame then wanted_from bitfield m.endgame_requests else []

block_status : Option Piece → ℕ → Option Bool
block_status none index = some false
block_status (some piece) index =
    if ltb index piece.blocks_cnt then some (Piece.is_block_received piece index) else none

unfoldable pub is_block_received : ℕ → ℕ → PieceManager → Option Bool
unfolding block_status
is_block_received piece_index block_offset m =
    if not (ltb piece_index m.pieces_cnt)
    then none
    else if get_or m.piece_completed piece_index false
    then some true
    else block_status (find piece_index m.requested_pieces) (get_block_index block_offset % u16_mod)
