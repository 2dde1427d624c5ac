-- ===== src/PieceManager/State.antt =====
-- The state of the piece manager, its constructor, and how many peers have each piece.
use cpp_torrent.Base.{
  ℕ, zero, suc, ◌+◌, ◌-◌, ◌*◌, ◌%◌, Bool, true, false, ◌&&◌, ◌||◌, not, Option, none, some, List,
  [], ◌∷◌, ltb, ◌==◌, if◌then◌else◌, length, get_or, set, replicate, u16_mod, u32_mod, size_mod,
  sub_size, ceil_div,
}
use cpp_torrent.FileManager.{Files}
use cpp_torrent.Piece
use cpp_torrent.Piece.{Piece, block_size, get_block_index, get_block_offset, get_remaining_blocks}
use cpp_torrent.PieceManager.Requests.{Requested}
use cpp_torrent.PieceManager.Order.{upper_bound, sink}

abbrev pub max_mempool_size : ℕ
max_mempool_size = 536870912

abbrev pub sha1_size : ℕ
sha1_size = 20

pub record PieceManager : Type 0 where
  pub max_active_requests : ℕ
  pub piece_size : ℕ
  pub torrent_size : ℕ
  pub pieces_cnt : ℕ
  pub pieces_left : ℕ
  pub block_request_timeout : ℕ
  pub files : Files
  pub piece_completed : List Bool
  pub piece_avail : List ℕ
  pub requested_pieces : Requested
  pub piece_hashes : List ℕ
  pub sorted_pieces : List ℕ
  pub are_pieces_sorted : Bool
  pub completion_flag : Bool
  pub endgame : Bool
  pub endgame_requests : List (ℕ × ℕ × ℕ)

-- `std::iota` into the vector of uint32_t.
unfoldable pub iota_u32 : ℕ → ℕ → List ℕ
iota_u32 i zero = []
iota_u32 i (suc n) = (i % u32_mod) ∷ iota_u32 (suc i) n

unfoldable pub init : ℕ → ℕ → Files → List ℕ → ℕ → PieceManager
init piece_size torrent_size files piece_hashes request_timeout =
    let cnt = ceil_div torrent_size piece_size in
    record {
      max_active_requests = ceil_div max_mempool_size piece_size;
      piece_size = piece_size;
      torrent_size = torrent_size;
      pieces_cnt = cnt;
      pieces_left = cnt;
      block_request_timeout = request_timeout;
      files = files;
      piece_completed = replicate cnt false;
      piece_avail = replicate cnt 0;
      requested_pieces = [];
      piece_hashes = piece_hashes;
      sorted_pieces = iota_u32 0 cnt;
      are_pieces_sorted = false;
      completion_flag = false;
      endgame = false;
      endgame_requests = [];
    }

abbrev pub completed : PieceManager → Bool
completed m = m.pieces_left == 0

abbrev pub completed_thread_safe : PieceManager → Bool
completed_thread_safe m = m.completion_flag

unfoldable pub get_downloaded_bytes : PieceManager → ℕ
get_downloaded_bytes m = (sub_size m.pieces_cnt m.pieces_left * m.piece_size) % size_mod

-- The sign +1 or -1 of `update_pieces_availability`.
pub data Sign : Type 0 where
  plus minus : Sign

-- `piece_avail_[i] += sign * bit`, a uint16_t.
unfoldable pub bump : Sign → Bool → ℕ → ℕ
bump sign false a = a
bump plus true a = (a + 1) % u16_mod
bump minus true a = (a + u16_mod - 1) % u16_mod

unfoldable pub update_avail : Sign → List ℕ → List Bool → List ℕ
unfolding bump
update_avail sign [] bits = []
update_avail sign (a ∷ as_) [] = a ∷ as_
update_avail sign (a ∷ as_) (b ∷ bits) = bump sign b a ∷ update_avail sign as_ bits

unfoldable pub set_bits : ℕ → List Bool → ℕ
set_bits zero bits = 0
set_bits (suc n) [] = 0
set_bits (suc n) (b ∷ bits) = (if b then 1 else 0) + set_bits n bits

-- A bitfield with fewer bits than there are pieces is read past its end.
unfoldable pub update_pieces_availability : Sign → List Bool → PieceManager → Option PieceManager
unfolding update_avail set_bits
update_pieces_availability sign bitfield m =
    if ltb (length bitfield) m.pieces_cnt
    then none
    else some (record m {
      piece_avail = update_avail sign m.piece_avail bitfield;
      are_pieces_sorted = m.are_pieces_sorted && (set_bits m.pieces_cnt bitfield == 0);
    })

abbrev pub add_peer_bitfield : List Bool → PieceManager → Option PieceManager
add_peer_bitfield = update_pieces_availability plus

abbrev pub remove_peer_bitfield : List Bool → PieceManager → Option PieceManager
remove_peer_bitfield = update_pieces_availability minus

-- The availability that `std::upper_bound` compares with: its comparator takes the value sought, the
-- availability of the piece, for an index.
abbrev pub threshold : PieceManager → ℕ → ℕ
threshold m piece_index = get_or m.piece_avail (get_or m.piece_avail piece_index 0) 0

abbrev pub increase : PieceManager → ℕ → List ℕ
increase m piece_index =
    set m.piece_avail piece_index ((get_or m.piece_avail piece_index 0 + 1) % u16_mod)

abbrev pub last_equal_piece : PieceManager → ℕ → ℕ
last_equal_piece m piece_index =
    upper_bound m.piece_avail (threshold m piece_index) m.sorted_pieces - 1

unfoldable pub add_available_piece : ℕ → PieceManager → Option PieceManager
add_available_piece piece_index m =
    if not (ltb piece_index m.pieces_cnt)
    then none
    else if not m.are_pieces_sorted
    then some (record m { piece_avail = increase m piece_index })
    else if not (ltb (get_or m.piece_avail piece_index 0) m.pieces_cnt)
        || (upper_bound m.piece_avail (threshold m piece_index) m.sorted_pieces == 0)
    then none
    else some (record m {
      sorted_pieces =
          Piece.swap m.sorted_pieces
            (sink m.sorted_pieces piece_index (last_equal_piece m piece_index))
            (last_equal_piece m piece_index);
      piece_avail = increase m piece_index;
    })
