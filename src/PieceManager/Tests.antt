-- ===== src/PieceManager/Tests.antt =====
-- A torrent of three small pieces in one file, runs of it, and the theorems applied to it.
use cpp_torrent.Base.{
  ℕ, ◌+◌, ◌*◌, ◌%◌, ◌<◌, ◌≤◌, ◌≡◌, refl, ap, subst, true, Option, none, some, List, [], ◌∷◌, ◌++◌,
  arith, ◌==◌, if◌then◌else◌, length, get_or, take, replicate, u16_mod, splice,
}
use cpp_torrent.FileManager
use cpp_torrent.FileManager.{Files, FileInfo}
use cpp_torrent.FileManager.Bytes.{total}
use cpp_torrent.Message.{bytes_equal}
use cpp_torrent.Piece
use cpp_torrent.Piece.{Piece, iota_u16, get_block_index}
use cpp_torrent.PieceManager.{
  PieceManager, init, iota_u32, finish_piece, sha1_size, receive_block, request_next_block,
  add_available_piece, add_peer_bitfield, remove_peer_bitfield, completed, ref_hash,
}
use cpp_torrent.PieceManager.Requests.{find, contains, replace}
use cpp_torrent.PieceManager.Order.{sort, upper_bound}
use cpp_torrent.PieceManager.Valid.{IsValid, BoundsOf, init-IsValid}
use cpp_torrent.PieceManager.Receive.{receive_block-IsValid}
use cpp_torrent.PieceManager.Request.{Offered, request_next_block-Offered}
use cpp_torrent.PieceManager.Available.{IsSorted}
use cpp_torrent.PieceManager.Rarity.{remove_peer_bitfield-add, add_available_piece-IsValid}
use cpp_torrent.PieceManager.Unsorted.{add_available_piece-unsorted}
use cpp_torrent.PieceManager.Intact.{Intact, receive_block-Intact, receive_block_runs}
use cpp_torrent.PieceManager.Intact.Bytes.{Stored, piece_on_disk}
use cpp_torrent.PieceManager.Run.{
  Reaches, received, requested, start, then_, Reaches-safe, completed-on-disk, init-Intact,
}

-- In place of SHA-1: the bytes themselves, filled up.
abbrev digest : List ℕ → List ℕ
digest bytes = take 20 (bytes ++ replicate 20 0)

abbrev files : ℕ → Files
files len = FileManager.init (record { path = []; start_off = 0; len = len } ∷ [])

-- One piece of two bytes.
abbrev hashes : List ℕ
hashes = digest (7 ∷ 8 ∷ [])

abbrev small : PieceManager
small = init 2 2 (files 2) hashes 5000

abbrev result : Option (Option (ℕ × ℕ × ℕ) × PieceManager) → PieceManager
result none = small
result (some (answer, m)) = m

abbrev or_small : Option PieceManager → PieceManager
or_small none = small
or_small (some m) = m

abbrev asked : PieceManager
asked = result (request_next_block (true ∷ []) 100 small)

abbrev there : PieceManager
there = or_small (receive_block digest 0 (7 ∷ 8 ∷ []) 0 asked)

-- The peer has the piece, so it is asked for, whole.
asks : request_next_block (true ∷ []) 100 small ≡ some (some (0, 0, 2), asked)
unfolding request_next_block init sort iota_u32 contains find cpp_torrent.Piece.request_next_block
    cpp_torrent.Piece.init iota_u16
asks = refl

-- The piece is verified and done.
done : completed there ≡ true
unfolding request_next_block receive_block init find sort iota_u32 contains
    cpp_torrent.Piece.request_next_block cpp_torrent.Piece.init iota_u16 replace
    cpp_torrent.Piece.receive_block finish_piece splice FileManager.write FileManager.init
done = refl

stores : receive_block digest 0 (7 ∷ 8 ∷ []) 0 asked ≡ some there
unfolding request_next_block receive_block init find sort iota_u32 contains
    cpp_torrent.Piece.request_next_block cpp_torrent.Piece.init iota_u16 replace
    cpp_torrent.Piece.receive_block finish_piece splice FileManager.write FileManager.init
stores = refl

-- A wrong block makes the piece start over.
rejected : (or_small (receive_block digest 0 (7 ∷ 9 ∷ []) 0 asked)).pieces_left ≡ 1
unfolding request_next_block receive_block init find sort iota_u32 contains
    cpp_torrent.Piece.request_next_block cpp_torrent.Piece.init iota_u16 replace
    cpp_torrent.Piece.receive_block finish_piece splice FileManager.write FileManager.init
rejected = refl

small-Bounds : BoundsOf small
unfolding init
small-Bounds = record {
  some_size = omega arith;
  few_blocks = omega arith;
  whole = omega arith;
  pieces = refl;
  indexed = omega arith;
  active = omega arith;
}

small-Stored : Stored small
unfolding init FileManager.init total
small-Stored = record { laid = omega arith; held = refl; addressable = omega arith }

small-IsValid : IsValid small
small-IsValid = init-IsValid 2 2 (files 2) hashes 5000 small-Bounds

run : Reaches digest small there
unfolding init
run =
    then_ (then_ start (requested (true ∷ []) 100 (some (0, 0, 2)) (omega arith) asks))
      (received 0 (7 ∷ 8 ∷ []) 0 (omega arith) stores)

small-Intact : Intact digest small
small-Intact = init-Intact digest 2 2 (files 2) hashes 5000 small-Stored

asked-safe : IsValid asked × Intact digest asked
unfolding init
asked-safe =
    Reaches-safe digest
      (then_ start (requested (true ∷ []) 100 (some (0, 0, 2)) (omega arith) asks)) small-IsValid
      small-Intact

receive_block-IsValid_example : IsValid there
receive_block-IsValid_example =
    receive_block-IsValid digest asked 0 (7 ∷ 8 ∷ []) 0 asked-safe.0 (omega arith) stores

receive_block-Intact_example : Intact digest there
receive_block-Intact_example =
    receive_block-Intact digest asked 0 (7 ∷ 8 ∷ []) 0 asked-safe.0 asked-safe.1 (omega arith)
      stores

abbrev piece_or : Option Piece → Piece
piece_or none = Piece.init 0 0
piece_or (some p) = p

fits :
    (p : Piece)
    → find 0 asked.requested_pieces ≡ some p
    → (get_block_index 0 < p.blocks_cnt) × (0 + 2 ≤ p.piece_size)
unfolding request_next_block init sort iota_u32 contains find replace
    cpp_torrent.Piece.request_next_block cpp_torrent.Piece.init iota_u16
fits p e =
    subst (λ x. (get_block_index 0 < x.blocks_cnt) × (0 + 2 ≤ x.piece_size)) (ap piece_or e)
      (omega arith, omega arith)

enough : asked.pieces_cnt * sha1_size ≤ length asked.piece_hashes
unfolding request_next_block init sort iota_u32 contains find replace
    cpp_torrent.Piece.request_next_block cpp_torrent.Piece.init iota_u16
enough = omega arith

one : 0 < there.pieces_cnt
unfolding request_next_block receive_block init find sort iota_u32 contains
    cpp_torrent.Piece.request_next_block cpp_torrent.Piece.init iota_u16 replace
    cpp_torrent.Piece.receive_block finish_piece splice FileManager.write FileManager.init
one = omega arith

receive_block_runs_example :
    (m : PieceManager) × (receive_block digest 0 (7 ∷ 9 ∷ []) 0 asked ≡ some m)
    × IsValid m
    × Intact digest m
receive_block_runs_example =
    receive_block_runs digest asked 0 (7 ∷ 9 ∷ []) 0 asked-safe.0 asked-safe.1 enough (omega arith)
      fits

Reaches-safe_example : IsValid there × Intact digest there
Reaches-safe_example = Reaches-safe digest run small-IsValid small-Intact

completed-on-disk_example : bytes_equal (digest (piece_on_disk there 0)) (ref_hash there 0) ≡ true
completed-on-disk_example =
    completed-on-disk digest 2 2 (files 2) hashes 5000 small-Bounds small-Stored run done 0 one

request_next_block-Offered_example :
    (answer : Option (ℕ × ℕ × ℕ)) × (m' : PieceManager) × (request_next_block (true ∷ []) 100 small
      ≡ some (answer, m'))
    × IsValid m'
    × Offered small (true ∷ []) answer
request_next_block-Offered_example =
    request_next_block-Offered (true ∷ []) 100 small small-IsValid (unfold init in omega arith)

remove_peer_bitfield-add_example :
    (n : PieceManager) × (r : PieceManager) × (add_peer_bitfield (true ∷ []) small ≡ some n)
    × (remove_peer_bitfield (true ∷ []) n ≡ some r)
    × (r.piece_avail ≡ small.piece_avail)
remove_peer_bitfield-add_example =
    remove_peer_bitfield-add (true ∷ []) small (unfold init in omega arith)
      (unfold init in omega arith)

add_available_piece-IsValid_example :
    IsValid (record small { piece_avail = 1 ∷ [] })
    × ((j : ℕ)
        → get_or (1 ∷ []) j 0 ≡ (
            if j == 0
            then (get_or small.piece_avail 0 0 + 1) % u16_mod
            else get_or small.piece_avail j 0))
add_available_piece-IsValid_example =
    add_available_piece-IsValid 0 small small-IsValid (unfold add_available_piece init in refl)

-- Four pieces in the order of their availabilities 0, 1, 2, 2; the piece 1 is announced.
abbrev four : PieceManager
four = record small {
  pieces_cnt = 4;
  piece_avail = 0 ∷ 2 ∷ 1 ∷ 2 ∷ [];
  sorted_pieces = 0 ∷ 2 ∷ 1 ∷ 3 ∷ [];
  are_pieces_sorted = true;
}

add_available_piece-unsorted_example :
    (m' : PieceManager) × (add_available_piece 1 four ≡ some m')
    × (m'.are_pieces_sorted ≡ true)
    × (¬ IsSorted m'.piece_avail m'.sorted_pieces)
add_available_piece-unsorted_example =
    add_available_piece-unsorted 1 four refl (ground arith) (omega arith) refl (omega arith)
      (omega arith) (unfold upper_bound in omega arith) (unfold upper_bound in omega arith)
