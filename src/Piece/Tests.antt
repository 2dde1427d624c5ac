-- ===== src/Piece/Tests.antt =====
-- Runs of a piece of two and a half blocks, and the theorems applied to it.
use cpp_torrent.Base.{
  length, ℕ, ◌≡◌, refl, ◌+◌, ◌<◌, ◌≤◌, false, none, some, [], ◌∷◌, arith, ◌↔◌, ◌⊎◌,
}
use cpp_torrent.Piece.{
  Piece, init, receive_block, request_next_block, is_block_received, iota_u16, get_block_index,
}
use cpp_torrent.Piece.Valid.{IsValid, init-IsValid}
use cpp_torrent.Piece.Receive.{receive_block-Delivered, receive_block-none_iff}
use cpp_torrent.Piece.Receive.Marks.{Delivered}
use cpp_torrent.Piece.Request.{HandedOut, AllPending, request_next_block_cases}

abbrev size : ℕ
size = 40960

abbrev fresh : Piece
fresh = init size 5000

abbrev after_request : Piece
after_request = (request_next_block fresh 100).1

first_block : (request_next_block fresh 100).0 ≡ some (0, 16384)
unfolding request_next_block init iota_u16
first_block = refl

last_block :
    (request_next_block (request_next_block after_request 101).1 102).0 ≡ some (32768, 8192)
unfolding request_next_block init iota_u16
last_block = refl

fresh-IsValid : IsValid fresh
fresh-IsValid = init-IsValid size 5000 (omega arith)

receive_block-Delivered_example :
    (q : Piece) × (receive_block fresh (7 ∷ 8 ∷ []) 16384 ≡ some q)
    × Delivered fresh (7 ∷ 8 ∷ []) 16384 q
receive_block-Delivered_example =
    receive_block-Delivered fresh (7 ∷ 8 ∷ []) 16384 fresh-IsValid (omega arith)
      (unfold init in omega arith) (unfold init in omega arith)

receive_block-none_iff_example : (receive_block fresh (7 ∷ []) 49152 ≡ none) ↔ (
    (fresh.blocks_cnt ≤ get_block_index 49152)
    ⊎ ((is_block_received fresh (get_block_index 49152) ≡ false)
        × (0 < length {A = ℕ} (7 ∷ []))
        × (fresh.piece_size < 49152 + length {A = ℕ} (7 ∷ []))))
receive_block-none_iff_example =
    receive_block-none_iff fresh (7 ∷ []) 49152 fresh-IsValid (omega arith) (omega arith)

request_next_block_cases_example :
    ((b : ℕ) × (offset : ℕ) × (n : ℕ) × (q : Piece) × (request_next_block fresh 100
        ≡ (some (offset, n), q))
      × HandedOut fresh 100 b offset n q)
    ⊎ ((request_next_block fresh 100 ≡ (none, fresh)) × AllPending fresh 100)
request_next_block_cases_example = request_next_block_cases fresh 100 fresh-IsValid
