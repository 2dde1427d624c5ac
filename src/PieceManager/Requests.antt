-- ===== src/PieceManager/Requests.antt =====
-- The map from the index of a piece to the piece, `requested_pieces_`.
pub mod Laws
use cpp_torrent.Base.{ℕ, Bool, true, false, Option, none, some, List, [], ◌∷◌, ◌==◌, if◌then◌else◌}
use cpp_torrent.Piece.{Piece}

abbrev pub Requested : Type 0
Requested = List (ℕ × Piece)

unfoldable pub find : ℕ → Requested → Option Piece
find k [] = none
find k ((i, p) ∷ ps) = if i == k then some p else find k ps

unfoldable pub contains : ℕ → Requested → Bool
contains k [] = false
contains k ((i, p) ∷ ps) = if i == k then true else contains k ps

-- What is done to the piece behind the reference that `at` returns.
unfoldable pub replace : ℕ → Piece → Requested → Requested
replace k q [] = []
replace k q ((i, p) ∷ ps) = if i == k then (i, q) ∷ ps else (i, p) ∷ replace k q ps

unfoldable pub erase : ℕ → Requested → Requested
erase k [] = []
erase k ((i, p) ∷ ps) = if i == k then ps else (i, p) ∷ erase k ps
