-- ===== src/PieceManager/Valid.antt =====
-- The invariant of the piece manager.
use cpp_torrent.Base.{
  ℕ, zero, suc, ◌+◌, ◌^◌, ◌≤◌, ◌<◌, ◌≡◌, refl, Bool, false, some, List, [], ◌∷◌, arith, ltb, ◌==◌,
  ◌&&◌, if◌then◌else◌, length, get_or, set, replicate, length-replicate, size_mod, u32_mod,
  ceil_div, ap,
}
use cpp_torrent.Piece.{Piece}
use cpp_torrent.Piece.Valid.{IsValid as PieceIsValid}
use cpp_torrent.FileManager.{Files}
use cpp_torrent.PieceManager.{PieceManager, init, iota_u32, piece_length}
use cpp_torrent.PieceManager.Requests.{Requested, find}
use cpp_torrent.PieceManager.Requests.Laws.{Distinct}

-- How often `x` stands in a list.
unfoldable pub count : ℕ → List ℕ → ℕ
count x [] = 0
count x (y ∷ ys) = (if x == y then 1 else 0) + count x ys

unfoldable pub count_true : List Bool → ℕ
count_true [] = 0
count_true (b ∷ bs) = (if b then 1 else 0) + count_true bs

-- The parameters of a torrent that the client can hold: `cnt` pieces of `size` bytes, at most 2^30,
-- for `total` bytes, of which `limit` may be under download at once.
pub record Bounds (cnt total size limit : ℕ) : Type 0 where
  pub some_size : 0 < size
  pub few_blocks : size ≤ 2 ^ 30
  pub whole : total < size_mod
  pub pieces : cnt ≡ ceil_div total size
  pub indexed : cnt ≤ u32_mod
  pub active : 0 < limit

abbrev pub BoundsOf : PieceManager → Type 0
BoundsOf m = Bounds m.pieces_cnt m.torrent_size m.piece_size m.max_active_requests

-- A piece under download among `cnt` pieces, of which `done` says which are there: it is one of them,
-- not there yet, valid and of the right size.
pub record Slot (cnt total size : ℕ) (done : List Bool) (k : ℕ) (p : Piece) : Type 0 where
  pub in_torrent : k < cnt
  pub missing : get_or done k false ≡ false
  pub valid : PieceIsValid p
  pub sized : p.piece_size ≡ piece_length cnt total size k

-- What holds of the requested pieces `r`.
pub record Slots (cnt total size limit : ℕ) (done : List Bool) (r : Requested) : Type 0 where
  pub distinct : Distinct r
  pub slot : (k : ℕ) (p : Piece) → find k r ≡ some p → Slot cnt total size done k p
  pub few : length r ≤ limit

abbrev pub SlotsOf : PieceManager → Requested → Type 0
SlotsOf m = Slots m.pieces_cnt m.torrent_size m.piece_size m.max_active_requests m.piece_completed

pub record IsValid (m : PieceManager) : Type 0 where
  pub bounds : BoundsOf m
  pub completed_length : length m.piece_completed ≡ m.pieces_cnt
  pub avail_length : length m.piece_avail ≡ m.pieces_cnt
  -- each piece stands in `sorted_pieces_` once
  pub listed : (x : ℕ) → count x m.sorted_pieces ≡ (if ltb x m.pieces_cnt then 1 else 0)
  -- what is left is what was not completed
  pub counted : m.pieces_left + count_true m.piece_completed ≡ m.pieces_cnt
  -- the flag tells that nothing is left
  pub flagged : m.completion_flag ≡ (ltb 0 m.pieces_cnt && (m.pieces_left == 0))
  pub slots : SlotsOf m m.requested_pieces

pub count_true-le : (bs : List Bool) → count_true bs ≤ length bs
unfolding count_true
count_true-le [] = omega arith
count_true-le (b ∷ bs) = ground (arith, count_true-le bs)

pub count_true-set :
    (bs : List Bool) (i : ℕ) (b : Bool)
    → i < length bs
    → count_true (set bs i b) + (if get_or bs i false then 1 else 0)
      ≡ count_true bs + (if b then 1 else 0)
unfolding count_true
count_true-set [] i b h = absurd (omega arith)
count_true-set (c ∷ bs) zero b h = ground arith
count_true-set (c ∷ bs) (suc i) b h = ground (arith, count_true-set bs i b)

-- One more completed piece is one less to go.
pub count_true-lt :
    (bs : List Bool) (i : ℕ) → i < length bs → get_or bs i false ≡ false → count_true bs < length bs
unfolding count_true
count_true-lt [] i h e = absurd (omega arith)
count_true-lt (c ∷ bs) zero h e = ground (arith, count_true-le bs)
count_true-lt (c ∷ bs) (suc i) h e = ground (arith, count_true-lt bs i)

count_true-replicate : (n : ℕ) → count_true (replicate n false) ≡ 0
unfolding count_true
count_true-replicate zero = refl
count_true-replicate (suc n) = omega (arith, count_true-replicate n)

count-iota_u32 :
    (i n x : ℕ)
    → i + n ≤ u32_mod
    → count x (iota_u32 i n) ≡ (if ltb x i then 0 else if ltb x (i + n) then 1 else 0)
unfolding count iota_u32
count-iota_u32 i zero x h = ground arith
count-iota_u32 i (suc n) x h = ground (arith, count-iota_u32 (suc i) n x)

length-iota_u32 : (i n : ℕ) → length (iota_u32 i n) ≡ n
unfolding iota_u32
length-iota_u32 i zero = refl
length-iota_u32 i (suc n) = ap suc (length-iota_u32 (suc i) n)

-- A new piece manager within the bounds is valid: nothing is completed or under download, and each
-- piece stands in the order once.
pub init-IsValid :
    (piece_size torrent_size : ℕ) (files : Files) (hashes : List ℕ) (timeout : ℕ)
    → BoundsOf (init piece_size torrent_size files hashes timeout)
    → IsValid (init piece_size torrent_size files hashes timeout)
unfolding init find
init-IsValid piece_size torrent_size files hashes timeout b =
    let cnt = ceil_div torrent_size piece_size in
    record {
      bounds = b;
      completed_length = length-replicate cnt false;
      avail_length = length-replicate cnt 0;
      listed = λ x. ground (arith, count-iota_u32 0 cnt x, b.indexed);
      counted = omega (arith, count_true-replicate cnt);
      flagged = ground arith;
      slots = record { distinct = tt; slot = λ k p e. cc; few = omega arith };
    }
