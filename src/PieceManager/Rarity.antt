-- ===== src/PieceManager/Rarity.antt =====
-- The invariant and the order of the pieces across the calls that change the availability.
use cpp_torrent.Base.{
  ℕ, ◌+◌, ◌%◌, ◌≤◌, ◌<◌, ◌≡◌, refl, subst, ◌∙◌, Bool, true, ◌&&◌, some, List, arith, ◌==◌,
  if◌then◌else◌, length, get_or, get_or-set, length-set, u16_mod, ◌⊎◌, inl, inr, Bool-cases, All,
}
use cpp_torrent.Piece.{swap}
use cpp_torrent.PieceManager.{
  PieceManager, Sign, plus, minus, update_avail, set_bits, update_pieces_availability, increase,
  threshold, last_equal_piece, add_available_piece, sort_pieces, add_peer_bitfield,
  remove_peer_bitfield,
}
use cpp_torrent.PieceManager.Order.{upper_bound, sink}
use cpp_torrent.PieceManager.Valid.{IsValid, count}
use cpp_torrent.PieceManager.Available.{
  count-sort, count-swap, length-update_avail, upper_bound-le, sink-le, update_avail-minus-plus,
}

-- The invariant does not depend on the availabilities, nor on where a piece stands in the order.
reorder-IsValid :
    (m : PieceManager) (sorted avail : List ℕ) (flag : Bool)
    → IsValid m
    → ((x : ℕ) → count x sorted ≡ count x m.sorted_pieces)
    → length avail ≡ length m.piece_avail
    → IsValid (record m { sorted_pieces = sorted; piece_avail = avail; are_pieces_sorted = flag })
reorder-IsValid m sorted avail flag v same n = record {
  bounds = v.bounds;
  completed_length = v.completed_length;
  avail_length = n ∙ v.avail_length;
  listed = λ x. same x ∙ v.listed x;
  counted = v.counted;
  flagged = v.flagged;
  slots = v.slots;
}

pub update_pieces_availability-IsValid :
    (sign : Sign) (bits : List Bool) (m : PieceManager) {m' : PieceManager}
    → IsValid m
    → update_pieces_availability sign bits m ≡ some m'
    → IsValid m'
unfolding update_pieces_availability
update_pieces_availability-IsValid sign bits m {m'} v e = subst IsValid (ground arith) (
    reorder-IsValid m m.sorted_pieces (update_avail sign m.piece_avail bits)
      (m.are_pieces_sorted && (set_bits m.pieces_cnt bits == 0)) v (λ x. refl)
      (length-update_avail sign m.piece_avail bits))

-- For a bitfield with a bit for each piece, and availabilities that are uint16_t: adding the
-- bitfield and removing it again both succeed and leave every availability as it was, also where it
-- wraps.
pub remove_peer_bitfield-add :
    (bits : List Bool) (m : PieceManager)
    → All (λ a. a < u16_mod) m.piece_avail
    → m.pieces_cnt ≤ length bits
    → (n : PieceManager) × (r : PieceManager) × (add_peer_bitfield bits m ≡ some n)
      × (remove_peer_bitfield bits n ≡ some r)
      × (r.piece_avail ≡ m.piece_avail)
unfolding update_pieces_availability
remove_peer_bitfield-add bits m h enough =
    let n = record m {
      piece_avail = update_avail plus m.piece_avail bits;
      are_pieces_sorted = m.are_pieces_sorted && (set_bits m.pieces_cnt bits == 0);
    } in
    (
      n,
      record n {
        piece_avail = update_avail minus n.piece_avail bits;
        are_pieces_sorted = n.are_pieces_sorted && (set_bits m.pieces_cnt bits == 0);
      },
      ground arith,
      ground arith,
      update_avail-minus-plus m.piece_avail bits h,
    )

pub sort_pieces-IsValid : (m : PieceManager) → IsValid m → IsValid (sort_pieces m)
unfolding sort_pieces
sort_pieces-IsValid m v =
    reorder-IsValid m (sort_pieces m).sorted_pieces m.piece_avail true v
      (λ x. ground (arith, count-sort m.piece_avail x m.sorted_pieces)) refl

-- What `add_available_piece` returns, if it does not fault.
pub added :
    (p : ℕ) (m : PieceManager) {m' : PieceManager}
    → add_available_piece p m ≡ some m'
    → (p < m.pieces_cnt)
      × ((record m { piece_avail = increase m p } ≡ m')
          ⊎ ((0 < upper_bound m.piece_avail (threshold m p) m.sorted_pieces)
              × (record m {
                sorted_pieces =
                    swap m.sorted_pieces
                      (sink m.sorted_pieces p (last_equal_piece m p))
                      (last_equal_piece m p);
                piece_avail = increase m p;
              }
                  ≡ m')))
unfolding add_available_piece
added p m {m'} e = (
  ground arith,
  elim (Bool-cases m.are_pieces_sorted) [
    | inl sorted ↦ inr (ground arith, ground arith)
    | inr unsorted ↦ inl (ground arith)
  ],
)

-- A call of `add_available_piece` that does not fault keeps a valid piece manager valid, so that no
-- piece is lost from the order or doubled, and adds one, as a uint16_t, to the availability of
-- exactly the announced piece.
pub add_available_piece-IsValid :
    (p : ℕ) (m : PieceManager) {m' : PieceManager}
    → IsValid m
    → add_available_piece p m ≡ some m'
    → IsValid m'
      × ((j : ℕ)
          → get_or m'.piece_avail j 0 ≡ (
              if j == p
              then (get_or m.piece_avail p 0 + 1) % u16_mod
              else get_or m.piece_avail j 0))
add_available_piece-IsValid p m {m'} v e =
    let (h, cases) = added p m e in
    elim cases [
      | inl same ↦ subst Counted same (
        reorder-IsValid m m.sorted_pieces (increase m p) m.are_pieces_sorted v (λ x. refl) long,
        more h,
      )
      | inr (bound, same) ↦ subst Counted same (
        reorder-IsValid m (swapped) (increase m p) m.are_pieces_sorted v (λ x. kept bound x) long,
        more h,
      )
    ]
  where
    Counted : PieceManager → Type 0
    Counted r =
        IsValid r
        × ((j : ℕ)
            → get_or r.piece_avail j 0 ≡ (
                if j == p
                then (get_or m.piece_avail p 0 + 1) % u16_mod
                else get_or m.piece_avail j 0))

    last : ℕ
    last = last_equal_piece m p

    swapped : List ℕ
    swapped = swap m.sorted_pieces (sink m.sorted_pieces p last) last

    kept :
        0 < upper_bound m.piece_avail (threshold m p) m.sorted_pieces
        → (x : ℕ) → count x swapped ≡ count x m.sorted_pieces
    kept bound x =
        let top = upper_bound-le m.piece_avail (threshold m p) m.sorted_pieces in
        let low = sink-le m.sorted_pieces p last in
        count-swap x (sink m.sorted_pieces p last) last m.sorted_pieces (omega arith) (omega arith)

    long : length (increase m p) ≡ length m.piece_avail
    long = length-set m.piece_avail p ((get_or m.piece_avail p 0 + 1) % u16_mod)

    more :
        p < m.pieces_cnt
        → (j : ℕ)
        → get_or (increase m p) j 0
          ≡ (if j == p then (get_or m.piece_avail p 0 + 1) % u16_mod else get_or m.piece_avail j 0)
    more h j =
        get_or-set m.piece_avail p j ((get_or m.piece_avail p 0 + 1) % u16_mod) 0
          (omega (arith, v.avail_length))
