-- ===== src/PieceManager/Receive.antt =====
-- What `PieceManager::receive_block` does on each of its branches.
use cpp_torrent.Base.{
  ℕ, ◌-◌, ◌<◌, ◌≡◌, subst, ◌∙◌, Bool, true, false, some, List, arith, ◌==◌, length, get_or-set,
  length-set, set, u32_mod, inl, inr, Bool-cases, Option-cases, ==_iff, sub_size,
}
use cpp_torrent.FileManager
use cpp_torrent.FileManager.{Files}
use cpp_torrent.Message.{bytes_equal}
use cpp_torrent.Piece
use cpp_torrent.Piece.{Piece}
use cpp_torrent.Piece.Valid.{IsValid as PieceIsValid}
use cpp_torrent.Piece.Receive.{receive_block_kept}
use cpp_torrent.PieceManager.{
  PieceManager, finish_piece, receive_block, mark_completed, ref_hash, write_offset,
}
use cpp_torrent.PieceManager.Requests.{Requested, find, replace, erase}
use cpp_torrent.PieceManager.Requests.Laws.{
  find-replaced, find-replace, find-erase, contains-find, Distinct-replace, Distinct-erase,
  length-replace, length-erase,
}
use cpp_torrent.PieceManager.Valid.{IsValid, Slot, Slots, count_true-set, count_true-lt}

module _ {cnt total size limit : ℕ} {done : List Bool} (r : Requested)
    (s : Slots cnt total size limit done r) where
  -- Another valid piece of the same size may take a slot's place.
  pub replace-Slots :
      (k : ℕ) (p q : Piece)
      → find k r ≡ some p
      → PieceIsValid q
      → q.piece_size ≡ p.piece_size
      → Slots cnt total size limit done (replace k q r)
  replace-Slots k p q e v same = record {
    distinct = Distinct-replace k q r s.distinct;
    slot = λ j x f. elim (Bool-cases (k == j)) [
      | inl hit ↦
          let there : q ≡ x = ground (arith, find-replace j k q r, contains-find k r) in
          subst (λ i. Slot cnt total size done i x) ((==_iff k j).0 hit)
            (subst (λ y. Slot cnt total size done k y) there
              (let old = s.slot k p e in
                record {
                  in_torrent = old.in_torrent;
                  missing = old.missing;
                  valid = v;
                  sized = same ∙ old.sized;
                }))
      | inr miss ↦ s.slot j x (ground (arith, find-replace j k q r))
    ];
    few = omega (arith, length-replace k q r, s.few);
  }

  -- A slot that is given up, with what is noted of its piece, leaves the others as they are.
  pub erase-Slots :
      (k : ℕ) (b : Bool) → k < length done → Slots cnt total size limit (set done k b) (erase k r)
  erase-Slots k b h = record {
    distinct = Distinct-erase k r s.distinct;
    slot = λ j x f.
        let old = s.slot j x (ground (arith, find-erase j k r s.distinct)) in
        record {
          in_torrent = old.in_torrent;
          missing =
              ground (arith, get_or-set done k j b false, find-erase j k r s.distinct, old.missing);
          valid = old.valid;
          sized = old.sized;
        };
    few = omega (arith, length-erase k r, s.few);
  }

module _ (m : PieceManager) (v : IsValid m) (k : ℕ) (p : Piece)
    (e : find k m.requested_pieces ≡ some p) where
  open-Slot : Slot m.pieces_cnt m.torrent_size m.piece_size m.piece_completed k p
  open-Slot = v.slots.slot k p e

  -- A piece that is under download is still counted as left.
  left_pos : 0 < m.pieces_left
  left_pos = omega (
    arith,
    count_true-lt m.piece_completed k (omega (arith, open-Slot.in_torrent, v.completed_length))
        open-Slot.missing,
    v.counted,
    v.completed_length,
  )

  mark_completed-IsValid : (files : Files) → IsValid (mark_completed k files m)
  mark_completed-IsValid files =
      let inside : k < length m.piece_completed =
        omega (arith, open-Slot.in_torrent, v.completed_length) in
      let one_less : sub_size m.pieces_left 1 ≡ m.pieces_left - 1 =
        omega (arith, left_pos, v.counted, v.bounds.indexed) in
      record {
        bounds = v.bounds;
        completed_length = omega (arith, length-set m.piece_completed k true, v.completed_length);
        avail_length = v.avail_length;
        listed = v.listed;
        counted = ground (
          arith,
          one_less,
          left_pos,
          count_true-set m.piece_completed k true inside,
          open-Slot.missing,
          v.counted,
        );
        flagged = ground (arith, one_less, left_pos, v.flagged, open-Slot.in_torrent);
        slots = erase-Slots m.requested_pieces v.slots k true inside;
      }

  reject-IsValid : IsValid (record m {
    piece_completed = set m.piece_completed k false;
    requested_pieces = erase k m.requested_pieces;
  })
  reject-IsValid =
      let inside : k < length m.piece_completed =
        omega (arith, open-Slot.in_torrent, v.completed_length) in
      record {
        bounds = v.bounds;
        completed_length = omega (arith, length-set m.piece_completed k false, v.completed_length);
        avail_length = v.avail_length;
        listed = v.listed;
        counted =
            ground (
              arith,
              count_true-set m.piece_completed k false inside,
              open-Slot.missing,
              v.counted,
            );
        flagged = v.flagged;
        slots = erase-Slots m.requested_pieces v.slots k false inside;
      }

  pub replace-IsValid :
      (q : Piece)
      → PieceIsValid q
      → q.piece_size ≡ p.piece_size
      → IsValid (record m { requested_pieces = replace k q m.requested_pieces })
  replace-IsValid q w same = record {
    bounds = v.bounds;
    completed_length = v.completed_length;
    avail_length = v.avail_length;
    listed = v.listed;
    counted = v.counted;
    flagged = v.flagged;
    slots = replace-Slots m.requested_pieces v.slots k p q e w same;
  }

module _ (sha1 : List ℕ → List ℕ) where
  finish_piece-IsValid :
      (m : PieceManager) (k : ℕ) (p : Piece) {m' : PieceManager}
      → IsValid m
      → find k m.requested_pieces ≡ some p
      → finish_piece sha1 k p m ≡ some m'
      → IsValid m'
  unfolding finish_piece
  finish_piece-IsValid m k p v e f =
      elim (Bool-cases (bytes_equal (sha1 p.piece_data) (ref_hash m k))) [
        | inl good ↦
            elim (Option-cases (FileManager.write m.files p.piece_data (write_offset m k))) [
              | inl bad ↦ absurd (ground arith)
              | inr (files, ok) ↦
                  subst IsValid (ground arith) (mark_completed-IsValid m v k p e files)
            ]
        | inr bad ↦ subst IsValid (ground arith) (reject-IsValid m v k p e)
      ]

  -- A call of `receive_block` that does not fault keeps the piece manager valid, whether the block
  -- is ignored, stored, or completes a piece whose hash fits or does not.
  pub receive_block-IsValid :
      (m : PieceManager) (k : ℕ) (block : List ℕ) (offset : ℕ) {m' : PieceManager}
      → IsValid m
      → offset < u32_mod
      → receive_block sha1 k block offset m ≡ some m'
      → IsValid m'
  unfolding receive_block
  receive_block-IsValid m k block offset {m'} v ho f =
      elim (Option-cases (find k m.requested_pieces)) [
        | inl missing ↦ subst IsValid (ground arith) v
        | inr (p, e) ↦ elim (Option-cases (Piece.receive_block p block offset)) [
          | inl faulty ↦ absurd (ground arith)
          | inr (q, r) ↦
              let (w, same) = receive_block_kept p block offset (v.slots.slot k p e).valid ho r in
              let n = record m { requested_pieces = replace k q m.requested_pieces } in
              let next = replace-IsValid m v k p e q w same in
              elim (Bool-cases (Piece.is_complete q)) [
                | inl done ↦
                    finish_piece-IsValid n k q next (find-replaced k p q m.requested_pieces e)
                      (ground arith)
                | inr more ↦ subst IsValid (ground arith) next
              ]
        ]
      ]
