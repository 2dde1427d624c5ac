-- ===== src/PieceManager/Count.antt =====
-- No call on a piece manager changes the number of its pieces, nor their hashes.
use cpp_torrent.Base.{
  ℕ, ◌≡◌, ◌∙◌, refl, ap, sym, some, List, arith, ltb, Bool-cases, Option-cases, inl, inr, length,
  u32_mod, ◌*◌, ◌+◌, ◌%◌,
}
use cpp_torrent.Message.{bytes_equal}
use cpp_torrent.FileManager
use cpp_torrent.Piece
use cpp_torrent.Piece.{Piece}
use cpp_torrent.PieceManager.{
  PieceManager, sha1_size, ref_hash, write_offset, finish_piece, receive_block,
  update_pieces_availability,
}
use cpp_torrent.PieceManager.Requests.{find, replace}
use cpp_torrent.PieceManager.Rarity.{added}
use cpp_torrent.PieceManager.Request.{Fixed, request_next_block-Fixed}
use cpp_torrent.PieceManager.Run.{
  Step, Reaches, received, requested, announced, joined_or_left, start, then_,
}

module _ (sha1 : List ℕ → List ℕ) where
  finish_piece-Fixed :
      (k : ℕ) (p : Piece) (m : PieceManager) {n : PieceManager}
      → finish_piece sha1 k p m ≡ some n
      → Fixed m n
  unfolding finish_piece
  finish_piece-Fixed k p m e =
      elim (Bool-cases (ltb (length m.piece_hashes) ((k * sha1_size) % u32_mod + sha1_size))) [
        | inl short ↦ absurd (ground arith)
        | inr long ↦ elim (Bool-cases (bytes_equal (sha1 p.piece_data) (ref_hash m k))) [
          | inr other ↦ (ground arith, ground arith)
          | inl same ↦
              elim (Option-cases (FileManager.write m.files p.piece_data (write_offset m k))) [
                | inl bad ↦ absurd (ground arith)
                | inr (files, good) ↦ (ground arith, ground arith)
              ]
        ]
      ]

  receive_block-Fixed :
      (k : ℕ) (block : List ℕ) (offset : ℕ) (m : PieceManager) {n : PieceManager}
      → receive_block sha1 k block offset m ≡ some n
      → Fixed m n
  unfolding receive_block
  receive_block-Fixed k block offset m {n} e = elim (Option-cases (find k m.requested_pieces)) [
    | inl missing ↦ (ground arith, ground arith)
    | inr (p, there) ↦ elim (Option-cases (Piece.receive_block p block offset)) [
      | inl bad ↦ absurd (ground arith)
      | inr (q, good) ↦ elim (Bool-cases (Piece.is_complete q)) [
        | inl whole ↦
            finish_piece-Fixed k q (record m { requested_pieces = replace k q m.requested_pieces })
              {n = n} (ground arith)
        | inr open_ ↦ (ground arith, ground arith)
      ]
    ]
  ]

  pub Step-Fixed : {m n : PieceManager} → Step sha1 m n → Fixed m n
  unfolding update_pieces_availability
  Step-Fixed {m} (received k block offset h e) = receive_block-Fixed k block offset m e
  Step-Fixed {m} (requested bits now answer h e) = request_next_block-Fixed bits now m answer e
  Step-Fixed {m} (announced k e) =
      let (h, cases) = added k m e in
      elim cases [
        | inl same ↦ (ap (λ x. x.pieces_cnt) (sym same), ap (λ x. x.piece_hashes) (sym same))
        | inr (b, same) ↦ (ap (λ x. x.pieces_cnt) (sym same), ap (λ x. x.piece_hashes) (sym same))
      ]
  Step-Fixed {m} (joined_or_left sign bits e) = (ground arith, ground arith)

  -- Two sequences of calls, one behind the other.
  pub Reaches-trans :
      {m n r : PieceManager} → Reaches sha1 m n → Reaches sha1 n r → Reaches sha1 m r
  Reaches-trans a start = a
  Reaches-trans a (then_ b s) = then_ (Reaches-trans a b) s

  pub Reaches-Fixed : {m n : PieceManager} → Reaches sha1 m n → Fixed m n
  Reaches-Fixed start = (refl, refl)
  Reaches-Fixed (then_ r s) =
      let (c, h) = Reaches-Fixed r in let (d, k) = Step-Fixed s in (d ∙ c, k ∙ h)
