-- ===== src/PieceManager/Disk.antt =====
-- The disk behind a piece manager: its calls change the files only by writes of the file manager.
use cpp_torrent.Base.{
  ℕ, ◌≡◌, ◌∙◌, ◌⊎◌, refl, ap, sym, subst, Bool, Option, none, some, List, arith, ltb, Bool-cases,
  Option-cases, inl, inr, length, u32_mod, ◌*◌, ◌+◌, ◌%◌, some_injective,
}
use cpp_torrent.Message.{bytes_equal}
use cpp_torrent.FileManager
use cpp_torrent.FileManager.{Files}
use cpp_torrent.FileManager.Disk.{Disk, Handle, view, write, shown, Different}
use cpp_torrent.FileManager.Disk.Shown.{write-shown}
use cpp_torrent.Piece
use cpp_torrent.Piece.{Piece}
use cpp_torrent.PieceManager.{
  PieceManager, Search, fault, found, exhausted, sha1_size, ref_hash, write_offset, finish_piece,
  receive_block, conclude, check_endgame, sort_pieces, search_pieces, completed, request_next_block,
  update_pieces_availability,
}
use cpp_torrent.PieceManager.Requests.{find, replace}
use cpp_torrent.PieceManager.Rarity.{added}
use cpp_torrent.PieceManager.Request.{result_or}
use cpp_torrent.PieceManager.Run.{
  Step, Reaches, received, requested, announced, joined_or_left, start, then_,
}

-- The files are as they were, or one write of the file manager further.
Wrote : Files → Files → Type 0
Wrote fs gs =
    (gs ≡ fs) ⊎ ((bytes : List ℕ) × (offset : ℕ) × (FileManager.write fs bytes offset ≡ some gs))

conclude-files :
    (m : PieceManager) (search : Search) → (result_or m (conclude m search)).files ≡ m.files
unfolding conclude check_endgame
conclude-files m fault = refl
conclude-files m (found k offset size r) = refl
conclude-files m (exhausted r) = ground arith

request_next_block-files :
    (bitfield : List Bool) (now : ℕ) (m : PieceManager) (answer : Option (ℕ × ℕ × ℕ))
    {m' : PieceManager}
    → request_next_block bitfield now m ≡ some (answer, m')
    → m'.files ≡ m.files
unfolding request_next_block sort_pieces
request_next_block-files bitfield now m answer {m'} e = elim (Bool-cases (completed m)) [
  | inl done ↦ ground arith
  | inr more ↦
      let s = sort_pieces m in
      let search = search_pieces s bitfield now s.requested_pieces s.sorted_pieces in
      let run : conclude s search ≡ some (answer, m') = ground arith in
      subst (λ r. (result_or s r).files ≡ s.files) run (conclude-files s search)
]

module _ (sha1 : List ℕ → List ℕ) where
  finish_piece-Wrote :
      (k : ℕ) (p : Piece) (m : PieceManager) {n : PieceManager}
      → finish_piece sha1 k p m ≡ some n
      → Wrote m.files n.files
  unfolding finish_piece Wrote
  finish_piece-Wrote k p m e =
      elim (Bool-cases (ltb (length m.piece_hashes) ((k * sha1_size) % u32_mod + sha1_size))) [
        | inl short ↦ absurd (ground arith)
        | inr long ↦ elim (Bool-cases (bytes_equal (sha1 p.piece_data) (ref_hash m k))) [
          | inr other ↦ inl (ground arith)
          | inl same ↦
              elim (Option-cases (FileManager.write m.files p.piece_data (write_offset m k))) [
                | inl bad ↦ absurd (ground arith)
                | inr (files, good) ↦
                    inr (p.piece_data, write_offset m k, good ∙ ap some (ground arith))
              ]
        ]
      ]

  receive_block-Wrote :
      (k : ℕ) (block : List ℕ) (offset : ℕ) (m : PieceManager) {n : PieceManager}
      → receive_block sha1 k block offset m ≡ some n
      → Wrote m.files n.files
  unfolding receive_block Wrote
  receive_block-Wrote k block offset m {n} e = elim (Option-cases (find k m.requested_pieces)) [
    | inl missing ↦ inl (ground arith)
    | inr (p, there) ↦ elim (Option-cases (Piece.receive_block p block offset)) [
      | inl bad ↦ absurd (ground arith)
      | inr (q, good) ↦ elim (Bool-cases (Piece.is_complete q)) [
        | inl whole ↦
            finish_piece-Wrote k q (record m { requested_pieces = replace k q m.requested_pieces })
              {n = n} (ground arith)
        | inr open_ ↦ inl (ground arith)
      ]
    ]
  ]

  Step-Wrote : {m n : PieceManager} → Step sha1 m n → Wrote m.files n.files
  unfolding update_pieces_availability Wrote
  Step-Wrote {m} (received k block offset h e) = receive_block-Wrote k block offset m e
  Step-Wrote {m} (requested bits now answer h e) =
      inl (request_next_block-files bits now m answer e)
  Step-Wrote {m} (announced k e) =
      let (h, cases) = added k m e in
      elim cases [
        | inl same ↦ inl (ap (λ x. x.files) (sym same))
        | inr (b, same) ↦ inl (ap (λ x. x.files) (sym same))
      ]
  Step-Wrote {m} (joined_or_left sign bits e) = inl (ground arith)

-- Writes through the entries of the file manager, one behind the other.
pub data Writes (hs : List Handle) (disk : Disk) : Disk → Type 0 where
  untouched : Writes hs disk disk
  wrote :
      {d after : Disk} (bytes : List ℕ) (offset : ℕ)
      → Writes hs disk d
      → write hs bytes offset d ≡ some after
      → Writes hs disk after

shown-eq-some :
    (hs : List Handle) (o : Option Disk) {fs : Files}
    → shown hs o ≡ some fs
    → (d : Disk) × (o ≡ some d) × (view hs d ≡ fs)
shown-eq-some hs none e = cc
shown-eq-some hs (some d) e = (d, refl, some_injective e)

Wrote-Writes :
    (hs : List Handle) (disk d : Disk) (fs gs : Files)
    → Different hs
    → Writes hs disk d
    → view hs d ≡ fs
    → Wrote fs gs
    → (after : Disk) × Writes hs disk after × (view hs after ≡ gs)
unfolding Wrote
Wrote-Writes hs disk d fs gs different w v (inl same) = (d, w, v ∙ sym same)
Wrote-Writes hs disk d fs gs different w v (inr (bytes, offset, e)) =
    let (after, run, shows) = shown-eq-some hs (write hs bytes offset d) (
      write-shown hs bytes offset d different
      ∙ (ap (λ x. FileManager.write x bytes offset) v ∙ e)) in
    (after, wrote bytes offset w run, shows)

-- On a disk that shows the files of a piece manager, the writes of its calls lead to one that shows its
-- files behind them.
pub Reaches-Writes :
    (sha1 : List ℕ → List ℕ) (hs : List Handle) (disk : Disk) {m n : PieceManager}
    → Different hs
    → view hs disk ≡ m.files
    → Reaches sha1 m n
    → (after : Disk) × Writes hs disk after × (view hs after ≡ n.files)
Reaches-Writes sha1 hs disk different v start = (disk, untouched, v)
Reaches-Writes sha1 hs disk {m} different v (then_ {n} {r} l s) =
    let (d, w, shows) = Reaches-Writes sha1 hs disk different v l in
    Wrote-Writes hs disk d n.files r.files different w shows (Step-Wrote sha1 s)
