-- ===== src/PieceManager/Intact.antt =====
-- The bytes on disk: every piece that is marked as completed lies in the files with the hash that the
-- torrent gives for it.
pub mod Bytes
use cpp_torrent.Base.{
  ℕ, zero, suc, ◌+◌, ◌*◌, ◌%◌, ◌≤◌, ◌<◌, ◌≡◌, ◌≢◌, refl, sym, subst, ◌∙◌, true, false, ◌⊎◌, inl,
  inr, none, some, List, [], ◌∷◌, arith, ltb, ◌==◌, ==_iff, length, get_or, get_or-set, set,
  u32_mod, ceil_div, Bool-cases, Option-cases,
}
use cpp_torrent.FileManager
use cpp_torrent.FileManager.{Files}
use cpp_torrent.FileManager.Bytes.{byte_at, Laid, total}
use cpp_torrent.FileManager.Write.{Written}
use cpp_torrent.FileManager.Limits.{write-Written}
use cpp_torrent.Message.{bytes_equal}
use cpp_torrent.Piece
use cpp_torrent.Piece.{Piece, get_block_index}
use cpp_torrent.Piece.Receive.{receive_block_kept, receive_block-Delivered}
use cpp_torrent.PieceManager.Requests.Laws.{find-replaced}
use cpp_torrent.PieceManager.Receive.{replace-IsValid, receive_block-IsValid}
use cpp_torrent.PieceManager.{
  PieceManager, sha1_size, mark_completed, finish_piece, receive_block, ref_hash, write_offset,
  piece_length, size_of_piece,
}
use cpp_torrent.PieceManager.Requests.{Requested, find, erase, replace}
use cpp_torrent.PieceManager.Valid.{IsValid, Slot}
use cpp_torrent.PieceManager.Layout.{before_end, piece_end, length_pos, apart}
use cpp_torrent.PieceManager.Intact.Bytes.{
  read_bytes, read_bytes-Written, read_bytes-elsewhere, piece_on_disk, Stored,
}

module _ (sha1 : List ℕ → List ℕ) where
  pub record Intact (m : PieceManager) : Type 0 where
    pub stored : Stored m
    pub hashed :
        (k : ℕ)
        → k < m.pieces_cnt
        → get_or m.piece_completed k false ≡ true
        → bytes_equal (sha1 (piece_on_disk m k)) (ref_hash m k) ≡ true

  -- A piece that lies in the files with the right hash keeps it when another piece is written.
  others :
      (m : PieceManager) (k j : ℕ) (bytes : List ℕ) (files : Files)
      → IsValid m
      → Written 0 m.files bytes (k * m.piece_size) files
      → length bytes ≡ size_of_piece m k
      → j ≢ k
      → read_bytes files (j * m.piece_size) (size_of_piece m j) ≡ piece_on_disk m j
  others m k j bytes files v w len n =
      read_bytes-elsewhere m.files files bytes (k * m.piece_size) (j * m.piece_size)
        (size_of_piece m j) w
        (omega (
          arith,
          apart m.pieces_cnt m.torrent_size m.piece_size j k v.bounds.some_size v.bounds.few_blocks
              n,
        ))

  mark_completed-Intact :
      (m : PieceManager) (k : ℕ) (p : Piece) (files : Files)
      → IsValid m
      → Intact m
      → Slot m.pieces_cnt m.torrent_size m.piece_size m.piece_completed k p
      → bytes_equal (sha1 p.piece_data) (ref_hash m k) ≡ true
      → Written 0 m.files p.piece_data (k * m.piece_size) files
      → Intact (mark_completed k files m)
  mark_completed-Intact m k p files v i s good w =
      let len : length p.piece_data ≡ size_of_piece m k = s.valid.data_length ∙ s.sized in
      let new : p.piece_data ≡ read_bytes files (k * m.piece_size) (size_of_piece m k) = sym (
        subst (λ n. read_bytes files (k * m.piece_size) n ≡ p.piece_data) len
          (read_bytes-Written m.files files p.piece_data (k * m.piece_size) w)) in
      record {
        stored = record {
          laid = w.laid;
          held = w.same_total ∙ i.stored.held;
          addressable = i.stored.addressable;
        };
        hashed = λ j h done. elim (Bool-cases (j == k)) [
          | inl same ↦
              subst
                (λ x.
                  bytes_equal (sha1 (read_bytes files (x * m.piece_size) (size_of_piece m x)))
                    (ref_hash m x)
                  ≡ true)
                (sym ((==_iff j k).0 same))
                (subst (λ d. bytes_equal (sha1 d) (ref_hash m k) ≡ true) new good)
          | inr other ↦
              let n : j ≢ k = ground arith in
              subst (λ d. bytes_equal (sha1 d) (ref_hash m j) ≡ true)
                (sym (others m k j p.piece_data files v w len n))
                (i.hashed j h (ground (arith, get_or-set m.piece_completed k j true false)))
        ];
      }

  replace-Intact :
      (m : PieceManager) (r : Requested) → Intact m → Intact (record m { requested_pieces = r })
  replace-Intact m r i = record {
    stored = record {
      laid = i.stored.laid;
      held = i.stored.held;
      addressable = i.stored.addressable;
    };
    hashed = i.hashed;
  }

  reject-Intact :
      (m : PieceManager) (k : ℕ) (r : Requested)
      → k < length m.piece_completed
      → Intact m
      → Intact (record m { piece_completed = set m.piece_completed k false; requested_pieces = r })
  reject-Intact m k r inside i = record {
    stored = record {
      laid = i.stored.laid;
      held = i.stored.held;
      addressable = i.stored.addressable;
    };
    hashed =
        λ j h done. i.hashed j h (ground (arith, get_or-set m.piece_completed k j false false));
  }

  -- The write of a complete piece goes to the place of the piece.
  write_piece :
      (m : PieceManager) (k : ℕ) (p : Piece)
      → IsValid m
      → Stored m
      → Slot m.pieces_cnt m.torrent_size m.piece_size m.piece_completed k p
      → (files : Files) × (FileManager.write m.files p.piece_data (write_offset m k) ≡ some files)
        × Written 0 m.files p.piece_data (k * m.piece_size) files
  write_piece m k p v st s =
      let len : length p.piece_data ≡ size_of_piece m k = s.valid.data_length ∙ s.sized in
      let inside : k < ceil_div m.torrent_size m.piece_size =
        subst (λ n. k < n) v.bounds.pieces s.in_torrent in
      let starts = before_end m.torrent_size m.piece_size k v.bounds.some_size inside in
      let ends : k * m.piece_size + size_of_piece m k ≤ m.torrent_size =
        subst
          (λ n. k * m.piece_size + piece_length n m.torrent_size m.piece_size k ≤ m.torrent_size)
          (sym v.bounds.pieces)
          (piece_end m.torrent_size m.piece_size k v.bounds.some_size v.bounds.whole
            v.bounds.few_blocks inside) in
      let at : (k * m.piece_size) % u32_mod ≡ k * m.piece_size =
        omega (arith, starts, st.addressable) in
      rw at (
        write-Written m.files p.piece_data (k * m.piece_size) st.laid
          (omega (arith, st.held, v.bounds.whole))
          (omega (
            arith,
            len,
            length_pos m.pieces_cnt m.torrent_size m.piece_size k v.bounds.some_size
                v.bounds.few_blocks,
          ))
          (omega (arith, ends, len, st.held)))

  finish_piece-Intact :
      (m : PieceManager) (k : ℕ) (p : Piece) {m' : PieceManager}
      → IsValid m
      → Intact m
      → find k m.requested_pieces ≡ some p
      → finish_piece sha1 k p m ≡ some m'
      → Intact m'
  unfolding finish_piece
  finish_piece-Intact m k p v i e f =
      let (files, run, w) = write_piece m k p v i.stored (v.slots.slot k p e) in
      elim (Bool-cases (bytes_equal (sha1 p.piece_data) (ref_hash m k))) [
        | inl good ↦
            subst Intact (ground arith)
              (mark_completed-Intact m k p files v i (v.slots.slot k p e) good w)
        | inr bad ↦ subst Intact (ground arith) (
            reject-Intact m k (erase k m.requested_pieces)
              (omega (arith, (v.slots.slot k p e).in_torrent, v.completed_length)) i)
      ]

  -- For a valid piece manager: a call of `receive_block` that does not fault keeps every piece that
  -- counts as completed in the files with its hash, whether the block is ignored, stored, or
  -- completes a piece whose hash fits or does not.
  pub receive_block-Intact :
      (m : PieceManager) (k : ℕ) (block : List ℕ) (offset : ℕ) {m' : PieceManager}
      → IsValid m
      → Intact m
      → offset < u32_mod
      → receive_block sha1 k block offset m ≡ some m'
      → Intact m'
  unfolding receive_block
  receive_block-Intact m k block offset {m'} v i ho f =
      elim (Option-cases (find k m.requested_pieces)) [
        | inl missing ↦ subst Intact (ground arith) i
        | inr (p, e) ↦ elim (Option-cases (Piece.receive_block p block offset)) [
          | inl faulty ↦ absurd (ground arith)
          | inr (q, r) ↦
              let (w, same) = receive_block_kept p block offset (v.slots.slot k p e).valid ho r in
              let next = replace-IsValid m v k p e q w same in
              let kept = replace-Intact m (replace k q m.requested_pieces) i in
              elim (Bool-cases (Piece.is_complete q)) [
                | inl done ↦
                    finish_piece-Intact
                      (record m { requested_pieces = replace k q m.requested_pieces }) k q next kept
                      (find-replaced k p q m.requested_pieces e) (ground arith)
                | inr more ↦ subst Intact (ground arith) kept
              ]
        ]
      ]

  finish_piece_runs :
      (m : PieceManager) (k : ℕ) (p : Piece)
      → IsValid m
      → Stored m
      → m.pieces_cnt * sha1_size ≤ length m.piece_hashes
      → find k m.requested_pieces ≡ some p
      → (m' : PieceManager) × (finish_piece sha1 k p m ≡ some m')
  unfolding finish_piece
  finish_piece_runs m k p v st hashes e =
      let slot = v.slots.slot k p e in
      let (files, run, w) = write_piece m k p v st slot in
      let enough : ltb (length m.piece_hashes) ((k * sha1_size) % u32_mod + sha1_size) ≡ false =
        ground (arith, slot.in_torrent) in
      elim (Bool-cases (bytes_equal (sha1 p.piece_data) (ref_hash m k))) [
        | inl good ↦ (mark_completed k files m, rw (enough, good, run) refl)
        | inr bad ↦ (
          record m {
            piece_completed = set m.piece_completed k false;
            requested_pieces = erase k m.requested_pieces;
          },
          rw (enough, bad) refl,
        )
      ]

  -- For a valid piece manager whose completed pieces are in the files, and with a hash for each
  -- piece: a block that lies within its piece, or belongs to no piece under download, is received
  -- without a fault, and both stay so, whatever the hash of a completed piece says.
  pub receive_block_runs :
      (m : PieceManager) (k : ℕ) (block : List ℕ) (offset : ℕ)
      → IsValid m
      → Intact m
      → m.pieces_cnt * sha1_size ≤ length m.piece_hashes
      → offset < u32_mod
      → ((p : Piece)
          → find k m.requested_pieces ≡ some p
          → (get_block_index offset < p.blocks_cnt) × (offset + length block ≤ p.piece_size))
      → (m' : PieceManager) × (receive_block sha1 k block offset m ≡ some m')
        × IsValid m'
        × Intact m'
  unfolding receive_block
  receive_block_runs m k block offset v i hashes ho fits =
      let (m', run) = runs (Option-cases (find k m.requested_pieces)) in
      (
        m',
        run,
        receive_block-IsValid sha1 m k block offset v ho run,
        receive_block-Intact m k block offset v i ho run,
      )
    where
      runs :
          (find k m.requested_pieces ≡ none) ⊎ ((p : Piece) × (find k m.requested_pieces ≡ some p))
          → (m' : PieceManager) × (receive_block sha1 k block offset m ≡ some m')
      runs (inl missing) = (m, rw missing refl)
      runs (inr (p, e)) =
          let (hi, room) = fits p e in
          let (q, r, d) =
            receive_block-Delivered p block offset (v.slots.slot k p e).valid ho hi room in
          let (w, same) = receive_block_kept p block offset (v.slots.slot k p e).valid ho r in
          let n = record m { requested_pieces = replace k q m.requested_pieces } in
          let next = replace-IsValid m v k p e q w same in
          elim (Bool-cases (Piece.is_complete q)) [
            | inl done ↦
                let (m', run) =
                  finish_piece_runs n k q next
                    (replace-Intact m (replace k q m.requested_pieces) i).stored hashes
                    (find-replaced k p q m.requested_pieces e) in
                (m', rw (e, r, done) run)
            | inr more ↦ (n, rw (e, r, more) refl)
          ]
