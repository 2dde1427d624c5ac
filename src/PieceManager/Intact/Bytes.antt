-- ===== src/PieceManager/Intact/Bytes.antt =====
-- The bytes of a piece on disk, and writes to them and elsewhere.
use cpp_torrent.Base.{
  ℕ, zero, suc, ◌+◌, ◌*◌, ◌≤◌, ◌<◌, ◌≡◌, refl, ◌⊎◌, List, [], ◌∷◌, arith, length, get_or, u32_mod,
}
use cpp_torrent.FileManager.{Files}
use cpp_torrent.FileManager.Bytes.{byte_at, Laid, total}
use cpp_torrent.FileManager.Write.{Written}
use cpp_torrent.PieceManager.{PieceManager, size_of_piece}
use cpp_torrent.PieceManager.Layout.{apart}

-- `n` bytes from `offset`.
unfoldable pub read_bytes : Files → ℕ → ℕ → List ℕ
read_bytes fs offset zero = []
read_bytes fs offset (suc n) = byte_at fs offset ∷ read_bytes fs (suc offset) n

read_bytes-eq :
    (fs : Files) (offset : ℕ) (bytes : List ℕ)
    → ((i : ℕ) → i < length bytes → byte_at fs (offset + i) ≡ get_or bytes i 0)
    → read_bytes fs offset (length bytes) ≡ bytes
unfolding read_bytes
read_bytes-eq fs offset [] h = refl
read_bytes-eq fs offset (b ∷ bytes) h =
    ground (arith, h 0, read_bytes-eq fs (suc offset) bytes (λ i l. ground (arith, h (suc i))))

read_bytes-same :
    (fs gs : Files) (offset n : ℕ)
    → ((i : ℕ) → i < n → byte_at fs (offset + i) ≡ byte_at gs (offset + i))
    → read_bytes fs offset n ≡ read_bytes gs offset n
unfolding read_bytes
read_bytes-same fs gs offset zero h = refl
read_bytes-same fs gs offset (suc n) h =
    ground (arith, h 0, read_bytes-same fs gs (suc offset) n (λ i l. ground (arith, h (suc i))))

-- What was written is read back.
pub read_bytes-Written :
    (before after : Files) (bytes : List ℕ) (offset : ℕ)
    → Written 0 before bytes offset after
    → read_bytes after offset (length bytes) ≡ bytes
read_bytes-Written before after bytes offset w =
    read_bytes-eq after offset bytes (λ i l. ground (arith, w.content (offset + i)))

-- What lies elsewhere stays.
pub read_bytes-elsewhere :
    (before after : Files) (bytes : List ℕ) (offset o n : ℕ)
    → Written 0 before bytes offset after
    → (o + n ≤ offset) ⊎ (offset + length bytes ≤ o)
    → read_bytes after o n ≡ read_bytes before o n
read_bytes-elsewhere before after bytes offset o n w apart =
    read_bytes-same after before o n (λ i l. ground (arith, w.content (o + i)))

-- The bytes of piece `k` in the files.
abbrev pub piece_on_disk : PieceManager → ℕ → List ℕ
piece_on_disk m k = read_bytes m.files (k * m.piece_size) (size_of_piece m k)

-- The files hold the torrent, which is no larger than what a uint32_t can address.
pub record Stored (m : PieceManager) : Type 0 where
  pub laid : Laid 0 m.files
  pub held : total m.files ≡ m.torrent_size
  pub addressable : m.torrent_size ≤ u32_mod
