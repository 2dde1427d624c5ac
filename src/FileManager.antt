-- ===== src/FileManager.antt =====
-- src/File.hpp, src/File.cpp, src/FileManager.hpp and src/FileManager.cpp: the files of a torrent and
-- the writes that are spread over them. Here each file is bytes of its own; the paths, the exceptions
-- of opening them, and the disk, where two paths may lead to one file, are in Disk. Failures of a write
-- to the disk are left out; `none` is an access behind the last file.
pub mod Bytes
pub mod Write
pub mod Limits
pub mod Disk
mod Tests
use cpp_torrent.Base.{
  ℕ, zero, suc, ◌+◌, ◌%◌, Bool, true, false, Option, none, some, List, [], ◌∷◌, ◌++◌, ltb,
  if◌then◌else◌, length, take, drop, size_mod, sub_size,
}

-- `std::fstream::seekp` and `write` on the bytes of a file: a gap behind the end reads as zeros.
unfoldable pub write_at : List ℕ → ℕ → List ℕ → List ℕ
write_at contents zero bytes = bytes ++ drop (length bytes) contents
write_at [] (suc n) bytes = 0 ∷ write_at [] n bytes
write_at (c ∷ cs) (suc n) bytes = c ∷ write_at cs n bytes

pub record File : Type 0 where
  pub len : ℕ
  pub contents : List ℕ

-- `File::File` opens the file with `trunc`.
abbrev pub open_file : ℕ → File
open_file len = record { len = len; contents = [] }

abbrev pub get_length : File → ℕ
get_length f = f.len

-- `File::write`; writing no bytes leaves the file alone, wherever the position stands.
unfoldable pub write_file : File → List ℕ → ℕ → File
write_file f [] offset = f
write_file f (b ∷ bytes) offset = record f { contents = write_at f.contents offset (b ∷ bytes) }

-- `FileInfo`; a path is its bytes.
pub record FileInfo : Type 0 where
  pub path : List ℕ
  pub start_off : ℕ
  pub len : ℕ

-- The vector `files_`: each start offset with its file.
abbrev pub Files : Type 0
Files = List (ℕ × File)

-- What the entries of `files_` show behind the constructor, whatever files their paths lead to.
unfoldable pub init : List FileInfo → Files
init [] = []
init (i ∷ is) = (i.start_off, open_file i.len) ∷ init is

abbrev pub keep_file : ℕ × File → Option Files → Option Files
keep_file f none = none
keep_file f (some fs) = some (f ∷ fs)

-- The second loop of `FileManager::write`, from the current file on.
unfoldable pub fill : Files → List ℕ → ℕ → Option Files
fill fs [] offset = some fs
fill [] (b ∷ bytes) offset = none
fill ((start_off, file) ∷ fs) (b ∷ bytes) offset =
    let write_size = sub_size ((start_off + get_length file) % size_mod) offset in
    keep_file (start_off, write_file file (take write_size (b ∷ bytes)) (sub_size offset start_off))
      (fill fs (drop write_size (b ∷ bytes)) ((offset + write_size) % size_mod))

-- `FileManager::write`: the first loop looks for the file, and runs also for no bytes.
unfoldable pub write : Files → List ℕ → ℕ → Option Files
unfolding fill
write [] bytes offset = none
write ((start_off, file) ∷ fs) bytes offset =
    if ltb ((start_off + get_length file) % size_mod) offset
    then keep_file (start_off, file) (write fs bytes offset)
    else fill ((start_off, file) ∷ fs) bytes offset

-- `get_total_length`, the accumulation from `acc`.
unfoldable pub total_length_from : ℕ → Files → ℕ
total_length_from acc [] = acc
total_length_from acc ((start_off, file) ∷ fs) =
    total_length_from ((acc + get_length file) % size_mod) fs

unfoldable pub get_total_length : Files → ℕ
unfolding total_length_from
get_total_length fs = total_length_from 0 fs
