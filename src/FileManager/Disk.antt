-- ===== src/FileManager/Disk.antt =====
-- The file manager over the disk it shares with whatever opens the same files: an entry of `files_` is a
-- stream that is open on some file, and two entries may stand on one. Which file a path leads to, below
-- `dest_dir` and behind the paths that were opened before it, is given by `opens`, the part of the file
-- system; `none` is an exception of `File::File`: a directory that cannot be made, or a file that
-- cannot be opened.
pub mod Shown
use cpp_torrent.Base.{
  ℕ, ◌+◌, ◌%◌, ◌≡◌, refl, sym, ap, subst, ◌∙◌, Bool, Option, none, some, List, [], ◌∷◌, ltb, ◌==◌,
  ==_iff, if◌then◌else◌, take, drop, size_mod, sub_size, All, Bool-cases, Option-cases, inl, inr,
  some_injective, none-ne-some, arith,
}
use cpp_torrent.FileManager
use cpp_torrent.FileManager.{FileInfo, Files, File, write_file, keep_file, open_file}

-- The bytes of each file.
abbrev pub Disk : Type 0
Disk = ℕ → List ℕ

-- An entry of `files_`: its start offset, its length, and the file its stream is open on.
pub record Handle : Type 0 where
  pub start_off : ℕ
  pub len : ℕ
  pub file : ℕ

unfoldable pub put_file : Disk → ℕ → List ℕ → Disk
put_file disk file contents other = if other == file then contents else disk other

module _ (opens : List (List ℕ) → List ℕ → Option ℕ) where
  -- The constructor, behind the paths `opened`.
  unfoldable pub open_files : List (List ℕ) → List FileInfo → Option (List Handle)
  open_files opened [] = some []
  open_files opened (i ∷ is) = elim (opens opened i.path) [
    | none ↦ none
    | some file ↦ elim (open_files (i.path ∷ opened) is) [
      | none ↦ none
      | some hs ↦ some (record { start_off = i.start_off; len = i.len; file = file } ∷ hs)
    ]
  ]

-- The disk behind the constructor: `File::File` opens with `trunc`.
unfoldable pub truncated : List Handle → Disk → Disk
unfolding put_file
truncated [] disk = disk
truncated (h ∷ hs) disk = truncated hs (put_file disk h.file [])

-- What the entries show of the disk.
unfoldable pub view : List Handle → Disk → Files
view [] disk = []
view (h ∷ hs) disk = (h.start_off, record { len = h.len; contents = disk h.file }) ∷ view hs disk

-- `File::write` through an entry.
abbrev pub write_through : Handle → List ℕ → ℕ → Disk → Disk
write_through h bytes offset disk =
    put_file disk h.file
      (write_file (record { len = h.len; contents = disk h.file }) bytes offset).contents

-- The second loop of `FileManager::write`.
unfoldable pub fill : List Handle → List ℕ → ℕ → Disk → Option Disk
unfolding put_file
fill hs [] offset disk = some disk
fill [] (b ∷ bytes) offset disk = none
fill (h ∷ hs) (b ∷ bytes) offset disk =
    let write_size = sub_size ((h.start_off + h.len) % size_mod) offset in
    fill hs (drop write_size (b ∷ bytes)) ((offset + write_size) % size_mod)
      (write_through h (take write_size (b ∷ bytes)) (sub_size offset h.start_off) disk)

-- `FileManager::write`.
unfoldable pub write : List Handle → List ℕ → ℕ → Disk → Option Disk
unfolding fill
write [] bytes offset disk = none
write (h ∷ hs) bytes offset disk =
    if ltb ((h.start_off + h.len) % size_mod) offset
    then write hs bytes offset disk
    else fill (h ∷ hs) bytes offset disk

-- No entry stands on the file.
unfoldable pub Absent : ℕ → List Handle → Type 0
Absent file hs = All (λ h. ¬ h.file ≡ file) hs

-- The entries stand on different files.
unfoldable pub Different : List Handle → Type 0
unfolding Absent
Different [] = Unit
Different (h ∷ hs) = Absent h.file hs × Different hs

-- What is shown of a disk, if there is one.
abbrev pub shown : List Handle → Option Disk → Option Files
shown hs none = none
shown hs (some disk) = some (view hs disk)
