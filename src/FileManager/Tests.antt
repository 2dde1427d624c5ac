-- ===== src/FileManager/Tests.antt =====
-- Three small files, one write across two borders, and the theorems applied to them.
use cpp_torrent.Base.{ℕ, ◌≡◌, refl, Option, length, some, List, [], ◌∷◌, arith}
use cpp_torrent.FileManager.{File, FileInfo, Files, init, write, write_file, write_at}
use cpp_torrent.FileManager.Disk
use cpp_torrent.FileManager.Disk.{Disk, Handle, open_files, put_file, view, shown}
use cpp_torrent.FileManager.Bytes.{total, Laid}
use cpp_torrent.FileManager.Write.{Written}
use cpp_torrent.FileManager.Limits.{write-Written}

abbrev infos : List FileInfo
infos =
    record { path = []; start_off = 0; len = 2 }
    ∷ record { path = []; start_off = 2; len = 3 }
    ∷ record { path = []; start_off = 5; len = 4 }
    ∷ []

abbrev file : ℕ → List ℕ → File
file n bytes = record { len = n; contents = bytes }

-- Each path leads to a file of its own, numbered as they are opened.
abbrev apart : List (List ℕ) → List ℕ → Option ℕ
apart opened path = some (length opened)

abbrev blank : Disk
blank file = []

abbrev handles : List Handle
handles =
    record { start_off = 0; len = 2; file = 0 }
    ∷ record { start_off = 2; len = 3; file = 1 }
    ∷ record { start_off = 5; len = 4; file = 2 }
    ∷ []

opened : open_files apart [] infos ≡ some handles
unfolding open_files
opened = refl

-- Where all paths lead to one file, a write to the second lands in the first.
one_file :
    shown
      (record { start_off = 0; len = 2; file = 7 }
        ∷ record { start_off = 2; len = 2; file = 7 }
        ∷ [])
      (Disk.write
        (record { start_off = 0; len = 2; file = 7 }
          ∷ record { start_off = 2; len = 2; file = 7 }
          ∷ [])
        (1 ∷ 2 ∷ 3 ∷ 4 ∷ [])
        0
        blank)
    ≡ some ((0, file 2 (3 ∷ 4 ∷ [])) ∷ (2, file 2 (3 ∷ 4 ∷ [])) ∷ [])
unfolding Disk.write Disk.fill put_file view write_file write_at
one_file = refl

abbrev files : Files
files = init infos

spread :
    write files (1 ∷ 2 ∷ 3 ∷ 4 ∷ 5 ∷ []) 1
    ≡ some ((0, file 2 (0 ∷ 1 ∷ [])) ∷ (2, file 3 (2 ∷ 3 ∷ 4 ∷ [])) ∷ (5, file 4 (5 ∷ [])) ∷ [])
unfolding write init write_file write_at
spread = refl

files-Laid : Laid 0 files
unfolding init
files-Laid = omega arith

write-Written_example :
    (after : Files) × (write files (1 ∷ 2 ∷ 3 ∷ 4 ∷ 5 ∷ []) 1 ≡ some after)
    × Written 0 files (1 ∷ 2 ∷ 3 ∷ 4 ∷ 5 ∷ []) 1 after
write-Written_example =
    write-Written files (1 ∷ 2 ∷ 3 ∷ 4 ∷ 5 ∷ []) 1 files-Laid (unfold init total in omega arith)
      (omega arith) (unfold init total in omega arith)
