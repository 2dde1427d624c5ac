-- ===== src/FileManager/Bytes.antt =====
-- The files seen as one sequence of bytes, and what a write to one file does to it.
use cpp_torrent.Base.{
  ℕ, zero, suc, ◌+◌, ◌-◌, ◌≡◌, refl, Bool, ◌&&◌, List, [], ◌∷◌, ◌++◌, arith, ltb, leb,
  if◌then◌else◌, length, get_or, drop,
}
use cpp_torrent.FileManager.{File, Files, write_at, write_file}

get_or-append :
    (xs ys : List ℕ) (i : ℕ)
    → get_or (xs ++ ys) i 0
      ≡ (if ltb i (length xs) then get_or xs i 0 else get_or ys (i - length xs) 0)
get_or-append [] ys i = ground arith
get_or-append (x ∷ xs) ys zero = ground arith
get_or-append (x ∷ xs) ys (suc i) = ground (arith, get_or-append xs ys i)

pub get_or-drop : (n i : ℕ) (xs : List ℕ) → get_or (drop n xs) i 0 ≡ get_or xs (n + i) 0
get_or-drop zero i xs = ground arith
get_or-drop (suc n) i [] = ground arith
get_or-drop (suc n) i (x ∷ xs) = ground (arith, get_or-drop n i xs)

-- Whether position `i` lies in the `n` positions from `offset`.
abbrev pub covers : ℕ → ℕ → ℕ → Bool
covers offset n i = leb offset i && ltb i (offset + n)

-- A write replaces the positions that it covers and no other; unwritten positions read as 0.
get_or-write_at :
    (contents : List ℕ) (offset : ℕ) (bytes : List ℕ) (i : ℕ)
    → get_or (write_at contents offset bytes) i 0 ≡ (
        if covers offset (length bytes) i then get_or bytes (i - offset) 0 else get_or contents i 0)
unfolding write_at
get_or-write_at contents zero bytes i = ground (
  arith,
  get_or-append bytes (drop (length bytes) contents) i,
  get_or-drop (length bytes) (i - length bytes) contents,
)
get_or-write_at [] (suc n) bytes zero = ground arith
get_or-write_at [] (suc n) bytes (suc i) = ground (arith, get_or-write_at [] n bytes i)
get_or-write_at (c ∷ cs) (suc n) bytes zero = ground arith
get_or-write_at (c ∷ cs) (suc n) bytes (suc i) = ground (arith, get_or-write_at cs n bytes i)

pub get_or-write_file :
    (f : File) (bytes : List ℕ) (offset i : ℕ)
    → get_or (write_file f bytes offset).contents i 0 ≡ (
        if covers offset (length bytes) i
        then get_or bytes (i - offset) 0
        else get_or f.contents i 0)
unfolding write_file
get_or-write_file f [] offset i = ground arith
get_or-write_file f (b ∷ bytes) offset i = get_or-write_at f.contents offset (b ∷ bytes) i

pub len-write_file :
    (f : File) (bytes : List ℕ) (offset : ℕ) → (write_file f bytes offset).len ≡ f.len
unfolding write_file
len-write_file f [] offset = refl
len-write_file f (b ∷ bytes) offset = refl

-- The bytes of all files.
unfoldable pub total : Files → ℕ
total [] = 0
total ((start_off, f) ∷ fs) = f.len + total fs

-- Each file starts where the one before it ends.
abbrev pub Laid : ℕ → Files → Type 0
Laid s [] = Unit {0}
Laid s ((start_off, f) ∷ fs) = (start_off ≡ s) × Laid (s + f.len) fs

-- The byte at position `i` of the whole torrent, counted from the first file of the list.
unfoldable pub byte_at : Files → ℕ → ℕ
byte_at [] i = 0
byte_at ((start_off, f) ∷ fs) i =
    if ltb i f.len then get_or f.contents i 0 else byte_at fs (i - f.len)
