-- ===== src/FileManager/Limits.antt =====
-- The bounds of the files: what fits is written, what does not faults, and the total is exact.
use cpp_torrent.Base.{
  ℕ, ◌+◌, ◌-◌, ◌%◌, ◌≤◌, ◌<◌, ◌≡◌, refl, ap, ◌∙◌, ◌↔◌, none, some, List, [], ◌∷◌, arith, ltb,
  length, take, drop, length-drop, size_mod, sub_size, Bool-cases, inl, inr, ltb→lt, ltb→le, tests,
}
use cpp_torrent.FileManager.{
  Files, keep_file, write_file, fill, write, get_total_length, total_length_from,
}
use cpp_torrent.FileManager.Bytes.{total, Laid}
use cpp_torrent.FileManager.Write.{Written, write-Written_from, first_len}

fill-none :
    (s : ℕ) (fs : Files) (bytes : List ℕ) (offset : ℕ)
    → Laid s fs
    → s + total fs < size_mod
    → s ≤ offset
    → offset ≤ s + first_len fs
    → 0 < length bytes
    → s + total fs < offset + length bytes
    → fill fs bytes offset ≡ none
unfolding fill total
fill-none s fs [] offset l fits lo hi pos over = absurd (omega arith)
fill-none s [] (b ∷ bytes) offset l fits lo hi pos over = refl
fill-none s ((start_off, f) ∷ fs) (b ∷ bytes) offset (e, l) fits lo hi pos over =
    let room = s + f.len - offset in
    let n : sub_size ((start_off + f.len) % size_mod) offset ≡ room = omega arith in
    let next : (offset + room) % size_mod ≡ s + f.len = omega arith in
    let left = length-drop room (b ∷ bytes) in
    rw (n, next)
      (ap (keep_file (start_off, write_file f (take room (b ∷ bytes)) (sub_size offset start_off)))
        (fill-none (s + f.len) fs (drop room (b ∷ bytes)) (s + f.len) l (omega arith) (omega arith)
          (omega arith) (omega arith) (omega arith)))

write-none :
    (s : ℕ) (fs : Files) (bytes : List ℕ) (offset : ℕ)
    → Laid s fs
    → s + total fs < size_mod
    → s ≤ offset
    → 0 < length bytes
    → s + total fs < offset + length bytes
    → write fs bytes offset ≡ none
unfolding write total
write-none s [] bytes offset l fits lo pos over = refl
write-none s ((start_off, f) ∷ fs) bytes offset (e, l) fits lo pos over =
    let end : (start_off + f.len) % size_mod ≡ s + f.len = omega arith in
    elim (Bool-cases (ltb (s + f.len) offset)) [
      | inl later ↦
          rw (end, later)
            (ap (keep_file (start_off, f)) (
              write-none (s + f.len) fs bytes offset l (omega arith) (omega tests) pos
                (omega arith)))
      | inr here ↦
          rw (end, here)
            (fill-none s ((start_off, f) ∷ fs) bytes offset (e, l) (omega arith) lo (omega tests)
              pos (omega arith))
    ]

-- For files laid out one behind the other from 0, with a total length that is a size_t: at least
-- one byte that lies within them is written across the borders of the files to exactly its
-- positions; every other position keeps its byte, and the files stay laid out with the same total.
pub write-Written :
    (fs : Files) (bytes : List ℕ) (offset : ℕ)
    → Laid 0 fs
    → total fs < size_mod
    → 0 < length bytes
    → offset + length bytes ≤ total fs
    → (after : Files) × (write fs bytes offset ≡ some after) × Written 0 fs bytes offset after
write-Written fs bytes offset l fits pos room =
    write-Written_from 0 fs bytes offset l (omega arith) (omega arith) pos (omega arith)

-- For files laid out one behind the other from 0, with a total length that is a size_t: a write of
-- at least one byte runs past the last file exactly when it ends behind the total length.
pub write-eq-none_iff :
    (fs : Files) (bytes : List ℕ) (offset : ℕ)
    → Laid 0 fs
    → total fs < size_mod
    → 0 < length bytes
    → (write fs bytes offset ≡ none) ↔ (total fs < offset + length bytes)
write-eq-none_iff fs bytes offset l fits pos = (
  λ e. within e,
  λ over. write-none 0 fs bytes offset l (omega arith) (omega arith) pos (omega arith),
)
  where
    within : write fs bytes offset ≡ none → total fs < offset + length bytes
    within e = elim (Bool-cases (ltb (total fs) (offset + length bytes))) [
      | inl over ↦ ltb→lt _ _ over
      | inr fit ↦
          let (after, run, w) = write-Written fs bytes offset l fits pos (ltb→le _ _ fit) in cc
    ]

total_length_from_lem :
    (acc : ℕ) (fs : Files) → acc + total fs < size_mod → total_length_from acc fs ≡ acc + total fs
unfolding total_length_from total
total_length_from_lem acc [] h = omega arith
total_length_from_lem acc ((start_off, f) ∷ fs) h =
    let e : (acc + f.len) % size_mod ≡ acc + f.len = omega arith in
    rw e (total_length_from_lem (acc + f.len) fs (omega arith) ∙ (omega arith))

-- `get_total_length` is the sum of the lengths, if that is a size_t.
pub get_total_length_lem : (fs : Files) → total fs < size_mod → get_total_length fs ≡ total fs
unfolding get_total_length
get_total_length_lem fs h = total_length_from_lem 0 fs (omega arith) ∙ (omega arith)
