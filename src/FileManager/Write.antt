-- ===== src/FileManager/Write.antt =====
-- `FileManager::write` against the view of all files as one sequence of bytes.
use cpp_torrent.Base.{
  ℕ, zero, suc, ◌+◌, ◌-◌, ◌%◌, ◌≤◌, ◌<◌, ◌≡◌, refl, sym, subst, true, Option, some, List, [], ◌∷◌,
  arith, ltb, if◌then◌else◌, length, get_or, take, drop, length-take, length-drop, size_mod,
  sub_size, Bool-cases, inl, inr, tests,
}
use cpp_torrent.FileManager.{File, Files, write_file, fill, write, keep_file}
use cpp_torrent.FileManager.Bytes.{
  covers, get_or-write_file, len-write_file, get_or-drop, total, Laid, byte_at,
}

get_or-take : (n i : ℕ) (xs : List ℕ) → i < n → get_or (take n xs) i 0 ≡ get_or xs i 0
get_or-take zero i xs h = absurd (omega arith)
get_or-take (suc n) i [] h = refl
get_or-take (suc n) zero (x ∷ xs) h = refl
get_or-take (suc n) (suc i) (x ∷ xs) h = get_or-take n i xs (omega arith)

-- `after` holds `bytes` from `offset` on and is `before` elsewhere, in files of the same sizes that
-- are laid out from `s`.
pub record Written (s : ℕ) (before : Files) (bytes : List ℕ) (offset : ℕ) (after : Files)
    : Type 0 where
  pub laid : Laid s after
  pub same_total : total after ≡ total before
  pub content :
      (i : ℕ)
      → byte_at after i ≡ (
          if covers (offset - s) (length bytes) i
          then get_or bytes (i - (offset - s)) 0
          else byte_at before i)

abbrev pub first_len : Files → ℕ
first_len [] = 0
first_len ((start_off, f) ∷ fs) = f.len

-- One file takes its part, if the files behind it take the rest.
fill_step :
    (s start_off : ℕ) (f : File) (fs after : Files) (bytes : List ℕ) (offset : ℕ)
    → s ≤ offset
    → offset ≤ s + f.len
    → Written (s + f.len) fs (drop (s + f.len - offset) bytes) (s + f.len) after
    → Written s
        ((start_off, f) ∷ fs)
        bytes
        offset
        ((s, write_file f (take (s + f.len - offset) bytes) (offset - s)) ∷ after)
unfolding total byte_at
fill_step s start_off f fs after bytes offset lo hi w =
    let room = s + f.len - offset in
    let front = take room bytes in
    record {
      laid = (
        refl,
        subst (λ n. Laid (s + n) after) (sym (len-write_file f front (offset - s))) w.laid,
      );
      same_total = omega (arith, len-write_file f front (offset - s), w.same_total);
      content = λ i. ground (
        arith,
        len-write_file f front (offset - s),
        get_or-write_file f front (offset - s) i,
        length-take room bytes,
        length-drop room bytes,
        get_or-take room (i - (offset - s)) bytes,
        get_or-drop room (i - f.len) bytes,
        w.content (i - f.len),
      );
    }

fill_run :
    (s start_off : ℕ) (f : File) (fs after : Files) (b : ℕ) (bytes : List ℕ) (offset : ℕ)
    → start_off ≡ s
    → s ≤ offset
    → offset ≤ s + f.len
    → s + f.len < size_mod
    → fill fs (drop (s + f.len - offset) (b ∷ bytes)) (s + f.len) ≡ some after
    → fill ((start_off, f) ∷ fs) (b ∷ bytes) offset
      ≡ some ((s, write_file f (take (s + f.len - offset) (b ∷ bytes)) (offset - s)) ∷ after)
unfolding fill
fill_run s start_off f fs after b bytes offset e lo hi fits run =
    let n : sub_size ((s + f.len) % size_mod) offset ≡ s + f.len - offset = omega arith in
    let o : sub_size offset s ≡ offset - s = omega arith in
    let next : (offset + (s + f.len - offset)) % size_mod ≡ s + f.len = omega arith in
    rw (e, n, o, next, run)

-- The bytes end up where they should, in some files.
abbrev pub Outcome : ℕ → Files → List ℕ → ℕ → Option Files → Type 0
Outcome s fs bytes offset result =
    (after : Files) × (result ≡ some after) × Written s fs bytes offset after

fill-Written :
    (s : ℕ) (fs : Files) (bytes : List ℕ) (offset : ℕ)
    → Laid s fs
    → s + total fs < size_mod
    → s ≤ offset
    → offset ≤ s + first_len fs
    → offset + length bytes ≤ s + total fs
    → Outcome s fs bytes offset (fill fs bytes offset)
unfolding fill total
fill-Written s fs [] offset l fits lo hi room =
    (fs, refl, record { laid = l; same_total = refl; content = λ i. ground arith })
fill-Written s [] (b ∷ bytes) offset l fits lo hi room = absurd (omega arith)
fill-Written s ((start_off, f) ∷ fs) (b ∷ bytes) offset (e, l) fits lo hi room = join (
    fill-Written (s + f.len) fs (drop (s + f.len - offset) (b ∷ bytes)) (s + f.len) l (omega arith)
      (omega arith) (omega arith) (omega (arith, length-drop (s + f.len - offset) (b ∷ bytes))))
  where
    join :
        Outcome
          (s + f.len)
          fs
          (drop (s + f.len - offset) (b ∷ bytes))
          (s + f.len)
          (fill fs (drop (s + f.len - offset) (b ∷ bytes)) (s + f.len))
        → Outcome s
            ((start_off, f) ∷ fs)
            (b ∷ bytes)
            offset
            (fill ((start_off, f) ∷ fs) (b ∷ bytes) offset)
    join (after, run, w) = (
      (s, write_file f (take (s + f.len - offset) (b ∷ bytes)) (offset - s)) ∷ after,
      fill_run s start_off f fs after b bytes offset e lo hi (omega arith) run,
      fill_step s start_off f fs after (b ∷ bytes) offset lo hi w,
    )

skip_step :
    (s start_off : ℕ) (f : File) (fs after : Files) (bytes : List ℕ) (offset : ℕ)
    → s + f.len ≤ offset
    → Written (s + f.len) fs bytes offset after
    → Written s ((start_off, f) ∷ fs) bytes offset ((s, f) ∷ after)
unfolding total byte_at
skip_step s start_off f fs after bytes offset h w = record {
  laid = (refl, w.laid);
  same_total = omega (arith, w.same_total);
  content = λ i. ground (arith, w.content (i - f.len));
}

pub write-Written_from :
    (s : ℕ) (fs : Files) (bytes : List ℕ) (offset : ℕ)
    → Laid s fs
    → s + total fs < size_mod
    → s ≤ offset
    → 0 < length bytes
    → offset + length bytes ≤ s + total fs
    → Outcome s fs bytes offset (write fs bytes offset)
unfolding write total
write-Written_from s [] bytes offset l fits lo pos room = absurd (omega arith)
write-Written_from s ((start_off, f) ∷ fs) bytes offset (e, l) fits lo pos room =
    let end : (start_off + f.len) % size_mod ≡ s + f.len = omega arith in
    elim (Bool-cases (ltb (s + f.len) offset)) [
      | inl later ↦
          rw (end, later)
            (join
              (write-Written_from (s + f.len) fs bytes offset l (omega arith) (omega tests) pos
                (omega arith))
              later)
      | inr here ↦
          rw (end, here)
            (fill-Written s ((start_off, f) ∷ fs) bytes offset (e, l) (omega arith) lo (omega tests)
              (omega arith))
    ]
  where
    join :
        Outcome (s + f.len) fs bytes offset (write fs bytes offset)
        → ltb (s + f.len) offset ≡ true
        → Outcome s
            ((start_off, f) ∷ fs)
            bytes
            offset
            (keep_file (start_off, f) (write fs bytes offset))
    join (after, run, w) later =
        ((s, f) ∷ after, rw (run, e), skip_step s start_off f fs after bytes offset (omega tests) w)
