-- ===== src/FileManager/Disk/Shown.antt =====
-- Each file on its own and the disk that the files share: where the entries stand on different files, a
-- write through them is a write on the files that they show.
use cpp_torrent.Base.{
  ℕ, ◌+◌, ◌%◌, ◌≡◌, refl, sym, ap, subst, ◌∙◌, Bool, Option, none, some, List, [], ◌∷◌, ltb, ◌==◌,
  ==_iff, if◌then◌else◌, take, drop, size_mod, sub_size, Bool-cases, Option-cases, inl, inr,
  some_injective, none-ne-some, arith,
}
use cpp_torrent.FileManager
use cpp_torrent.FileManager.{FileInfo, Files, File, write_file, keep_file, open_file}
use cpp_torrent.FileManager.Disk.{
  Disk, Handle, put_file, open_files, truncated, view, write_through, fill, write, Absent,
  Different, shown,
}

put_file-other :
    (disk : Disk) (file other : ℕ) (contents : List ℕ)
    → ¬ other ≡ file
    → put_file disk file contents other ≡ disk other
unfolding put_file
put_file-other disk file other contents h = elim (Bool-cases (other == file)) [
  | inl same ↦ absurd (h (ground arith))
  | inr different ↦ rw different refl
]

put_file-same :
    (disk : Disk) (file : ℕ) (contents : List ℕ) → put_file disk file contents file ≡ contents
unfolding put_file
put_file-same disk file contents = rw ((==_iff file file).1 refl) refl

view-put_file :
    (hs : List Handle) (disk : Disk) (file : ℕ) (contents : List ℕ)
    → Absent file hs
    → view hs (put_file disk file contents) ≡ view hs disk
unfolding view Absent
view-put_file [] disk file contents a = refl
view-put_file (h ∷ hs) disk file contents (k, a) =
    ap
      (λ c.
        (h.start_off, record { len = h.len; contents = c }) ∷ view hs (put_file disk file contents))
      (put_file-other disk file h.file contents k)
    ∙ ap (λ fs. (h.start_off, record { len = h.len; contents = disk h.file }) ∷ fs)
        (view-put_file hs disk file contents a)

-- A write leaves a file alone that none of its entries stands on.
fill-Absent :
    (hs : List Handle) (bytes : List ℕ) (offset : ℕ) (disk : Disk) (file : ℕ) {after : Disk}
    → Absent file hs
    → fill hs bytes offset disk ≡ some after
    → after file ≡ disk file
unfolding fill Absent
fill-Absent [] [] offset disk file a e = ap (λ d. d file) (some_injective (sym e))
fill-Absent (h ∷ hs) [] offset disk file a e = ap (λ d. d file) (some_injective (sym e))
fill-Absent [] (b ∷ bytes) offset disk file a e = absurd (none-ne-some e)
fill-Absent (h ∷ hs) (b ∷ bytes) offset disk file {after} (k, a) e =
    let write_size = sub_size ((h.start_off + h.len) % size_mod) offset in
    let next = write_through h (take write_size (b ∷ bytes)) (sub_size offset h.start_off) disk in
    fill-Absent hs (drop write_size (b ∷ bytes)) ((offset + write_size) % size_mod) next file
      {after = after} a e
    ∙ put_file-other disk h.file file
        (write_file (record { len = h.len; contents = disk h.file }) (take write_size (b ∷ bytes))
          (sub_size offset h.start_off)).contents
        (λ same. k (sym same))

view-write_through :
    (h : Handle) (hs : List Handle) (bytes : List ℕ) (offset : ℕ) (disk : Disk)
    → Absent h.file hs
    → view hs (write_through h bytes offset disk) ≡ view hs disk
view-write_through h hs bytes offset disk a =
    view-put_file hs disk h.file
      (write_file (record { len = h.len; contents = disk h.file }) bytes offset).contents a

len-write_file : (f : File) (bytes : List ℕ) (offset : ℕ) → (write_file f bytes offset).len ≡ f.len
unfolding write_file
len-write_file f [] offset = refl
len-write_file f (b ∷ bytes) offset = refl

keep-shown :
    (h : Handle) (hs : List Handle) (o : Option Disk) (written : File)
    → written.len ≡ h.len
    → ((after : Disk) → o ≡ some after → after h.file ≡ written.contents)
    → shown (h ∷ hs) o ≡ keep_file (h.start_off, written) (shown hs o)
unfolding view
keep-shown h hs none written l k = refl
keep-shown h hs (some after) written l k =
    ap (λ c. some ((h.start_off, record { len = h.len; contents = c }) ∷ view hs after))
      (k after refl)
    ∙ ap
        (λ n. some ((h.start_off, record { len = n; contents = written.contents }) ∷ view hs after))
        (sym l)

fill-shown :
    (hs : List Handle) (bytes : List ℕ) (offset : ℕ) (disk : Disk)
    → Different hs
    → shown hs (fill hs bytes offset disk) ≡ FileManager.fill (view hs disk) bytes offset
unfolding fill FileManager.fill view Different
fill-shown [] [] offset disk d = refl
fill-shown (h ∷ hs) [] offset disk d = refl
fill-shown [] (b ∷ bytes) offset disk d = refl
fill-shown (h ∷ hs) (b ∷ bytes) offset disk (a, d) =
    let write_size = sub_size ((h.start_off + h.len) % size_mod) offset in
    let here = take write_size (b ∷ bytes) in
    let rest = drop write_size (b ∷ bytes) in
    let at = sub_size offset h.start_off in
    let next_offset = (offset + write_size) % size_mod in
    let next = write_through h here at disk in
    let file : File = record { len = h.len; contents = disk h.file } in
    let written = write_file file here at in
    let ih = fill-shown hs rest next_offset next d in
    keep-shown h hs (fill hs rest next_offset next) written (len-write_file file here at)
      (λ after e.
        fill-Absent hs rest next_offset next h.file {after = after} a e
        ∙ put_file-same disk h.file written.contents)
    ∙ ap (λ fs. keep_file (h.start_off, written) fs)
        (ih
          ∙ ap (λ fs. FileManager.fill fs rest next_offset)
              (view-write_through h hs here at disk a))

write-Absent :
    (hs : List Handle) (bytes : List ℕ) (offset : ℕ) (disk : Disk) (file : ℕ) {after : Disk}
    → Absent file hs
    → write hs bytes offset disk ≡ some after
    → after file ≡ disk file
unfolding write Absent
write-Absent [] bytes offset disk file a e = absurd (none-ne-some e)
write-Absent (h ∷ hs) bytes offset disk file {after} (k, a) e =
    let branch : Bool → Type 0 = λ b.
      (if b then write hs bytes offset disk else fill (h ∷ hs) bytes offset disk) ≡ some after in
    elim (Bool-cases (ltb ((h.start_off + h.len) % size_mod) offset)) [
      | inl past ↦ write-Absent hs bytes offset disk file {after = after} a (subst branch past e)
      | inr here ↦
          fill-Absent (h ∷ hs) bytes offset disk file {after = after} (k, a) (subst branch here e)
    ]

pub write-shown :
    (hs : List Handle) (bytes : List ℕ) (offset : ℕ) (disk : Disk)
    → Different hs
    → shown hs (write hs bytes offset disk) ≡ FileManager.write (view hs disk) bytes offset
unfolding write FileManager.write view Different
write-shown [] bytes offset disk d = refl
write-shown (h ∷ hs) bytes offset disk (a, d) =
    elim (Bool-cases (ltb ((h.start_off + h.len) % size_mod) offset)) [
      | inl past ↦ rw past (
          keep-shown h hs (write hs bytes offset disk)
            (record { len = h.len; contents = disk h.file }) refl
            (λ after e. write-Absent hs bytes offset disk h.file {after = after} a e)
          ∙ ap (keep_file (h.start_off, record { len = h.len; contents = disk h.file }))
              (write-shown hs bytes offset disk d))
      | inr here ↦ rw here (fill-shown (h ∷ hs) bytes offset disk (a, d))
    ]

truncated-file :
    (hs : List Handle) (disk : Disk) (file : ℕ) → disk file ≡ [] → truncated hs disk file ≡ []
unfolding truncated put_file
truncated-file [] disk file e = e
truncated-file (h ∷ hs) disk file e =
    truncated-file hs (put_file disk h.file []) file (elim (Bool-cases (file == h.file)) [
      | inl same ↦ rw same refl
      | inr different ↦ rw different e
    ])

pub truncated-shown :
    (opens : List (List ℕ) → List ℕ → Option ℕ) (opened : List (List ℕ)) (infos : List FileInfo)
    (disk : Disk) {hs : List Handle}
    → open_files opens opened infos ≡ some hs
    → view hs (truncated hs disk) ≡ FileManager.init infos
unfolding open_files truncated view FileManager.init
truncated-shown opens opened [] disk {hs} e =
    subst (λ hs. view hs (truncated hs disk) ≡ []) (some_injective e) refl
truncated-shown opens opened (i ∷ is) disk {hs} e = elim (Option-cases (opens opened i.path)) [
  | inl bad ↦ absurd (none-ne-some (rw (open_files, bad) at e))
  | inr (file, opens_) ↦ elim (Option-cases (open_files opens (i.path ∷ opened) is)) [
    | inl bad ↦ absurd (none-ne-some (rw (open_files, opens_, bad) at e))
    | inr (rest, open_) ↦
        let emptied = put_file disk file [] in
        subst (λ hs. view hs (truncated hs disk) ≡ FileManager.init (i ∷ is))
          (some_injective (rw (open_files, opens_, open_) at e))
          (ap
              (λ c.
                (i.start_off, record { len = i.len; contents = c })
                ∷ view rest (truncated rest emptied))
              (truncated-file rest emptied file (put_file-same disk file []))
            ∙ ap (λ fs. (i.start_off, open_file i.len) ∷ fs)
                (truncated-shown opens (i.path ∷ opened) is emptied {hs = rest} open_))
  ]
]
