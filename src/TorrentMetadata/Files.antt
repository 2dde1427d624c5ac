-- ===== src/TorrentMetadata/Files.antt =====
-- The files of the metadata lie one behind the other, as the file manager needs them.
use cpp_torrent.Base.{
  ℕ, ◌+◌, ◌%◌, ◌*◌, ◌<◌, ◌≡◌, refl, sym, ap, subst, ◌∙◌, inl, inr, some, List, [], ◌∷◌, arith,
  length, size_mod, if◌then◌else◌, ◌||◌, Bool-cases, >>=-eq-some, some_injective, guard, codes,
}
use cpp_torrent.Bencode.{Item, Items, Entries, no_items, item, b_decode}
use cpp_torrent.Bencode.Dict.{contains, find, get_int, get_string, get_list, get_dict}
use cpp_torrent.FileManager.{FileInfo, init, get_total_length}
use cpp_torrent.FileManager.Bytes.{total, Laid}
use cpp_torrent.FileManager.Limits.{get_total_length_lem}
use cpp_torrent.TorrentMetadata.{
  TorrentMetadata, InfoContent, check_field, check_field_type, field, to_size, decoded,
  parse_file_entry, files_from, single_file, multiple_files, parse_info, parse_torrent_file,
  get_info_hash, join, announce_list_of,
}

files_from-Laid :
    (dest : List ℕ) (off : ℕ) (is : Items) (fs : List FileInfo)
    → files_from dest off is ≡ some fs
    → off + total (init fs) < size_mod
    → Laid off (init fs)
unfolding files_from init total
files_from-Laid dest off no_items fs h fits =
    let e : [] ≡ fs = cc in subst (λ l. Laid off (init l)) e tt
files_from-Laid dest off (item i is) fs h fits =
    let (u, e0, h0) = >>=-eq-some (check_field_type get_dict i) _ h in
    let (d, e1, h1) = >>=-eq-some (get_dict i) _ h0 in
    let (r, e2, h2) = >>=-eq-some (parse_file_entry d) _ h1 in
    let (rest, e3, h3) = >>=-eq-some (files_from dest ((off + r.0) % size_mod) is) _ h2 in
    let file : FileInfo = record { path = join dest r.1; start_off = off; len = r.0 } in
    let e : file ∷ rest ≡ fs = cc in
    subst (λ l. off + total (init l) < size_mod → Laid off (init l)) e
      (λ room.
        let whole : (off + r.0) % size_mod ≡ off + r.0 = omega arith in
        (
          refl,
          subst (λ n. Laid n (init rest)) whole
              (files_from-Laid dest ((off + r.0) % size_mod) is rest e3 (omega arith)),
        ))
      fits

single_file-Laid :
    (info : Entries) (name : List ℕ) (fs : List FileInfo)
    → single_file info name ≡ some fs
    → Laid 0 (init fs)
unfolding single_file init
single_file-Laid info name fs h =
    let (i, e0, h0) = >>=-eq-some (find (codes "length") info) _ h in
    let (u, e1, h1) = >>=-eq-some (check_field_type get_int i) _ h0 in
    let (n, e2, h2) = >>=-eq-some (get_int i) _ h1 in
    let e : record { path = name; start_off = 0; len = to_size n } ∷ [] ≡ fs = cc in
    subst (λ l. Laid 0 (init l)) e (refl, tt)

multiple_files-Laid :
    (info : Entries) (name : List ℕ) (fs : List FileInfo)
    → multiple_files info name ≡ some fs
    → total (init fs) < size_mod
    → Laid 0 (init fs)
unfolding multiple_files
multiple_files-Laid info name fs h fits =
    let (u, e0, h0) = >>=-eq-some (check_field get_list info (codes "files")) _ h in
    let (is, e1, h1) = >>=-eq-some (field get_list info (codes "files")) _ h0 in
    files_from-Laid name 0 is fs h1 (omega arith)

parse_info-Laid :
    (info : Entries) (content : InfoContent)
    → parse_info info ≡ some content
    → total (init content.files) < size_mod
    → Laid 0 (init content.files)
unfolding parse_info
parse_info-Laid info content h fits =
    let (u0, e0, h0) = >>=-eq-some (check_field get_string info (codes "name")) _ h in
    let (u1, e1, h1) = >>=-eq-some (check_field get_int info (codes "piece length")) _ h0 in
    let (u2, e2, h2) = >>=-eq-some (check_field get_string info (codes "pieces")) _ h1 in
    let (u3, e3, h3) =
      >>=-eq-some (guard (contains (codes "length") info || contains (codes "files") info)) _ h2 in
    let (name, e4, h4) = >>=-eq-some (field get_string info (codes "name")) _ h3 in
    let single = contains (codes "length") info in
    let (fs, e5, h5) =
      >>=-eq-some (if single then single_file info name else multiple_files info name) _ h4 in
    let (n, e6, h6) = >>=-eq-some (field get_int info (codes "piece length")) _ h5 in
    let (p, e7, h7) = >>=-eq-some (field get_string info (codes "pieces")) _ h6 in
    let made : record { name = name; piece_length = to_size n; files = fs; pieces = p } ≡ content =
      some_injective h7 in
    let same : fs ≡ content.files = ap (λ c. c.files) made in
    let laid : total (init fs) < size_mod → Laid 0 (init fs) = elim (Bool-cases single) [
      | inl one ↦ λ room. single_file-Laid info name fs (
          subst (λ b. (if b then single_file info name else multiple_files info name) ≡ some fs) one
            e5)
      | inr many ↦ multiple_files-Laid info name fs (
          subst (λ b. (if b then single_file info name else multiple_files info name) ≡ some fs)
            many e5)
    ] in
    subst (λ l. total (init l) < size_mod → Laid 0 (init l)) same laid fits

module _ (sha1 : List ℕ → List ℕ) where
  -- The chain of `parse_torrent_file`, taken apart.
  pub parse_torrent_file-eq-some :
      (stream : List ℕ) (md : TorrentMetadata)
      → parse_torrent_file sha1 stream ≡ some md
      → (torrent : Item) × (dict : Entries) × (info : Entries) × (i : Item)
        × (content : InfoContent) × (decoded (b_decode (2 * length stream + 1) stream)
            ≡ some torrent)
        × (get_dict torrent ≡ some dict)
        × (find (codes "info") dict ≡ some i)
        × (get_dict i ≡ some info)
        × (parse_info info ≡ some content)
        × (md.name ≡ content.name)
        × (md.piece_hashes ≡ content.pieces)
        × (md.files ≡ content.files)
        × (md.info_hash ≡ get_info_hash sha1 stream i)
  unfolding parse_torrent_file
  parse_torrent_file-eq-some stream md h =
      let (torrent, e0, h0) = >>=-eq-some (decoded (b_decode (2 * length stream + 1) stream)) _ h in
      let (dict, e1, h1) = >>=-eq-some (get_dict torrent) _ h0 in
      let (u0, e2, h2) = >>=-eq-some (check_field get_string dict (codes "announce")) _ h1 in
      let (u1, e3, h3) = >>=-eq-some (check_field get_dict dict (codes "info")) _ h2 in
      let (info, e4, h4) = >>=-eq-some (field get_dict dict (codes "info")) _ h3 in
      let (content, e5, h5) = >>=-eq-some (parse_info info) _ h4 in
      let (i, e6, h6) = >>=-eq-some (find (codes "info") dict) _ h5 in
      let (a, e7, h7) = >>=-eq-some (field get_string dict (codes "announce")) _ h6 in
      let (j, f0, f1) = >>=-eq-some (find (codes "info") dict) get_dict e4 in
      let same : j ≡ i = some_injective (sym f0 ∙ e6) in
      let made : record {
        name = content.name;
        announce = a;
        announce_list = announce_list_of dict;
        piece_hashes = content.pieces;
        piece_length = content.piece_length;
        files = content.files;
        info_hash = get_info_hash sha1 stream i;
      }
          ≡ md =
        some_injective h7 in
      (
        torrent,
        dict,
        info,
        i,
        content,
        e0,
        e1,
        e6,
        sym (ap get_dict same) ∙ f1,
        e5,
        sym (ap (λ m. m.name) made),
        sym (ap (λ m. m.piece_hashes) made),
        sym (ap (λ m. m.files) made),
        sym (ap (λ m. m.info_hash) made),
      )

  -- The files of a torrent file that parses lie one behind the other from offset 0, in the order in
  -- which they are listed, and the file manager's total length is the sum of their lengths, if that
  -- is less than 2^64.
  pub parse_torrent_file-Laid :
      (stream : List ℕ) (md : TorrentMetadata)
      → parse_torrent_file sha1 stream ≡ some md
      → total (init md.files) < size_mod
      → Laid 0 (init md.files) × (get_total_length (init md.files) ≡ total (init md.files))
  parse_torrent_file-Laid stream md h fits =
      let (torrent, dict, info, i, content, e0, e1, e2, e3, parsed, n, p, files, hash) =
        parse_torrent_file-eq-some stream md h in
      (
        subst (λ l. total (init l) < size_mod → Laid 0 (init l)) (sym files)
            (parse_info-Laid info content parsed) fits,
        get_total_length_lem (init md.files) fits,
      )
