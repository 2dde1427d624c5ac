-- ===== src/TorrentMetadata/InfoHash.antt =====
-- The info hash is that of the bytes of the info dictionary in the torrent file.
use cpp_torrent.Base.{
  ℕ, ◌+◌, ◌-◌, ◌*◌, ◌≤◌, ◌≡◌, sym, ap, subst, ◌∙◌, inl, inr, some, List, ◌++◌, arith, length,
  length-take, take, drop, replicate, if◌then◌else◌, ◌==◌, Bool-cases, append-nil, some_injective,
  codes,
}
use cpp_torrent.Bencode.{
  Item, Entries, int_item, string_item, list_item, dict_item, start_off, elem_len, Parsed, ok,
  error, out_of_fuel, parse, b_decode,
}
use cpp_torrent.Bencode.Extent.{parse-ItemAt}
use cpp_torrent.Bencode.Parts.{
  AllRead, AllRead-find, parse-AllRead, bind-eq-ok, error-ne-ok, ok_injective,
}
use cpp_torrent.Bencode.Dict.{get_dict}
use cpp_torrent.TorrentMetadata.{
  TorrentMetadata, InfoContent, decoded, parse_info, read_at, get_info_hash, parse_torrent_file,
}
use cpp_torrent.TorrentMetadata.Files.{parse_torrent_file-eq-some}

get_dict-eq-some :
    (i : Item) (es : Entries) → get_dict i ≡ some es → (s : ℕ) × (n : ℕ) × (i ≡ dict_item s n es)
get_dict-eq-some (dict_item s n fs) es h = (s, n, ap (dict_item s n) (some_injective h))
get_dict-eq-some (int_item s n v) es h = cc
get_dict-eq-some (string_item s n v) es h = cc
get_dict-eq-some (list_item s n v) es h = cc

decoded-eq-some :
    (r : Parsed Item) (i : Item) → decoded r ≡ some i → (rest : List ℕ) × (r ≡ ok i rest)
decoded-eq-some (ok j rest) i h = (rest, ap (λ k. ok k rest) (some_injective h))
decoded-eq-some error i h = cc
decoded-eq-some out_of_fuel i h = cc

-- What decodes as a whole is what `parse` reads.
b_decode-parse :
    (fuel : ℕ) (text : List ℕ) (i : Item) (end : List ℕ)
    → b_decode fuel text ≡ ok i end
    → (rest : List ℕ) × (parse fuel 0 text ≡ ok i rest)
unfolding b_decode
b_decode-parse fuel text i end h =
    let (j, rest, e, k) = bind-eq-ok (parse fuel 0 text) _ h in
    elim (Bool-cases (length rest == 0)) [
      | inl whole ↦
          let last : ok j rest ≡ ok i end =
            subst (λ b. (if b then ok j rest else error) ≡ ok i end) whole k in
          let same = ok_injective last in (rest, e ∙ ap (λ a. ok a rest) same.0)
      | inr more ↦
          absurd (error-ne-ok (subst (λ b. (if b then ok j rest else error) ≡ ok i end) more k))
    ]

-- An item that was decoded from the stream is there as a whole: nothing is filled up with zeros.
read_at-whole :
    (stream : List ℕ) (offset n : ℕ)
    → n ≤ length (drop offset stream)
    → read_at stream offset n ≡ take n (drop offset stream)
unfolding read_at
read_at-whole stream offset n h =
    let bytes = take n (drop offset stream) in
    let full : n - length bytes ≡ 0 = omega (arith, length-take n (drop offset stream)) in
    ap (λ k. bytes ++ replicate k 0) full ∙ append-nil bytes

module _ (sha1 : List ℕ → List ℕ) where
  -- The info hash of a torrent file that parses is the SHA-1 of a part of the file: the bytes, all of
  -- them and no other, from which the decoder reads the info dictionary, and the name, the piece
  -- hashes and the files of the metadata are those of that dictionary.
  pub parse_torrent_file-info_hash :
      (stream : List ℕ) (md : TorrentMetadata)
      → parse_torrent_file sha1 stream ≡ some md
      → (offset : ℕ) × (n : ℕ) × (fuel : ℕ) × (info : Entries) × (content : InfoContent) × (parse
            fuel offset
            (drop offset stream)
          ≡ ok (dict_item offset n info) (drop n (drop offset stream)))
        × (n ≤ length (drop offset stream))
        × (md.info_hash ≡ sha1 (take n (drop offset stream)))
        × (parse_info info ≡ some content)
        × (md.name ≡ content.name)
        × (md.piece_hashes ≡ content.pieces)
        × (md.files ≡ content.files)
  unfolding get_info_hash
  parse_torrent_file-info_hash stream md h =
      let (torrent, dict, info, i, content, e0, e1, e2, e3, e4, name, pieces, files, hash) =
        parse_torrent_file-eq-some sha1 stream md h in
      let whole = decoded-eq-some (b_decode (2 * length stream + 1) stream) torrent e0 in
      let (rest, read) = b_decode-parse (2 * length stream + 1) stream torrent whole.0 whole.1 in
      let (s, m, shape) = get_dict-eq-some torrent dict e1 in
      let all : AllRead 0 stream dict =
        parse-AllRead (2 * length stream + 1) 0 stream s m dict rest
          (read ∙ ap (λ t. ok t rest) shape) in
      let (offset, fuel, left, got) = AllRead-find 0 stream (codes "info") dict i all e2 in
      let (t, n, form) = get_dict-eq-some i info e3 in
      let at : 0 + offset ≡ offset = omega arith in
      let there : parse fuel offset (drop offset stream) ≡ ok i left =
        subst (λ k. parse fuel k (drop offset stream) ≡ ok i left) at got in
      let (starts, some_, len, behind) = parse-ItemAt fuel offset (drop offset stream) there in
      let start_t : t ≡ offset = sym (ap start_off form) ∙ starts in
      let len_n : n ≡ elem_len i = sym (ap elem_len form) in
      let item_ : i ≡ dict_item offset n info = form ∙ ap (λ k. dict_item k n info) start_t in
      let room : n ≤ length (drop offset stream) = omega arith in
      let left_ : left ≡ drop n (drop offset stream) =
        behind ∙ ap (λ k. drop k (drop offset stream)) (sym len_n) in
      (
        offset,
        n,
        fuel,
        info,
        content,
        there ∙ (ap (λ a. ok a left) item_ ∙ ap (ok (dict_item offset n info)) left_),
        room,
        hash
            ∙ ap sha1 (
                ap (λ k. read_at stream k (elem_len i)) starts
                ∙ (ap (read_at stream offset) (sym len_n) ∙ read_at-whole stream offset n room)),
        e4,
        name,
        pieces,
        files,
      )
