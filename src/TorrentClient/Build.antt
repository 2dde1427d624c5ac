-- ===== src/TorrentClient/Build.antt =====
-- The parts that the client is made of fit together.
use cpp_torrent.Base.{
  ℕ, ◌*◌, ◌%◌, ◌^◌, ◌<◌, ◌≤◌, ◌≡◌, refl, sym, ap, subst, ◌∙◌, true, Bool, Option, ltb,
  if◌then◌else◌, [], inl, inr, none, some, List, ◌==◌, arith, take, drop, Bool-cases, none-ne-some,
  u32_mod, ceil_div, >>=-eq-some, some_injective,
}
use cpp_torrent.FileManager
use cpp_torrent.FileManager.Disk.{Disk, open_files, truncated, view, Different}
use cpp_torrent.FileManager.Disk.Shown.{truncated-shown}
use cpp_torrent.PieceManager.Disk.{Writes, Reaches-Writes}
use cpp_torrent.FileManager.Bytes.{total}
use cpp_torrent.Message.{bytes_equal}
use cpp_torrent.PieceManager
use cpp_torrent.PieceManager.{PieceManager, completed, sha1_size, max_mempool_size, ref_hash}
use cpp_torrent.PieceManager.Layout.{ceil_div-le}
use cpp_torrent.PieceManager.Valid.{BoundsOf, IsValid, init-IsValid}
use cpp_torrent.PieceManager.Intact.{Intact}
use cpp_torrent.PieceManager.Intact.Bytes.{piece_on_disk}
use cpp_torrent.PieceManager.Count.{Reaches-Fixed}
use cpp_torrent.PieceManager.Run.{Reaches, Reaches-on-disk, init-Intact}
use cpp_torrent.PeerConnection.{request_timeout}
use cpp_torrent.PeerManager
use cpp_torrent.PeerRetriever
use cpp_torrent.PeerRetriever.{Trackers}
use cpp_torrent.TorrentMetadata.{TorrentMetadata, parse_torrent_file}
use cpp_torrent.TorrentMetadata.Files.{parse_torrent_file-Laid}
use cpp_torrent.TorrentClient.{TorrentClient, client_id, make_piece_manager, construct, max_pieces}

ceil_div_pos : (a b : ℕ) → 0 < a → 0 < b → 0 < ceil_div a b
ceil_div_pos a b p q = elim (Bool-cases (a % b == 0)) [
  | inl whole ↦ grind arith
  | inr rest ↦ rw rest (omega arith)
]

-- The bounds of the piece manager that is made from metadata.
made-Bounds :
    (size torrent_size : ℕ) (md : TorrentMetadata)
    → 0 < size
    → size ≤ 2 ^ 30
    → torrent_size ≤ u32_mod
    → BoundsOf (
        PieceManager.init size torrent_size
          (FileManager.init md.files)
          md.piece_hashes
          request_timeout)
unfolding PieceManager.init
made-Bounds size torrent_size md p few fits = record {
  some_size = p;
  few_blocks = few;
  whole = omega arith;
  pieces = refl;
  indexed = omega (arith, ceil_div-le torrent_size size p);
  active = ceil_div_pos max_mempool_size size (omega arith) p;
}

make_piece_manager-eq-some :
    (md : TorrentMetadata) (m : PieceManager)
    → make_piece_manager md ≡ some m
    → (0 < md.piece_length % u32_mod)
      × (PieceManager.init
            (md.piece_length % u32_mod)
            (FileManager.get_total_length (FileManager.init md.files))
            (FileManager.init md.files)
            md.piece_hashes
            request_timeout
          ≡ m)
unfolding make_piece_manager
make_piece_manager-eq-some md m h =
    let files = FileManager.init md.files in
    let size = md.piece_length % u32_mod in
    let len = FileManager.get_total_length files in
    let made = PieceManager.init size len files md.piece_hashes request_timeout in
    let fitting : Bool → Type 0 = λ b. (if b then none else some made) ≡ some m in
    let branch : Bool → Type 0 = λ b.
      (if b then none else if ltb max_pieces (ceil_div len size) then none else some made)
      ≡ some m in
    elim (Bool-cases (size == 0)) [
      | inl zero_ ↦ absurd (none-ne-some (subst branch zero_ h))
      | inr some_ ↦ elim (Bool-cases (ltb max_pieces (ceil_div len size))) [
        | inl many ↦ absurd (none-ne-some (subst fitting many (subst branch some_ h)))
        | inr few ↦ (ground arith, some_injective (subst fitting few (subst branch some_ h)))
      ]
    ]

-- The hash of a piece in the metadata.
abbrev pub hash_of_piece : TorrentMetadata → ℕ → List ℕ
hash_of_piece md k = take sha1_size (drop ((k * sha1_size) % u32_mod) md.piece_hashes)

module _ (sha1 : List ℕ → List ℕ) (opens : List (List ℕ) → List ℕ → Option ℕ)
    {Tracker World : Type 0} (t : Trackers Tracker World) where
  construct-eq-some :
      (file : List ℕ) (port random : ℕ) (c : TorrentClient Tracker)
      → construct sha1 opens t file port random ≡ some c
      → (parse_torrent_file sha1 file ≡ some c.torrent_md)
        × (make_piece_manager c.torrent_md ≡ some c.piece_manager)
        × (open_files opens [] c.torrent_md.files ≡ some c.file_manager)
  unfolding construct
  construct-eq-some file port random c h =
      let (md, e0, h0) = >>=-eq-some (parse_torrent_file sha1 file) _ h in
      let (f, e4, h4) = >>=-eq-some (open_files opens [] md.files) _ h0 in
      let (m, e1, h1) = >>=-eq-some (make_piece_manager md) _ h4 in
      let (p, e2, h2) = >>=-eq-some (PeerManager.init (client_id random)) _ h1 in
      let (r, e3, h3) = >>=-eq-some (PeerRetriever.init t md.announce md.announce_list _) _ h2 in
      let made = some_injective h3 in
      let same : md ≡ c.torrent_md = ap (λ x. x.torrent_md) made in
      let kept : m ≡ c.piece_manager = ap (λ x. x.piece_manager) made in
      let opened : f ≡ c.file_manager = ap (λ x. x.file_manager) made in
      (
        e0 ∙ ap some same,
        ap make_piece_manager (sym same) ∙ (e1 ∙ ap some kept),
        ap (λ x. open_files opens [] x.files) (sym same) ∙ (e4 ∙ ap some opened),
      )

  -- The piece manager that the client starts with.
  pub construct-safe :
      (file : List ℕ) (port random : ℕ) {c : TorrentClient Tracker}
      → construct sha1 opens t file port random ≡ some c
      → c.torrent_md.piece_length ≤ 2 ^ 30
      → total (FileManager.init c.torrent_md.files) ≤ u32_mod
      → IsValid c.piece_manager × Intact sha1 c.piece_manager
  construct-safe file port random {c} h few fits =
      let md = c.torrent_md in
      let (parsed, made, opened) = construct-eq-some file port random c h in
      let (p, is) = make_piece_manager-eq-some md c.piece_manager made in
      let (laid, sum) = parse_torrent_file-Laid sha1 file md parsed (omega arith) in
      let files = FileManager.init md.files in
      let size = md.piece_length % u32_mod in
      let len = FileManager.get_total_length files in
      subst (λ m. IsValid m × Intact sha1 m) is
        (
          init-IsValid size len files md.piece_hashes request_timeout
              (made-Bounds size len md p (omega arith) (omega arith)),
          init-Intact sha1 size len files md.piece_hashes request_timeout (
              unfold PieceManager.init in
              record { laid = laid; held = sym sum; addressable = omega arith }),
        )

  construct-pieces :
      (file : List ℕ) (port random : ℕ) {c : TorrentClient Tracker}
      → construct sha1 opens t file port random ≡ some c
      → c.torrent_md.piece_length ≤ 2 ^ 30
      → total (FileManager.init c.torrent_md.files) ≤ u32_mod
      → (c.piece_manager.pieces_cnt
          ≡ ceil_div (total (FileManager.init c.torrent_md.files)) c.torrent_md.piece_length)
        × (c.piece_manager.piece_hashes ≡ c.torrent_md.piece_hashes)
  unfolding PieceManager.init
  construct-pieces file port random {c} h few fits =
      let md = c.torrent_md in
      let (parsed, made, opened) = construct-eq-some file port random c h in
      let (p, is) = make_piece_manager-eq-some md c.piece_manager made in
      let (laid, sum) = parse_torrent_file-Laid sha1 file md parsed (omega arith) in
      let whole : md.piece_length % u32_mod ≡ md.piece_length = omega arith in
      (
        ap (λ m. m.pieces_cnt) (sym is)
            ∙ (ap (λ n. ceil_div n (md.piece_length % u32_mod)) sum
                ∙ ap (ceil_div (total (FileManager.init md.files))) whole),
        ap (λ m. m.piece_hashes) (sym is),
      )

  -- The disk behind the constructor shows the files that the piece manager starts with.
  construct-view :
      (file : List ℕ) (port random : ℕ) (disk : Disk) {c : TorrentClient Tracker}
      → construct sha1 opens t file port random ≡ some c
      → view c.file_manager (truncated c.file_manager disk) ≡ c.piece_manager.files
  unfolding PieceManager.init
  construct-view file port random disk {c} h =
      let (parsed, made, opened) = construct-eq-some file port random c h in
      let (p, is) = make_piece_manager-eq-some c.torrent_md c.piece_manager made in
      truncated-shown opens [] c.torrent_md.files disk opened ∙ ap (λ m. m.files) is

  -- From the bytes of the torrent file to the bytes on disk: if the client is made from a torrent file
  -- with pieces of at most 2^30 bytes and files of at most 4 GiB together, whose paths lead to different
  -- files, and its piece manager, after any sequence of calls that do not fault, says that it is
  -- completed, then from any disk, on which the constructor empties the files, writes of the file manager lead
  -- to a disk that shows the files of the piece manager, and every piece of the torrent, of which there
  -- are as many as its piece length needs for its files, lies in these files with the hash that the torrent
  -- file has for it.
  pub construct-on-disk :
      (file : List ℕ) (port random : ℕ) (disk : Disk) {c : TorrentClient Tracker} {m : PieceManager}
      → construct sha1 opens t file port random ≡ some c
      → Different c.file_manager
      → c.torrent_md.piece_length ≤ 2 ^ 30
      → total (FileManager.init c.torrent_md.files) ≤ u32_mod
      → Reaches sha1 c.piece_manager m
      → completed m ≡ true
      → (k : ℕ)
      → k < ceil_div (total (FileManager.init c.torrent_md.files)) c.torrent_md.piece_length
      → (after : Disk) × Writes c.file_manager (truncated c.file_manager disk) after
        × (view c.file_manager after ≡ m.files)
        × (bytes_equal (sha1 (piece_on_disk m k)) (hash_of_piece c.torrent_md k) ≡ true)
  construct-on-disk file port random disk {c} {m} h different few fits r done k l =
      let (v, i) = construct-safe file port random h few fits in
      let (count, hashes) = construct-pieces file port random h few fits in
      let (same, kept) = Reaches-Fixed sha1 r in
      let (after, writes, shows) =
        Reaches-Writes sha1 c.file_manager (truncated c.file_manager disk) different
          (construct-view file port random disk h) r in
      (
        after,
        writes,
        shows,
        subst
            (λ hs.
              bytes_equal (sha1 (piece_on_disk m k))
                (take sha1_size (drop ((k * sha1_size) % u32_mod) hs))
              ≡ true)
            (kept ∙ hashes)
            (Reaches-on-disk sha1 r v i done k (subst (λ n. k < n) (sym (same ∙ count)) l)),
      )
