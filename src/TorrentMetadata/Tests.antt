-- ===== src/TorrentMetadata/Tests.antt =====
-- A torrent of two files.
use cpp_torrent.Base.{
  ℕ, ◌≤◌, ◌≡◌, arith, length, take, drop, refl, some, List, [], ◌∷◌, codes, ◌++◌,
}
use cpp_torrent.Bencode.Dict.{find}
use cpp_torrent.Bencode.{Entries, dict_item, ok, parse}
use cpp_torrent.FileManager.{init, get_total_length}
use cpp_torrent.FileManager.Bytes.{total, Laid}
use cpp_torrent.TorrentMetadata.{TorrentMetadata, InfoContent, parse_info, parse_torrent_file, join}
use cpp_torrent.TorrentMetadata.Files.{parse_torrent_file-Laid}
use cpp_torrent.TorrentMetadata.InfoHash.{parse_torrent_file-info_hash}

abbrev info_text : List ℕ
info_text =
    codes
      "d5:filesld6:lengthi3e4:pathl1:aeed6:lengthi4e4:pathl1:b1:ceee4:name1:t12:piece lengthi16e6:pieces2:hhe"

abbrev torrent_text : List ℕ
torrent_text = codes "d8:announce3:udp4:info" ++ (info_text ++ codes "e")

abbrev metadata : TorrentMetadata
metadata = record {
  name = codes "t";
  announce = codes "udp";
  announce_list = [];
  piece_hashes = codes "hh";
  piece_length = 16;
  files =
      record { path = codes "t/a"; start_off = 0; len = 3 }
      ∷ record { path = codes "t/b/c"; start_off = 3; len = 4 }
      ∷ [];
  info_hash = info_text;
}

torrent_text_run : parse_torrent_file (λ bytes. bytes) torrent_text ≡ some metadata
unfolding parse_torrent_file find
torrent_text_run = refl

absolute : join (codes "t") (codes "/etc") ≡ codes "/etc"
unfolding join
absolute = refl

parse_torrent_file-Laid_example :
    Laid 0 (init metadata.files)
    × (get_total_length (init metadata.files) ≡ total (init metadata.files))
parse_torrent_file-Laid_example =
    parse_torrent_file-Laid (λ bytes. bytes) torrent_text metadata torrent_text_run
      (unfold init total in omega arith)

parse_torrent_file-info_hash_example :
    (offset : ℕ) × (n : ℕ) × (fuel : ℕ) × (info : Entries) × (content : InfoContent) × (parse fuel
        offset
        (drop offset torrent_text)
      ≡ ok (dict_item offset n info) (drop n (drop offset torrent_text)))
    × (n ≤ length (drop offset torrent_text))
    × (info_text ≡ take n (drop offset torrent_text))
    × (parse_info info ≡ some content)
    × (codes "t" ≡ content.name)
    × (codes "hh" ≡ content.pieces)
    × (metadata.files ≡ content.files)
parse_torrent_file-info_hash_example =
    parse_torrent_file-info_hash (λ bytes. bytes) torrent_text metadata torrent_text_run
