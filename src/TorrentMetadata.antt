-- ===== src/TorrentMetadata.antt =====
-- src/TorrentMetadata.hpp and src/TorrentMetadata.cpp: what a torrent file says. An exception is `none`;
-- a string is its bytes. SHA-1 is a parameter.
pub mod Files
pub mod InfoHash
mod Tests
use cpp_torrent.Base.{
  ℕ, zero, suc, ◌+◌, ◌-◌, ◌*◌, ◌%◌, Bool, true, false, ◌&&◌, ◌||◌, not, Option, none, some, List,
  [], ◌∷◌, ◌++◌, leb, ◌==◌, if◌then◌else◌, length, take, drop, replicate, size_mod, ◌>>=◌, ◌>>◌,
  guard, codes,
}
use cpp_torrent.Bencode.{
  ℤ, pos, negsuc, Item, Items, Entries, no_items, item, start_off, elem_len, Parsed, ok, error,
  out_of_fuel, b_decode,
}
use cpp_torrent.Bencode.Dict.{find, contains, get_int, get_string, get_list, get_dict, holds}
use cpp_torrent.FileManager.{FileInfo}

-- `check_field_existance`.
abbrev check_field_existance : Entries → List ℕ → Option (Unit {0})
check_field_existance dict name = guard (contains name dict)

-- `check_field_type`, for the alternative that `get` takes out.
abbrev check_field_type : {A : Type 0} → (Item → Option A) → Item → Option (Unit {0})
check_field_type get i = guard (holds (get i))

abbrev check_field : {A : Type 0} → (Item → Option A) → Entries → List ℕ → Option (Unit {0})
check_field get dict name = do
  check_field_existance dict name
  i ← find name dict
  check_field_type get i

-- `std::get<T>(dict[name])`.
abbrev pub field : {A : Type 0} → (Item → Option A) → Entries → List ℕ → Option A
field get dict name = find name dict >>= get

-- The conversion of an `intmax_t` to a `size_t`.
abbrev pub to_size : ℤ → ℕ
to_size (pos n) = n % size_mod
to_size (negsuc n) = (size_mod - 1 - n % size_mod) % size_mod

-- `operator/` of paths: a right side that is absolute replaces the left one; else a separator stands
-- between them, unless the left side ends with one or is empty.
abbrev separator : ℕ
separator = b'/'

abbrev is_absolute : List ℕ → Bool
is_absolute [] = false
is_absolute (c ∷ cs) = c == separator

abbrev ends_with_separator : List ℕ → Bool
ends_with_separator [] = false
ends_with_separator (c ∷ []) = c == separator
ends_with_separator (c ∷ d ∷ cs) = ends_with_separator (d ∷ cs)

abbrev is_empty : List ℕ → Bool
is_empty [] = true
is_empty (c ∷ cs) = false

unfoldable pub join : List ℕ → List ℕ → List ℕ
join left right =
    if is_absolute right
    then right
    else if is_empty left || ends_with_separator left
    then left ++ right
    else left ++ (separator ∷ right)

-- The loop of `parse_file_entry`.
path_from : List ℕ → Items → Option (List ℕ)
unfolding join
path_from file_path no_items = some file_path
path_from file_path (item i is) = get_string i >>= λ name. path_from (join file_path name) is

unfoldable pub parse_file_entry : Entries → Option (ℕ × List ℕ)
unfolding path_from
parse_file_entry file_entry = do
  check_field get_int file_entry (codes "length")
  check_field get_list file_entry (codes "path")
  file_length ← field get_int file_entry (codes "length")
  path_list ← field get_list file_entry (codes "path")
  file_path ← path_from [] path_list
  some (to_size file_length, file_path)

-- The loop over the files of a torrent.
unfoldable pub files_from : List ℕ → ℕ → Items → Option (List FileInfo)
unfolding parse_file_entry
files_from dest_dir cur_offset no_items = some []
files_from dest_dir cur_offset (item i is) = do
  check_field_type get_dict i
  file_entry ← get_dict i
  (file_length, file_path) ← parse_file_entry file_entry
  files ← files_from dest_dir ((cur_offset + file_length) % size_mod) is
  some
      (record { path = join dest_dir file_path; start_off = cur_offset; len = file_length } ∷ files)

single_file : Entries → List ℕ → Option (List FileInfo)
single_file torrent_info name = do
  i ← find (codes "length") torrent_info
  check_field_type get_int i
  file_length ← get_int i
  some (record { path = name; start_off = 0; len = to_size file_length } ∷ [])

multiple_files : Entries → List ℕ → Option (List FileInfo)
unfolding files_from
multiple_files torrent_info name = do
  check_field get_list torrent_info (codes "files")
  file_list ← field get_list torrent_info (codes "files")
  files_from name 0 file_list

-- `Torrent_Info_Content`.
pub record InfoContent : Type 0 where
  pub name : List ℕ
  pub piece_length : ℕ
  pub files : List FileInfo
  pub pieces : List ℕ

unfoldable pub parse_info : Entries → Option InfoContent
unfolding single_file multiple_files
parse_info torrent_info = do
  check_field get_string torrent_info (codes "name")
  check_field get_int torrent_info (codes "piece length")
  check_field get_string torrent_info (codes "pieces")
  guard (contains (codes "length") torrent_info || contains (codes "files") torrent_info)
  name ← field get_string torrent_info (codes "name")
  files ←
      (if contains (codes "length") torrent_info
        then single_file torrent_info name
        else multiple_files torrent_info name)
  piece_length ← field get_int torrent_info (codes "piece length")
  pieces ← field get_string torrent_info (codes "pieces")
  some (record { name = name; piece_length = to_size piece_length; files = files; pieces = pieces })

announces_from : Items → Option (List (List ℕ))
announces_from no_items = some []
announces_from (item i is) = do
  check_field_type get_string i
  announce ← get_string i
  rest ← announces_from is
  some (announce ∷ rest)

unfoldable pub parse_announce_list : Items → Option (List (List (List ℕ)))
unfolding announces_from
parse_announce_list no_items = some []
parse_announce_list (item i is) = do
  check_field_type get_list i
  group ← get_list i
  group_announce_list ← announces_from group
  rest ← parse_announce_list is
  some (group_announce_list ∷ rest)

-- The lambda of `parse_torrent_file`: an exception ends in an empty list.
unfoldable pub announce_list_of : Entries → List (List (List ℕ))
unfolding parse_announce_list
announce_list_of torrent_dict =
    elim (check_field get_list torrent_dict (codes "announce-list")
      >> (field get_list torrent_dict (codes "announce-list") >>= parse_announce_list)) [
        | none ↦ []
        | some groups ↦ groups
      ]

pub record TorrentMetadata : Type 0 where
  pub name : List ℕ
  pub announce : List ℕ
  pub announce_list : List (List (List ℕ))
  pub piece_hashes : List ℕ
  pub piece_length : ℕ
  pub files : List FileInfo
  pub info_hash : List ℕ

-- The item of a decoder's run that came to an end; `BDecode` throws otherwise.
abbrev pub decoded : Parsed Item → Option Item
decoded (ok i rest) = some i
decoded error = none
decoded out_of_fuel = none

-- The bytes of the buffer that `get_info_hash` reads: zeros where the stream is too short.
unfoldable pub read_at : List ℕ → ℕ → ℕ → List ℕ
read_at stream offset n =
    let bytes = take n (drop offset stream) in bytes ++ replicate (n - length bytes) 0

module _ (sha1 : List ℕ → List ℕ) where
  unfoldable pub get_info_hash : List ℕ → Item → List ℕ
  unfolding read_at
  get_info_hash stream torrent_info =
      sha1 (read_at stream (start_off torrent_info) (elem_len torrent_info))

  -- `parse_torrent_file`; the decoder's fuel is enough for the stream.
  unfoldable pub parse_torrent_file : List ℕ → Option TorrentMetadata
  unfolding b_decode parse_info announce_list_of get_info_hash
  parse_torrent_file stream = do
    torrent ← decoded (b_decode (2 * length stream + 1) stream)
    torrent_dict ← get_dict torrent
    check_field get_string torrent_dict (codes "announce")
    check_field get_dict torrent_dict (codes "info")
    torrent_info ← field get_dict torrent_dict (codes "info")
    content ← parse_info torrent_info
    info ← find (codes "info") torrent_dict
    announce ← field get_string torrent_dict (codes "announce")
    some (record {
      name = content.name;
      announce = announce;
      announce_list = announce_list_of torrent_dict;
      piece_hashes = content.pieces;
      piece_length = content.piece_length;
      files = content.files;
      info_hash = get_info_hash stream info;
    })
