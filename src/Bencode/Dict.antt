-- ===== src/Bencode/Dict.antt =====
-- How src/TorrentMetadata.cpp and src/HttpTracker.cpp read decoded items: `std::get`,
-- `std::holds_alternative`, and `contains` and `at` of a dictionary. `none` is an exception.
use cpp_torrent.Base.{ℕ, Bool, true, false, Option, none, some, List, if◌then◌else◌}
use cpp_torrent.Message.{bytes_equal}
use cpp_torrent.Bencode.{
  ℤ, Item, Items, Entries, int_item, string_item, list_item, dict_item, no_entries, entry,
}

unfoldable pub find : List ℕ → Entries → Option Item
find key no_entries = none
find key (entry k i es) = if bytes_equal k key then some i else find key es

abbrev pub contains : List ℕ → Entries → Bool
contains key es = elim (find key es) [ none ↦ false | some _ ↦ true ]

abbrev pub get_int : Item → Option ℤ
get_int (int_item s n v) = some v
get_int (string_item s n v) = none
get_int (list_item s n v) = none
get_int (dict_item s n v) = none

abbrev pub get_string : Item → Option (List ℕ)
get_string (string_item s n v) = some v
get_string (int_item s n v) = none
get_string (list_item s n v) = none
get_string (dict_item s n v) = none

abbrev pub get_list : Item → Option Items
get_list (list_item s n v) = some v
get_list (int_item s n v) = none
get_list (string_item s n v) = none
get_list (dict_item s n v) = none

abbrev pub get_dict : Item → Option Entries
get_dict (dict_item s n v) = some v
get_dict (int_item s n v) = none
get_dict (string_item s n v) = none
get_dict (list_item s n v) = none

abbrev pub holds {ℓ} : {A : Type ℓ} → Option A → Bool
holds none = false
holds (some a) = true
