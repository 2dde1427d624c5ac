-- ===== src/Stats.antt =====
-- src/Stats.hpp and src/Stats.cpp: how far the download is, and the texts that say so. What the code does
-- with a `double` is an interface: the operations that it calls. The clock, in milliseconds, is an
-- argument.
pub mod Eta
mod Tests
use cpp_torrent.Base.{
  ℕ, ◌+◌, ◌-◌, ◌*◌, ◌/◌, ◌%◌, ◌^◌, Bool, true, false, List, ◌++◌, [], ltb, ◌==◌, if◌then◌else◌,
  size_mod, sub_size, codes,
}
use cpp_torrent.Bencode.{ℤ, pos, negsuc}
use cpp_torrent.Bencode.Decimal.{decimal}
use cpp_torrent.TorrentMetadata.{to_size}

pub record Stats : Type 0 where
  pub total_bytes : ℕ
  pub downloaded_bytes : ℕ
  pub start_time : ℕ
  pub connected_peers : ℕ

unfoldable pub init : Stats
init = record { total_bytes = 0; downloaded_bytes = 0; start_time = 0; connected_peers = 0 }

-- `static_cast<double>` of an integer, a quotient, the tests `== 0.0` and `>= 1.0`, `static_cast<long>`,
-- and the format `{:.2f}`.
pub record Double (W : Type 0) : Type 0 where
  pub of_nat : ℕ → W
  pub divide : W → W → W
  pub is_zero : W → Bool
  pub at_least_one : W → Bool
  pub to_long : W → ℤ
  pub two_places : W → List ℕ

-- `std::chrono::seconds::max()`.
abbrev pub seconds_max : ℤ
seconds_max = pos (2 ^ 63 - 1)

abbrev pub is_seconds_max : ℤ → Bool
is_seconds_max (pos n) = n == 2 ^ 63 - 1
is_seconds_max (negsuc n) = false

abbrev pub get_elapsed_ms : Stats → ℕ → ℕ
get_elapsed_ms s now = now - s.start_time

-- `{}` of one field of the time, if it is not zero.
abbrev pub field : ℕ → List ℕ → List ℕ
field n unit = if ltb 0 n then decimal n ++ unit else []

-- The text of `get_formatted_eta` for a finite time.
unfoldable pub format_eta : ℕ → List ℕ
format_eta eta_quant =
    field (eta_quant / 86400) (codes "d:")
    ++ (field (eta_quant % 86400 / 3600) (codes "h:")
        ++ (field (eta_quant % 3600 / 60) (codes "m:") ++ (decimal (eta_quant % 60) ++ codes "s")))

module _ {W : Type 0} (d : Double W) where
  unfoldable pub get_download_rate : Stats → ℕ → W
  get_download_rate s now =
      d.divide (d.of_nat (s.downloaded_bytes * 1000 % size_mod)) (d.of_nat (get_elapsed_ms s now))

  unfoldable pub get_formatted_download_rate : Stats → ℕ → List ℕ
  unfolding get_download_rate
  get_formatted_download_rate s now =
      let download_rate = get_download_rate s now in
      let megabyte_rate = d.divide download_rate (d.of_nat 1048576) in
      let kilobyte_rate = d.divide download_rate (d.of_nat 1024) in
      if d.at_least_one megabyte_rate
      then d.two_places megabyte_rate ++ codes " MiB/s"
      else if d.at_least_one kilobyte_rate
      then d.two_places kilobyte_rate ++ codes " KiB/s"
      else d.two_places download_rate ++ codes " B/s"

  unfoldable pub get_download_percentage : Stats → W
  get_download_percentage s = d.divide (d.of_nat s.downloaded_bytes) (d.of_nat s.total_bytes)

  unfoldable pub get_eta : Stats → ℕ → ℤ
  unfolding get_download_rate
  get_eta s now =
      let download_rate = get_download_rate s now in
      if d.is_zero download_rate
      then seconds_max
      else d.to_long (d.divide (d.of_nat (sub_size s.total_bytes s.downloaded_bytes)) download_rate)

  unfoldable pub get_formatted_eta : Stats → ℕ → List ℕ
  unfolding get_eta format_eta
  get_formatted_eta s now =
      let eta = get_eta s now in
      if is_seconds_max eta then codes "Inf" else format_eta (to_size eta)
