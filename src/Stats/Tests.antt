-- ===== src/Stats/Tests.antt =====
-- Estimates with whole numbers in place of floating-point ones.
use cpp_torrent.Base.{
  ℕ, ◌/◌, ◌≡◌, refl, Bool, false, Option, none, some, arith, ◌==◌, leb, if◌then◌else◌, codes,
}
use cpp_torrent.Bencode.{pos}
use cpp_torrent.Bencode.Decimal.{decimal}
use cpp_torrent.Stats.{
  Stats, Double, format_eta, get_download_rate, get_eta, get_formatted_eta,
  get_formatted_download_rate,
}
use cpp_torrent.Stats.Eta.{read_eta, read_eta-get_formatted_eta}

abbrev quotient : Option ℕ → Option ℕ → Option ℕ
quotient (some a) (some b) = if b == 0 then none else some (a / b)
quotient other divisor = none

abbrev holds : (ℕ → Bool) → Option ℕ → Bool
holds test none = false
holds test (some n) = test n

abbrev whole : Option ℕ → ℕ
whole none = 0
whole (some n) = n

abbrev whole_numbers : Double (Option ℕ)
whole_numbers = record {
  of_nat = some;
  divide = quotient;
  is_zero = holds λ n. n == 0;
  at_least_one = holds λ n. leb 1 n;
  to_long = λ x. pos (whole x);
  two_places = λ x. decimal (whole x);
}

-- 2048 bytes in a second; 90061 seconds are left.
abbrev stats : Stats
stats = record {
  total_bytes = 184446976;
  downloaded_bytes = 2048;
  start_time = 500;
  connected_peers = 3;
}

eta : get_eta whole_numbers stats 1500 ≡ pos 90061
unfolding get_eta get_download_rate
eta = refl

texts :
    (get_formatted_eta whole_numbers stats 1500 ≡ codes "1d:1h:1m:1s")
    × (get_formatted_download_rate whole_numbers stats 1500 ≡ codes "2 KiB/s")
unfolding get_formatted_eta get_formatted_download_rate get_eta get_download_rate format_eta decimal
texts = (refl, refl)

-- Units that are zero are left out, the seconds are not.
two_hours : format_eta 7200 ≡ codes "2h:0s"
unfolding format_eta decimal
two_hours = refl

read_eta-get_formatted_eta_example : read_eta (get_formatted_eta whole_numbers stats 1500) ≡ 90061
read_eta-get_formatted_eta_example =
    read_eta-get_formatted_eta whole_numbers stats 1500 90061 eta (omega arith)
