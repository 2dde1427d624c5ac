-- ===== src/UdpTracker/Url.antt =====
-- `UdpTracker::extract_url_info` of src/UdpTracker.cpp: the search for `udp://(.+?):(\d+)/?.*`, whose first
-- group is as short as it can be and whose second is as long as it can be. An exception is `none`.
use cpp_torrent.Base.{
  ℕ, ◌<◌, ◌≡◌, ◌≢◌, refl, sym, ap, subst, ◌∙◌, Bool, true, false, ◌&&◌, ◌||◌, Option, none, some,
  List, [], ◌∷◌, ◌++◌, arith, ltb, ◌==◌, if◌then◌else◌, length, drop, All, u16_mod, codes,
}
use cpp_torrent.UdpTracker.{UdpTracker}
use cpp_torrent.Bencode.{is_digit, digits, char_colon}
use cpp_torrent.Bencode.Decimal.{decimal, decimal-cons, decimal-digits, digits-decimal, IsDigit}

-- `std::string_view::starts_with`.
unfoldable pub starts_with : List ℕ → List ℕ → Bool
starts_with text [] = true
starts_with [] (p ∷ ps) = false
starts_with (c ∷ text) (p ∷ ps) = if c == p then starts_with text ps else false

-- What `.` does not match.
abbrev is_line_end : ℕ → Bool
is_line_end c = c == 10 || c == 13

-- `:` and a digit.
abbrev starts_port : List ℕ → Bool
starts_port (c ∷ d ∷ text) = c == char_colon && is_digit d
starts_port (c ∷ []) = false
starts_port [] = false

abbrev cons_host : ℕ → Option (List ℕ × List ℕ) → Option (List ℕ × List ℕ)
cons_host c none = none
cons_host c (some (host, text)) = some (c ∷ host, text)

-- The host, and what follows the colon behind it.
unfoldable pub host_from : List ℕ → Option (List ℕ × List ℕ)
host_from [] = none
host_from (c ∷ text) =
    let more = cons_host c (host_from text) in
    if is_line_end c then none else if starts_port text then some (c ∷ [], drop 1 text) else more

unfoldable pub leading_digits : List ℕ → List ℕ
leading_digits [] = []
leading_digits (c ∷ text) = let more = c ∷ leading_digits text in if is_digit c then more else []

-- Both groups of the leftmost match.
unfoldable pub search_url : List ℕ → Option (List ℕ × List ℕ)
unfolding host_from leading_digits starts_with
search_url [] = none
search_url (c ∷ text) =
    let later = search_url text in
    if starts_with (c ∷ text) (codes "udp://")
    then elim (host_from (drop 5 text)) [
      | none ↦ later
      | some (host, behind) ↦ some (host, leading_digits behind)
    ]
    else later

-- `std::from_chars` to a `uint16_t`.
in_u16 : List ℕ → Option ℕ → Option (List ℕ × ℕ)
in_u16 host none = none
in_u16 host (some port) = if ltb port u16_mod then some (host, port) else none

unfoldable pub extract_url_info : List ℕ → Option (List ℕ × ℕ)
unfolding search_url in_u16
extract_url_info url = elim (search_url url) [
  | none ↦ none
  | some (host, port_str) ↦ in_u16 host (digits port_str)
]

of_url : List ℕ → List ℕ → ℕ → ℕ → Option (List ℕ × ℕ) → Option UdpTracker
of_url info_hash client_id client_port torrent_size none = none
of_url info_hash client_id client_port torrent_size (some (host, port)) = some (record {
  host = host;
  host_port = port;
  info_hash = info_hash;
  torr_client_id = client_id;
  torr_client_port = client_port;
  uploaded = 0;
  downloaded = 0;
  torrent_size = torrent_size;
  interval = 0;
})

-- The constructor of `UdpTracker`.
unfoldable pub init : List ℕ → List ℕ → List ℕ → ℕ → ℕ → Option UdpTracker
unfolding extract_url_info of_url
init announce info_hash client_id client_port torrent_size =
    if length client_id == 20
    then of_url info_hash client_id client_port torrent_size (extract_url_info announce)
    else none

-- Bytes that a host name has: neither a colon nor the end of a line.
abbrev pub InHost : ℕ → Type 0
InHost c = ((c == char_colon) || is_line_end c) ≡ false

no_port : (c : ℕ) (text : List ℕ) → InHost c → starts_port (c ∷ text) ≡ false
no_port c [] h = refl
no_port c (d ∷ text) h = ground arith

host_from-append :
    (host port : List ℕ) (d : ℕ)
    → host ≢ []
    → All InHost host
    → IsDigit d
    → host_from (host ++ (char_colon ∷ (d ∷ port))) ≡ some (host, d ∷ port)
unfolding host_from
host_from-append [] port d some_ a digit = absurd (some_ refl)
host_from-append (c ∷ []) port d some_ (h, a) digit =
    let line : is_line_end c ≡ false = ground arith in rw (line, digit) refl
host_from-append (c ∷ b ∷ host) port d some_ (h, (k, a)) digit =
    let line : is_line_end c ≡ false = ground arith in
    let later = host_from-append (b ∷ host) port d (λ e. cc) (k, a) digit in
    rw (line, no_port b (host ++ (char_colon ∷ (d ∷ port))) k, later) refl

-- What does not start with a digit.
abbrev pub NoDigit : List ℕ → Type 0
NoDigit [] = Unit {0}
NoDigit (c ∷ cs) = is_digit c ≡ false

leading_digits-append :
    (xs rest : List ℕ) → All IsDigit xs → NoDigit rest → leading_digits (xs ++ rest) ≡ xs
unfolding leading_digits
leading_digits-append [] [] a n = refl
leading_digits-append [] (c ∷ rest) a n = rw n refl
leading_digits-append (x ∷ xs) rest (h, a) n =
    rw h (ap (λ l. x ∷ l) (leading_digits-append xs rest a n))

search_url-here :
    (c : ℕ) (text host behind : List ℕ)
    → starts_with (c ∷ text) (codes "udp://") ≡ true
    → host_from (drop 5 text) ≡ some (host, behind)
    → search_url (c ∷ text) ≡ some (host, leading_digits behind)
unfolding search_url
search_url-here c text host behind h e = rw (h, e, search_url) refl

extract_url_info-found :
    (url host port_str : List ℕ) (port : ℕ)
    → search_url url ≡ some (host, port_str)
    → digits port_str ≡ some port
    → port < u16_mod
    → extract_url_info url ≡ some (host, port)
unfolding extract_url_info
extract_url_info-found url host port_str port e d h =
    let small : ltb port u16_mod ≡ true = ground arith in rw (e, extract_url_info, d, small) refl

-- A URL with the scheme `udp`, a host without colon and line end, a port of 16 bits and anything behind
-- it that does not start with a digit is taken apart into its host and its port.
pub extract_url_info-url :
    (host rest : List ℕ) (port : ℕ)
    → host ≢ []
    → All InHost host
    → port < u16_mod
    → NoDigit rest
    → extract_url_info (codes "udp://" ++ (host ++ (char_colon ∷ (decimal port ++ rest))))
      ≡ some (host, port)
unfolding starts_with
extract_url_info-url host rest port some_ a fits end =
    let (d, ds, e) = decimal-cons port in
    let all : All IsDigit (d ∷ ds) = subst (All IsDigit) e (decimal-digits port) in
    let text : decimal port ++ rest ≡ d ∷ (ds ++ rest) = ap (λ l. l ++ rest) e in
    let url = λ (l : List ℕ). codes "udp://" ++ (host ++ (char_colon ∷ l)) in
    let found =
      search_url-here b'u' (codes "dp://" ++ (host ++ (char_colon ∷ (d ∷ (ds ++ rest))))) host
        (d ∷ (ds ++ rest)) refl (host_from-append host (ds ++ rest) d some_ a all.0) in
    let number : digits (leading_digits (d ∷ (ds ++ rest))) ≡ some port =
      ap digits (leading_digits-append (d ∷ ds) rest all end ∙ sym e) ∙ digits-decimal port in
    ap (λ l. extract_url_info (url l)) text
    ∙ extract_url_info-found (url (d ∷ (ds ++ rest))) host (leading_digits (d ∷ (ds ++ rest))) port
        found number fits
