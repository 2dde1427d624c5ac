-- ===== src/UdpTracker/Peers.antt =====
-- The compact list of peers in a tracker's answer.
use cpp_torrent.Base.{
  ℕ, ◌*◌, ◌/◌, ◌%◌, ◌<◌, ◌≡◌, ◌≢◌, ◌⊎◌, refl, ap, ◌∙◌, true, List, [], ◌∷◌, ◌++◌, arith, length,
  length-append, ◌==◌, u16_mod, All, subst, Bool-cases, inl, inr,
}
use cpp_torrent.Net.{Endian, get}
use cpp_torrent.Net.Order.{be_bytes, put-be_bytes, get-put, limit}
use cpp_torrent.UdpTracker.{PeerInfo, value, unexpected, protocol_error, peers_from, extract_peers}
use cpp_torrent.UdpTracker.Packets.{length-be_bytes}

pub get-be_bytes : (e : Endian) (k v : ℕ) → v < limit k → get e k (be_bytes k v) ≡ v
get-be_bytes e k v h = subst (λ bs. get e k bs ≡ v) (put-be_bytes e k v) (get-put e e k v h)

-- A peer with an IPv4 address and a port.
abbrev pub IsPeer : PeerInfo → Type 0
IsPeer p = (length p.ip ≡ 4) × (p.port < u16_mod)

-- Four bytes of address and two of port for each peer.
unfoldable pub compact : List PeerInfo → List ℕ
compact [] = []
compact (p ∷ ps) = p.ip ++ (be_bytes 2 p.port ++ compact ps)

pub length-compact : (ps : List PeerInfo) → All IsPeer ps → length (compact ps) ≡ 6 * length ps
unfolding compact
length-compact [] a = refl
length-compact (p ∷ ps) (h, a) = omega (
  arith,
  length-append p.ip (be_bytes 2 p.port ++ compact ps),
  length-append (be_bytes 2 p.port) (compact ps),
  length-be_bytes 2 p.port,
  length-compact ps a,
)

module _ (e : Endian) where
  two_bytes :
      (a b c d : ℕ) (port rest : List ℕ)
      → length port ≡ 2
      → peers_from e (a ∷ b ∷ c ∷ d ∷ (port ++ rest))
        ≡ record { ip = a ∷ b ∷ c ∷ d ∷ []; port = get e 2 port } ∷ peers_from e rest
  unfolding peers_from
  two_bytes a b c d (p ∷ q ∷ []) rest h = refl
  two_bytes a b c d [] rest h = absurd (omega arith)
  two_bytes a b c d (p ∷ []) rest h = absurd (omega arith)
  two_bytes a b c d (p ∷ q ∷ r ∷ port) rest h = absurd (omega arith)

  one_peer :
      (ip : List ℕ) (port : ℕ) (rest : List ℕ)
      → length ip ≡ 4
      → port < u16_mod
      → peers_from e (ip ++ (be_bytes 2 port ++ rest))
        ≡ record { ip = ip; port = port } ∷ peers_from e rest
  one_peer (a ∷ b ∷ c ∷ d ∷ []) port rest h k =
      two_bytes a b c d (be_bytes 2 port) rest (length-be_bytes 2 port)
      ∙ ap (λ n. record { ip = a ∷ b ∷ c ∷ d ∷ []; port = n } ∷ peers_from e rest)
          (get-be_bytes e 2 port (omega arith))
  one_peer [] port rest h k = absurd (omega arith)
  one_peer (a ∷ []) port rest h k = absurd (omega arith)
  one_peer (a ∷ b ∷ []) port rest h k = absurd (omega arith)
  one_peer (a ∷ b ∷ c ∷ []) port rest h k = absurd (omega arith)
  one_peer (a ∷ b ∷ c ∷ d ∷ x ∷ ip) port rest h k = absurd (omega arith)

  pub peers_from-compact : (ps : List PeerInfo) → All IsPeer ps → peers_from e (compact ps) ≡ ps
  unfolding compact peers_from
  peers_from-compact [] a = refl
  peers_from-compact (p ∷ ps) (h, a) =
      one_peer p.ip p.port (compact ps) h.0 h.1 ∙ ap (λ rest. p ∷ rest) (peers_from-compact ps a)

  -- Peers with four bytes of address and a uint16_t port, packed to six bytes each as trackers do,
  -- are the peers that the client reads, on every host.
  pub extract_peers-compact :
      (ps : List PeerInfo) → All IsPeer ps → extract_peers e (compact ps) ≡ value ps
  unfolding extract_peers
  extract_peers-compact ps a =
      let n = length-compact ps a in
      let whole : (length (compact ps) % 6 == 0) ≡ true = ground (arith, n) in
      rw whole (ap value (peers_from-compact ps a))

  length-peers_from : (bs : List ℕ) → length (peers_from e bs) ≡ length bs / 6
  unfolding peers_from
  length-peers_from (a ∷ b ∷ c ∷ d ∷ p ∷ q ∷ bs) = omega (arith, length-peers_from bs)
  length-peers_from [] = refl
  length-peers_from (a ∷ []) = refl
  length-peers_from (a ∷ b ∷ []) = refl
  length-peers_from (a ∷ b ∷ c ∷ []) = refl
  length-peers_from (a ∷ b ∷ c ∷ d ∷ []) = refl
  length-peers_from (a ∷ b ∷ c ∷ d ∷ p ∷ []) = refl

  -- A list whose length is a multiple of six gives one peer for each six bytes; any other length is
  -- a protocol error.
  pub extract_peers_cases :
      (bs : List ℕ)
      → ((length bs % 6 ≡ 0)
          × ((ps : List PeerInfo) × (extract_peers e bs ≡ value ps) × (6 * length ps ≡ length bs)))
        ⊎ ((length bs % 6 ≢ 0) × (extract_peers e bs ≡ unexpected protocol_error))
  unfolding extract_peers
  extract_peers_cases bs = elim (Bool-cases (length bs % 6 == 0)) [
    | inl whole ↦
        inl (ground arith, (peers_from e bs, rw whole refl, ground (arith, length-peers_from bs)))
    | inr broken ↦ inr (ground arith, rw broken refl)
  ]
