-- ===== src/HttpTracker/Reply.antt =====
-- What the client makes of a tracker's reply.
use cpp_torrent.Base.{
  ℕ, ◌+◌, ◌*◌, ◌%◌, ◌≡◌, refl, ap, true, some, List, [], arith, ◌==◌, length, codes, All,
  Bool-cases, inl, inr, some_injective,
}
use cpp_torrent.Message.{bytes_equal}
use cpp_torrent.Net.{Endian}
use cpp_torrent.Bencode.{
  ℤ, Item, Entries, int_item, string_item, dict_item, no_entries, entry, b_decode, ok,
}
use cpp_torrent.Bencode.Dict.{find}
use cpp_torrent.Bencode.Encode.{encode, encode_string, place, place_entries, EntriesWellFormed}
use cpp_torrent.Bencode.RoundTrip.{b_decode-encode}
use cpp_torrent.UdpTracker.{PeerInfo}
use cpp_torrent.UdpTracker.Peers.{IsPeer, compact, length-compact, peers_from-compact}
use cpp_torrent.HttpTracker.{
  HttpTracker, Query, Response, query, extract_peers, update_interval, retrieve_peers,
}

-- An entry is found where it has been placed.
find-place_entries :
    (key : List ℕ) (at : ℕ) (es : Entries) (i : Item)
    → find key es ≡ some i
    → (k : ℕ) × (find key (place_entries at es) ≡ some (place k i))
unfolding find place
find-place_entries key at no_entries i h = cc
find-place_entries key at (entry k j es) i h = elim (Bool-cases (bytes_equal k key)) [
  | inl same ↦
      let here = at + length (encode_string k) in
      rw same (here, ap (λ a. some (place here a)) (some_injective (rw same at h)))
  | inr other ↦ rw other (
      find-place_entries key (at + length (encode_string k) + length (encode j)) es i
        (rw other at h))
]

module _ (e : Endian) where
  -- The peers of a dictionary with the compact list.
  extract_peers-found :
      (es : Entries) (s n : ℕ) (ps : List PeerInfo)
      → find (codes "peers") es ≡ some (string_item s n (compact ps))
      → All IsPeer ps
      → extract_peers e es ≡ some (some ps)
  unfolding extract_peers
  extract_peers-found es s n ps h a =
      let whole : (length (compact ps) % 6 == 0) ≡ true = ground (arith, length-compact ps a) in
      rw (h, whole) (ap (λ l. some (some l)) (peers_from-compact e ps a))

  update_interval-found :
      (tracker : HttpTracker) (es : Entries) (s n : ℕ) (z : ℤ)
      → find (codes "interval") es ≡ some (int_item s n z)
      → update_interval es tracker ≡ some (record tracker { interval = z })
  unfolding update_interval
  update_interval-found tracker es s n z h = rw h refl

  -- A reply of status 200 whose text is, in the bencoded format, a dictionary that the program's types
  -- can hold, with an interval and the compact list of the peers under their keys, in any order and
  -- among other entries: the caller gets exactly the peers, on every host, the tracker the interval,
  -- and nothing else of the tracker changes.
  pub retrieve_peers-reply :
      (tracker : HttpTracker) (downloaded uploaded : ℕ) (get : Query → Response) (es : Entries)
      (s0 n0 s1 n1 : ℕ) (z : ℤ) (ps : List PeerInfo)
      → EntriesWellFormed es
      → find (codes "interval") es ≡ some (int_item s0 n0 z)
      → find (codes "peers") es ≡ some (string_item s1 n1 (compact ps))
      → All IsPeer ps
      → get (query tracker downloaded uploaded)
        ≡ record { status_code = 200; text = encode (dict_item 0 0 es) }
      → retrieve_peers e tracker downloaded uploaded get
        ≡ (record tracker { interval = z }, some ps)
  unfolding retrieve_peers place
  retrieve_peers-reply tracker downloaded uploaded get es s0 n0 s1 n1 z ps w hi hp a reply =
      let text = encode (dict_item 0 0 es) in
      let read : b_decode (2 * length text + 1) text ≡ ok (place 0 (dict_item 0 0 es)) [] =
        b_decode-encode (dict_item 0 0 es) (2 * length text + 1) w (omega arith) in
      let placed = place_entries 1 es in
      let (k0, i0) = find-place_entries (codes "interval") 1 es (int_item s0 n0 z) hi in
      let (k1, i1) = find-place_entries (codes "peers") 1 es (string_item s1 n1 (compact ps)) hp in
      let interval =
        update_interval-found tracker placed k0 (length (encode (int_item s0 n0 z))) z i0 in
      let peers =
        extract_peers-found placed k1 (length (encode (string_item s1 n1 (compact ps)))) ps i1 a in
      rw (reply, read, interval, peers) refl
