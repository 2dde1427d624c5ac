-- ===== src/PeerManager/Peers.antt =====
-- Adding peers: new ones get a fresh connection, and nothing else changes.
use cpp_torrent.Base.{
  ◌≡◌, ◌↔◌, refl, sym, ap, ◌∙◌, inl, inr, Bool, true, false, Option, none, some, List, [], ◌∷◌,
  ◌++◌, arith, if◌then◌else◌, Bool-cases, Option-cases, ==_iff, In,
}
use cpp_torrent.Message.{bytes_equal}
use cpp_torrent.Message.Handshake.{bytes_equal_iff}
use cpp_torrent.UdpTracker.{PeerInfo}
use cpp_torrent.PeerConnection
use cpp_torrent.PeerConnection.{PeerConnection}
use cpp_torrent.PeerManager.{
  Entry, Entries, PeerManager, peer_equal, find, is_there, add_from, add_peers,
}

pub peer_equal_iff : (p q : PeerInfo) → (peer_equal p q ≡ true) ↔ (p ≡ q)
peer_equal_iff p q = (to, from)
  where
    to : peer_equal p q ≡ true → p ≡ q
    to h =
        let ips : bytes_equal p.ip q.ip ≡ true = ground arith in
        let ports : p.port ≡ q.port = ground arith in
        let same = (bytes_equal_iff p.ip q.ip).0 ips in cc

    from : p ≡ q → peer_equal p q ≡ true
    from e =
        let ips = (bytes_equal_iff p.ip q.ip).1 (ap (λ x. x.ip) e) in
        let ports : p.port ≡ q.port = ap (λ x. x.port) e in
        let same = (==_iff p.port q.port).1 ports in rw (ips, same) refl

-- A peer of the list.
abbrev pub listed : PeerInfo → List PeerInfo → Bool
listed p [] = false
listed p (q ∷ ps) = if peer_equal q p then true else listed p ps

find-append :
    (p q : PeerInfo) (x : Entry) (es : Entries)
    → find p (es ++ ((q, x) ∷ []))
      ≡ (elim (find p es) [ some y ↦ some y | none ↦ (if peer_equal q p then some x else none) ])
unfolding find
find-append p q x [] = refl
find-append p q x ((r, y) ∷ es) = elim (Bool-cases (peer_equal r p)) [
  | inl same ↦ rw same refl
  | inr other ↦ rw other (find-append p q x es)
]

-- What the map holds for `p` once the peers are added.
abbrev pub looked_up : Option Entry → Bool → Option Entry
looked_up (some x) b = some x
looked_up none true = some (PeerConnection.init, false)
looked_up none false = none

new_peer :
    (o : Option Entry) (b c : Bool)
    → looked_up
        (elim o [
          | some y ↦ some y
          | none ↦ (if b then some (PeerConnection.init, false) else none)
        ])
        c
      ≡ looked_up o (if b then true else c)
new_peer (some x) b c = refl
new_peer none true c = refl
new_peer none false c = refl

old_peer :
    (o : Option Entry) (b c : Bool)
    → (b ≡ true → (x : Entry) × (o ≡ some x))
    → looked_up o c ≡ looked_up o (if b then true else c)
old_peer (some x) b c h = refl
old_peer none true c h = let (x, e) = h refl in cc
old_peer none false c h = refl

find-add_from :
    (p : PeerInfo) (ps : List PeerInfo) (es : Entries)
    → find p (add_from ps es) ≡ looked_up (find p es) (listed p ps)
unfolding add_from
find-add_from p [] es = none_added (find p es)
  where
    none_added : (o : Option Entry) → o ≡ looked_up o false
    none_added none = refl
    none_added (some x) = refl
find-add_from p (q ∷ ps) es = elim (Option-cases (find q es)) [
  | inl fresh ↦
      let x : Entry = (PeerConnection.init, false) in
      turn fresh
      ∙ (find-add_from p ps (es ++ ((q, x) ∷ []))
          ∙ (ap (λ o. looked_up o (listed p ps)) (find-append p q x es)
              ∙ new_peer (find p es) (peer_equal q p) (listed p ps)))
  | inr (x, there) ↦
      let known : peer_equal q p ≡ true → (y : Entry) × (find p es ≡ some y) =
        λ same. (x, ap (λ r. find r es) (sym ((peer_equal_iff q p).0 same)) ∙ there) in
      turn there
      ∙ (find-add_from p ps es ∙ old_peer (find p es) (peer_equal q p) (listed p ps) known)
]
  where
    turn :
        {o : Option Entry}
        → find q es ≡ o
        → find p (add_from (q ∷ ps) es)
          ≡ find p (
              add_from ps
                (if is_there o then es else es ++ ((q, (PeerConnection.init, false)) ∷ [])))
    turn e =
        ap
          (λ r. find p (
            add_from ps
              (if is_there r then es else es ++ ((q, (PeerConnection.init, false)) ∷ []))))
          e

listed-In : (p : PeerInfo) (ps : List PeerInfo) → In p ps → listed p ps ≡ true
listed-In p [] h = absurd h
listed-In p (q ∷ ps) (inl e) = rw ((peer_equal_iff q p).1 (sym e)) refl
listed-In p (q ∷ ps) (inr h) = elim (Bool-cases (peer_equal q p)) [
  | inl same ↦ rw same refl
  | inr other ↦ rw other (listed-In p ps h)
]

listed-not_In : (p : PeerInfo) (ps : List PeerInfo) → (¬ In p ps) → listed p ps ≡ false
listed-not_In p [] h = refl
listed-not_In p (q ∷ ps) h =
    let other : peer_equal q p ≡ false = elim (Bool-cases (peer_equal q p)) [
      | inl same ↦ absurd (h (inl (sym ((peer_equal_iff q p).0 same))))
      | inr other ↦ other
    ] in
    rw other (listed-not_In p ps (λ i. h (inr i)))

-- After peers are added, the manager is started and counts as many connected peers as before. A peer
-- that it had keeps its connection, whether it is among the new ones or not; any other peer has a fresh
-- connection, which is not being reconnected, if it is among them, and none if it is not.
pub add_peers_lem :
    (peers : List PeerInfo) (m : PeerManager)
    → ((add_peers peers m).started ≡ true)
      × ((add_peers peers m).connected_peers ≡ m.connected_peers)
      × ((p : PeerInfo) (x : Entry)
          → find p m.peer_connections ≡ some x
          → find p (add_peers peers m).peer_connections ≡ some x)
      × ((p : PeerInfo)
          → find p m.peer_connections ≡ none
          → In p peers
          → find p (add_peers peers m).peer_connections ≡ some (PeerConnection.init, false))
      × ((p : PeerInfo)
          → find p m.peer_connections ≡ none
          → (¬ In p peers)
          → find p (add_peers peers m).peer_connections ≡ none)
unfolding add_peers
add_peers_lem peers m =
    let es = m.peer_connections in
    (
      refl,
      refl,
      λ p x h. find-add_from p peers es ∙ ap (λ o. looked_up o (listed p peers)) h,
      λ p h i.
          find-add_from p peers es
          ∙ (ap (λ o. looked_up o (listed p peers)) h ∙ ap (looked_up none) (listed-In p peers i)),
      λ p h i.
          find-add_from p peers es
          ∙ (ap (λ o. looked_up o (listed p peers)) h
              ∙ ap (looked_up none) (listed-not_In p peers i)),
    )
