-- ===== src/PeerManager/History.antt =====
-- The number of connected peers over the whole history of a manager.
use cpp_torrent.Base.{
  ℕ, zero, suc, ◌+◌, ◌%◌, ◌<◌, ◌≡◌, refl, sym, ap, subst, ◌∙◌, ◌⊎◌, inl, inr, Bool, true, false,
  ◌&&◌, some, List, arith, if◌then◌else◌, Bool-cases, u32_mod, some_injective, ltb, ◌==◌, ◌||◌,
}
use cpp_torrent.UdpTracker.{PeerInfo}
use cpp_torrent.PeerConnection
use cpp_torrent.PeerConnection.{
  PeerConnection, PeerState, uninitiated, connecting, connected, running, disconnected, timed_out,
  Attempt, connect, disconnect,
}
use cpp_torrent.PeerConnection.States.{connect_cases}
use cpp_torrent.PeerManager.{
  PeerManager, new, max_peer_count, find, set_entry, add_peers, stop, connect_done, is_connected,
  gives_up, end_reconnection, reconnect_from, cleanup,
}
use cpp_torrent.PeerManager.Count.{
  weight, counted, counted-add_from, counted-set_entry, clean_from-Balanced, weight_reconnecting,
}

-- A reconnection that gives up a peer whose connection stands, or stood before, takes it for connected
-- though it is not counted.
abbrev pub lost : PeerConnection → ℕ → ℕ
lost c seen = if gives_up c seen && c.was_connected then 1 else 0

-- The manager's history, in steps that no other step of its thread interrupts, with the number of such
-- reconnections. While a connection runs, it changes as it will, but for the flag that it stood.
pub data Reaches (h : List ℕ) : ℕ → PeerManager → Type 0 where
  begun : Reaches h 0 new
  added :
      {n : ℕ} {m : PeerManager} (peers : List PeerInfo)
      → Reaches h n m
      → Reaches h n (add_peers peers m)
  stopped : {n : ℕ} {m : PeerManager} → Reaches h n m → Reaches h n (stop m)
  dialed :
      {n : ℕ} {m : PeerManager} (p : PeerInfo) (net : Attempt)
      → Reaches h n m
      → find p m.peer_connections ≡ some (PeerConnection.init, false)
      → Reaches h n (connect_done h p PeerConnection.init net m)
  ran :
      {n : ℕ} {m : PeerManager} (p : PeerInfo) (c d : PeerConnection)
      → Reaches h n m
      → find p m.peer_connections ≡ some (c, false)
      → (c.state ≡ connected) ⊎ (c.state ≡ running)
      → d.was_connected ≡ c.was_connected
      → Reaches h n (record m { peer_connections = set_entry p (d, false) m.peer_connections })
  cleaned :
      {n : ℕ} {m : PeerManager} (locked : Bool) → Reaches h n m → Reaches h n (cleanup locked m)
  reconnected :
      {n : ℕ} {m : PeerManager} (p : PeerInfo) (c d : PeerConnection) (fuel : ℕ) (seen : ℕ → ℕ)
      (nets : ℕ → Attempt)
      → Reaches h n m
      → find p m.peer_connections ≡ some (c, true)
      → c.state ≡ timed_out
      → reconnect_from h seen nets fuel 0 c ≡ some d
      → Reaches h (n + lost d m.connected_peers) (end_reconnection p d m)

-- The count and the losses make up the map's weight, as numbers of 32 bits.
abbrev pub Balances : ℕ → PeerManager → Type 0
Balances n m =
    ((m.connected_peers + n) % u32_mod ≡ counted m.peer_connections % u32_mod)
    × (m.connected_peers < u32_mod)

-- A connection that `connect` has left stands exactly if it says that it stood.
Honest : PeerConnection → Type 0
Honest d =
    ((is_connected d.state ≡ true) × (d.was_connected ≡ true))
    ⊎ ((is_connected d.state ≡ false) × (d.was_connected ≡ false))

connect-Honest :
    (h : List ℕ) (net : Attempt) (c : PeerConnection)
    → 0 < c.retries_left
    → Honest (connect h net c)
unfolding Honest
connect-Honest h net c left = elim (connect_cases h net c) [
  | inl (none_, same) ↦ absurd (omega arith)
  | inr (some_, inl (a, s, w, r, n)) ↦ inl (ap is_connected s, w)
  | inr (some_, inr (a, inl s, w, r)) ↦ inr (ap is_connected s, w)
  | inr (some_, inr (a, inr s, w, r)) ↦ inr (ap is_connected s, w)
]

reconnect_from-Honest :
    (h : List ℕ) (seen : ℕ → ℕ) (nets : ℕ → Attempt) (fuel i : ℕ) (c d : PeerConnection)
    → reconnect_from h seen nets fuel i c ≡ some d
    → (d ≡ c) ⊎ Honest d
unfolding reconnect_from
reconnect_from-Honest h seen nets zero i c d e = cc
reconnect_from-Honest h seen nets (suc fuel) i c d e =
    elim (Bool-cases (ltb 0 c.retries_left && ltb (seen i) max_peer_count)) [
      | inr stop ↦ inl (sym (some_injective (rw stop at e)))
      | inl go ↦
          let tried = connect h (nets i) c in
          let honest = connect-Honest h (nets i) c (ground arith) in
          elim (Bool-cases (is_connected tried.state || tried.retries_left == 0)) [
            | inl last ↦ inr (subst Honest (some_injective (rw (go, last) at e)) honest)
            | inr more ↦
                elim (reconnect_from-Honest h seen nets fuel (suc i) tried d (rw (go, more) at e)) [
                  | inl same ↦ inr (subst Honest (sym same) honest)
                  | inr later ↦ inr later
                ]
          ]
    ]

weight-Honest :
    (d : PeerConnection) → Honest d → (weight (d, false) ≡ (if is_connected d.state then 1 else 0))
unfolding Honest
weight-Honest d (inl (s, w)) = rw (s, w) refl
weight-Honest d (inr (s, w)) = rw (s, w) refl

dialed-Balances :
    (h : List ℕ) (n : ℕ) (m : PeerManager) (p : PeerInfo) (net : Attempt)
    → find p m.peer_connections ≡ some (PeerConnection.init, false)
    → Balances n m
    → Balances n (connect_done h p PeerConnection.init net m)
unfolding connect_done PeerConnection.init
dialed-Balances h n m p net e (b, l) =
    let d = connect h net PeerConnection.init in
    let w = weight-Honest d (connect-Honest h net PeerConnection.init (omega arith)) in
    let s = counted-set_entry p (PeerConnection.init, false) (d, false) m.peer_connections e in
    elim (Bool-cases (is_connected d.state)) [
      | inl up ↦
          let one : weight (d, false) ≡ 1 = w ∙ ap (λ (t : Bool). if t then 1 else 0) up in
          rw up (omega arith, omega arith)
      | inr down ↦
          let none_ : weight (d, false) ≡ 0 = w ∙ ap (λ (t : Bool). if t then 1 else 0) down in
          rw down (omega arith, l)
    ]

reconnected-Balances :
    (n : ℕ) (m : PeerManager) (p : PeerInfo) (c d : PeerConnection)
    → find p m.peer_connections ≡ some (c, true)
    → c.state ≡ timed_out
    → (d ≡ c) ⊎ Honest d
    → Balances n m
    → Balances (n + lost d m.connected_peers) (end_reconnection p d m)
unfolding end_reconnection Honest disconnect
reconnected-Balances n m p c d e t o (b, l) =
    let none_ = weight_reconnecting c in
    elim (Bool-cases (gives_up d m.connected_peers)) [
      | inl up ↦
          let s = counted-set_entry p (c, true) (disconnect d, false) m.peer_connections e in
          let w : weight (disconnect d, false) ≡ (if d.was_connected then 1 else 0) =
            kept d.was_connected in
          rw up (omega arith, l)
      | inr runs ↦
          let s = counted-set_entry p (c, true) (d, false) m.peer_connections e in
          let stands : is_connected d.state ≡ true = ground arith in
          let was : d.was_connected ≡ true = was_of o stands in
          let one : weight (d, false) ≡ 1 = rw was refl in rw runs (omega arith, omega arith)
    ]
  where
    kept : (b : Bool) → ◌≡◌ {A = ℕ} (if b && true then 1 else 0) (if b then 1 else 0)
    kept true = refl
    kept false = refl

    was_of : (d ≡ c) ⊎ Honest d → is_connected d.state ≡ true → d.was_connected ≡ true
    was_of (inl same) stands =
        let down : is_connected d.state ≡ false =
          ap (λ x. is_connected x.state) same ∙ ap is_connected t in
        cc
    was_of (inr (inl (s, w))) stands = w
    was_of (inr (inr (s, w))) stands = cc

-- In every history of a manager, the number of connected peers and the number of reconnections that
-- gave up a peer though its connection stands or had stood, together, are the number of connections in
-- the map that stand or have stood and are not being made again, modulo 2^32: each such reconnection
-- makes the number of connected peers too small by one for good, and nothing else makes it wrong.
pub Reaches-Balances :
    (h : List ℕ) {n : ℕ} {m : PeerManager}
    → Reaches h n m
    → ((m.connected_peers + n) % u32_mod ≡ counted m.peer_connections % u32_mod)
      × (m.connected_peers < u32_mod)
unfolding add_peers cleanup stop
Reaches-Balances h begun = unfold new counted in (refl, omega arith)
Reaches-Balances h (added {n} {m} peers r) =
    let (b, l) = Reaches-Balances h r in
    (b ∙ ap (λ k. k % u32_mod) (sym (counted-add_from peers m.peer_connections)), l)
Reaches-Balances h (stopped r) = Reaches-Balances h r
Reaches-Balances h (dialed {n} {m} p net r e) = dialed-Balances h n m p net e (Reaches-Balances h r)
Reaches-Balances h (ran {n} {m} p c d r e s w) =
    let (b, l) = Reaches-Balances h r in
    let k = counted-set_entry p (c, false) (d, false) m.peer_connections e in
    let same : weight (d, false) ≡ weight (c, false) = ap (λ t. if t && true then 1 else 0) w in
    (omega arith, l)
Reaches-Balances h (cleaned {n} {m} locked r) =
    let (b, l) = Reaches-Balances h r in
    let (c, k) = clean_from-Balanced m.peer_connections m.connected_peers l in
    elim (Bool-cases locked) [ inl yes_ ↦ rw yes_ (omega arith, k) | inr no_ ↦ rw no_ (b, l) ]
Reaches-Balances h (reconnected {n} {m} p c d fuel seen nets r e t q) =
    reconnected-Balances n m p c d e t (reconnect_from-Honest h seen nets fuel 0 c d q)
      (Reaches-Balances h r)
