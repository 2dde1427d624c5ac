-- ===== src/PeerManager/Reconnect.antt =====
-- The loop of a reconnection comes to an end, and how.
use cpp_torrent.Base.{
  ℕ, zero, suc, ◌<◌, ◌≤◌, ◌≡◌, refl, ap, ◌∙◌, ◌⊎◌, inl, inr, true, false, ◌&&◌, some, List, arith,
  ltb, ◌==◌, Bool-cases,
}
use cpp_torrent.PeerConnection.{
  PeerConnection, connected, disconnected, timed_out, Attempt, max_retries, connect,
}
use cpp_torrent.PeerConnection.States.{Accepted, connect_cases}
use cpp_torrent.PeerManager.{max_peer_count, reconnect_from, is_connected}

-- A connection that the loop leaves: it stands, with all its retries, after a round whose attempt was
-- accepted; or it has no retries left; or there were enough peers.
abbrev pub LoopEnd : List ℕ → (ℕ → ℕ) → (ℕ → Attempt) → ℕ → PeerConnection → PeerConnection → Type 0
LoopEnd h seen nets i c d =
    ((k : ℕ) × (i ≤ k)
      × Accepted h (nets k)
      × (d.state ≡ connected)
      × (d.was_connected ≡ true)
      × (d.retries_left ≡ max_retries))
    ⊎ (((d.retries_left ≡ 0) × ((d.was_connected ≡ false) ⊎ (d ≡ c)))
        ⊎ ((k : ℕ) × (i ≤ k) × (max_peer_count ≤ seen k) × ((d.was_connected ≡ false) ⊎ (d ≡ c))))

module _ (h : List ℕ) (seen : ℕ → ℕ) (nets : ℕ → Attempt) where
  -- A later end is an end, if the connection in between was not connected.
  later_end :
      (i : ℕ) (c tried d : PeerConnection)
      → tried.was_connected ≡ false
      → LoopEnd h seen nets (suc i) tried d
      → LoopEnd h seen nets i c d
  later_end i c tried d w (inl (k, l, a, s, v, r)) = inl (k, omega arith, a, s, v, r)
  later_end i c tried d w (inr (inl (r, o))) = inr (inl (r, inl (never o)))
    where
      never : (d.was_connected ≡ false) ⊎ (d ≡ tried) → d.was_connected ≡ false
      never (inl e) = e
      never (inr e) = ap (λ x. x.was_connected) e ∙ w
  later_end i c tried d w (inr (inr (k, l, m, o))) = inr (inr (k, omega arith, m, inl (never o)))
    where
      never : (d.was_connected ≡ false) ⊎ (d ≡ tried) → d.was_connected ≡ false
      never (inl e) = e
      never (inr e) = ap (λ x. x.was_connected) e ∙ w

  -- The test of the loop fails.
  stopped :
      (i : ℕ) (c : PeerConnection)
      → (ltb 0 c.retries_left && ltb (seen i) max_peer_count) ≡ false
      → LoopEnd h seen nets i c c
  stopped i c e = elim (Bool-cases (ltb 0 c.retries_left)) [
    | inl some_ ↦ inr (inr (i, omega arith, ground arith, inr refl))
    | inr none_ ↦ inr (inl (ground arith, inr refl))
  ]

  not_connected :
      (d : PeerConnection)
      → (d.state ≡ timed_out) ⊎ (d.state ≡ disconnected)
      → is_connected d.state ≡ false
  not_connected d (inl e) = ap is_connected e
  not_connected d (inr e) = ap is_connected e

  -- With more fuel than the connection has retries, a reconnection comes to an end.
  pub reconnect_from-LoopEnd :
      (fuel i : ℕ) (c : PeerConnection)
      → c.retries_left < fuel
      → (d : PeerConnection) × (reconnect_from h seen nets fuel i c ≡ some d)
        × LoopEnd h seen nets i c d
  unfolding reconnect_from
  reconnect_from-LoopEnd zero i c b = absurd (omega arith)
  reconnect_from-LoopEnd (suc fuel) i c b =
      elim (Bool-cases (ltb 0 c.retries_left && ltb (seen i) max_peer_count)) [
        | inr stop ↦ (c, rw stop refl, stopped i c stop)
        | inl go ↦ elim (connect_cases h (nets i) c) [
          | inl (none_, same) ↦ let left : 0 < c.retries_left = ground arith in absurd (omega arith)
          | inr (some_, inl (a, s, w, r, n)) ↦
              (connect h (nets i) c, rw (go, s) refl, inl (i, omega arith, a, s, w, r))
          | inr (some_, inr (a, s, w, r)) ↦
              let tried = connect h (nets i) c in
              let failed : is_connected tried.state ≡ false = not_connected tried s in
              elim (Bool-cases (tried.retries_left == 0)) [
                | inl last ↦ (tried, rw (go, failed, last) refl, inr (inl (ground arith, inl w)))
                | inr more ↦
                    let (d, e, l) = reconnect_from-LoopEnd fuel (suc i) tried (omega arith) in
                    (d, rw (go, failed, more) e, later_end i c tried d w l)
              ]
        ]
      ]
