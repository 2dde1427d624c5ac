-- ===== src/PeerConnection/States.antt =====
-- The states of a connection and its retries.
use cpp_torrent.Base.{
  ℕ, ◌-◌, ◌<◌, ◌≡◌, ◌⊎◌, inl, inr, refl, ap, ◌∙◌, true, false, Option, none, some, List, arith,
  ◌==◌, Bool-cases,
}
use cpp_torrent.Message.{parse_handshake_message, bytes_equal}
use cpp_torrent.Message.Handshake.{bytes_equal_iff}
use cpp_torrent.PeerConnection.{
  PeerConnection, connected, disconnected, timed_out, connecting, Attempt, Failure, timeout, other,
  max_retries, connect, reset_state, handle_failure, establish, send_handshake, receive_handshake,
  check_handshake,
}

-- The peer answered the handshake with the info hash `h`.
abbrev pub Accepted : List ℕ → Attempt → Type 0
Accepted h net =
    (net.established ≡ none)
    × (net.sent ≡ none)
    × ((message : List ℕ) × (net.received ≡ inl message)
        × (parse_handshake_message message ≡ some h))

abbrev Failed : PeerConnection → ℕ → Type 0
Failed c n =
    ((c.state ≡ timed_out) ⊎ (c.state ≡ disconnected))
    × (c.was_connected ≡ false)
    × (c.retries_left ≡ n)

abbrev Done : PeerConnection → Type 0
Done c = (c.state ≡ connected) × (c.was_connected ≡ true) × (c.retries_left ≡ max_retries)

fails :
    (ec : Failure) (c : PeerConnection)
    → c.was_connected ≡ false
    → Failed (handle_failure ec c) c.retries_left
unfolding handle_failure
fails timeout c h = (inl refl, h, refl)
fails other c h = (inr refl, h, refl)

abbrev Outcome : List ℕ → Attempt → ℕ → PeerConnection → Type 0
Outcome h net n c = (Accepted h net × Done c × (c.count ≡ 0)) ⊎ ((¬ Accepted h net) × Failed c n)

checked :
    (h message : List ℕ) (net : Attempt) (c : PeerConnection) (answer : Option (List ℕ))
    → net.established ≡ none
    → net.sent ≡ none
    → net.received ≡ inl message
    → parse_handshake_message message ≡ answer
    → c.was_connected ≡ false
    → c.count ≡ 0
    → Outcome h net c.retries_left (check_handshake h c answer)
unfolding check_handshake
checked h message net c none e s r p w z =
    inr (λ (a1, a2, (m, received, parsed)). cc, fails other c w)
checked h message net c (some hash) e s r p w z = elim (Bool-cases (bytes_equal hash h)) [
  | inl same ↦ rw same (
      inl (
        (e, s, (message, r, p ∙ ap some ((bytes_equal_iff hash h).0 same))),
        (refl, refl, refl),
        z,
      ))
  | inr different ↦ rw different (
      inr (
        λ (a1, a2, (m, received, parsed)).
            let equal : hash ≡ h = cc in let yes = (bytes_equal_iff hash h).1 equal in cc,
        fails other c w,
      ))
]

received :
    (h : List ℕ) (net : Attempt) (c : PeerConnection) (answer : List ℕ ⊎ Failure)
    → net.established ≡ none
    → net.sent ≡ none
    → net.received ≡ answer
    → c.was_connected ≡ false
    → c.count ≡ 0
    → Outcome h net c.retries_left (receive_handshake h c answer)
unfolding receive_handshake
received h net c (inl message) e s r w z =
    checked h message net c (parse_handshake_message message) e s r refl w z
received h net c (inr ec) e s r w z = inr (λ (a1, a2, (m, got, parsed)). cc, fails ec c w)

sent :
    (h : List ℕ) (net : Attempt) (c : PeerConnection) (out : Option Failure)
    → net.established ≡ none
    → net.sent ≡ out
    → c.was_connected ≡ false
    → c.count ≡ 0
    → Outcome h net c.retries_left (send_handshake h c out net.received)
unfolding send_handshake
sent h net c none e s w z = received h net c net.received e s refl w z
sent h net c (some ec) e s w z = inr (λ (a1, a2, a3). cc, fails ec c w)

established :
    (h : List ℕ) (net : Attempt) (c : PeerConnection) (reached : Option Failure)
    → net.established ≡ reached
    → c.was_connected ≡ false
    → c.count ≡ 0
    → Outcome h net c.retries_left (establish h c net reached)
unfolding establish
established h net c none e w z = sent h net c net.sent e refl w z
established h net c (some ec) e w z = inr (λ (a1, a2, a3). cc, fails ec c w)

-- A connection without retries is left alone. Any other attempt costs one retry; it ends connected,
-- with all retries back and nothing pending, exactly when the network connects, the handshake goes
-- out and the answer parses to the info hash; in every other case it ends timed out or disconnected,
-- one retry poorer.
pub connect_cases :
    (h : List ℕ) (net : Attempt) (c : PeerConnection)
    → ((c.retries_left ≡ 0) × (connect h net c ≡ c))
      ⊎ ((0 < c.retries_left)
          × ((Accepted h net
                × ((connect h net c).state ≡ connected)
                × ((connect h net c).was_connected ≡ true)
                × ((connect h net c).retries_left ≡ max_retries)
                × ((connect h net c).count ≡ 0))
              ⊎ ((¬ Accepted h net)
                  × (((connect h net c).state ≡ timed_out)
                      ⊎ ((connect h net c).state ≡ disconnected))
                  × ((connect h net c).was_connected ≡ false)
                  × ((connect h net c).retries_left ≡ c.retries_left - 1))))
unfolding connect reset_state
connect_cases h net c = elim (Bool-cases (c.retries_left == 0)) [
  | inl none_ ↦ inl (ground arith, rw none_ refl)
  | inr some_ ↦ rw some_ (
      inr (
        ground arith,
        flat (establish h tried net net.established)
            (established h net tried net.established refl refl refl),
      ))
]
  where
    tried : PeerConnection
    tried = record (reset_state (record c { retries_left = c.retries_left - 1 })) {
      state = connecting;
    }

    flat :
        (d : PeerConnection)
        → Outcome h net (c.retries_left - 1) d
        → (Accepted h net
            × (d.state ≡ connected)
            × (d.was_connected ≡ true)
            × (d.retries_left ≡ max_retries)
            × (d.count ≡ 0))
          ⊎ ((¬ Accepted h net)
              × ((d.state ≡ timed_out) ⊎ (d.state ≡ disconnected))
              × (d.was_connected ≡ false)
              × (d.retries_left ≡ c.retries_left - 1))
    flat d (inl (a, (x, y, z), w)) = inl (a, x, y, z, w)
    flat d (inr (a, (x, y, z))) = inr (a, x, y, z)
