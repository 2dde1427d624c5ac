-- ===== src/Transfer/Deadline.antt =====
-- A transfer under a deadline ends, and not for the deadline before it is over.
use cpp_torrent.Base.{
  ℕ, ◌+◌, ◌≤◌, ◌≡◌, refl, Bool, ◌&&◌, ◌||◌, ◌⊎◌, inl, inr, Option, none, some, List, [], ◌∷◌, ltb,
  ◌==◌, arith, In, Bool-cases, Option-cases, none-ne-some, some_injective,
}
use cpp_torrent.Transfer.{
  timed_out, Operation, Ended, store, watchdog, send_data, race, send_data_with_timeout,
}

watchdog-late :
    (deadline now : ℕ) (wakes : List ℕ) {w : ℕ}
    → watchdog deadline now wakes ≡ some w
    → deadline ≤ w
unfolding watchdog
watchdog-late deadline now [] h = elim (Bool-cases (ltb now deadline)) [
  | inl early ↦ absurd (none-ne-some (rw early at h))
  | inr over ↦ let same = some_injective (rw over at h) in ground arith
]
watchdog-late deadline now (wake ∷ wakes) {w} h = elim (Bool-cases (ltb now deadline)) [
  | inl early ↦ watchdog-late deadline wake wakes {w = w} (rw early at h)
  | inr over ↦ let same = some_injective (rw over at h) in ground arith
]

watchdog-over :
    (deadline now : ℕ) (wakes : List ℕ) → deadline ≤ now → watchdog deadline now wakes ≡ some now
unfolding watchdog
watchdog-over deadline now [] l = ground arith
watchdog-over deadline now (wake ∷ wakes) l = ground arith

watchdog-ends :
    (deadline now wake : ℕ) (wakes : List ℕ)
    → In wake wakes
    → deadline ≤ wake
    → (w : ℕ) × (watchdog deadline now wakes ≡ some w)
unfolding watchdog
watchdog-ends deadline now wake [] i l = absurd i
watchdog-ends deadline now wake (x ∷ wakes) (inl here) l = elim (Bool-cases (ltb now deadline)) [
  | inl early ↦ rw early (x, watchdog-over deadline x wakes (omega (arith, here)))
  | inr over ↦ rw over (now, refl)
]
watchdog-ends deadline now wake (x ∷ wakes) (inr there) l = elim (Bool-cases (ltb now deadline)) [
  | inl early ↦ rw early (watchdog-ends deadline x wake wakes there l)
  | inr over ↦ rw over (now, refl)
]

-- A transfer that ends by itself.
abbrev pub Own : Operation → Option ℕ → Ended → Type 0
Own op slot r =
    (op.ends_at ≡ some r.at) × (r.error ≡ op.code) × (r.bytes_sent ≡ store op.bytes slot)

-- A transfer that is cancelled, once the deadline is over and not after its own end.
abbrev pub Late : Operation → ℕ → Option ℕ → Ended → Type 0
Late op deadline slot r =
    (deadline ≤ r.at)
    × (r.error ≡ some timed_out)
    × (r.bytes_sent ≡ store (op.moved r.at) slot)
    × ((op.ends_at ≡ none) ⊎ ((a : ℕ) × (op.ends_at ≡ some a) × (r.at ≤ a)))

-- If one of the timer's waits comes back when the deadline is over, a transfer with a timeout ends: by
-- itself, with its own error code and number of bytes, or as timed out, then not before the
-- deadline, not after it would have ended by itself, and with the number of bytes that it had moved.
-- So a transfer that ends before the deadline keeps its own error code, whatever that is.
pub send_data_with_timeout-ends :
    (op : Operation) (tie : Bool) (now timeout wake : ℕ) (wakes : List ℕ) (slot : Option ℕ)
    → In wake wakes
    → now + timeout ≤ wake
    → (r : Ended) × (send_data_with_timeout op tie now timeout wakes slot ≡ some r)
      × (Own op slot r ⊎ Late op (now + timeout) slot r)
unfolding send_data_with_timeout race send_data
send_data_with_timeout-ends op tie now timeout wake wakes slot i l =
    let (w, e) = watchdog-ends (now + timeout) now wake wakes i l in
    let late = watchdog-late (now + timeout) now wakes e in
    elim (Option-cases op.ends_at) [
      | inl never ↦ (
        record { at = w; error = some timed_out; bytes_sent = store (op.moved w) slot },
        rw (never, e) refl,
        inr (late, refl, refl, inl never),
      )
      | inr (a, ends) ↦ elim (Bool-cases (ltb a w || (a == w && tie))) [
        | inl first ↦ (
          record { at = a; error = op.code; bytes_sent = store op.bytes slot },
          rw (ends, e, first) refl,
          inl (ends, refl, refl),
        )
        | inr second ↦ (
          record { at = w; error = some timed_out; bytes_sent = store (op.moved w) slot },
          rw (ends, e, second) refl,
          inr (late, refl, refl, inr (a, ends, ground arith)),
        )
      ]
    ]
