-- ===== src/PeerManager/Count.antt =====
-- How many connected peers the map holds, and what a round of the clean-up does to that.
use cpp_torrent.Base.{
  ℕ, ◌+◌, ◌-◌, ◌%◌, ◌<◌, ◌≡◌, refl, ap, ◌∙◌, inl, inr, Bool, true, false, ◌&&◌, not, some, List, [],
  ◌∷◌, ◌++◌, arith, if◌then◌else◌, Bool-cases, u32_mod, some_injective,
}
use cpp_torrent.UdpTracker.{PeerInfo}
use cpp_torrent.PeerConnection
use cpp_torrent.PeerConnection.{
  PeerConnection, PeerState, uninitiated, connecting, connected, running, disconnected, timed_out,
  Attempt, connect, disconnect,
}
use cpp_torrent.PeerManager.{
  Entry, Entries, Cleaned, peer_equal, find, is_there, set_entry, add_from, keep, retry, less,
  clean_entry, clean_from,
}

-- A connection that stood, or stands, and is not being made again.
abbrev pub weight : Entry → ℕ
weight (c, reconnecting) = if c.was_connected && not reconnecting then 1 else 0

unfoldable pub counted : Entries → ℕ
counted [] = 0
counted ((p, x) ∷ es) = weight x + counted es

pub counted-append : (xs ys : Entries) → counted (xs ++ ys) ≡ counted xs + counted ys
unfolding counted
counted-append [] ys = omega arith
counted-append ((p, x) ∷ xs) ys = omega (arith, counted-append xs ys)

pub counted-add_from : (ps : List PeerInfo) (es : Entries) → counted (add_from ps es) ≡ counted es
unfolding add_from counted PeerConnection.init
counted-add_from [] es = refl
counted-add_from (p ∷ ps) es =
    counted-add_from ps
      (if is_there (find p es) then es else es ++ ((p, (PeerConnection.init, false)) ∷ []))
    ∙ fresh (is_there (find p es))
  where
    fresh :
        (b : Bool)
        → counted (if b then es else es ++ ((p, (PeerConnection.init, false)) ∷ [])) ≡ counted es
    fresh true = refl
    fresh false = omega (arith, counted-append es ((p, (PeerConnection.init, false)) ∷ []))

pub counted-set_entry :
    (p : PeerInfo) (x y : Entry) (es : Entries)
    → find p es ≡ some x
    → counted (set_entry p y es) + weight x ≡ counted es + weight y
unfolding find set_entry counted
counted-set_entry p x y [] h = cc
counted-set_entry p x y ((q, z) ∷ es) h = elim (Bool-cases (peer_equal q p)) [
  | inl same ↦
      let e : z ≡ x = some_injective (rw same at h) in
      let we : weight z ≡ weight x = ap weight e in rw same (omega arith)
  | inr other ↦ let later = counted-set_entry p x y es (rw other at h) in rw other (omega arith)
]

-- The count after a round goes down by what the round takes out of the map.
abbrev pub Balanced : ℕ → ℕ → Cleaned → Type 0
Balanced k before r =
    ((r.count + before) % u32_mod ≡ (k + counted r.kept) % u32_mod) × (r.count < u32_mod)

pub weight_reconnecting : (c : PeerConnection) → weight (c, true) ≡ 0
weight_reconnecting c = elim (Bool-cases c.was_connected) [ inl e ↦ rw e refl | inr e ↦ rw e refl ]

less-lt : (c : PeerConnection) (k : ℕ) → k < u32_mod → less c k < u32_mod
less-lt c k h = elim (Bool-cases c.was_connected) [ inl e ↦ rw e (omega arith) | inr e ↦ rw e h ]

-- An entry that leaves, or is to be made again, takes its weight with it.
leaves :
    (c : PeerConnection) (k before : ℕ) (r : Cleaned)
    → k < u32_mod
    → Balanced (less c k) before r
    → Balanced k (weight (c, false) + before) r
leaves c k before r h (e, l) = elim (Bool-cases c.was_connected) [
  | inl was ↦
      let one : weight (c, false) ≡ 1 = rw was refl in
      let down : less c k ≡ (k + u32_mod - 1) % u32_mod = rw was refl in (omega arith, l)
  | inr never ↦
      let none_ : weight (c, false) ≡ 0 = rw never refl in
      let same : less c k ≡ k = rw never refl in (omega arith, l)
]

stays :
    (x : PeerInfo × Entry) (k before : ℕ) (r : Cleaned)
    → Balanced k before r
    → Balanced k (weight x.1 + before) (keep x r)
unfolding counted
stays x k before r (e, l) = (omega arith, l)

retries :
    (p : PeerInfo) (c : PeerConnection) (k before : ℕ) (r : Cleaned)
    → Balanced k before r
    → Balanced k before (retry p c r)
unfolding counted
retries p c k before r (e, l) = let none_ = weight_reconnecting c in (omega arith, l)

pub clean_from-Balanced :
    (es : Entries) (k : ℕ) → k < u32_mod → Balanced k (counted es) (clean_from es k)
unfolding clean_from counted
clean_from-Balanced [] k h = (refl, h)
clean_from-Balanced ((p, (c, true)) ∷ es) k h =
    stays (p, (c, true)) k (counted es) (clean_from es k) (clean_from-Balanced es k h)
clean_from-Balanced ((p, (c, false)) ∷ es) k h =
    by_state c.state (λ n l. clean_from-Balanced es n l)
  where
    by_state :
        (s : PeerState)
        → ((n : ℕ) → n < u32_mod → Balanced n (counted es) (clean_from es n))
        → Balanced k (weight (c, false) + counted es) (clean_entry s p c k (λ n. clean_from es n))
    by_state disconnected go =
        leaves c k (counted es) (clean_from es (less c k)) h (go (less c k) (less-lt c k h))
    by_state timed_out go =
        let r = clean_from es (less c k) in
        leaves c k (counted es) (retry p c r) h
          (retries p c (less c k) (counted es) r (go (less c k) (less-lt c k h)))
    by_state uninitiated go = stays (p, (c, false)) k (counted es) (clean_from es k) (go k h)
    by_state connecting go = stays (p, (c, false)) k (counted es) (clean_from es k) (go k h)
    by_state connected go = stays (p, (c, false)) k (counted es) (clean_from es k) (go k h)
    by_state running go = stays (p, (c, false)) k (counted es) (clean_from es k) (go k h)
