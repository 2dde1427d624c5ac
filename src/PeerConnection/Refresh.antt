-- ===== src/PeerConnection/Refresh.antt =====
-- Going through the pending requests: `refresh_pending_requests`.
use cpp_torrent.Base.{
  ℕ, zero, suc, ◌+◌, ◌-◌, ◌≤◌, ◌<◌, ◌≡◌, ◌≢◌, refl, sym, ap, ◌∙◌, true, List, arith, ltb, leb, ◌==◌,
  if◌then◌else◌, length, length-set, get_or, get_or-set_ne, get_or-set_self, ==_iff, set,
  Bool-cases, inl, inr,
}
use cpp_torrent.Net.{Endian}
use cpp_torrent.PeerConnection.{
  PeerConnection, Pending, no_request, request_timeout, swap, remove_pending,
}
use cpp_torrent.PeerConnection.Requests.{refresh_from, refresh_pending_requests}
use cpp_torrent.PeerConnection.Pending.{Ready, remove_pending-Ready}

-- The number of requests among the `n` from index `i` that have timed out.
unfoldable pub stale_from : ℕ → List Pending → ℕ → ℕ → ℕ
stale_from now blocks i zero = 0
stale_from now blocks i (suc n) =
    (if leb now ((get_or blocks i no_request).1 + request_timeout) then 0 else 1)
    + stale_from now blocks (suc i) n

stale_from-snoc :
    (now : ℕ) (blocks : List Pending) (i n : ℕ)
    → stale_from now blocks i (suc n)
      ≡ stale_from now blocks i n
        + (if leb now ((get_or blocks (i + n) no_request).1 + request_timeout) then 0 else 1)
unfolding stale_from
stale_from-snoc now blocks i zero = let e : i + 0 ≡ i = omega arith in rw e (omega arith)
stale_from-snoc now blocks i (suc n) =
    let e : suc i + n ≡ i + suc n = omega arith in
    omega (arith, rw e at (stale_from-snoc now blocks (suc i) n))

stale_from-same :
    (now : ℕ) (xs ys : List Pending) (i n : ℕ)
    → ((j : ℕ) → i ≤ j → j < i + n → get_or xs j no_request ≡ get_or ys j no_request)
    → stale_from now xs i n ≡ stale_from now ys i n
unfolding stale_from
stale_from-same now xs ys i zero h = refl
stale_from-same now xs ys i (suc n) h =
    rw
      (
        h i (omega arith) (omega arith),
        stale_from-same now xs ys (suc i) n (λ j a b. h j (omega arith) (omega arith)),
      )
      refl

length-removed :
    (i : ℕ) (c : PeerConnection) → length (remove_pending i c).blocks_info ≡ length c.blocks_info
unfolding remove_pending swap
length-removed i c =
    length-set (set c.blocks_info i (get_or c.blocks_info (c.count - 1) no_request)) (c.count - 1)
      (get_or c.blocks_info i no_request)
    ∙ length-set c.blocks_info i (get_or c.blocks_info (c.count - 1) no_request)

-- Where the last request goes.
at_place :
    (i : ℕ) (c : PeerConnection)
    → i < c.count - 1
    → c.count ≤ length c.blocks_info
    → get_or (remove_pending i c).blocks_info i no_request
      ≡ get_or c.blocks_info (c.count - 1) no_request
unfolding remove_pending swap
at_place i c h fits =
    get_or-set_ne (set c.blocks_info i (get_or c.blocks_info (c.count - 1) no_request))
      (c.count - 1) i (get_or c.blocks_info i no_request) no_request (ground arith)
    ∙ get_or-set_self c.blocks_info i (get_or c.blocks_info (c.count - 1) no_request) no_request
        (omega arith)

elsewhere :
    (i j : ℕ) (c : PeerConnection)
    → j ≢ i
    → j ≢ c.count - 1
    → get_or (remove_pending i c).blocks_info j no_request ≡ get_or c.blocks_info j no_request
unfolding remove_pending swap
elsewhere i j c h k =
    get_or-set_ne (set c.blocks_info i (get_or c.blocks_info (c.count - 1) no_request))
      (c.count - 1) j (get_or c.blocks_info i no_request) no_request (λ e. k (sym e))
    ∙ get_or-set_ne c.blocks_info i j (get_or c.blocks_info (c.count - 1) no_request) no_request
        (λ e. h (sym e))

module _ (e : Endian) (now : ℕ) where
  -- Going through the requests keeps the connection ready, and adds none.
  refresh_from-Ready :
      (fuel i : ℕ) (c : PeerConnection)
      → Ready c
      → Ready (refresh_from e now fuel i c)
        × ((refresh_from e now fuel i c).count ≤ c.count)
        × ((refresh_from e now fuel i c).bitfield ≡ c.bitfield)
  unfolding refresh_from remove_pending
  refresh_from-Ready zero i c r = (r, omega arith, refl)
  refresh_from-Ready (suc fuel) i c r = elim (Bool-cases (ltb i c.count)) [
    | inr over ↦ rw over (r, omega arith, refl)
    | inl inside ↦
        elim (Bool-cases (leb now ((get_or c.blocks_info i no_request).1 + request_timeout))) [
          | inl fresh ↦
              let (a, b, d) =
                refresh_from-Ready fuel i (remove_pending i c) (remove_pending-Ready i c r) in
              rw (inside, fresh) (a, omega arith, d)
          | inr old ↦
              let (a, b, d) = refresh_from-Ready fuel (i + 1) c r in rw (inside, old) (a, b, d)
        ]
  ]

  -- A removed request that has not timed out does not change the number of those that have.
  removed_stale :
      (i n : ℕ) (c : PeerConnection)
      → c.count - 1 ≡ i + n
      → leb now ((get_or c.blocks_info i no_request).1 + request_timeout) ≡ true
      → c.count ≤ length c.blocks_info
      → stale_from now (remove_pending i c).blocks_info i (c.count - 1 - i)
        ≡ stale_from now c.blocks_info i (suc n)
  unfolding stale_from
  removed_stale i zero c last fresh fits =
      let none_ : c.count - 1 - i ≡ 0 = omega arith in rw (none_, fresh) refl
  removed_stale i (suc m) c last fresh fits =
      let some_ : c.count - 1 - i ≡ suc m = omega arith in
      let moved = at_place i c (omega arith) fits in
      let same =
        stale_from-same now (remove_pending i c).blocks_info c.blocks_info (suc i) m
          (λ j a b. elsewhere i j c (ground arith) (ground (arith, last))) in
      let end : suc i + m ≡ c.count - 1 = omega arith in
      let snoc = rw end at (stale_from-snoc now c.blocks_info (suc i) m) in
      rw (some_, moved, fresh) (omega (arith, same, snoc))

  keeps_before :
      (i j : ℕ) (c : PeerConnection)
      → i < c.count
      → j < i
      → get_or (remove_pending i c).blocks_info j no_request ≡ get_or c.blocks_info j no_request
  unfolding remove_pending swap
  keeps_before i j c h l =
      let last = c.count - 1 in
      get_or-set_ne (set c.blocks_info i (get_or c.blocks_info last no_request)) last j
        (get_or c.blocks_info i no_request) no_request (ground arith)
      ∙ get_or-set_ne c.blocks_info i j (get_or c.blocks_info last no_request) no_request
          (ground arith)

  stale_left :
      (fuel i : ℕ) (c : PeerConnection)
      → c.count ≤ fuel + i
      → ((j : ℕ) → j < i → (get_or c.blocks_info j no_request).1 + request_timeout < now)
      → (j : ℕ) → j < (refresh_from e now fuel i c).count
      → (get_or (refresh_from e now fuel i c).blocks_info j no_request).1 + request_timeout < now
  unfolding refresh_from
  stale_left zero i c enough before = λ j h. before j (omega arith)
  stale_left (suc fuel) i c enough before = elim (Bool-cases (ltb i c.count)) [
    | inr over ↦ rw over (λ j h. before j (ground arith))
    | inl inside ↦
        elim (Bool-cases (leb now ((get_or c.blocks_info i no_request).1 + request_timeout))) [
          | inl fresh ↦
              rw (inside, fresh)
                (stale_left fuel i (remove_pending i c) (unfold remove_pending in omega arith)
                  (λ j l. rw (keeps_before i j c (ground arith) l) (before j l)))
          | inr old ↦
              rw (inside, old)
                (stale_left fuel (i + 1) c (omega arith) (λ j l. elim (Bool-cases (j == i)) [
                  | inl here ↦ rw ((==_iff j i).0 here) (ground arith)
                  | inr there ↦ before j (ground arith)
                ]))
        ]
  ]

  count_left :
      (fuel i : ℕ) (c : PeerConnection)
      → i ≤ c.count
      → c.count ≤ fuel + i
      → c.count ≤ length c.blocks_info
      → (refresh_from e now fuel i c).count ≡ i + stale_from now c.blocks_info i (c.count - i)
  unfolding refresh_from stale_from remove_pending
  count_left zero i c low enough fits =
      let none_ : c.count - i ≡ 0 = omega arith in rw none_ (omega arith)
  count_left (suc fuel) i c low enough fits = elim (Bool-cases (ltb i c.count)) [
    | inr over ↦ let none_ : c.count - i ≡ 0 = ground arith in rw (over, none_) (ground arith)
    | inl inside ↦
        let n = c.count - 1 - i in
        let some_ : c.count - i ≡ suc n = ground arith in
        let last : c.count - 1 ≡ i + n = ground arith in
        elim (Bool-cases (leb now ((get_or c.blocks_info i no_request).1 + request_timeout))) [
          | inl fresh ↦
              rw (inside, fresh)
                (count_left fuel i (remove_pending i c) (ground arith) (ground arith)
                    (ground (arith, length-removed i c))
                  ∙ ap (λ x. i + x)
                      (removed_stale i n c last fresh (ground arith)
                        ∙ ap (stale_from now c.blocks_info i) (sym some_)))
          | inr old ↦
              let next : c.count - (i + 1) ≡ n = ground arith in
              let rest = count_left fuel (i + 1) c (ground arith) (omega arith) fits in
              rw (inside, old) (rest ∙ ground (arith, old, some_, next))
        ]
  ]

  -- For a connection with ten places and at most ten pending requests: of the pending requests
  -- exactly as many are left as have timed out, and each that is left is one that has timed out.
  -- The bitfield stays, and so do the ten places.
  pub refresh_pending_requests-stale :
      (c : PeerConnection)
      → Ready c
      → Ready (refresh_pending_requests e now c)
        × ((refresh_pending_requests e now c).bitfield ≡ c.bitfield)
        × ((refresh_pending_requests e now c).count ≡ stale_from now c.blocks_info 0 c.count)
        × ((j : ℕ)
            → j < (refresh_pending_requests e now c).count
            → (get_or (refresh_pending_requests e now c).blocks_info j no_request).1
                + request_timeout
              < now)
  unfolding refresh_pending_requests
  refresh_pending_requests-stale c r =
      let (a, b, d) = refresh_from-Ready c.count 0 c r in
      let all : c.count - 0 ≡ c.count = omega arith in
      (
        a,
        d,
        count_left c.count 0 c (omega arith) (omega arith) (omega (arith, r.places, r.taken))
            ∙ (rw all (omega arith)),
        stale_left c.count 0 c (omega arith) (λ j l. absurd (omega arith)),
      )
