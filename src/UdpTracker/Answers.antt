-- ===== src/UdpTracker/Answers.antt =====
-- Which announce answer is taken: one with the action and the transaction id of the request, and the
-- peers are those that stand in it.
use cpp_torrent.Base.{
  ℕ, zero, suc, ◌≤◌, ◌≡◌, refl, sym, ap, subst, ◌∙◌, Bool, true, not, ◌||◌, Option, none, some,
  List, [], ◌∷◌, ◌++◌, arith, length, length-take, length-drop, take, drop, take-append, splice,
  sub_size, ltb, ◌==◌, if◌then◌else◌, Bool-cases, inl, inr,
}
use cpp_torrent.Net.{Endian, get, write_all}
use cpp_torrent.UdpTracker.{
  UdpTracker, PeerInfo, World, Expected, Error, value, unexpected, protocol_error, announce_size,
  extract_peers, check_announce, announce_answer, after_announce, extracted, connected,
  announce_fields, send_connect_request, send_announce_request, retrieve_peers,
}
use cpp_torrent.UdpTracker.Exchange.{answered}

take-front : (n : ℕ) (xs ys : List ℕ) → n ≤ length xs → take n (xs ++ ys) ≡ take n xs
take-front zero [] ys h = refl
take-front zero (x ∷ xs) ys h = refl
take-front (suc n) [] ys h = absurd (omega arith)
take-front (suc n) (x ∷ xs) ys h = ap (λ l. x ∷ l) (take-front n xs ys (omega arith))

drop-front : (n : ℕ) (xs ys : List ℕ) → n ≤ length xs → drop n (xs ++ ys) ≡ drop n xs ++ ys
drop-front zero xs ys h = refl
drop-front (suc n) [] ys h = absurd (omega arith)
drop-front (suc n) (x ∷ xs) ys h = drop-front n xs ys (omega arith)

module _ (e : Endian) where
  -- What a datagram must be that is taken as the answer to transaction `t` with the peers `ps`.
  abbrev pub Answers : ℕ → List ℕ → List PeerInfo → Type 0
  Answers t bytes ps =
      (20 ≤ length bytes)
      × (get e 4 (take 4 bytes) ≡ 1)
      × (get e 4 (take 4 (drop 4 bytes)) ≡ t)
      × (extract_peers e (drop 20 bytes) ≡ value ps)

  -- The test on the action and the transaction id.
  passed :
      (a b t : ℕ) (r : Expected (List PeerInfo)) (ps : List PeerInfo)
      → (if not (a == 1) || not (b == t) then unexpected protocol_error else r) ≡ value ps
      → (a ≡ 1) × (b ≡ t) × (r ≡ value ps)
  passed a b t r ps h = elim (Bool-cases (not (a == 1) || not (b == t))) [
    | inl bad ↦
        let clash : unexpected protocol_error ≡ value ps =
          subst (λ c. (if c then unexpected protocol_error else r) ≡ value ps) bad h in
        cc
    | inr good ↦ (
      ground arith,
      ground arith,
      subst (λ c. (if c then unexpected protocol_error else r) ≡ value ps) good h,
    )
  ]

  check_announce-Answers :
      (tracker : UdpTracker) (t : ℕ) (request bytes : List ℕ) (ps : List PeerInfo)
      → 20 ≤ length bytes
      → length bytes ≤ announce_size
      → (check_announce e tracker t (splice request 0 bytes) (length bytes)).1 ≡ value ps
      → Answers t bytes ps
  unfolding check_announce
  check_announce-Answers tracker t request bytes ps long short h =
      let rest = drop (length bytes) request in
      let whole = answered e request bytes in
      let action : take 4 (splice request 0 bytes) ≡ take 4 bytes =
        ap (take 4) whole ∙ take-front 4 bytes rest (omega arith) in
      let id : take 4 (drop 4 (splice request 0 bytes)) ≡ take 4 (drop 4 bytes) =
        ap (λ l. take 4 (drop 4 l)) whole
        ∙ (ap (take 4) (drop-front 4 bytes rest (omega arith))
            ∙ take-front 4 (drop 4 bytes) rest (omega (arith, length-drop 4 bytes))) in
      let size : length (drop 20 bytes) ≡ sub_size (length bytes) 20 =
        omega (arith, length-drop 20 bytes) in
      let peers : take (sub_size (length bytes) 20) (drop 20 (splice request 0 bytes))
          ≡ drop 20 bytes =
        ap (λ l. take (sub_size (length bytes) 20) (drop 20 l)) whole
        ∙ (ap (take (sub_size (length bytes) 20)) (drop-front 20 bytes rest (omega arith))
            ∙ take-append (drop 20 bytes) rest (sub_size (length bytes) 20) size) in
      let (a, b, r) =
        passed (get e 4 (take 4 (splice request 0 bytes)))
          (get e 4 (take 4 (drop 4 (splice request 0 bytes)))) t
          (extract_peers e (take (sub_size (length bytes) 20) (drop 20 (splice request 0 bytes))))
          ps h in
      (
        long,
        sym (ap (get e 4) action) ∙ a,
        sym (ap (get e 4) id) ∙ b,
        sym (ap (extract_peers e) peers) ∙ r,
      )

  announce_answer-Answers :
      (tracker : UdpTracker) (t : ℕ) (request : List ℕ) (received : Expected (List ℕ))
      (ps : List PeerInfo)
      → (announce_answer e tracker t request received).1 ≡ value ps
      → (datagram : List ℕ) × (received ≡ value datagram)
        × Answers t (take announce_size datagram) ps
  unfolding announce_answer
  announce_answer-Answers tracker t request (unexpected err) ps h = cc
  announce_answer-Answers tracker t request (value datagram) ps h =
      let bytes = take announce_size datagram in
      elim (Bool-cases (ltb (length bytes) 20)) [
        | inl few ↦
            let clash : unexpected protocol_error ≡ value ps =
              subst
                (λ c.
                  (if c
                    then (tracker, unexpected protocol_error)
                    else check_announce e tracker t (splice request 0 bytes) (length bytes)).1
                  ≡ value ps)
                few h in
            cc
        | inr many ↦ (
          datagram,
          refl,
          check_announce-Answers tracker t request bytes ps (ground arith)
              (omega (arith, length-take announce_size datagram))
              (subst
                (λ c.
                  (if c
                    then (tracker, unexpected protocol_error)
                    else check_announce e tracker t (splice request 0 bytes) (length bytes)).1
                  ≡ value ps)
                many h),
        )
      ]

  after_announce-Answers :
      (tracker : UdpTracker) (t : ℕ) (request : List ℕ) (sent : Option Error)
      (received : Expected (List ℕ)) (ps : List PeerInfo)
      → (after_announce e tracker t request sent received).1 ≡ value ps
      → (sent ≡ none)
        × ((datagram : List ℕ) × (received ≡ value datagram)
            × Answers t (take announce_size datagram) ps)
  unfolding after_announce
  after_announce-Answers tracker t request (some err) received ps h = cc
  after_announce-Answers tracker t request none received ps h =
      (refl, announce_answer-Answers tracker t request received ps h)

  extracted-value :
      (r : Expected (List PeerInfo)) (ps : List PeerInfo) → extracted e r ≡ some ps → r ≡ value ps
  unfolding extracted
  extracted-value (value qs) ps h = cc
  extracted-value (unexpected err) ps h = cc

  -- What a call needs to give the peers `ps`.
  abbrev pub Answered : World e → List PeerInfo → Type 0
  Answered world ps =
      (world.announcing.sent ≡ none)
      × ((datagram : List ℕ) × (world.announcing.received ≡ value datagram)
          × Answers world.announce_id (take announce_size datagram) ps)

  connected-Answered :
      (tracker : UdpTracker) (world : World e) (r : Expected ℕ) (ps : List PeerInfo)
      → (connected e tracker world r).1 ≡ some ps
      → ((c : ℕ) × (r ≡ value c)) × Answered world ps
  unfolding connected send_announce_request
  connected-Answered tracker world (unexpected err) ps h = cc
  connected-Answered tracker world (value c) ps h =
      let request =
        write_all world.announce_buffer (announce_fields e tracker c world.announce_id) in
      let peers =
        after_announce e tracker world.announce_id request world.announcing.sent
          world.announcing.received in
      (
        (c, refl),
        after_announce-Answers tracker world.announce_id request world.announcing.sent
            world.announcing.received ps (extracted-value peers.1 ps h),
      )

  -- A call gives peers only if the host resolves, the connect request got a connection id, and the
  -- announce request was sent and answered by a datagram that, as far as it fits in the buffer, has at
  -- least 20 bytes, the action 1 and the transaction id of the request; the peers are those that
  -- stand behind its 20th byte, whatever the static buffers held.
  pub retrieve_peers-Answers :
      (tracker : UdpTracker) (downloaded uploaded : ℕ) (world : World e) (ps : List PeerInfo)
      → (retrieve_peers e tracker downloaded uploaded world).1 ≡ some ps
      → (world.resolved ≡ true)
        × ((c : ℕ) × ((send_connect_request e world.connect_buffer world.connect_id
                world.connecting).1
              ≡ value c))
        × (world.announcing.sent ≡ none)
        × ((datagram : List ℕ) × (world.announcing.received ≡ value datagram)
            × Answers world.announce_id (take announce_size datagram) ps)
  unfolding retrieve_peers
  retrieve_peers-Answers tracker downloaded uploaded world ps h =
      let asking = record tracker { downloaded = downloaded; uploaded = uploaded } in
      let r = (send_connect_request e world.connect_buffer world.connect_id world.connecting).1 in
      let taken =
        λ (b : Bool). (if b then (asking, none) else connected e asking world r).1 ≡ some ps in
      elim (Bool-cases (not world.resolved)) [
        | inl unknown ↦ let clash : none ≡ some ps = subst taken unknown h in cc
        | inr known ↦
            let (c, (sent, answer)) = connected-Answered asking world r ps (subst taken known h) in
            (ground arith, c, sent, answer)
      ]
