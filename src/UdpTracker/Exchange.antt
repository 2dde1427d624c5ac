-- ===== src/UdpTracker/Exchange.antt =====
-- Both exchanges together: what an honest tracker answers is what the caller gets.
use cpp_torrent.Base.{
  ℕ, zero, suc, ◌+◌, ◌*◌, ◌≤◌, ◌<◌, ◌≡◌, refl, ap, ◌∙◌, true, false, none, some, List, [], ◌∷◌,
  ◌++◌, arith, length, length-append, take, drop, take-append, drop-append, append_assoc, splice,
  ltb, ==_refl, sub_size, size_mod, u32_mod, All,
}
use cpp_torrent.Net.{Endian, get, write_all}
use cpp_torrent.Net.Order.{be_bytes, limit}
use cpp_torrent.Net.Layout.{drop-add}
use cpp_torrent.UdpTracker.{
  UdpTracker, PeerInfo, value, connect_size, announce_size, check_connect, check_announce,
  extracted, send_connect_request, send_announce_request, retrieve_peers, connect_fields,
  announce_fields,
}
use cpp_torrent.UdpTracker.Packets.{length-be_bytes}
use cpp_torrent.UdpTracker.Peers.{
  IsPeer, compact, length-compact, extract_peers-compact, get-be_bytes,
}

-- The answers of the protocol.
abbrev pub connect_reply : ℕ → ℕ → List ℕ
connect_reply t c = be_bytes 4 0 ++ (be_bytes 4 t ++ be_bytes 8 c)

abbrev pub announce_reply : ℕ → ℕ → ℕ → ℕ → List PeerInfo → List ℕ
announce_reply t interval leechers seeders ps =
    be_bytes 4 1
    ++ (be_bytes 4 t
        ++ (be_bytes 4 interval ++ (be_bytes 4 leechers ++ (be_bytes 4 seeders ++ compact ps))))

-- The field behind `o` bytes.
skip : (xs ys : List ℕ) (m n : ℕ) → length xs ≡ m → drop (m + n) (xs ++ ys) ≡ drop n ys
skip xs ys m n h = drop-add m n (xs ++ ys) ∙ ap (drop n) (drop-append xs ys m h)

module _ (e : Endian) where
  -- A field of `k` bytes at the front of what follows.
  front : (k v : ℕ) (rest : List ℕ) → v < limit k → get e k (take k (be_bytes k v ++ rest)) ≡ v
  front k v rest h =
      ap (get e k) (take-append (be_bytes k v) rest k (length-be_bytes k v)) ∙ get-be_bytes e k v h

  check_connect-reply :
      (t c : ℕ) (rest : List ℕ)
      → t < u32_mod
      → c < size_mod
      → check_connect e t (connect_reply t c ++ rest) ≡ value c
  unfolding check_connect
  check_connect-reply t c rest ht hc =
      let b0 = be_bytes 4 0 in
      let bt = be_bytes 4 t in
      let bc = be_bytes 8 c in
      let whole : connect_reply t c ++ rest ≡ b0 ++ (bt ++ (bc ++ rest)) =
        append_assoc b0 (bt ++ bc) rest ∙ ap (λ l. b0 ++ l) (append_assoc bt bc rest) in
      rw
        (
          whole,
          front 4 0 (bt ++ (bc ++ rest)) (omega arith),
          drop-append b0 (bt ++ (bc ++ rest)) 4 (length-be_bytes 4 0),
          front 4 t (bc ++ rest) (omega arith),
          ==_refl t,
          skip b0 (bt ++ (bc ++ rest)) 4 4 (length-be_bytes 4 0),
          drop-append bt (bc ++ rest) 4 (length-be_bytes 4 t),
          front 8 c rest (omega arith),
        )
        refl

  check_announce-reply :
      (tracker : UdpTracker) (t interval leechers seeders : ℕ) (ps : List PeerInfo) (rest : List ℕ)
      → t < u32_mod
      → interval < u32_mod
      → All IsPeer ps
      → length ps ≤ 100
      → check_announce e tracker t
          (announce_reply t interval leechers seeders ps ++ rest)
          (20 + 6 * length ps)
        ≡ (record tracker { interval = interval }, value ps)
  unfolding check_announce
  check_announce-reply tracker t interval leechers seeders ps rest ht hi a few =
      let b1 = be_bytes 4 1 in
      let bt = be_bytes 4 t in
      let bi = be_bytes 4 interval in
      let bl = be_bytes 4 leechers in
      let bs = be_bytes 4 seeders in
      let tail = bl ++ (bs ++ (compact ps ++ rest)) in
      let whole : announce_reply t interval leechers seeders ps ++ rest
          ≡ b1 ++ (bt ++ (bi ++ tail)) =
        rw
          (
            append_assoc b1 (bt ++ (bi ++ (bl ++ (bs ++ compact ps)))) rest,
            append_assoc bt (bi ++ (bl ++ (bs ++ compact ps))) rest,
            append_assoc bi (bl ++ (bs ++ compact ps)) rest,
            append_assoc bl (bs ++ compact ps) rest,
            append_assoc bs (compact ps) rest,
          )
          refl in
      let body : drop 20 (b1 ++ (bt ++ (bi ++ tail))) ≡ compact ps ++ rest =
        skip b1 (bt ++ (bi ++ tail)) 4 16 (length-be_bytes 4 1)
        ∙ (skip bt (bi ++ tail) 4 12 (length-be_bytes 4 t)
            ∙ (skip bi tail 4 8 (length-be_bytes 4 interval)
                ∙ (skip bl (bs ++ (compact ps ++ rest)) 4 4 (length-be_bytes 4 leechers)
                    ∙ drop-append bs (compact ps ++ rest) 4 (length-be_bytes 4 seeders)))) in
      let size : sub_size (20 + 6 * length ps) 20 ≡ 6 * length ps = omega arith in
      rw
        (
          whole,
          skip b1 (bt ++ (bi ++ tail)) 4 4 (length-be_bytes 4 1),
          drop-append bt (bi ++ tail) 4 (length-be_bytes 4 t),
          front 4 interval tail (omega arith),
          front 4 1 (bt ++ (bi ++ tail)) (omega arith),
          drop-append b1 (bt ++ (bi ++ tail)) 4 (length-be_bytes 4 1),
          front 4 t (bi ++ tail) (omega arith),
          ==_refl t,
          size,
          body,
          take-append (compact ps) rest (6 * length ps) (length-compact ps a),
          extract_peers-compact e ps a,
        )
        refl

  -- An answer in the buffer stands before the rest of the request.
  pub answered :
      (buffer reply : List ℕ) → splice buffer 0 reply ≡ reply ++ drop (length reply) buffer
  unfolding splice
  answered buffer reply =
      let n : 0 + length reply ≡ length reply = omega arith in ap (λ k. reply ++ drop k buffer) n

  take_all : (n : ℕ) (xs : List ℕ) → length xs ≤ n → take n xs ≡ xs
  take_all zero [] h = refl
  take_all (suc n) [] h = refl
  take_all zero (x ∷ xs) h = absurd (omega arith)
  take_all (suc n) (x ∷ xs) h = ap (λ l. x ∷ l) (take_all n xs (omega arith))

  length-connect_reply : (t c : ℕ) → length (connect_reply t c) ≡ connect_size
  length-connect_reply t c = omega (
    arith,
    length-append (be_bytes 4 0) (be_bytes 4 t ++ be_bytes 8 c),
    length-append (be_bytes 4 t) (be_bytes 8 c),
    length-be_bytes 4 0,
    length-be_bytes 4 t,
    length-be_bytes 8 c,
  )

  length-announce_reply :
      (t interval leechers seeders : ℕ) (ps : List PeerInfo)
      → All IsPeer ps
      → length (announce_reply t interval leechers seeders ps) ≡ 20 + 6 * length ps
  length-announce_reply t interval leechers seeders ps a = omega (
    arith,
    length-append (be_bytes 4 1) (
        be_bytes 4 t
        ++ (be_bytes 4 interval ++ (be_bytes 4 leechers ++ (be_bytes 4 seeders ++ compact ps)))),
    length-append (be_bytes 4 t)
        (be_bytes 4 interval ++ (be_bytes 4 leechers ++ (be_bytes 4 seeders ++ compact ps))),
    length-append (be_bytes 4 interval) (be_bytes 4 leechers ++ (be_bytes 4 seeders ++ compact ps)),
    length-append (be_bytes 4 leechers) (be_bytes 4 seeders ++ compact ps),
    length-append (be_bytes 4 seeders) (compact ps),
    length-be_bytes 4 1,
    length-be_bytes 4 t,
    length-be_bytes 4 interval,
    length-be_bytes 4 leechers,
    length-be_bytes 4 seeders,
    length-compact ps a,
  )

  -- A tracker that resolves, is reached and answers both requests by the protocol, with at most 100
  -- peers, is understood on every host, whatever the static buffers held: the caller gets its peers,
  -- and the tracker its interval and the amounts that the caller gave.
  pub retrieve_peers-answered :
      (tracker : UdpTracker) (downloaded uploaded t1 t2 c interval leechers seeders : ℕ)
      (buffer1 buffer2 : List ℕ) (ps : List PeerInfo)
      → t1 < u32_mod
      → t2 < u32_mod
      → c < size_mod
      → interval < u32_mod
      → All IsPeer ps
      → length ps ≤ 100
      → retrieve_peers e tracker downloaded uploaded (record {
        resolved = true;
        connect_buffer = buffer1;
        announce_buffer = buffer2;
        connect_id = t1;
        announce_id = t2;
        connecting = record { sent = none; received = value (connect_reply t1 c) };
        announcing = record {
          sent = none;
          received = value (announce_reply t2 interval leechers seeders ps);
        };
      })
        ≡ (
          record tracker { downloaded = downloaded; uploaded = uploaded; interval = interval },
          some ps,
        )
  unfolding retrieve_peers send_connect_request send_announce_request
  retrieve_peers-answered tracker downloaded uploaded t1 t2 c interval leechers seeders buffer1
        buffer2 ps h1 h2 hc hi a few =
      let first = write_all buffer1 (connect_fields e t1) in
      let asking = record tracker { downloaded = downloaded; uploaded = uploaded } in
      let second = write_all buffer2 (announce_fields e asking c t2) in
      let r1 = connect_reply t1 c in
      let r2 = announce_reply t2 interval leechers seeders ps in
      let n2 = length-announce_reply t2 interval leechers seeders ps a in
      let long : ltb (length r2) 20 ≡ false = ground (arith, n2) in
      rw
        (
          take_all connect_size r1 (omega (arith, length-connect_reply t1 c)),
          answered first r1,
          check_connect-reply t1 c (drop (length r1) first) h1 hc,
          take_all announce_size r2 (omega (arith, n2)),
          long,
          answered second r2,
          n2,
        )
        (ap (λ r. (r.0, extracted e r.1))
          (check_announce-reply asking t2 interval leechers seeders ps
            (drop (20 + 6 * length ps) second) h2 hi a few))
