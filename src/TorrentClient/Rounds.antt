-- ===== src/TorrentClient/Rounds.antt =====
-- The loop of the download, together with what the other threads do: how often the trackers are asked.
use cpp_torrent.Base.{
  ℕ, ◌+◌, ◌≤◌, ◌≡◌, sym, ap, subst, Bool, true, false, ◌&&◌, inl, inr, none, some, List, [], ◌∷◌,
  ltb, leb, leb→le, arith, Bool-cases, some_injective, none-ne-some, ◌*◌, ◌^◌,
}
use cpp_torrent.Bencode.{ℤ, pos, negsuc}
use cpp_torrent.PieceManager.{PieceManager}
use cpp_torrent.PeerManager.{PeerManager}
use cpp_torrent.PeerRetriever
use cpp_torrent.PeerRetriever.{PeerRetriever, Trackers, Retrieved, raised, returned}
use cpp_torrent.TorrentClient.{
  TorrentClient, Download, after, target_peer_count, next_time, waiting, begin, start_download,
  refill, download_round,
}

-- A request to the trackers: its time, and the interval that holds behind it.
pub record Ask : Type 0 where
  pub at : ℕ
  pub interval : ℤ

-- The time in milliseconds when the interval, if it is not negative, is over.
abbrev pub earliest : Ask → ℕ
earliest a = elim a.interval [ pos seconds ↦ a.at + seconds * 1000 | negsuc seconds ↦ a.at ]

-- Each request, the latest first, is not before the time that the one before it allows.
abbrev pub Spaced : List Ask → Type 0
Spaced [] = Unit
Spaced (a ∷ []) = Unit
Spaced (b ∷ a ∷ asks) = (earliest a ≤ b.at) × Spaced (a ∷ asks)

module _ {Tracker World : Type 0} (t : Trackers Tracker World) where
  -- The guard of a round.
  abbrev pub due : Download t → ℕ → Bool
  due d now =
      leb d.next_request_time now && ltb d.client.peer_manager.connected_peers target_peer_count

  abbrev pub ask_at : ℕ → Download t → Ask
  ask_at now d = record {
    at = now;
    interval = PeerRetriever.get_interval t d.client.peer_retriever;
  }

  abbrev pub noted : Bool → Ask → List Ask → List Ask
  noted true a asks = a ∷ asks
  noted false a asks = asks

  -- What a download may come to, with the requests so far, the latest first: it starts, goes through a
  -- round, or its pieces and its connections change.
  pub data Loop (c : TorrentClient Tracker) (world : World)
      : Download t → World → List Ask → Type 0 where
    started :
        (now : ℕ) {d : Download t} {w : World}
        → start_download t c now world ≡ some (d, w)
        → Loop c world d w (ask_at now d ∷ [])
    round :
        {d d' : Download t} {w w' : World} {asks : List Ask} (now : ℕ)
        → Loop c world d w asks
        → download_round t d now w ≡ some (d', w')
        → Loop c world d' w' (noted (due d now) (ask_at now d') asks)
    others :
        {d : Download t} {w : World} {asks : List Ask} (pieces : PieceManager) (peers : PeerManager)
        → Loop c world d w asks
        → Loop c world
            (record d { client = record d.client { piece_manager = pieces; peer_manager = peers } })
            w
            asks

  -- The next request waits for the interval of the latest.
  Waits : Download t → List Ask → Type 0
  Waits d [] = ⊥
  Waits d (a ∷ asks) = (d.next_request_time ≡ earliest a) × Spaced (a ∷ asks)

  waiting-earliest :
      (c : TorrentClient Tracker) (world : World) (now : ℕ) (interval : ℤ) {d : Download t}
      {w : World}
      → waiting t c world (after now interval) ≡ some (d, w)
      → (d.next_request_time ≡ earliest (record { at = now; interval = interval })) × (d.client ≡ c)
  unfolding waiting
  waiting-earliest c world now (pos n) h =
      elim (Bool-cases (ltb (now * 1000000 + n * 1000000000) (2 ^ 63))) [
        | inl fits ↦
            let made = ap (λ p. p.0) (some_injective (rw fits at h)) in
            (sym (ap (λ d. d.next_request_time) made), sym (ap (λ d. d.client) made))
        | inr over ↦ absurd (none-ne-some (rw over at h))
      ]
  waiting-earliest c world now (negsuc n) h =
      elim (Bool-cases (leb ((n + 1) * 1000000000) (2 ^ 63))) [
        | inl fits ↦
            let made = ap (λ p. p.0) (some_injective (rw fits at h)) in
            (sym (ap (λ d. d.next_request_time) made), sym (ap (λ d. d.client) made))
        | inr over ↦ absurd (none-ne-some (rw over at h))
      ]

  waiting-Waits :
      (c : TorrentClient Tracker) (world : World) (now : ℕ) {d : Download t} {w : World}
      → waiting t c world (next_time t now c.peer_retriever) ≡ some (d, w)
      → d.next_request_time ≡ earliest (ask_at now d)
  unfolding next_time
  waiting-Waits c world now {d} h =
      let (time, same) =
        waiting-earliest c world now (PeerRetriever.get_interval t c.peer_retriever) h in
      subst
        (λ x.
          d.next_request_time
          ≡ earliest
              (record { at = now; interval = PeerRetriever.get_interval t x.peer_retriever }))
        (sym same) time

  started-Waits :
      (c : TorrentClient Tracker) (world : World) {w : World} (now : ℕ) {d : Download t}
      → start_download t c now world ≡ some (d, w)
      → d.next_request_time ≡ earliest (ask_at now d)
  unfolding start_download begin
  started-Waits c world now h = begun (PeerRetriever.retrieve_peers t c.peer_retriever 0 0 world) h
    where
      begun :
          (answer : Retrieved t) {d : Download t} {w : World}
          → begin t c now answer ≡ some (d, w)
          → d.next_request_time ≡ earliest (ask_at now d)
      begun (raised world) h = cc
      begun (returned r none world) h = cc
      begun (returned r (some peers) world) h = waiting-Waits _ world now h

  refill-Waits :
      (d : Download t) (now : ℕ) (answer : Retrieved t) {d' : Download t} {w : World}
      → refill t d now answer ≡ some (d', w)
      → d'.next_request_time ≡ earliest (ask_at now d')
  unfolding refill
  refill-Waits d now (raised world) h = cc
  refill-Waits d now (returned r peers world) h = waiting-Waits _ world now h

  later-Spaced :
      (d : Download t) (asks : List Ask) (b : Ask)
      → Waits d asks
      → d.next_request_time ≤ b.at
      → Spaced (b ∷ asks)
  unfolding Waits
  later-Spaced d [] b h l = absurd h
  later-Spaced d (a ∷ asks) b h l = (subst (λ n. n ≤ b.at) h.0 l, h.1)

  round-Waits :
      (d : Download t) {d' : Download t} (w : World) {w' : World} (asks : List Ask) (now : ℕ)
      → Waits d asks
      → download_round t d now w ≡ some (d', w')
      → Waits d' (noted (due d now) (ask_at now d') asks)
  unfolding Waits download_round
  round-Waits d {d'} w {w'} asks now h run = elim (Bool-cases (due d now)) [
    | inl asked ↦
        let since : d.next_request_time ≤ now = leb→le d.next_request_time now (ground arith) in
        subst (λ b. Waits d' (noted b (ask_at now d') asks)) (sym asked)
          (refill-Waits d now _ (rw asked at run), later-Spaced d asks (ask_at now d') h since)
    | inr quiet ↦
        let same : d ≡ d' = ap (λ p. p.0) (some_injective (rw quiet at run)) in
        subst (λ b. Waits d' (noted b (ask_at now d') asks)) (sym quiet)
          (subst (λ x. Waits x asks) same h)
  ]

  Loop-Waits :
      {c : TorrentClient Tracker} {world w : World} {d : Download t} {asks : List Ask}
      → Loop c world d w asks
      → Waits d asks
  unfolding Waits
  Loop-Waits {c = c} {world = world} (started now h) = (started-Waits c world now h, tt)
  Loop-Waits (round now l h) = round-Waits _ _ _ now (Loop-Waits l) h
  Loop-Waits {asks = []} (others pieces peers l) = absurd (Loop-Waits l)
  Loop-Waits {asks = a ∷ asks} (others pieces peers l) = Loop-Waits l

  -- However a download goes that does not raise an exception nor overflow a time, and whatever the other
  -- threads do in it: no request to the trackers comes before the interval is over, if it is not
  -- negative, that the trackers gave with the request before it.
  pub Loop-Spaced :
      {c : TorrentClient Tracker} {world w : World} {d : Download t} {asks : List Ask}
      → Loop c world d w asks
      → Spaced asks
  unfolding Waits
  Loop-Spaced {d = d} {asks = asks} l = waits-Spaced d asks (Loop-Waits l)
    where
      waits-Spaced : (d : Download t) (asks : List Ask) → Waits d asks → Spaced asks
      waits-Spaced d [] h = absurd h
      waits-Spaced d (a ∷ asks) h = h.1
