-- ===== src/PeerRetriever/Search.antt =====
-- The order in which the trackers of one group are asked.
use cpp_torrent.Base.{
  ℕ, suc, ◌+◌, ◌≡◌, refl, sym, ap, subst, ◌⊎◌, inl, inr, Option, none, some, List, [], ◌∷◌, ◌++◌,
  arith, length, get_or, set,
}
use cpp_torrent.UdpTracker.{PeerInfo}
use cpp_torrent.PeerRetriever.{
  TrackerType, http, udp, unknown, get_tracker_type, Client, Trackers, move_to_front, Searched,
  thrown, silent, found, answered, asked, try_announce, try_group,
}

-- The announce `a` and the first of its group have changed places.
abbrev pub swapped : List (List ℕ) → List ℕ → List (List ℕ) → List (List ℕ)
swapped [] a back = a ∷ back
swapped (f ∷ front) a back = a ∷ (front ++ (f ∷ back))

set-append :
    (front back : List (List ℕ)) (a f : List ℕ)
    → set (front ++ (a ∷ back)) (length front) f ≡ front ++ (f ∷ back)
set-append [] back a f = refl
set-append (x ∷ front) back a f = ap (λ l. x ∷ l) (set-append front back a f)

get_or-append :
    (front back : List (List ℕ)) (a d : List ℕ) → get_or (front ++ (a ∷ back)) (length front) d ≡ a
get_or-append [] back a d = refl
get_or-append (x ∷ front) back a d = get_or-append front back a d

pub move_to_front-append :
    (front back : List (List ℕ)) (a : List ℕ)
    → move_to_front (length front) (front ++ (a ∷ back)) ≡ swapped front a back
unfolding move_to_front
move_to_front-append [] back a = refl
move_to_front-append (f ∷ front) back a =
    rw (get_or-append front back a [], set-append front back a f) refl

module _ {Tracker World : Type 0} (t : Trackers Tracker World) (client : Client)
    (downloaded uploaded : ℕ) where
  -- A new tracker for the announce, of the kind that its scheme says.
  abbrev pub Makes : List ℕ → Tracker → Type 0
  Makes a tracker =
      ((get_tracker_type a ≡ http) × (t.make_http a client ≡ some tracker))
      ⊎ ((get_tracker_type a ≡ udp) × (t.make_udp a client ≡ some tracker))

  -- The announces were tried in this order, and none of them gave peers: those of an unknown kind were
  -- skipped, and for every other one a new tracker was asked. `cur` is the tracker asked last.
  abbrev pub Failed : Option Tracker → World → List (List ℕ) → Option Tracker → World → Type 0
  Failed cur w [] cur' w' = (cur ≡ cur') × (w ≡ w')
  Failed cur w (a ∷ as_) cur' w' =
      ((get_tracker_type a ≡ unknown) × Failed cur w as_ cur' w')
      ⊎ ((tracker : Tracker) × (after : Tracker) × (w1 : World) × Makes a tracker
          × (t.ask tracker downloaded uploaded w ≡ (after, none, w1))
          × Failed (some after) w1 as_ cur' w')

  -- A new tracker for the announce gave the peers.
  abbrev pub Answers : World → List ℕ → Tracker → List PeerInfo → World → Type 0
  Answers w a after peers w' =
      (tracker : Tracker) × Makes a tracker
      × (t.ask tracker downloaded uploaded w ≡ (after, some peers, w'))

  pub Failed-append :
      (cur cur1 cur' : Option Tracker) (w w1 w' : World) (xs ys : List (List ℕ))
      → Failed cur w xs cur1 w1
      → Failed cur1 w1 ys cur' w'
      → Failed cur w (xs ++ ys) cur' w'
  Failed-append cur cur1 cur' w w1 w' [] ys (e, f) h =
      subst (λ c. Failed c w ys cur' w') (sym e) (subst (λ v. Failed cur1 v ys cur' w') (sym f) h)
  Failed-append cur cur1 cur' w w1 w' (x ∷ xs) ys (inl (k, f)) h =
      inl (k, Failed-append cur cur1 cur' w w1 w' xs ys f h)
  Failed-append cur cur1 cur' w w1 w' (x ∷ xs) ys (inr (tr, after, v, m, e, f)) h =
      inr (tr, after, v, m, e, Failed-append (some after) cur1 cur' v w1 w' xs ys f h)

  abbrev pub GroupOutcome : ℕ → Option Tracker → World → List (List ℕ) → Searched t → Type 0
  GroupOutcome j cur w group (thrown w') = Unit {0}
  GroupOutcome j cur w group (silent cur' w') = Failed cur w group cur' w'
  GroupOutcome j cur w group (found tracker w' i peers) =
      (front : List (List ℕ)) × (a : List ℕ) × (back : List (List ℕ)) × (cur1 : Option Tracker)
      × (w1 : World) × (group ≡ front ++ (a ∷ back))
      × (j + length front ≡ i)
      × Failed cur w front cur1 w1
      × Answers w1 a tracker peers w'

  skipped :
      (j : ℕ) (cur : Option Tracker) (w : World) (a : List ℕ) (group : List (List ℕ))
      (r : Searched t)
      → get_tracker_type a ≡ unknown
      → GroupOutcome (suc j) cur w group r
      → GroupOutcome j cur w (a ∷ group) r
  skipped j cur w a group (thrown w') k h = tt
  skipped j cur w a group (silent cur' w') k h = inl (k, h)
  skipped j cur w a group (found tracker w' i peers) k (front, b, back, cur1, w1, e, n, f, g) =
      (a ∷ front, b, back, cur1, w1, ap (λ l. a ∷ l) e, omega arith, inl (k, f), g)

  went_on :
      (j : ℕ) (cur : Option Tracker) (w w1 : World) (a : List ℕ) (group : List (List ℕ))
      (tracker after : Tracker) (r : Searched t)
      → Makes a tracker
      → t.ask tracker downloaded uploaded w ≡ (after, none, w1)
      → GroupOutcome (suc j) (some after) w1 group r
      → GroupOutcome j cur w (a ∷ group) r
  went_on j cur w w1 a group tracker after (thrown w') m e h = tt
  went_on j cur w w1 a group tracker after (silent cur' w') m e h =
      inr (tracker, after, w1, m, e, h)
  went_on j cur w w1 a group tracker after (found tr w' i peers) m e
        (front, b, back, cur1, w2, s, n, f, g) =
      (
        a ∷ front,
        b,
        back,
        cur1,
        w2,
        ap (λ l. a ∷ l) s,
        omega arith,
        inr (tracker, after, w1, m, e, f),
        g,
      )

  asked_outcome :
      (j : ℕ) (cur : Option Tracker) (w : World) (a : List ℕ) (group : List (List ℕ))
      (tracker : Option Tracker) (rest : Option Tracker → World → Searched t)
      → ((tr : Tracker) → tracker ≡ some tr → Makes a tr)
      → ((cur' : Option Tracker) (w' : World) → GroupOutcome (suc j) cur' w' group (rest cur' w'))
      → GroupOutcome j cur w (a ∷ group) (asked t j downloaded uploaded tracker w rest)
  unfolding asked
  asked_outcome j cur w a group none rest m go = tt
  asked_outcome j cur w a group (some tr) rest m go = answer (t.ask tr downloaded uploaded w) refl
    where
      answer :
          (result : Tracker × Option (List PeerInfo) × World)
          → t.ask tr downloaded uploaded w ≡ result
          → GroupOutcome j cur w (a ∷ group) (answered t j result rest)
      answer (after, some peers, w') e =
          ([], a, group, cur, w, refl, omega arith, (refl, refl), (tr, m tr refl, e))
      answer (after, none, w') e =
          went_on j cur w w' a group tr after (rest (some after) w') (m tr refl) e
            (go (some after) w')

  announce_outcome :
      (k : TrackerType) (j : ℕ) (cur : Option Tracker) (w : World) (a : List ℕ)
      (group : List (List ℕ)) (rest : Option Tracker → World → Searched t)
      → get_tracker_type a ≡ k
      → ((cur' : Option Tracker) (w' : World) → GroupOutcome (suc j) cur' w' group (rest cur' w'))
      → GroupOutcome j cur w
          (a ∷ group)
          (try_announce t k j a client downloaded uploaded cur w rest)
  unfolding try_announce
  announce_outcome unknown j cur w a group rest e go =
      skipped j cur w a group (rest cur w) e (go cur w)
  announce_outcome http j cur w a group rest e go =
      asked_outcome j cur w a group (t.make_http a client) rest (λ tr m. inl (e, m)) go
  announce_outcome udp j cur w a group rest e go =
      asked_outcome j cur w a group (t.make_udp a client) rest (λ tr m. inr (e, m)) go

  pub try_group_outcome :
      (j : ℕ) (cur : Option Tracker) (w : World) (group : List (List ℕ))
      → GroupOutcome j cur w group (try_group t client downloaded uploaded j group cur w)
  unfolding try_group
  try_group_outcome j cur w [] = (refl, refl)
  try_group_outcome j cur w (a ∷ group) =
      announce_outcome (get_tracker_type a) j cur w a group
        (λ cur' w'. try_group t client downloaded uploaded (suc j) group cur' w') refl
        (λ cur' w'. try_group_outcome (suc j) cur' w' group)
