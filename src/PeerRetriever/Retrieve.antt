-- ===== src/PeerRetriever/Retrieve.antt =====
-- The order in which all trackers are asked, and what the search changes.
use cpp_torrent.Base.{ℕ, ◌≡◌, ◌⊎◌, Option, none, some, List, [], ◌∷◌, ◌++◌}
use cpp_torrent.UdpTracker.{PeerInfo}
use cpp_torrent.PeerRetriever.{Client, Trackers, PeerRetriever, Retrieved, raised, returned}
use cpp_torrent.PeerRetriever.Search.{swapped, Failed, Answers}

abbrev pub concat : List (List (List ℕ)) → List (List ℕ)
concat [] = []
concat (g ∷ gs) = g ++ concat gs

module _ {Tracker World : Type 0} (t : Trackers Tracker World) (client : Client)
    (downloaded uploaded : ℕ) where
  -- The end of the whole search. Without peers, every announce was tried and the lists are as they were;
  -- with peers, the announces before the one that gave them were tried and failed, it is now the first of
  -- its group in the place of the one that was, and its tracker is the current one.
  abbrev pub Found :
      Option Tracker
      → World
      → List (List (List ℕ))
      → PeerRetriever Tracker
      → List PeerInfo
      → World
      → Type 0
  Found cur w groups r peers w' =
      (before : List (List (List ℕ))) × (front : List (List ℕ)) × (a : List ℕ) × (back : List
        (List ℕ))
      × (behind : List (List (List ℕ))) × (cur1 : Option Tracker) × (w1 : World)
      × (tracker : Tracker) × (groups ≡ before ++ ((front ++ (a ∷ back)) ∷ behind))
      × Failed t client downloaded uploaded cur w (concat before ++ front) cur1 w1
      × Answers t client downloaded uploaded w1 a tracker peers w'
      × (r.announce_list ≡ before ++ (swapped front a back ∷ behind))
      × (r.cur_tracker ≡ some tracker)
      × (r.client ≡ client)

  abbrev pub Outcome : Option Tracker → World → List (List (List ℕ)) → Retrieved t → Type 0
  Outcome cur w groups (raised w') = Unit {0}
  Outcome cur w groups (returned r none w') =
      Failed t client downloaded uploaded cur w (concat groups) r.cur_tracker w'
      × (r.announce_list ≡ groups)
      × (r.client ≡ client)
  Outcome cur w groups (returned r (some peers) w') = Found cur w groups r peers w'

module _ {Tracker World : Type 0} (t : Trackers Tracker World) where
  -- What was asked before the lists: nothing, or the current tracker, which did not answer.
  abbrev pub Before : PeerRetriever Tracker → ℕ → ℕ → World → Option Tracker → World → Type 0
  Before r downloaded uploaded w cur w1 =
      ((r.cur_tracker ≡ none) × (cur ≡ none) × (w1 ≡ w))
      ⊎ ((tracker : Tracker) × (after : Tracker) × (r.cur_tracker ≡ some tracker)
          × (t.ask tracker downloaded uploaded w ≡ (after, none, w1))
          × (cur ≡ some after))
