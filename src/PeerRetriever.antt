-- ===== src/PeerRetriever.antt =====
-- src/PeerRetriever.hpp, src/PeerRetriever.cpp and src/ITracker.hpp: the client asks its trackers one after
-- the other until one answers. What it needs of a tracker is the interface `Trackers`: `Tracker` is a
-- tracker object, `World` what the network will do. `none` for a new tracker is an exception of its
-- constructor, which nothing catches.
pub mod Kinds
pub mod Search
pub mod Retrieve
mod Tests
use cpp_torrent.Base.{
  ℕ, zero, suc, ◌+◌, Bool, true, false, Option, none, some, List, [], ◌∷◌, ◌==◌, if◌then◌else◌,
  length, get_or, set, codes,
}
use cpp_torrent.Message.{bytes_equal}
use cpp_torrent.UdpTracker.{PeerInfo}
use cpp_torrent.UdpTracker.Url.{starts_with}
use cpp_torrent.Bencode.{ℤ, pos}

pub data TrackerType : Type 0 where
  http udp unknown : TrackerType

unfoldable pub get_tracker_type : List ℕ → TrackerType
unfolding starts_with
get_tracker_type announce =
    if starts_with announce (codes "http")
    then http
    else if starts_with announce (codes "udp")
    then udp
    else unknown

-- What a new tracker is made from, besides its announce URL.
pub record Client : Type 0 where
  pub info_hash : List ℕ
  pub client_id : List ℕ
  pub client_port : ℕ
  pub torrent_size : ℕ

-- `ITracker`, with the constructors of the two kinds.
pub record Trackers (Tracker World : Type 0) : Type 0 where
  pub make_http : List ℕ → Client → Option Tracker
  pub make_udp : List ℕ → Client → Option Tracker
  pub ask : Tracker → ℕ → ℕ → World → Tracker × Option (List PeerInfo) × World
  pub interval : Tracker → ℤ

-- `std::ranges::find` on the first group.
abbrev member : List ℕ → List (List ℕ) → Bool
member announce [] = false
member announce (a ∷ as_) = if bytes_equal a announce then true else member announce as_

-- The announce list that the constructor makes.
unfoldable pub with_announce : List ℕ → List (List (List ℕ)) → List (List (List ℕ))
with_announce announce [] = (announce ∷ []) ∷ []
with_announce announce (group ∷ groups) =
    if member announce group then group ∷ groups else (announce ∷ group) ∷ groups

-- `std::swap(announce_group.front(), announce)` at the index `j`.
unfoldable pub move_to_front : ℕ → List (List ℕ) → List (List ℕ)
move_to_front j group = set (set group 0 (get_or group j [])) j (get_or group 0 [])

pub record PeerRetriever (Tracker : Type 0) : Type 0 where
  pub cur_tracker : Option Tracker
  pub announce_list : List (List (List ℕ))
  pub client : Client

module _ {Tracker World : Type 0} (t : Trackers Tracker World) where
  -- The constructor.
  unfoldable pub init : List ℕ → List (List (List ℕ)) → Client → Option (PeerRetriever Tracker)
  unfolding with_announce
  init announce announce_list client =
      if length client.client_id == 20
      then some (record {
        cur_tracker = none;
        announce_list = with_announce announce announce_list;
        client = client;
      })
      else none

  -- How the search through a group ends: an exception; no answer, with the tracker that was asked last;
  -- or the peers, with the index of the announce that gave them.
  pub data Searched : Type 0 where
    thrown : World → Searched
    silent : Option Tracker → World → Searched
    found : Tracker → World → ℕ → List PeerInfo → Searched

  -- One announce of a known kind; `rest` is the search behind it.
  answered :
      ℕ
      → (Tracker × Option (List PeerInfo) × World)
      → (Option Tracker → World → Searched)
      → Searched
  answered j (tracker, some peers, world) rest = found tracker world j peers
  answered j (tracker, none, world) rest = rest (some tracker) world

  asked : ℕ → ℕ → ℕ → Option Tracker → World → (Option Tracker → World → Searched) → Searched
  unfolding answered
  asked j downloaded uploaded none world rest = thrown world
  asked j downloaded uploaded (some tracker) world rest =
      answered j (t.ask tracker downloaded uploaded world) rest

  -- One announce: those of an unknown kind are skipped.
  try_announce :
      TrackerType
      → ℕ
      → List ℕ
      → Client
      → ℕ
      → ℕ
      → Option Tracker
      → World
      → (Option Tracker → World → Searched)
      → Searched
  unfolding asked
  try_announce unknown j announce client downloaded uploaded cur world rest = rest cur world
  try_announce http j announce client downloaded uploaded cur world rest =
      asked j downloaded uploaded (t.make_http announce client) world rest
  try_announce udp j announce client downloaded uploaded cur world rest =
      asked j downloaded uploaded (t.make_udp announce client) world rest

  -- The inner loop of `retrieve_peers`, from the announce with the index `j` on.
  unfoldable pub try_group : Client → ℕ → ℕ → ℕ → List (List ℕ) → Option Tracker → World → Searched
  unfolding try_announce get_tracker_type
  try_group client downloaded uploaded j [] cur world = silent cur world
  try_group client downloaded uploaded j (announce ∷ group) cur world =
      try_announce (get_tracker_type announce) j announce client downloaded uploaded cur world
        (λ cur' world'. try_group client downloaded uploaded (suc j) group cur' world')

  -- The end of a call: an exception, or the retriever and the peers, and the network behind it.
  pub data Retrieved : Type 0 where
    raised : World → Retrieved
    returned : PeerRetriever Tracker → Option (List PeerInfo) → World → Retrieved

  abbrev with_group : List (List ℕ) → Retrieved → Retrieved
  with_group group (raised world) = raised world
  with_group group (returned r peers world) =
      returned (record r { announce_list = group ∷ r.announce_list }) peers world

  -- What follows the search through one group; `rest` is the search through the others.
  after_group :
      Client
      → List (List ℕ)
      → List (List (List ℕ))
      → Searched
      → (Option Tracker → World → Retrieved)
      → Retrieved
  after_group client group groups (thrown world) rest = raised world
  after_group client group groups (silent cur world) rest = with_group group (rest cur world)
  after_group client group groups (found tracker world j peers) rest =
      returned
        (record {
          cur_tracker = some tracker;
          announce_list = move_to_front j group ∷ groups;
          client = client;
        })
        (some peers) world

  -- The outer loop.
  unfoldable pub try_groups :
      Client → ℕ → ℕ → List (List (List ℕ)) → Option Tracker → World → Retrieved
  unfolding after_group try_group
  try_groups client downloaded uploaded [] cur world =
      returned (record { cur_tracker = cur; announce_list = []; client = client }) none world
  try_groups client downloaded uploaded (group ∷ groups) cur world =
      after_group client group groups (try_group client downloaded uploaded 0 group cur world)
        (λ cur' world'. try_groups client downloaded uploaded groups cur' world')

  -- The answer of the current tracker, if there is one.
  first_try : PeerRetriever Tracker → ℕ → ℕ → (Tracker × Option (List PeerInfo) × World) → Retrieved
  unfolding try_groups
  first_try r downloaded uploaded (tracker, some peers, world) =
      returned (record r { cur_tracker = some tracker }) (some peers) world
  first_try r downloaded uploaded (tracker, none, world) =
      try_groups r.client downloaded uploaded r.announce_list (some tracker) world

  with_current : PeerRetriever Tracker → ℕ → ℕ → Option Tracker → World → Retrieved
  unfolding first_try
  with_current r downloaded uploaded none world =
      try_groups r.client downloaded uploaded r.announce_list none world
  with_current r downloaded uploaded (some tracker) world =
      first_try r downloaded uploaded (t.ask tracker downloaded uploaded world)

  unfoldable pub retrieve_peers : PeerRetriever Tracker → ℕ → ℕ → World → Retrieved
  unfolding with_current
  retrieve_peers r downloaded uploaded world =
      with_current r downloaded uploaded r.cur_tracker world

  unfoldable pub get_interval : PeerRetriever Tracker → ℤ
  get_interval r = elim r.cur_tracker [ none ↦ pos 0 | some tracker ↦ t.interval tracker ]
