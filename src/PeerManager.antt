-- ===== src/PeerManager.antt =====
-- src/PeerManager.hpp and src/PeerManager.cpp: the connections to all peers. The map from peers to their
-- connections is an association list; the flag of an entry says that the peer is being reconnected. A
-- coroutine's run from one wait to the next is one call; `started` stands for the threads that run
-- them. What the network does in a connection attempt is an input. Waiting itself is left out: the
-- back-off of a reconnection only lets time pass.
pub mod Peers
pub mod Reconnect
pub mod Count
pub mod History
mod Tests
use cpp_torrent.Base.{
  ℕ, zero, suc, ◌+◌, ◌-◌, ◌*◌, ◌%◌, Bool, true, false, ◌&&◌, ◌||◌, not, Option, none, some, List,
  [], ◌∷◌, ◌++◌, ltb, leb, ◌==◌, if◌then◌else◌, length, u32_mod,
}
use cpp_torrent.Message.{bytes_equal, create_handshake_message}
use cpp_torrent.UdpTracker.{PeerInfo}
use cpp_torrent.PeerConnection
use cpp_torrent.PeerConnection.{
  PeerConnection, PeerState, uninitiated, connecting, connected, running, disconnected, timed_out,
  Attempt, connect, disconnect,
}

abbrev pub max_peer_count : ℕ
max_peer_count = 50

abbrev pub Entry : Type 0
Entry = PeerConnection × Bool

-- `peer_connections_`.
abbrev pub Entries : Type 0
Entries = List (PeerInfo × Entry)

pub record PeerManager : Type 0 where
  pub peer_connections : Entries
  pub started : Bool
  pub connected_peers : ℕ

unfoldable pub new : PeerManager
new = record { peer_connections = []; started = false; connected_peers = 0 }

-- The constructor throws if the peer id has not 20 bytes.
unfoldable pub init : List ℕ → Option PeerManager
unfolding new
init peer_id = if length peer_id == 20 then some new else none

unfoldable pub start : PeerManager → PeerManager
start m = record m { started = true }

unfoldable pub stop : PeerManager → PeerManager
stop m = record m { started = false }

-- `operator==` of `PeerInfo`.
abbrev pub peer_equal : PeerInfo → PeerInfo → Bool
peer_equal p q = bytes_equal p.ip q.ip && p.port == q.port

unfoldable pub find : PeerInfo → Entries → Option Entry
find p [] = none
find p ((q, x) ∷ es) = if peer_equal q p then some x else find p es

abbrev pub is_there : Option Entry → Bool
is_there none = false
is_there (some x) = true

abbrev pub contains : PeerInfo → Entries → Bool
contains p es = is_there (find p es)

-- The entry of a peer that is there gets a new value, by a reference to it.
unfoldable pub set_entry : PeerInfo → Entry → Entries → Entries
set_entry p y [] = []
set_entry p y ((q, x) ∷ es) = if peer_equal q p then (q, y) ∷ es else (q, x) ∷ set_entry p y es

-- The loop of `add_peers`; the connection of each new peer is tried later, by `connect_done`.
unfoldable pub add_from : List PeerInfo → Entries → Entries
add_from [] es = es
add_from (p ∷ ps) es =
    add_from ps (if contains p es then es else es ++ ((p, (PeerConnection.init, false)) ∷ []))

unfoldable pub add_peers : List PeerInfo → PeerManager → PeerManager
unfolding start add_from
add_peers peers m =
    let running_ = start m in
    record running_ { peer_connections = add_from peers running_.peer_connections }

abbrev is_connected : PeerState → Bool
is_connected connected = true
is_connected uninitiated = false
is_connected connecting = false
is_connected running = false
is_connected disconnected = false
is_connected timed_out = false

-- `connected_peers_.fetch_add(1)` and `fetch_sub(1)`.
abbrev pub count_up : ℕ → ℕ
count_up n = (n + 1) % u32_mod

abbrev pub count_down : ℕ → ℕ
count_down n = (n + u32_mod - 1) % u32_mod

-- The callback of `add_peers`, when `connect` has left the connection `c` behind; a connection that
-- stands is run, and counted.
connect_callback : PeerInfo → PeerConnection → PeerManager → PeerManager
connect_callback p c m = record m {
  peer_connections = set_entry p (c, false) m.peer_connections;
  connected_peers = if is_connected c.state then count_up m.connected_peers else m.connected_peers;
}

unfoldable pub connect_done :
    List ℕ → PeerInfo → PeerConnection → Attempt → PeerManager → PeerManager
unfolding connect_callback set_entry
connect_done info_hash p c net m = connect_callback p (connect info_hash net c) m

-- The loop of `try_reconnection`, from its round `i` on; `seen i` is the number of connected peers that
-- the round reads, and `nets i` what the network does in it.
unfoldable pub reconnect_from :
    List ℕ → (ℕ → ℕ) → (ℕ → Attempt) → ℕ → ℕ → PeerConnection → Option PeerConnection
reconnect_from info_hash seen nets zero i c = none
reconnect_from info_hash seen nets (suc fuel) i c =
    let tried = connect info_hash (nets i) c in
    let again = reconnect_from info_hash seen nets fuel (suc i) tried in
    if ltb 0 c.retries_left && ltb (seen i) max_peer_count
    then (if is_connected tried.state || tried.retries_left == 0 then some tried else again)
    else some c

-- What follows the loop: the peer is run and counted, or given up.
abbrev pub gives_up : PeerConnection → ℕ → Bool
gives_up c seen = not (is_connected c.state) || leb max_peer_count seen

unfoldable pub end_reconnection : PeerInfo → PeerConnection → PeerManager → PeerManager
unfolding set_entry disconnect
end_reconnection p c m =
    if gives_up c m.connected_peers
    then record m { peer_connections = set_entry p (disconnect c, false) m.peer_connections }
    else record m {
      peer_connections = set_entry p (c, false) m.peer_connections;
      connected_peers = count_up m.connected_peers;
    }

-- The peers that a round of `cleanup_peer_connections` leaves, the number of connected ones, and the
-- peers that it starts to reconnect.
pub record Cleaned : Type 0 where
  pub kept : Entries
  pub count : ℕ
  pub retried : List PeerInfo

abbrev keep : PeerInfo × Entry → Cleaned → Cleaned
keep x r = record r { kept = x ∷ r.kept }

abbrev retry : PeerInfo → PeerConnection → Cleaned → Cleaned
retry p c r = record r { kept = (p, (c, true)) ∷ r.kept; retried = p ∷ r.retried }

abbrev less : PeerConnection → ℕ → ℕ
less c n = if c.was_connected then count_down n else n

-- The switch over the state; `go` is the loop behind this entry.
clean_entry : PeerState → PeerInfo → PeerConnection → ℕ → (ℕ → Cleaned) → Cleaned
clean_entry disconnected p c n go = go (less c n)
clean_entry timed_out p c n go = retry p c (go (less c n))
clean_entry uninitiated p c n go = keep (p, (c, false)) (go n)
clean_entry connecting p c n go = keep (p, (c, false)) (go n)
clean_entry connected p c n go = keep (p, (c, false)) (go n)
clean_entry running p c n go = keep (p, (c, false)) (go n)

unfoldable pub clean_from : Entries → ℕ → Cleaned
unfolding clean_entry
clean_from [] n = record { kept = []; count = n; retried = [] }
clean_from ((p, (c, true)) ∷ es) n = keep (p, (c, true)) (clean_from es n)
clean_from ((p, (c, false)) ∷ es) n = clean_entry c.state p c n (λ k. clean_from es k)

-- One round of `cleanup_peer_connections`; without the lock it does nothing.
unfoldable pub cleanup : Bool → PeerManager → PeerManager
unfolding clean_from
cleanup locked m =
    let cleaned = clean_from m.peer_connections m.connected_peers in
    if locked
    then record m { peer_connections = cleaned.kept; connected_peers = cleaned.count }
    else m
