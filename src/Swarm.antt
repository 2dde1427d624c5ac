-- ===== src/Swarm.antt =====
-- The connections of all peers over the one piece manager: PeerManager, PeerConnection and PieceManager
-- together. A step is a turn of one connection's coroutines from one wait to the next, in any
-- order of the connections, with whatever the network brings. A connection runs between the start of its two
-- coroutines in `PeerConnection::run` and the end of both; only one that does not run is connected again.
pub mod Requests
pub mod Endgame
pub mod Messages
pub mod InFlight
pub mod Download
pub mod Limits
mod Tests
use cpp_torrent.Base.{ℕ, ◌≡◌, Bool, true, false, Option, some, List, [], ◌∷◌, ◌++◌, length}
use cpp_torrent.Net.{Endian}
use cpp_torrent.Net.Order.{AreBytes}
use cpp_torrent.Message.{Message}
use cpp_torrent.PieceManager
use cpp_torrent.PieceManager.{PieceManager}
use cpp_torrent.PeerConnection
use cpp_torrent.PeerConnection.{
  PeerConnection, Attempt, Block, Failure, connected, connect, start_running, stop_running,
  handle_failure, disconnect,
}
use cpp_torrent.PeerConnection.Requests.{
  Sending, send_requests, endgame_send_cancels, endgame_send_blocks,
}
use cpp_torrent.PeerConnection.Receive.{Session, handle_message}
use cpp_torrent.PeerConnection.Messages.{BytesOf}

-- A connection, and whether its coroutines run.
pub record Runner : Type 0 where
  pub connection : PeerConnection
  pub runs : Bool

pub record Swarm : Type 0 where
  pub runners : List Runner
  pub manager : PieceManager

abbrev pub running_with : PeerConnection → Runner
running_with c = record { connection = c; runs = true }

abbrev pub idle_with : PeerConnection → Runner
idle_with c = record { connection = c; runs = false }

module _ (e : Endian) (sha1 : List ℕ → List ℕ) where
  -- One turn of a connection with the piece manager.
  pub data Turn : Runner → PieceManager → Runner → PieceManager → Type 0 where
    tried :
        {c : PeerConnection} {m : PieceManager} (info_hash : List ℕ) (net : Attempt)
        → Turn (idle_with c) m (idle_with (connect info_hash net c)) m
    ran :
        {c : PeerConnection} {m : PieceManager}
        → c.state ≡ connected
        → Turn (idle_with c) m (running_with (start_running m c)) m
    handled :
        {c : PeerConnection} {m : PieceManager} {t : Session} (msg : Message)
        → BytesOf sha1 msg.payload
        → handle_message e sha1 msg (record { connection = c; manager = m }) ≡ some t
        → Turn (running_with c) m (running_with t.connection) t.manager
    sent :
        (s t : Sending) (now : ℕ)
        → send_requests e now s ≡ some t
        → Turn (running_with s.connection) s.manager (running_with t.connection) t.manager
    -- The blocks that are left are shuffled, into whatever order.
    endgame_entered :
        {c : PeerConnection} {m : PieceManager} (blocks : List Block)
        → Turn (running_with c) m (running_with (record c { endgame_remaining_blocks = blocks })) m
    endgame_cancelled :
        (s t : Sending) (now : ℕ)
        → endgame_send_cancels e now s ≡ some t
        → Turn (running_with s.connection) s.manager (running_with t.connection) t.manager
    endgame_requested :
        (s t : Sending) (now : ℕ)
        → endgame_send_blocks e now s ≡ some t
        → Turn (running_with s.connection) s.manager (running_with t.connection) t.manager
    failed :
        {c : PeerConnection} {m : PieceManager} (ec : Failure)
        → Turn (running_with c) m (running_with (handle_failure ec c)) m
    stopped :
        {c : PeerConnection} {m n : PieceManager}
        → stop_running c m ≡ some n
        → Turn (running_with c) m (idle_with c) n
    disconnected :
        {r : Runner} {m : PieceManager}
        → Turn r m (record r { connection = disconnect r.connection }) m

  -- What the swarm comes to, from no connections and the piece manager `m`: peers join, leave the map, or
  -- have a turn.
  pub data Reaches (m : PieceManager) : Swarm → Type 0 where
    alone : Reaches m (record { runners = []; manager = m })
    joined :
        {s : Swarm}
        → Reaches m s
        → Reaches m (record s { runners = idle_with PeerConnection.init ∷ s.runners })
    left :
        {n : PieceManager} (before after : List Runner) (c : PeerConnection)
        → Reaches m (record { runners = before ++ (idle_with c ∷ after); manager = n })
        → Reaches m (record { runners = before ++ after; manager = n })
    turned :
        {n k : PieceManager} (before after : List Runner) {r r' : Runner}
        → Reaches m (record { runners = before ++ (r ∷ after); manager = n })
        → Turn r n r' k
        → Reaches m (record { runners = before ++ (r' ∷ after); manager = k })
