-- ===== src/Swarm/Limits.antt =====
-- In whatever order the connections have their turns: what a connection has in flight, and that it can send.
use cpp_torrent.Base.{◌≤◌, ◌≡◌, true}
use cpp_torrent.FileManager
use cpp_torrent.PieceManager.{PieceManager}
use cpp_torrent.PieceManager.Intact.{Intact}
use cpp_torrent.PeerConnection
use cpp_torrent.PeerConnection.{PeerConnection, connected, resize, max_blocks_in_flight}
use cpp_torrent.PeerConnection.Pending.{Ready}
use cpp_torrent.TorrentClient.{TorrentClient}
use cpp_torrent.Swarm.{Runner, Swarm}

-- A connection that runs has its ten places; one that stands and does not run yet has no more requests.
record Flying (r : Runner) : Type 0 where
  ready : r.runs ≡ true → Ready r.connection
  few : r.connection.state ≡ connected → r.connection.count ≤ max_blocks_in_flight
