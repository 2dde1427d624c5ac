-- ===== src/PeerManager/Tests.antt =====
-- One peer that is added, connects, times out and is connected again.
use cpp_torrent.Base.{
  ℕ, ◌+◌, ◌%◌, ◌<◌, ◌≡◌, refl, true, false, inl, inr, none, some, List, [], ◌∷◌, arith, u32_mod,
  replicate, ◌++◌, codes,
}
use cpp_torrent.Message.{parse_handshake_message}
use cpp_torrent.UdpTracker.{PeerInfo}
use cpp_torrent.PeerConnection
use cpp_torrent.PeerConnection.{
  PeerConnection, timed_out, timeout, Attempt, connect, reset_state, handle_failure,
}
use cpp_torrent.PeerManager.{
  PeerManager, new, find, add_peers, connect_done, cleanup, reconnect_from, end_reconnection,
  set_entry,
}
use cpp_torrent.PeerManager.Reconnect.{LoopEnd, reconnect_from-LoopEnd}
use cpp_torrent.PeerManager.Count.{counted}
use cpp_torrent.PeerManager.History.{
  Reaches, begun, added, dialed, ran, cleaned, reconnected, Reaches-Balances,
}

abbrev peer : PeerInfo
peer = record { ip = 10 ∷ 0 ∷ 0 ∷ 7 ∷ []; port = 6881 }

abbrev hash : List ℕ
hash = replicate 20 3

-- The peer cannot be reached in time.
abbrev unreachable : Attempt
unreachable = record { established = some timeout; sent = none; received = inr timeout }

abbrev dialing : PeerManager
dialing = add_peers (peer ∷ peer ∷ []) new

one_entry : find peer dialing.peer_connections ≡ some (PeerConnection.init, false)
unfolding add_peers new find
one_entry = refl

reconnect_from-LoopEnd_example :
    (d : PeerConnection) × (reconnect_from hash (λ i. 7) (λ i. unreachable) 4 0 PeerConnection.init
      ≡ some d)
    × LoopEnd hash (λ i. 7) (λ i. unreachable) 0 PeerConnection.init d
reconnect_from-LoopEnd_example =
    reconnect_from-LoopEnd hash (λ i. 7) (λ i. unreachable) 4 0 PeerConnection.init
      (unfold PeerConnection.init in omega arith)

-- The peer answers the handshake, times out, and answers again when the clean-up has it reconnected.
abbrev answering : Attempt
answering = record {
  established = none;
  sent = none;
  received =
      inl (19 ∷ (codes "BitTorrent protocol" ++ (replicate 8 0 ++ (hash ++ replicate 20 4))));
}

abbrev standing : PeerConnection
standing = connect hash answering PeerConnection.init

abbrev late : PeerConnection
late = handle_failure timeout standing

abbrev counted_once : PeerManager
counted_once = connect_done hash peer PeerConnection.init answering dialing

abbrev lost_peer : PeerManager
lost_peer = cleanup true (record counted_once {
  peer_connections = set_entry peer (late, false) counted_once.peer_connections;
})

abbrev again : PeerManager
again = end_reconnection peer (connect hash answering late) lost_peer

one_peer_again :
    (counted_once.connected_peers ≡ 1)
    × (lost_peer.connected_peers ≡ 0)
    × (again.connected_peers ≡ 1)
unfolding connect_done connect cleanup add_peers find end_reconnection new PeerConnection.init
    reset_state handle_failure parse_handshake_message
one_peer_again = (refl, refl, refl)

history : Reaches hash 0 again
unfolding connect_done connect cleanup add_peers find reconnect_from end_reconnection new
    PeerConnection.init reset_state handle_failure parse_handshake_message
history =
    reconnected peer late (connect hash answering late) 4 (λ i. 7) (λ i. answering)
      (cleaned true (
        ran peer standing late (dialed peer answering (added (peer ∷ peer ∷ []) begun) refl) refl
          (inl refl) refl))
      refl refl refl

Reaches-Balances_example :
    ((again.connected_peers + 0) % u32_mod ≡ counted again.peer_connections % u32_mod)
    × (again.connected_peers < u32_mod)
Reaches-Balances_example = Reaches-Balances hash history
