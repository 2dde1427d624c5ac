-- ===== src/PeerConnection/Pending.antt =====
-- The pending requests of a connection: ten places, of which `count` are taken.
use cpp_torrent.Base.{ℕ, ◌-◌, ◌≤◌, ◌≡◌, ◌∙◌, arith, length, length-set, get_or, set}
use cpp_torrent.PeerConnection.{
  PeerConnection, no_request, max_blocks_in_flight, swap, remove_pending,
}

-- A connection that runs: ten places for requests, of which `count` are taken.
pub record Ready (c : PeerConnection) : Type 0 where
  pub places : length c.blocks_info ≡ max_blocks_in_flight
  pub taken : c.count ≤ max_blocks_in_flight

pub remove_pending-Ready : (i : ℕ) (c : PeerConnection) → Ready c → Ready (remove_pending i c)
unfolding remove_pending swap
remove_pending-Ready i c r = record {
  places =
      length-set (set c.blocks_info i (get_or c.blocks_info (c.count - 1) no_request)) (c.count - 1)
        (get_or c.blocks_info i no_request)
      ∙ (length-set c.blocks_info i (get_or c.blocks_info (c.count - 1) no_request) ∙ r.places);
  taken = omega (arith, r.taken);
}
