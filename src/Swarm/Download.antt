-- ===== src/Swarm/Download.antt =====
-- Whatever the peers and the network do, what the piece manager says is there is on disk.
use cpp_torrent.Base.{
  ℕ, ◌-◌, ◌^◌, ◌≤◌, ◌<◌, ◌≡◌, refl, sym, subst, ◌∙◌, true, false, Option, some, List, [], ◌∷◌, ◌++◌,
  arith, length, length-append, length-take, take, replicate, length-replicate, All, Bool-cases,
  inl, inr, some_injective, u32_mod, ceil_div,
}
use cpp_torrent.Net.{Endian}
use cpp_torrent.FileManager
use cpp_torrent.FileManager.Disk.{Disk, truncated, view, Different}
use cpp_torrent.PieceManager.Disk.{Writes}
use cpp_torrent.FileManager.Bytes.{total}
use cpp_torrent.Message.{bytes_equal}
use cpp_torrent.PieceManager.{PieceManager, minus, completed}
use cpp_torrent.PieceManager.Intact.Bytes.{piece_on_disk}
use cpp_torrent.PieceManager.Run
use cpp_torrent.PieceManager.Run.{joined_or_left}
use cpp_torrent.PieceManager.Count.{Reaches-trans}
use cpp_torrent.PeerConnection
use cpp_torrent.PeerConnection.{
  PeerConnection, connect, start_running, stop_running, resize, handle_failure, disconnect,
}
use cpp_torrent.PeerRetriever.{Trackers}
use cpp_torrent.TorrentClient.{TorrentClient, construct}
use cpp_torrent.TorrentClient.Build.{construct-on-disk, hash_of_piece}
use cpp_torrent.Swarm.{
  Runner, Swarm, running_with, idle_with, Turn, tried, ran, handled, sent, endgame_entered,
  endgame_cancelled, endgame_requested, failed, stopped, disconnected, Reaches, alone, joined, left,
  turned,
}
use cpp_torrent.Swarm.Requests.{Moves, called, stays, Same, send_requests-Moves}
use cpp_torrent.Swarm.Endgame.{endgame_send_cancels-Same, endgame_send_blocks-Same}
use cpp_torrent.Swarm.Messages.{handle_message-Moves}

-- A connection that runs has a bit for each piece.
unfoldable pub Fits : ℕ → Runner → Type 0
Fits n r = r.runs ≡ true → n ≤ length r.connection.bitfield

idle-Fits : (n : ℕ) (c : PeerConnection) → Fits n (idle_with c)
unfolding Fits
idle-Fits n c h = cc

-- One element of a list.
pub All-middle :
    (P : Runner → Type 0) (before after : List Runner) (r : Runner)
    → All P (before ++ (r ∷ after))
    → P r × All P (before ++ after) × ((x : Runner) → P x → All P (before ++ (x ∷ after)))
All-middle P [] after r (h, a) = (h, a, λ x k. (k, a))
All-middle P (b ∷ before) after r (h, a) =
    let (here, without, with_) = All-middle P before after r a in
    (here, (h, without), λ x k. (h, with_ x k))

length-start_running :
    (m : PieceManager) (c : PeerConnection) → length (start_running m c).bitfield ≡ m.pieces_cnt
unfolding start_running
length-start_running m c =
    length-append (take m.pieces_cnt c.bitfield)
      (replicate (m.pieces_cnt - length c.bitfield) false)
    ∙ omega (
      arith,
      length-take m.pieces_cnt c.bitfield,
      length-replicate (m.pieces_cnt - length c.bitfield) false,
    )

module _ (e : Endian) (sha1 : List ℕ → List ℕ) where
  -- What a turn does to the piece manager and to its connection.
  record Kept (m : PieceManager) (r : Runner) (n : PieceManager) : Type 0 where
    calls : Run.Reaches sha1 m n
    count : n.pieces_cnt ≡ m.pieces_cnt
    fits : Fits n.pieces_cnt r

  Moves-Kept :
      (c d : PeerConnection) (m n : PieceManager)
      → Fits m.pieces_cnt (running_with c)
      → Moves sha1 c m d n
      → Kept m (running_with d) n
  unfolding Fits
  Moves-Kept c d m n h moves = record {
    calls = moves.calls;
    count = moves.count;
    fits = λ t. omega (arith, h refl, moves.count, moves.bits);
  }

  stop_running-Moves :
      (c : PeerConnection) (m : PieceManager) {n : PieceManager}
      → stop_running c m ≡ some n
      → Moves sha1 c m c n
  unfolding stop_running
  stop_running-Moves c m {n} h = elim (Bool-cases c.bitfield_received) [
    | inl received ↦ called sha1 (joined_or_left minus c.bitfield (rw received at h)) refl
    | inr none_ ↦ stays sha1 c c m n (sym (some_injective (rw none_ at h))) refl
  ]

  Turn-Kept :
      {r : Runner} {m : PieceManager} {r' : Runner} {n : PieceManager}
      → Turn e sha1 r m r' n
      → Fits m.pieces_cnt r
      → Kept m r' n
  unfolding Same handle_failure disconnect Fits
  Turn-Kept (tried {c} {m} hash net) h = record {
    calls = Run.start;
    count = refl;
    fits = idle-Fits m.pieces_cnt (connect hash net c);
  }
  Turn-Kept (ran {c} {m} k) h = record {
    calls = Run.start;
    count = refl;
    fits = λ t. omega (arith, length-start_running m c);
  }
  Turn-Kept (handled {c} {m} {t} msg b k) h =
      Moves-Kept c t.connection m t.manager h
        (handle_message-Moves e sha1 msg (record { connection = c; manager = m }) b k)
  Turn-Kept (sent s t now k) h =
      Moves-Kept s.connection t.connection s.manager t.manager h
        (send_requests-Moves sha1 e now s (h refl) k)
  Turn-Kept (endgame_entered {c} {m} blocks) h =
      let d = record c { endgame_remaining_blocks = blocks } in
      Moves-Kept c d m m h (stays sha1 c d m m refl refl)
  Turn-Kept (endgame_cancelled s t now k) h =
      let (same, kept) = endgame_send_cancels-Same e now s k in
      Moves-Kept s.connection t.connection s.manager t.manager h
        (stays sha1 s.connection t.connection s.manager t.manager same kept)
  Turn-Kept (endgame_requested s t now k) h =
      let (same, kept) = endgame_send_blocks-Same e now s k in
      Moves-Kept s.connection t.connection s.manager t.manager h
        (stays sha1 s.connection t.connection s.manager t.manager same kept)
  Turn-Kept (failed {c} {m} ec) h =
      Moves-Kept c (handle_failure ec c) m m h (stays sha1 c (handle_failure ec c) m m refl refl)
  Turn-Kept (stopped {c} {m} {n} k) h =
      let moves = stop_running-Moves c m k in
      record { calls = moves.calls; count = moves.count; fits = idle-Fits n.pieces_cnt c }
  Turn-Kept (disconnected {r} {m}) h = record { calls = Run.start; count = refl; fits = h }

  -- What the swarm keeps.
  pub record Running (m : PieceManager) (s : Swarm) : Type 0 where
    pub calls : Run.Reaches sha1 m s.manager
    pub fit : All (Fits s.manager.pieces_cnt) s.runners

  pub Reaches-Running : {m : PieceManager} {s : Swarm} → Reaches e sha1 m s → Running m s
  Reaches-Running alone = record { calls = Run.start; fit = tt }
  Reaches-Running (joined {s} l) =
      let k = Reaches-Running l in
      record { calls = k.calls; fit = (idle-Fits s.manager.pieces_cnt PeerConnection.init, k.fit) }
  Reaches-Running (left {n} before after c l) =
      let k = Reaches-Running l in
      let (here, without, with_) =
        All-middle (Fits n.pieces_cnt) before after (idle_with c) k.fit in
      record { calls = k.calls; fit = without }
  Reaches-Running (turned {n} before after {r} {r'} l turn) =
      let k = Reaches-Running l in
      let (here, without, with_) = All-middle (Fits n.pieces_cnt) before after r k.fit in
      let kept = Turn-Kept turn here in
      record {
        calls = Reaches-trans sha1 k.calls kept.calls;
        fit =
            subst (λ c. All (Fits c) (before ++ (r' ∷ after))) (sym kept.count)
              (with_ r' (subst (λ c. Fits c r') kept.count kept.fits));
      }

  -- From the bytes of the torrent file and the bytes of the peers to the bytes on disk: if the client is
  -- made from a torrent file with pieces of at most 2^30 bytes and files of at most 4 GiB together,
  -- whose paths lead to different files, and its piece manager says that it is completed, after any
  -- turns of any connections, in any order, with any messages, failures and reconnections, that do
  -- not fault, then from any disk, on which the constructor empties the files, writes of the file manager
  -- lead to a disk that shows the files of the piece manager, and every piece of the torrent, of which
  -- there are as many as its piece length needs for its files, lies in these files with the hash that
  -- the torrent file has for it.
  pub swarm-on-disk :
      (opens : List (List ℕ) → List ℕ → Option ℕ) {Tracker World : Type 0}
      (t : Trackers Tracker World) (file : List ℕ) (port random : ℕ) (disk : Disk)
      {c : TorrentClient Tracker} {s : Swarm}
      → construct sha1 opens t file port random ≡ some c
      → Different c.file_manager
      → c.torrent_md.piece_length ≤ 2 ^ 30
      → total (FileManager.init c.torrent_md.files) ≤ u32_mod
      → Reaches e sha1 c.piece_manager s
      → completed s.manager ≡ true
      → (k : ℕ)
      → k < ceil_div (total (FileManager.init c.torrent_md.files)) c.torrent_md.piece_length
      → (after : Disk) × Writes c.file_manager (truncated c.file_manager disk) after
        × (view c.file_manager after ≡ s.manager.files)
        × (bytes_equal (sha1 (piece_on_disk s.manager k)) (hash_of_piece c.torrent_md k) ≡ true)
  swarm-on-disk opens t file port random disk h different few fits r done k l =
      construct-on-disk sha1 opens t file port random disk h different few fits
        (Reaches-Running r).calls done k l
