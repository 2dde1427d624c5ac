-- ===== src/PeerConnection/Tests.antt =====
-- A connection that asks for the one piece of a small torrent, and the theorems applied to it.
use cpp_torrent.Base.{
  ℕ, ◌+◌, ◌-◌, ◌<◌, ◌≡◌, ◌≢◌, ◌⊎◌, inl, refl, true, false, none, List, [], ◌∷◌, ◌++◌, arith, get_or,
  take, replicate,
}
use cpp_torrent.Net.{little}
use cpp_torrent.FileManager
use cpp_torrent.FileManager.{Files}
use cpp_torrent.FileManager.Bytes.{total}
use cpp_torrent.Message.{unchoke, Message, create_handshake_message}
use cpp_torrent.PieceManager
use cpp_torrent.PieceManager.{PieceManager}
use cpp_torrent.PieceManager.Valid.{IsValid, BoundsOf, init-IsValid}
use cpp_torrent.PieceManager.Intact.Bytes.{Stored}
use cpp_torrent.PieceManager.Run.{init-Intact}
use cpp_torrent.PeerConnection.{
  PeerConnection, remove_pending, connected, timed_out, disconnected, Attempt, timeout, init,
  connect, no_request, max_retries, request_timeout,
}
use cpp_torrent.PeerConnection.Requests.{Sending, refresh_pending_requests}
use cpp_torrent.PeerConnection.Receive.{Session, handle_message, receive_messages, out_of_fuel}
use cpp_torrent.PeerConnection.Pending.{Ready}
use cpp_torrent.PeerConnection.Refresh.{stale_from, refresh_pending_requests-stale}
use cpp_torrent.PeerConnection.Framing.{receive_messages-fuel}
use cpp_torrent.PeerConnection.Messages.{Safe, handle_message-Safe}
use cpp_torrent.PeerConnection.States.{Accepted, connect_cases}

abbrev digest : List ℕ → List ℕ
digest bytes = take 20 (bytes ++ replicate 20 0)

abbrev files : Files
files = FileManager.init (record { path = []; start_off = 0; len = 2 } ∷ [])

abbrev manager : PieceManager
manager = PieceManager.init 2 2 files (digest (7 ∷ 8 ∷ [])) 5000

manager-Bounds : BoundsOf manager
unfolding PieceManager.init
manager-Bounds = record {
  some_size = omega arith;
  few_blocks = omega arith;
  whole = omega arith;
  pieces = refl;
  indexed = omega arith;
  active = omega arith;
}

manager-Stored : Stored manager
unfolding PieceManager.init FileManager.init total
manager-Stored = record { laid = omega arith; held = refl; addressable = omega arith }

manager-IsValid : IsValid manager
manager-IsValid = init-IsValid 2 2 files (digest (7 ∷ 8 ∷ [])) 5000 manager-Bounds

-- A connection that runs, with two requests pending, of which the first is late.
abbrev running : PeerConnection
running = record init {
  peer_choking = false;
  bitfield = true ∷ [];
  blocks_info = ((0, 0, 2), 1000) ∷ ((0, 0, 2), 9000) ∷ replicate 8 no_request;
  count = 2;
}

running-Ready : Ready running
running-Ready = record { places = refl; taken = omega arith }

late_is_kept : (refresh_pending_requests little 10000 running).count ≡ 1
unfolding refresh_pending_requests remove_pending
late_is_kept = refl

abbrev sending : Sending
sending = record {
  connection = running;
  manager = manager;
  request_payload = replicate 12 0;
  cancel_payload = replicate 12 0;
  send_buffer = [];
  messages = 0;
}

abbrev session : Session
session = record { connection = running; manager = manager }

refresh_pending_requests-stale_example :
    Ready (refresh_pending_requests little 10000 running)
    × ((refresh_pending_requests little 10000 running).bitfield ≡ running.bitfield)
    × ((refresh_pending_requests little 10000 running).count
        ≡ stale_from 10000 running.blocks_info 0 2)
    × ((j : ℕ)
        → j < (refresh_pending_requests little 10000 running).count
        → (get_or (refresh_pending_requests little 10000 running).blocks_info j no_request).1
            + request_timeout
          < 10000)
refresh_pending_requests-stale_example =
    refresh_pending_requests-stale little 10000 running running-Ready

abbrev unchoked : Message
unchoked = record { id = unchoke; payload = none }

handle_message-Safe_example : Safe digest session
handle_message-Safe_example =
    handle_message-Safe digest little unchoked session tt
      (record {
        ready = running-Ready;
        valid = manager-IsValid;
        intact = init-Intact digest 2 2 files (digest (7 ∷ 8 ∷ [])) 5000 manager-Stored;
      })
      (unfold handle_message init in refl)

receive_messages-fuel_example :
    receive_messages little digest 10 (0 ∷ 0 ∷ 0 ∷ 1 ∷ 1 ∷ []) timeout session ≢ out_of_fuel
receive_messages-fuel_example =
    receive_messages-fuel little digest 10 (0 ∷ 0 ∷ 0 ∷ 1 ∷ 1 ∷ []) timeout session (omega arith)

abbrev attempt : Attempt
attempt = record {
  established = none;
  sent = none;
  received = inl (create_handshake_message (replicate 20 3) (replicate 20 4));
}

connect_cases_example :
    ((init.retries_left ≡ 0) × (connect (replicate 20 3) attempt init ≡ init))
    ⊎ ((0 < init.retries_left)
        × ((Accepted (replicate 20 3) attempt
              × ((connect (replicate 20 3) attempt init).state ≡ connected)
              × ((connect (replicate 20 3) attempt init).was_connected ≡ true)
              × ((connect (replicate 20 3) attempt init).retries_left ≡ max_retries)
              × ((connect (replicate 20 3) attempt init).count ≡ 0))
            ⊎ ((¬ Accepted (replicate 20 3) attempt)
                × (((connect (replicate 20 3) attempt init).state ≡ timed_out)
                    ⊎ ((connect (replicate 20 3) attempt init).state ≡ disconnected))
                × ((connect (replicate 20 3) attempt init).was_connected ≡ false)
                × ((connect (replicate 20 3) attempt init).retries_left ≡ init.retries_left - 1))))
connect_cases_example = connect_cases (replicate 20 3) attempt init
