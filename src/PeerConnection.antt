-- ===== src/PeerConnection.antt =====
-- src/PeerConnection.hpp and src/PeerConnection.cpp: one connection with a peer. The piece manager that
-- the source holds by reference is passed beside the connection. What the socket does, the clock and
-- the static buffers of the requests are arguments; a coroutine's turn is one call. `none` is a fault:
-- an index out of range, an empty `*payload`, or a fault of the piece manager.
pub mod Requests
pub mod Receive
pub mod States
pub mod Pending
pub mod Refresh
pub mod Load
pub mod Endgame
pub mod Framing
pub mod Messages
mod Tests
use cpp_torrent.Base.{
  ℕ, zero, suc, ◌+◌, ◌-◌, ◌*◌, ◌/◌, ◌%◌, ◌^◌, Bool, true, false, ◌&&◌, ◌||◌, not, Option, none,
  some, ◌⊎◌, inl, inr, List, [], ◌∷◌, ◌++◌, ltb, leb, ◌==◌, if◌then◌else◌, length, get_or, set,
  take, drop, replicate, u32_mod, min,
}
use cpp_torrent.Message.{parse_handshake_message, bytes_equal}
use cpp_torrent.PieceManager
use cpp_torrent.PieceManager.{PieceManager}

pub data PeerState : Type 0 where
  uninitiated connecting connected running disconnected timed_out : PeerState

abbrev pub max_retries : ℕ
max_retries = 3

abbrev pub max_blocks_in_flight : ℕ
max_blocks_in_flight = 10

abbrev pub max_blocks_per_request : ℕ
max_blocks_per_request = 5

-- `duration::REQUEST_TIMEOUT` in milliseconds.
abbrev pub request_timeout : ℕ
request_timeout = 5000

-- A block and the time of its request.
abbrev pub Block : Type 0
Block = ℕ × ℕ × ℕ

abbrev pub Pending : Type 0
Pending = Block × ℕ

abbrev pub no_request : Pending
no_request = ((0, 0, 0), 0)

pub record PeerConnection : Type 0 where
  pub retries_left : ℕ
  pub am_choking : Bool
  pub am_interested : Bool
  pub peer_choking : Bool
  pub peer_interested : Bool
  pub state : PeerState
  pub was_connected : Bool
  pub bitfield_received : Bool
  pub bitfield : List Bool
  pub blocks_info : List Pending
  pub count : ℕ
  pub endgame_remaining_blocks : List Block

unfoldable pub init : PeerConnection
init = record {
  retries_left = max_retries;
  am_choking = true;
  am_interested = false;
  peer_choking = true;
  peer_interested = false;
  state = uninitiated;
  was_connected = false;
  bitfield_received = false;
  bitfield = [];
  blocks_info = [];
  count = 0;
  endgame_remaining_blocks = [];
}

unfoldable pub reset_state : PeerConnection → PeerConnection
reset_state c = record c {
  state = uninitiated;
  am_choking = true;
  am_interested = false;
  peer_choking = true;
  peer_interested = false;
  count = 0;
  blocks_info = [];
  bitfield_received = false;
  was_connected = false;
}

-- An error of a transfer: the time is over, or something else.
pub data Failure : Type 0 where
  timeout other : Failure

abbrev state_after : Failure → PeerState
state_after timeout = timed_out
state_after other = disconnected

unfoldable pub handle_failure : Failure → PeerConnection → PeerConnection
handle_failure ec c = record c { state = state_after ec }

unfoldable pub disconnect : PeerConnection → PeerConnection
disconnect c = record c { state = disconnected }

-- What the network does in `connect`: the errors of connecting and of sending, and the handshake that
-- is received.
pub record Attempt : Type 0 where
  pub established : Option Failure
  pub sent : Option Failure
  pub received : List ℕ ⊎ Failure

-- A handshake that does not parse ends in an empty error code, which is no timeout.
check_handshake : List ℕ → PeerConnection → Option (List ℕ) → PeerConnection
unfolding handle_failure
check_handshake info_hash c none = handle_failure other c
check_handshake info_hash c (some hash) =
    if bytes_equal hash info_hash
    then record c { state = connected; retries_left = max_retries; was_connected = true }
    else handle_failure other c

receive_handshake : List ℕ → PeerConnection → (List ℕ ⊎ Failure) → PeerConnection
unfolding check_handshake
receive_handshake info_hash c (inl message) =
    check_handshake info_hash c (parse_handshake_message message)
receive_handshake info_hash c (inr ec) = handle_failure ec c

send_handshake : List ℕ → PeerConnection → Option Failure → (List ℕ ⊎ Failure) → PeerConnection
unfolding receive_handshake
send_handshake info_hash c (some ec) received = handle_failure ec c
send_handshake info_hash c none received = receive_handshake info_hash c received

establish : List ℕ → PeerConnection → Attempt → Option Failure → PeerConnection
unfolding send_handshake
establish info_hash c net (some ec) = handle_failure ec c
establish info_hash c net none = send_handshake info_hash c net.sent net.received

unfoldable pub connect : List ℕ → Attempt → PeerConnection → PeerConnection
unfolding establish
connect info_hash net c =
    let tried = reset_state (record c { retries_left = c.retries_left - 1 }) in
    if c.retries_left == 0
    then c
    else establish info_hash (record tried { state = connecting }) net net.established

-- `std::vector::resize`.
abbrev pub resize {ℓ} : {A : Type ℓ} → List A → ℕ → A → List A
resize xs n a = take n xs ++ replicate (n - length xs) a

-- `std::swap` on two elements.
unfoldable pub swap {ℓ} : {A : Type ℓ} → List A → A → ℕ → ℕ → List A
swap xs a i j = set (set xs i (get_or xs j a)) j (get_or xs i a)

-- What `run` sets up once the interested message is sent.
unfoldable pub start_running : PieceManager → PeerConnection → PeerConnection
start_running m c = record c {
  state = running;
  bitfield = resize c.bitfield m.pieces_cnt false;
  blocks_info = resize c.blocks_info max_blocks_in_flight no_request;
}

-- What `run` does when both coroutines are over.
unfoldable pub stop_running : PeerConnection → PieceManager → Option PieceManager
stop_running c m =
    if c.bitfield_received then PieceManager.remove_peer_bitfield c.bitfield m else some m

-- A pending request is removed: the last one takes its place.
unfoldable pub remove_pending : ℕ → PeerConnection → PeerConnection
unfolding swap
remove_pending i c = record c {
  blocks_info = swap c.blocks_info no_request i (c.count - 1);
  count = c.count - 1;
}

-- `blocks_info[count++] = ...`.
unfoldable pub add_pending : Block → ℕ → PeerConnection → Option PeerConnection
add_pending block now c =
    if ltb c.count (length c.blocks_info)
    then some
        (record c { blocks_info = set c.blocks_info c.count (block, now); count = c.count + 1 })
    else none
