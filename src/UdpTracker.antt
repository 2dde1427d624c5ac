-- ===== src/UdpTracker.antt =====
-- src/UdpTracker.hpp, src/UdpTracker.cpp and src/PeerInfo.hpp: the two exchanges with a tracker. What
-- the socket does is an input: whether each packet was sent, and the datagram or the error that came
-- back. The transaction ids are inputs too. Both buffers are static in the source, so their old
-- contents are an argument. The address of a peer is kept as the four numbers that the source
-- formats. Url models how the URL is taken apart.
pub mod Packets
pub mod Peers
pub mod Exchange
pub mod Answers
pub mod Url
mod Tests
use cpp_torrent.Base.{
  ℕ, ◌+◌, ◌%◌, Bool, true, false, ◌||◌, not, Option, none, some, List, [], ◌∷◌, ltb, ◌==◌,
  if◌then◌else◌, length, take, drop, splice, sub_size,
}
use cpp_torrent.Net.{Endian, put, get, to_memory, write_all}

-- `std::error_code`, as far as the source makes one; the others come from the network.
pub data Error : Type 0 where
  protocol_error : Error
  network : ℕ → Error

-- `std::expected<A, std::error_code>`.
pub data Expected (A : Type 0) : Type 0 where
  value : A → Expected A
  unexpected : Error → Expected A

pub record PeerInfo : Type 0 where
  pub ip : List ℕ
  pub port : ℕ

pub record UdpTracker : Type 0 where
  pub host : List ℕ
  pub host_port : ℕ
  pub info_hash : List ℕ
  pub torr_client_id : List ℕ
  pub torr_client_port : ℕ
  pub uploaded : ℕ
  pub downloaded : ℕ
  pub torrent_size : ℕ
  pub interval : ℕ

-- What the network does with one request: whether sending fails, and what is received.
pub record Network : Type 0 where
  pub sent : Option Error
  pub received : Expected (List ℕ)

abbrev pub tracker_num_want : ℕ
tracker_num_want = 100

abbrev pub protocol_id : ℕ
protocol_id = 0x41727101980

abbrev pub connect_size : ℕ
connect_size = 16

-- `std::max(98U, 20 + 6 * TRACKER_NUM_WANT)`.
abbrev pub announce_size : ℕ
announce_size = 620

module _ (e : Endian) where
  -- Peers of six bytes each, four for the address and two for the port.
  unfoldable pub peers_from : List ℕ → List PeerInfo
  peers_from (a ∷ b ∷ c ∷ d ∷ p ∷ q ∷ rest) =
      record { ip = a ∷ b ∷ c ∷ d ∷ []; port = get e 2 (p ∷ q ∷ []) } ∷ peers_from rest
  peers_from _ = []

  unfoldable pub extract_peers : List ℕ → Expected (List PeerInfo)
  unfolding peers_from
  extract_peers peers_buffer =
      if length peers_buffer % 6 == 0
      then value (peers_from peers_buffer)
      else unexpected protocol_error

  abbrev pub connect_fields : ℕ → List (ℕ × List ℕ)
  connect_fields transaction_id =
      (0, put e 8 protocol_id) ∷ (8, to_memory e 4 0) ∷ (12, put e 4 transaction_id) ∷ []

  -- The checks on the answer, and the connection id.
  unfoldable pub check_connect : ℕ → List ℕ → Expected ℕ
  check_connect transaction_id buffer =
      if not (get e 4 (take 4 buffer) == 0)
        || not (get e 4 (take 4 (drop 4 buffer)) == transaction_id)
      then unexpected protocol_error
      else value (get e 8 (take 8 (drop 8 buffer)))

  -- The datagram overwrites the front of the buffer; what does not fit is cut.
  connect_answer : ℕ → List ℕ → Expected (List ℕ) → Expected ℕ
  unfolding check_connect
  connect_answer transaction_id request (unexpected err) = unexpected err
  connect_answer transaction_id request (value datagram) =
      check_connect transaction_id (splice request 0 (take connect_size datagram))

  after_connect : ℕ → List ℕ → Option Error → Expected (List ℕ) → Expected ℕ
  unfolding connect_answer
  after_connect transaction_id request (some err) received = unexpected err
  after_connect transaction_id request none received =
      connect_answer transaction_id request received

  -- The request that is sent, and the connection id.
  unfoldable pub send_connect_request : List ℕ → ℕ → Network → List ℕ × Expected ℕ
  unfolding write_all after_connect
  send_connect_request connect_buffer transaction_id net =
      let request = write_all connect_buffer (connect_fields transaction_id) in
      (request, after_connect transaction_id request net.sent net.received)

  abbrev pub announce_fields : UdpTracker → ℕ → ℕ → List (ℕ × List ℕ)
  announce_fields tracker connection_id transaction_id =
      (0, put e 8 connection_id)
      ∷ (8, put e 4 1)
      ∷ (12, put e 4 transaction_id)
      ∷ (16, tracker.info_hash)
      ∷ (36, tracker.torr_client_id)
      ∷ (56, put e 8 tracker.downloaded)
      ∷ (64, put e 8 (sub_size tracker.torrent_size tracker.downloaded))
      ∷ (72, put e 8 tracker.uploaded)
      ∷ (80, to_memory e 4 0)
      ∷ (84, to_memory e 4 0)
      ∷ (88, to_memory e 4 0)
      ∷ (92, put e 4 tracker_num_want)
      ∷ (96, put e 2 tracker.torr_client_port)
      ∷ []

  -- The interval is stored before the answer is checked.
  unfoldable pub check_announce :
      UdpTracker → ℕ → List ℕ → ℕ → UdpTracker × Expected (List PeerInfo)
  unfolding extract_peers
  check_announce tracker transaction_id buffer bytes_received = (
    record tracker { interval = get e 4 (take 4 (drop 8 buffer)) },
    (if not (get e 4 (take 4 buffer) == 1)
          || not (get e 4 (take 4 (drop 4 buffer)) == transaction_id)
        then unexpected protocol_error
        else extract_peers (take (sub_size bytes_received 20) (drop 20 buffer))),
  )

  announce_answer :
      UdpTracker → ℕ → List ℕ → Expected (List ℕ) → UdpTracker × Expected (List PeerInfo)
  unfolding check_announce
  announce_answer tracker transaction_id request (unexpected err) = (tracker, unexpected err)
  announce_answer tracker transaction_id request (value datagram) =
      let bytes = take announce_size datagram in
      if ltb (length bytes) 20
      then (tracker, unexpected protocol_error)
      else check_announce tracker transaction_id (splice request 0 bytes) (length bytes)

  after_announce :
      UdpTracker
      → ℕ
      → List ℕ
      → Option Error
      → Expected (List ℕ)
      → UdpTracker × Expected (List PeerInfo)
  unfolding announce_answer
  after_announce tracker transaction_id request (some err) received = (tracker, unexpected err)
  after_announce tracker transaction_id request none received =
      announce_answer tracker transaction_id request received

  -- The request that is sent, and the tracker and the peers after the call.
  unfoldable pub send_announce_request :
      UdpTracker → List ℕ → ℕ → ℕ → Network → List ℕ × UdpTracker × Expected (List PeerInfo)
  unfolding write_all after_announce
  send_announce_request tracker announce_buffer connection_id transaction_id net =
      let request =
        write_all announce_buffer (announce_fields tracker connection_id transaction_id) in
      let (after, peers) = after_announce tracker transaction_id request net.sent net.received in
      (request, after, peers)

  -- What a call of `retrieve_peers` meets: whether the host resolves, the old contents of the buffers,
  -- the random numbers, and the two exchanges.
  pub record World : Type 0 where
    pub resolved : Bool
    pub connect_buffer : List ℕ
    pub announce_buffer : List ℕ
    pub connect_id : ℕ
    pub announce_id : ℕ
    pub connecting : Network
    pub announcing : Network

  extracted : Expected (List PeerInfo) → Option (List PeerInfo)
  extracted (value peers) = some peers
  extracted (unexpected err) = none

  connected : UdpTracker → World → Expected ℕ → UdpTracker × Option (List PeerInfo)
  unfolding send_announce_request extracted
  connected tracker world (unexpected err) = (tracker, none)
  connected tracker world (value connection_id) =
      let (request, after, peers) =
        send_announce_request tracker world.announce_buffer connection_id world.announce_id
          world.announcing in
      (after, extracted peers)

  unfoldable pub retrieve_peers : UdpTracker → ℕ → ℕ → World → UdpTracker × Option (List PeerInfo)
  unfolding send_connect_request connected
  retrieve_peers tracker downloaded uploaded world =
      let asking = record tracker { downloaded = downloaded; uploaded = uploaded } in
      if not world.resolved
      then (asking, none)
      else connected asking world
          (send_connect_request world.connect_buffer world.connect_id world.connecting).1
