-- ===== src/PeerConnection/Messages.antt =====
-- A message from the peer, whatever it says, does no harm: what was valid stays valid.
use cpp_torrent.Base.{
  ℕ, zero, suc, ◌≡◌, ◌≤◌, ◌<◌, refl, subst, Bool, true, false, ◌||◌, not, Option, none, some, List,
  [], ◌∷◌, arith, ltb, ◌==◌, length, get_or, set, take, drop, u32_mod, Bool-cases, inl, inr,
  length-take, length-drop, ceil_div, ◌%◌,
}
use cpp_torrent.Net.{Endian, get}
use cpp_torrent.Net.Order.{AreBytes, get-lt}
use cpp_torrent.Message.{
  MessageType, choke, unchoke, interested, not_interested, have, bitfield, request, piece, cancel,
  port, keep_alive, nothing, invalid, unnamed, Message, parse_piece_message,
}
use cpp_torrent.PieceManager
use cpp_torrent.PieceManager.{PieceManager, plus}
use cpp_torrent.PieceManager.Valid.{IsValid}
use cpp_torrent.PieceManager.Intact.{Intact}
use cpp_torrent.PieceManager.Run.{Step, received, announced, joined_or_left, Step-safe}
use cpp_torrent.PeerConnection.{PeerConnection, Block, no_request}
use cpp_torrent.PeerConnection.Pending.{Ready, remove_pending-Ready}
use cpp_torrent.PeerConnection.Receive.{
  Session, with_manager, forget, same_block, bits_from, handle_have_message,
  handle_bitfield_message, handle_piece_message, piece_received, handle_message,
}

forget-Ready : (block : Block) (n i : ℕ) (c : PeerConnection) → Ready c → Ready (forget block n i c)
unfolding forget
forget-Ready block zero i c r = r
forget-Ready block (suc n) i c r =
    elim (Bool-cases (same_block (get_or c.blocks_info i no_request).0 block)) [
      | inl found ↦ subst Ready (ground (arith, found)) (remove_pending-Ready i c r)
      | inr other ↦ subst Ready (ground (arith, other)) (forget-Ready block n (suc i) c r)
    ]

AreBytes-take : (n : ℕ) (bs : List ℕ) → AreBytes bs → AreBytes (take n bs)
AreBytes-take zero bs h = tt
AreBytes-take (suc n) [] h = tt
AreBytes-take (suc n) (b ∷ bs) h = (h.0, AreBytes-take n bs h.1)

AreBytes-drop : (n : ℕ) (bs : List ℕ) → AreBytes bs → AreBytes (drop n bs)
AreBytes-drop zero bs h = h
AreBytes-drop (suc n) [] h = tt
AreBytes-drop (suc n) (b ∷ bs) h = AreBytes-drop n bs h.1

-- The offset in a piece message has 32 bits.
pub piece_offset-lt :
    (e : Endian) (payload : List ℕ)
    → AreBytes payload
    → 8 ≤ length payload
    → get e 4 (take 4 (drop 4 payload)) < u32_mod
piece_offset-lt e payload b l =
    let four : length (take 4 (drop 4 payload)) ≡ 4 =
      ground (arith, length-take 4 (drop 4 payload), length-drop 4 payload) in
    let small =
      get-lt e 4 (take 4 (drop 4 payload))
        (AreBytes-take 4 (drop 4 payload) (AreBytes-drop 4 payload b)) four in
    omega (arith, small)

module _ (sha1 : List ℕ → List ℕ) where
  -- The connection can run, the piece manager is valid, and what it counts as completed is on disk.
  pub record Safe (s : Session) : Type 0 where
    pub ready : Ready s.connection
    pub valid : IsValid s.manager
    pub intact : Intact sha1 s.manager

  -- A handler that ends in a call on the piece manager.
  by_step :
      (s : Session) (c : PeerConnection) (r : Option PieceManager) {t : Session}
      → Safe s
      → Ready c
      → ((m : PieceManager) → r ≡ some m → Step sha1 s.manager m)
      → with_manager c r ≡ some t
      → Safe t
  by_step s c none h k step e = absurd (ground arith)
  by_step s c (some m) h k step e =
      let (v, i) = Step-safe sha1 (step m refl) (h.valid, h.intact) in
      subst Safe (ground arith) (record { ready = k; valid = v; intact = i })

  have_message :
      (e : Endian) (payload : List ℕ) (s : Session) {t : Session}
      → Safe s
      → handle_have_message e sha1 payload s ≡ some t
      → Safe t
  unfolding handle_have_message
  have_message e payload s {t} h r =
      let k = get e 4 payload in
      elim (Bool-cases (not (length payload == 4) || not (ltb k (length s.connection.bitfield)))) [
        | inl bad ↦ absurd (ground arith)
        | inr good ↦
            by_step s (record s.connection { bitfield = set s.connection.bitfield k true })
              (PieceManager.add_available_piece k s.manager) h
              (record { places = h.ready.places; taken = h.ready.taken }) (λ m q. announced k q)
              (ground arith)
      ]

  bitfield_message :
      (payload : List ℕ) (s : Session) {t : Session}
      → Safe s
      → handle_bitfield_message payload s ≡ some t
      → Safe t
  unfolding handle_bitfield_message
  bitfield_message payload s {t} h r =
      let bits = bits_from payload 0 (length s.connection.bitfield) in
      elim (Bool-cases (ltb (length payload) (ceil_div (length s.connection.bitfield) 8))) [
        | inl bad ↦ absurd (ground arith)
        | inr good ↦
            by_step s (record s.connection { bitfield = bits; bitfield_received = true })
              (PieceManager.add_peer_bitfield bits s.manager) h
              (record { places = h.ready.places; taken = h.ready.taken })
              (λ m q. joined_or_left plus bits q) (ground arith)
      ]

  piece_message :
      (e : Endian) (payload : List ℕ) (s : Session) {t : Session}
      → AreBytes payload
      → Safe s
      → handle_piece_message e sha1 payload s ≡ some t
      → Safe t
  unfolding handle_piece_message piece_received parse_piece_message
  piece_message e payload s {t} b h r = elim (Bool-cases (ltb (length payload) 8)) [
    | inl short ↦ subst Safe (ground arith) h
    | inr whole ↦
        let k = get e 4 (take 4 payload) in
        let offset = get e 4 (take 4 (drop 4 payload)) in
        let block = drop 8 payload in
        let c = forget (k, offset, length block % u32_mod) s.connection.count 0 s.connection in
        by_step s c (PieceManager.receive_block sha1 k block offset s.manager) h
          (forget-Ready (k, offset, length block % u32_mod) s.connection.count 0 s.connection
            h.ready)
          (λ m q. received k block offset (piece_offset-lt e payload b (ground arith)) q)
          (ground arith)
  ]

  -- The payload of a message, if it has one, consists of bytes.
  abbrev pub BytesOf : Option (List ℕ) → Type 0
  BytesOf none = Unit {0}
  BytesOf (some payload) = AreBytes payload

  choked-Safe :
      (s : Session) (b : Bool)
      → Safe s
      → Safe (record s { connection = record s.connection { peer_choking = b } })
  choked-Safe s b h = record {
    ready = record { places = h.ready.places; taken = h.ready.taken };
    valid = h.valid;
    intact = h.intact;
  }

  dispatched :
      (e : Endian) (id : MessageType) (payload : Option (List ℕ)) (s : Session) {t : Session}
      → BytesOf payload
      → Safe s
      → handle_message e sha1 (record { id = id; payload = payload }) s ≡ some t
      → Safe t
  unfolding handle_message
  dispatched e choke payload s b h r = subst Safe (ground arith) (choked-Safe s true h)
  dispatched e unchoke payload s b h r = subst Safe (ground arith) (choked-Safe s false h)
  dispatched e have none s b h r = absurd (ground arith)
  dispatched e have (some payload) s b h r = have_message e payload s h r
  dispatched e bitfield none s b h r = absurd (ground arith)
  dispatched e bitfield (some payload) s b h r = bitfield_message payload s h r
  dispatched e piece none s b h r = absurd (ground arith)
  dispatched e piece (some payload) s b h r = piece_message e payload s b h r
  dispatched e interested payload s b h r = subst Safe (ground arith) h
  dispatched e not_interested payload s b h r = subst Safe (ground arith) h
  dispatched e request payload s b h r = subst Safe (ground arith) h
  dispatched e cancel payload s b h r = subst Safe (ground arith) h
  dispatched e port payload s b h r = subst Safe (ground arith) h
  dispatched e keep_alive payload s b h r = subst Safe (ground arith) h
  dispatched e nothing payload s b h r = subst Safe (ground arith) h
  dispatched e invalid payload s b h r = subst Safe (ground arith) h
  dispatched e (unnamed n) payload s b h r = subst Safe (ground arith) h

  -- A message that is handled without a fault, whatever its type and the bytes of its payload,
  -- leaves a connection that has its ten places and at most ten pending requests, a valid piece
  -- manager, and every completed piece in the files with its hash, if they were so before.
  pub handle_message-Safe :
      (e : Endian) (msg : Message) (s : Session) {t : Session}
      → BytesOf msg.payload
      → Safe s
      → handle_message e sha1 msg s ≡ some t
      → Safe t
  handle_message-Safe e msg s b h r = dispatched e msg.id msg.payload s b h r
