-- ===== src/Swarm/Messages.antt =====
-- A message from a peer only calls the piece manager, and keeps the length of the bitfield.
use cpp_torrent.Base.{
  ℕ, zero, suc, ◌≡◌, refl, ap, subst, Bool, true, false, ◌||◌, not, Option, none, some, List, arith,
  ltb, ◌==◌, length, length-set, get_or, set, take, drop, u32_mod, Bool-cases, inl, inr, ceil_div,
  ◌%◌, none-ne-some, some_injective,
}
use cpp_torrent.Net.{Endian, get}
use cpp_torrent.Net.Order.{AreBytes}
use cpp_torrent.Message.{
  MessageType, choke, unchoke, interested, not_interested, have, bitfield, request, piece, cancel,
  port, keep_alive, nothing, invalid, unnamed, Message, parse_piece_message,
}
use cpp_torrent.PieceManager
use cpp_torrent.PieceManager.{PieceManager, plus}
use cpp_torrent.PieceManager.Run.{Step, received, announced, joined_or_left}
use cpp_torrent.PeerConnection.{PeerConnection, Block, no_request, remove_pending}
use cpp_torrent.PeerConnection.Receive.{
  Session, with_manager, forget, same_block, bits_from, handle_have_message,
  handle_bitfield_message, handle_piece_message, piece_received, handle_message,
}
use cpp_torrent.PeerConnection.Messages.{piece_offset-lt, BytesOf}
use cpp_torrent.Swarm.Requests.{Moves, called, stays}

forget-bitfield :
    (block : Block) (n i : ℕ) (c : PeerConnection) → (forget block n i c).bitfield ≡ c.bitfield
unfolding forget remove_pending
forget-bitfield block zero i c = refl
forget-bitfield block (suc n) i c =
    elim (Bool-cases (same_block (get_or c.blocks_info i no_request).0 block)) [
      | inl found ↦ rw found refl
      | inr other ↦ rw other (forget-bitfield block n (suc i) c)
    ]

length-bits_from : (payload : List ℕ) (i n : ℕ) → length (bits_from payload i n) ≡ n
unfolding bits_from
length-bits_from payload i zero = refl
length-bits_from payload i (suc n) = ap suc (length-bits_from payload (suc i) n)

module _ (e : Endian) (sha1 : List ℕ → List ℕ) where
  abbrev MovesTo : Session → Session → Type 0
  MovesTo s t = Moves sha1 s.connection s.manager t.connection t.manager

  by_step :
      (s : Session) (c : PeerConnection) (r : Option PieceManager) {t : Session}
      → ((m : PieceManager) → r ≡ some m → Step sha1 s.manager m)
      → length c.bitfield ≡ length s.connection.bitfield
      → with_manager c r ≡ some t
      → MovesTo s t
  by_step s c none step kept h = absurd (none-ne-some h)
  by_step s c (some m) step kept h =
      subst (MovesTo s) (some_injective h) (called sha1 (step m refl) kept)

  nothing_done : (s : Session) {t : Session} → some s ≡ some t → MovesTo s t
  nothing_done s h = subst (MovesTo s) (some_injective h) (stays sha1 _ _ _ _ refl refl)

  choked :
      (s : Session) (b : Bool) {t : Session}
      → some (record s { connection = record s.connection { peer_choking = b } }) ≡ some t
      → MovesTo s t
  choked s b h = subst (MovesTo s) (some_injective h) (stays sha1 _ _ _ _ refl refl)

  have_message :
      (payload : List ℕ) (s : Session) {t : Session}
      → handle_have_message e sha1 payload s ≡ some t
      → MovesTo s t
  unfolding handle_have_message
  have_message payload s h =
      let k = get e 4 payload in
      elim (Bool-cases (not (length payload == 4) || not (ltb k (length s.connection.bitfield)))) [
        | inl bad ↦ absurd (none-ne-some (rw bad at h))
        | inr good ↦
            by_step s (record s.connection { bitfield = set s.connection.bitfield k true })
              (PieceManager.add_available_piece k s.manager) (λ m q. announced k q)
              (length-set s.connection.bitfield k true) (rw good at h)
      ]

  bitfield_message :
      (payload : List ℕ) (s : Session) {t : Session}
      → handle_bitfield_message payload s ≡ some t
      → MovesTo s t
  unfolding handle_bitfield_message
  bitfield_message payload s h =
      let bits = bits_from payload 0 (length s.connection.bitfield) in
      elim (Bool-cases (ltb (length payload) (ceil_div (length s.connection.bitfield) 8))) [
        | inl bad ↦ absurd (none-ne-some (rw bad at h))
        | inr good ↦
            by_step s (record s.connection { bitfield = bits; bitfield_received = true })
              (PieceManager.add_peer_bitfield bits s.manager) (λ m q. joined_or_left plus bits q)
              (length-bits_from payload 0 (length s.connection.bitfield)) (rw good at h)
      ]

  piece_message :
      (payload : List ℕ) (s : Session) {t : Session}
      → AreBytes payload
      → handle_piece_message e sha1 payload s ≡ some t
      → MovesTo s t
  unfolding handle_piece_message piece_received parse_piece_message
  piece_message payload s b h = elim (Bool-cases (ltb (length payload) 8)) [
    | inl short ↦ nothing_done s (rw short at h)
    | inr whole ↦
        let k = get e 4 (take 4 payload) in
        let offset = get e 4 (take 4 (drop 4 payload)) in
        let block = drop 8 payload in
        let taken : Block = (k, offset, length block % u32_mod) in
        by_step s (forget taken s.connection.count 0 s.connection)
          (PieceManager.receive_block sha1 k block offset s.manager)
          (λ m q. received k block offset (piece_offset-lt e payload b (ground arith)) q)
          (ap length (forget-bitfield taken s.connection.count 0 s.connection)) (rw whole at h)
  ]

  dispatched :
      (id : MessageType) (payload : Option (List ℕ)) (s : Session) {t : Session}
      → BytesOf sha1 payload
      → handle_message e sha1 (record { id = id; payload = payload }) s ≡ some t
      → MovesTo s t
  unfolding handle_message
  dispatched choke payload s b h = choked s true h
  dispatched unchoke payload s b h = choked s false h
  dispatched have none s b h = absurd (none-ne-some h)
  dispatched have (some payload) s b h = have_message payload s h
  dispatched bitfield none s b h = absurd (none-ne-some h)
  dispatched bitfield (some payload) s b h = bitfield_message payload s h
  dispatched piece none s b h = absurd (none-ne-some h)
  dispatched piece (some payload) s b h = piece_message payload s b h
  dispatched interested payload s b h = nothing_done s h
  dispatched not_interested payload s b h = nothing_done s h
  dispatched request payload s b h = nothing_done s h
  dispatched cancel payload s b h = nothing_done s h
  dispatched port payload s b h = nothing_done s h
  dispatched keep_alive payload s b h = nothing_done s h
  dispatched nothing payload s b h = nothing_done s h
  dispatched invalid payload s b h = nothing_done s h
  dispatched (unnamed n) payload s b h = nothing_done s h

  pub handle_message-Moves :
      (msg : Message) (s : Session) {t : Session}
      → BytesOf sha1 msg.payload
      → handle_message e sha1 msg s ≡ some t
      → MovesTo s t
  handle_message-Moves msg s b h = dispatched msg.id msg.payload s b h
