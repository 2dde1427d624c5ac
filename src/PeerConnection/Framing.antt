-- ===== src/PeerConnection/Framing.antt =====
-- The loop of `receive_messages` ends: each turn that goes on takes at least the four bytes of a length.
use cpp_torrent.Base.{
  ℕ, zero, suc, ◌-◌, ◌≤◌, ◌<◌, ◌≢◌, Option, none, some, List, [], ◌∷◌, arith, ltb, ◌==◌, length,
  take, drop, length-drop, Bool-cases, inl, inr,
}
use cpp_torrent.Net.{Endian, get}
use cpp_torrent.PieceManager
use cpp_torrent.PieceManager.{PieceManager}
use cpp_torrent.PeerConnection.{Failure}
use cpp_torrent.PeerConnection.Receive.{
  Session, Turn, fault, failed, next, ended, faulted, out_of_fuel, handled, handle_message,
  receive_body, receive_message, receive_messages, receive_buffer_size, type_of_byte, payload_of,
}

module _ (e : Endian) (sha1 : List ℕ → List ℕ) where
  -- A turn that goes on leaves fewer bytes than `n`.
  abbrev Shorter : ℕ → Turn e sha1 → Type 0
  Shorter n fault = Unit {0}
  Shorter n (failed s) = Unit {0}
  Shorter n (next rest s) = length rest < n

  handled-Shorter :
      (n : ℕ) (rest : List ℕ) (s : Option Session)
      → length rest < n
      → Shorter n (handled e sha1 rest s)
  unfolding handled
  handled-Shorter n rest none h = tt
  handled-Shorter n rest (some s) h = h

  receive_body-Shorter :
      (size : ℕ) (bytes : List ℕ) (ec : Failure) (s : Session)
      → Shorter (suc (length bytes)) (receive_body e sha1 size bytes ec s)
  unfolding receive_body
  receive_body-Shorter size [] ec s = tt
  receive_body-Shorter size (id ∷ bytes) ec s =
      let over = ltb (receive_buffer_size e sha1 s.connection) (size - 1) in
      elim (Bool-cases over) [
        | inl faulty ↦ rw faulty tt
        | inr fits ↦ elim (Bool-cases (ltb (length bytes) (size - 1))) [
          | inl short ↦ rw (fits, short) tt
          | inr enough ↦
              rw (fits, enough)
                (handled-Shorter (suc (suc (length bytes))) (drop (size - 1) bytes)
                  (handle_message e sha1
                    (record { id = type_of_byte id; payload = payload_of e sha1 size bytes }) s)
                  (omega (arith, length-drop (size - 1) bytes)))
        ]
      ]

  receive_message-Shorter :
      (bytes : List ℕ) (ec : Failure) (s : Session)
      → Shorter (length bytes) (receive_message e sha1 bytes ec s)
  unfolding receive_message
  receive_message-Shorter bytes ec s = elim (Bool-cases (ltb (length bytes) 4)) [
    | inl short ↦ rw short tt
    | inr whole ↦ elim (Bool-cases (get e 4 (take 4 bytes) == 0)) [
      | inl alive ↦ rw (whole, alive) (ground (arith, length-drop 4 bytes))
      | inr more ↦
          rw (whole, more)
            (shorter (receive_body e sha1 (get e 4 (take 4 bytes)) (drop 4 bytes) ec s)
              (receive_body-Shorter (get e 4 (take 4 bytes)) (drop 4 bytes) ec s)
              (ground (arith, length-drop 4 bytes)))
    ]
  ]
    where
      shorter : {m n : ℕ} (turn : Turn e sha1) → Shorter m turn → m ≤ n → Shorter n turn
      shorter fault h l = tt
      shorter (failed t) h l = tt
      shorter (next rest t) h l = omega arith

  -- With more fuel than there are bytes the loop of `receive_messages` never runs out of it: it
  -- ends by a failed transfer, a fault or the end of the download.
  pub receive_messages-fuel :
      (fuel : ℕ) (bytes : List ℕ) (ec : Failure) (s : Session)
      → length bytes < fuel
      → receive_messages e sha1 fuel bytes ec s ≢ out_of_fuel
  unfolding receive_messages
  receive_messages-fuel zero bytes ec s h = absurd (omega arith)
  receive_messages-fuel (suc fuel) bytes ec s h =
      elim (Bool-cases (PieceManager.completed s.manager)) [
        | inl done ↦ rw (receive_messages, done) (λ x. cc)
        | inr more ↦
            rw (receive_messages, more)
              (goes (receive_message e sha1 bytes ec s) (receive_message-Shorter bytes ec s)
                (λ rest t l. receive_messages-fuel fuel rest ec t (omega arith)))
      ]
    where
      goes :
          (turn : Turn e sha1)
          → Shorter (length bytes) turn
          → ((rest : List ℕ) (t : Session)
              → length rest < length bytes
              → receive_messages e sha1 fuel rest ec t ≢ out_of_fuel)
          → elim turn [
            | fault ↦ faulted
            | failed t ↦ ended t
            | next rest t ↦ receive_messages e sha1 fuel rest ec t
          ]
            ≢ out_of_fuel
      goes fault l go = λ x. cc
      goes (failed t) l go = λ x. cc
      goes (next rest t) l go = go rest t l
