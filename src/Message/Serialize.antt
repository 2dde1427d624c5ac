-- ===== src/Message/Serialize.antt =====
-- The bytes of the messages that are sent, and of the piece message that is read.
use cpp_torrent.Base.{
  ℕ, ◌+◌, ◌%◌, ◌≤◌, ◌<◌, ◌≡◌, refl, sym, ap, ◌∙◌, false, none, some, List, [], ◌∷◌, ◌++◌, arith,
  length, length-append, drop, set, splice, set-eq-splice, length-splice, take-append, drop-append,
  u32_mod, ltb, ◌==◌, if◌then◌else◌, append-nil, append_assoc, Bool-cases, inl, inr, ltb→le, le→ltb,
  drop-eq-nil,
}
use cpp_torrent.Net.{Endian, put, write_all}
use cpp_torrent.Net.Order.{length-put, get-put}
use cpp_torrent.Net.Layout.{write_all-fields, write_all-append, drop-add}
use cpp_torrent.Message.{
  MessageType, request, cancel, byte_of_type, is_keep_alive, serialize_message, request_payload,
  create_request_message, create_cancel_message, parse_piece_message,
}

module _ (e : Endian) where
  message_fields : ℕ → MessageType → List ℕ → List (ℕ × List ℕ)
  message_fields size id payload = (0, put e 4 size) ∷ (4, byte_of_type id ∷ []) ∷ (5, payload) ∷ []

  -- The three writes of `serialize_message`.
  abbrev written : ℕ → MessageType → List ℕ → List ℕ → List ℕ
  written size id payload buffer =
      splice (set (splice buffer 0 (put e 4 size)) 4 (byte_of_type id)) 5 payload

  written-eq-frame :
      (size : ℕ) (id : MessageType) (payload buffer : List ℕ)
      → 5 + length payload ≤ length buffer
      → written size id payload buffer
        ≡ put e 4 size ++ (byte_of_type id ∷ (payload ++ drop (5 + length payload) buffer))
  unfolding message_fields write_all
  written-eq-frame size id payload buffer h =
      ap (λ b. splice b 5 payload)
        (set-eq-splice (splice buffer 0 (put e 4 size)) 4 (byte_of_type id)
          (omega (arith, length-put e 4 size, length-splice buffer 0 (put e 4 size))))
      ∙ write_all-append [] buffer (message_fields size id payload)
          (omega (arith, length-put e 4 size))
      ∙ rw (append-nil payload, append_assoc (put e 4 size) (byte_of_type id ∷ payload))
          (ap (λ n. put e 4 size ++ (byte_of_type id ∷ (payload ++ drop n buffer)))
            (omega (
              arith,
              length-append (put e 4 size) (byte_of_type id ∷ payload),
              length-put e 4 size,
            )))

  -- The wire format of a message: its length, its id, its payload.
  abbrev pub frame : MessageType → List ℕ → List ℕ
  frame id payload = put e 4 (1 + length payload) ++ (byte_of_type id ∷ payload)

  -- A message that fits the buffer is written as its frame, and what lies behind is kept; in a
  -- nonempty buffer that is too small the assertion fails.
  pub serialize_message-frame :
      (id : MessageType) (payload buffer : List ℕ)
      → is_keep_alive id ≡ false
      → 5 + length payload < u32_mod
      → 0 < length buffer
      → serialize_message e (record { id = id; payload = some payload }) buffer ≡ (
          if ltb (length buffer) (5 + length payload)
          then none
          else some (frame id payload ++ drop (5 + length payload) buffer))
  unfolding serialize_message
  serialize_message-frame id payload buffer k h pos =
      let size : (1 + length payload) % u32_mod ≡ 1 + length payload = omega arith in
      let need : (4 + (1 + length payload)) % u32_mod ≡ 5 + length payload = omega arith in
      let empty : (length buffer == 0) ≡ false = ground arith in
      elim (Bool-cases (ltb (length buffer) (5 + length payload))) [
        | inl small ↦ rw (empty, k, size, need, small)
        | inr fits ↦
            rw (empty, k, size, need, fits)
              (ap some (
                written-eq-frame (1 + length payload) id payload buffer (ltb→le _ _ fits)
                ∙ sym (
                    append_assoc (put e 4 (1 + length payload)) (byte_of_type id ∷ payload)
                      (drop (5 + length payload) buffer))))
      ]

  -- The twelve bytes of a request, whatever the static array held.
  pub request_payload_lem :
      (static_payload : List ℕ) (piece_index offset len : ℕ)
      → length static_payload ≡ 12
      → request_payload e static_payload piece_index offset len
        ≡ put e 4 piece_index ++ (put e 4 offset ++ put e 4 len)
  unfolding request_payload
  request_payload_lem static_payload piece_index offset len h =
      write_all-fields static_payload
        ((0, put e 4 piece_index) ∷ (4, put e 4 offset) ∷ (8, put e 4 len) ∷ [])
        (omega (arith, length-put e 4 piece_index, length-put e 4 offset))
        (omega (
          arith,
          length-append (put e 4 piece_index) (put e 4 offset ++ (put e 4 len ++ [])),
          length-append (put e 4 offset) (put e 4 len ++ []),
          length-append (put e 4 len) [],
          length-put e 4 piece_index,
          length-put e 4 offset,
          length-put e 4 len,
        ))
      ∙ rw (append-nil (put e 4 len))

  length-request_payload :
      (static_payload : List ℕ) (piece_index offset len : ℕ)
      → length static_payload ≡ 12
      → length (request_payload e static_payload piece_index offset len) ≡ 12
  length-request_payload static_payload piece_index offset len h = omega (
    arith,
    ap length (request_payload_lem static_payload piece_index offset len h),
    length-append (put e 4 piece_index) (put e 4 offset ++ put e 4 len),
    length-append (put e 4 offset) (put e 4 len),
    length-put e 4 piece_index,
    length-put e 4 offset,
    length-put e 4 len,
  )

  fill_seventeen :
      (id : MessageType) (payload buffer : List ℕ)
      → is_keep_alive id ≡ false
      → length payload ≡ 12
      → length buffer ≡ 17
      → serialize_message e (record { id = id; payload = some payload }) buffer
        ≡ some (put e 4 13 ++ (byte_of_type id ∷ payload))
  fill_seventeen id payload buffer k h l =
      let n : 1 + length payload ≡ 13 = omega arith in
      serialize_message-frame id payload buffer k (omega arith) (omega arith)
      ∙ rw (le→ltb (length buffer) (5 + length payload) (omega arith), n)
          (ap some (rw (drop-eq-nil (5 + length payload) buffer (omega arith)) (append-nil _)))

  -- A request and a cancel message fill a buffer of 17 bytes with the length 13, the id 6 or 8, and
  -- the three numbers; neither the buffer's old contents nor the last call's payload shows in them.
  pub create_messages :
      (static_payload buffer : List ℕ) (piece_index offset len : ℕ)
      → length static_payload ≡ 12
      → length buffer ≡ 17
      → let numbers = put e 4 piece_index ++ (put e 4 offset ++ put e 4 len) in
        ((create_request_message e static_payload buffer piece_index offset len).1
          ≡ some (put e 4 13 ++ (6 ∷ numbers)))
        × ((create_cancel_message e static_payload buffer piece_index offset len).1
            ≡ some (put e 4 13 ++ (8 ∷ numbers)))
  unfolding create_request_message create_cancel_message
  create_messages static_payload buffer piece_index offset len h k = (
    fill_seventeen request payload buffer refl twelve k
        ∙ ap (λ p. some (put e 4 13 ++ (6 ∷ p))) numbers,
    fill_seventeen cancel payload buffer refl twelve k
        ∙ ap (λ p. some (put e 4 13 ++ (8 ∷ p))) numbers,
  )
    where
      payload : List ℕ
      payload = request_payload e static_payload piece_index offset len

      twelve : length payload ≡ 12
      twelve = length-request_payload static_payload piece_index offset len h

      numbers : payload ≡ put e 4 piece_index ++ (put e 4 offset ++ put e 4 len)
      numbers = request_payload_lem static_payload piece_index offset len h

  pub length-payload :
      (static_payload buffer : List ℕ) (piece_index offset len : ℕ)
      → length static_payload ≡ 12
      → length (create_request_message e static_payload buffer piece_index offset len).0 ≡ 12
  unfolding create_request_message
  length-payload static_payload buffer piece_index offset len h =
      length-request_payload static_payload piece_index offset len h

  -- For an index and an offset that are uint32_t, the payload that puts them in network order
  -- before a block parses to the three, on every host.
  pub parse_piece_message-put :
      (piece_index offset : ℕ) (block : List ℕ)
      → piece_index < u32_mod
      → offset < u32_mod
      → parse_piece_message e (put e 4 piece_index ++ (put e 4 offset ++ block))
        ≡ some (piece_index, block, offset)
  unfolding parse_piece_message
  parse_piece_message-put piece_index offset block h k =
      let first = put e 4 piece_index in
      let rest = put e 4 offset ++ block in
      let long : ltb (length (first ++ rest)) 8 ≡ false = ground (
        arith,
        length-append first rest,
        length-append (put e 4 offset) block,
        length-put e 4 piece_index,
        length-put e 4 offset,
      ) in
      rw (
        long,
        take-append first rest 4 (length-put e 4 piece_index),
        drop-add 4 4 (first ++ rest),
        drop-append first rest 4 (length-put e 4 piece_index),
        take-append (put e 4 offset) block 4 (length-put e 4 offset),
        drop-append (put e 4 offset) block 4 (length-put e 4 offset),
        get-put e e 4 piece_index h,
        get-put e e 4 offset k,
      )
