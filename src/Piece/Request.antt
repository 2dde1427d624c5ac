-- ===== src/Piece/Request.antt =====
-- What `Piece::request_next_block` hands out, and when it hands out nothing. Piece.cpp.
use cpp_torrent.Base.{
  ℕ, zero, suc, ◌+◌, ◌*◌, ◌%◌, ◌≤◌, ◌<◌, min, ◌≡◌, refl, true, false, Option, none, some, List, [],
  ◌∷◌, arith, ◌==◌, if◌then◌else◌, length, get_or, set, get_or-set, length-set, In, u32_mod, ◌⊎◌,
  inl, inr, ◌↔◌, Bool-cases, Option-cases,
}
use cpp_torrent.Piece.{
  Piece, block_size, is_block_received, is_block_requested, is_block_timed_out,
  get_remaining_blocks, skips, next_block, size_of_block, mark_requested, request_next_block,
}
use cpp_torrent.Piece.Valid.{IsValid, count_none}
use cpp_torrent.Piece.Missing.{In-get_remaining_blocks}

next_block-eq_some :
    (p : Piece) (now b : ℕ) (bs : List ℕ)
    → next_block p now bs ≡ some b
    → In b bs × (skips p now b ≡ false)
unfolding next_block
next_block-eq_some p now b [] e = cc
next_block-eq_some p now b (c ∷ bs) e = elim (Bool-cases (skips p now c)) [
  | inl skip ↦ let (i, n) = next_block-eq_some p now b bs (rw skip at e) in (inr i, n)
  | inr take_ ↦ ground (arith, take_)
]

next_block-eq_none :
    (p : Piece) (now : ℕ) (bs : List ℕ)
    → next_block p now bs ≡ none
    → (b : ℕ) → In b bs
    → skips p now b ≡ true
unfolding next_block
next_block-eq_none p now [] e b i = absurd i
next_block-eq_none p now (c ∷ bs) e b (inl f) = ground arith
next_block-eq_none p now (c ∷ bs) e b (inr i) = ground (
  arith,
  next_block-eq_none p now bs,
  λ (h : next_block p now bs ≡ none). next_block-eq_none p now bs h b i,
)

count_none-set :
    (ts : List (Option ℕ)) (b now : ℕ)
    → b < length ts
    → count_none (set ts b (some now)) + (elim (get_or ts b none) [ none ↦ 1 | some _ ↦ 0 ])
      ≡ count_none ts
unfolding count_none
count_none-set [] b now h = absurd (omega arith)
count_none-set (none ∷ ts) zero now h = omega arith
count_none-set (some t ∷ ts) zero now h = omega arith
count_none-set (none ∷ ts) (suc b) now h = omega (arith, count_none-set ts b now)
count_none-set (some t ∷ ts) (suc b) now h = omega (arith, count_none-set ts b now)

count_none-le : (ts : List (Option ℕ)) → count_none ts ≤ length ts
unfolding count_none
count_none-le [] = omega arith
count_none-le (none ∷ ts) = omega (arith, count_none-le ts)
count_none-le (some t ∷ ts) = omega (arith, count_none-le ts)

-- The count of unrequested blocks keeps step with the request times.
mark_requested-IsValid :
    (p : Piece) (now b : ℕ) → IsValid p → b < p.blocks_cnt → IsValid (mark_requested p now b)
unfolding mark_requested
mark_requested-IsValid p now b v h = record {
  blocks = v.blocks;
  indexed = v.indexed;
  within = v.within;
  data_length = v.data_length;
  time_length = omega (arith, length-set p.block_request_time b (some now), v.time_length);
  inverse = v.inverse;
  unrequested = ground (
    arith,
    count_none-set p.block_request_time b now,
    count_none-le p.block_request_time,
    v.time_length,
    v.unrequested,
    v.indexed,
  );
}

-- The block `b` was handed out at `now`: `q` is the piece after it.
pub record HandedOut (p : Piece) (now b offset size : ℕ) (q : Piece) : Type 0 where
  pub in_piece : b < p.blocks_cnt
  pub unreceived : is_block_received p b ≡ false
  pub due : (is_block_requested p b ≡ false) ⊎ (is_block_timed_out p now b ≡ true)
  pub starts : offset ≡ b * block_size
  pub ends : offset + size ≡ min (offset + block_size) p.piece_size
  pub nonempty : 0 < size
  pub valid : IsValid q
  pub same_size : q.piece_size ≡ p.piece_size
  pub stamped :
      (c : ℕ)
      → get_or q.block_request_time c none
        ≡ (if c == b then some now else get_or p.block_request_time c none)
  pub status : (c : ℕ) → is_block_received q c ≡ is_block_received p c

-- Each block but the last is full, and the last one ends with the piece.
size_of_block_lem :
    (p : Piece) (b : ℕ)
    → IsValid p
    → b < p.blocks_cnt
    → (b * block_size + size_of_block p b ≡ min (b * block_size + block_size) p.piece_size)
      × (0 < size_of_block p b)
unfolding size_of_block
size_of_block_lem p b v h = ground (arith, v.blocks, v.indexed)

hand_out :
    (p : Piece) (now b : ℕ)
    → IsValid p
    → In b (get_remaining_blocks p)
    → skips p now b ≡ false
    → HandedOut p now b ((b * block_size) % u32_mod) (size_of_block p b) (mark_requested p now b)
unfolding mark_requested
hand_out p now b v i n =
    let (h, r) = (In-get_remaining_blocks p b v).0 i in
    let s = size_of_block_lem p b v h in
    let e : (b * block_size) % u32_mod ≡ b * block_size = omega (arith, v.indexed) in
    record {
      in_piece = h;
      unreceived = r;
      due = ground arith;
      starts = e;
      ends = omega (arith, e, s.0);
      nonempty = s.1;
      valid = mark_requested-IsValid p now b v h;
      same_size = refl;
      stamped =
          λ c. get_or-set p.block_request_time b c (some now) none (omega (arith, v.time_length));
      status = λ c. refl;
    }

-- Every block that is still to be received was requested, and that request has not timed out.
pub AllPending : Piece → ℕ → Type 0
AllPending p now =
    (b : ℕ)
    → b < p.blocks_cnt
    → is_block_received p b ≡ false
    → (is_block_requested p b ≡ true) × (is_block_timed_out p now b ≡ false)

-- A call on a valid piece either hands out a block that is missing and due, which starts at its
-- place in the piece and ends where the next block or the piece ends, and records the time of the
-- request; or finds every missing block pending and changes nothing.
pub request_next_block_cases :
    (p : Piece) (now : ℕ)
    → IsValid p
    → ((b : ℕ) × (offset : ℕ) × (size : ℕ) × (q : Piece) × (request_next_block p now
          ≡ (some (offset, size), q))
        × HandedOut p now b offset size q)
      ⊎ ((request_next_block p now ≡ (none, p)) × AllPending p now)
unfolding request_next_block AllPending
request_next_block_cases p now v = elim (Option-cases (next_block p now (get_remaining_blocks p))) [
  | inl e ↦ inr (
    rw (e, request_next_block) refl,
    λ b h n.
        let s =
          next_block-eq_none p now (get_remaining_blocks p) e b
            ((In-get_remaining_blocks p b v).1 (h, n)) in
        ground arith,
  )
  | inr (b, e) ↦
      let (i, n) = next_block-eq_some p now b (get_remaining_blocks p) e in
      inl (
        b,
        (b * block_size) % u32_mod,
        size_of_block p b,
        mark_requested p now b,
        rw (e, request_next_block) refl,
        hand_out p now b v i n,
      )
]

-- For a valid piece nothing is handed out exactly when every missing block was requested and has
-- not timed out.
pub request_next_block-none_iff :
    (p : Piece) (now : ℕ) → IsValid p → ((request_next_block p now).0 ≡ none) ↔ AllPending p now
unfolding AllPending
request_next_block-none_iff p now v = elim (request_next_block_cases p now v) [
  | inl (b, offset, size, q, e, h) ↦
      (λ n. cc, λ all. absurd (ground (arith, all b h.in_piece h.unreceived, h.due)))
  | inr (e, all) ↦ (λ _. all, λ _. rw e refl)
]
