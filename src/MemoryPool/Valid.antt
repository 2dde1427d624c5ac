-- ===== src/MemoryPool/Valid.antt =====
-- The invariant of the pool: which blocks are handed out, and which are free.
pub mod Blocks
use native.Mathlib.Nat.{div-add-mod, mod-lt}
use cpp_torrent.Base.{
  ℕ, ◌+◌, ◌-◌, ◌*◌, ◌/◌, ◌%◌, ◌<◌, ◌≤◌, ◌≡◌, refl, sym, ap, subst, ◌∙◌, true, none, some, List, [],
  ◌∷◌, ◌++◌, arith, ltb, length, length-append, length-set, length-replicate, get_or, set,
  get_or-set_self, All, In, size_mod, Bool-cases, ◌⊎◌, inl, inr,
}
use cpp_torrent.PieceManager.Layout.{quotient_unique}
use cpp_torrent.MemoryPool.{
  MemoryPool, init, addr_from_index, index_from_addr, initialize_next, following, take_free,
  allocate, deallocate, next_index,
}
use cpp_torrent.MemoryPool.Chain.{
  Linked, NotIn, Distinct, Disjoint, Linked-set, Linked-snoc, NotIn-below, All-snoc, Distinct-snoc,
  Disjoint-below, All-weaken, remove, All-remove, Distinct-remove, NotIn-remove, length-remove,
  All-In, Disjoint-head, Disjoint-tail, Disjoint-cons,
}
use cpp_torrent.MemoryPool.Valid.Blocks.{
  IsValid, index, initialized, taken, Allocated, unchanged, nothing_left,
}

-- For a valid pool in which the blocks `live` are handed out: a request for more than a block fails and
-- changes nothing. Any other request fails only when every block is handed out; else it gets the
-- address of a block of the pool that is not handed out, and the pool stays valid with that block
-- handed out as well.
pub allocate_cases :
    (p : MemoryPool) (size : ℕ) (live free : List ℕ) → IsValid p live free → Allocated p size live
unfolding allocate
allocate_cases p size live free v = elim (Bool-cases (ltb p.aligned_block_size size)) [
  | inl big ↦ inl (ground arith, rw big refl)
  | inr small ↦
      let (chain, w, some_) = initialized p live free v in
      let (same_free, same_count, same_size) = unchanged p in
      rw small (
        inr (elim (Bool-cases (ltb 0 p.free_blocks)) [
          | inr empty ↦
              let z = nothing_left (initialize_next p) (ground arith) in
              inl (ground arith, ground (arith, v.shared), rw z refl, (chain, rw z w))
          | inl full ↦
              inr (ground arith, ground (arith, v.shared), given chain w (some_ (ground arith)))
        ]))
]
  where
    given :
        (chain : List ℕ)
        → IsValid (initialize_next p) live chain
        → 0 < length chain
        → (b : ℕ) × ((take_free (initialize_next p)).0 ≡ some (b * p.aligned_block_size))
          × (b < p.block_count)
          × NotIn b live
          × ((rest : List ℕ) × IsValid (take_free (initialize_next p)).1 (b ∷ live) rest)
    given [] w h = absurd (omega arith)
    given (y ∷ ys) w h =
        let (same_free, same_count, same_size) = unchanged p in
        let (a, t) = taken (initialize_next p) live y ys w in
        (
          y,
          a ∙ ap (λ n. some (y * n)) same_size,
          omega (arith, w.below_free.0, w.started, same_count),
          Disjoint-head live y ys w.disjoint,
          (ys, t),
        )

-- The chain that the block names which is given back.
to_next :
    (p : MemoryPool) (live free : List ℕ)
    → IsValid p live free
    → Linked p.words (next_index p p.next_free_block) free p.initialized_blocks
to_next p live free v = elim v.starts [
  | inr (h, (x, e, l)) ↦
      let named_ : next_index p p.next_free_block ≡ x =
        ap (next_index p) e ∙ index p x v.some_size in
      subst (λ n. Linked p.words n free p.initialized_blocks) (sym named_) l
  | inl (z, n) ↦
      subst (λ n. Linked p.words n free p.initialized_blocks) (sym (ap (next_index p) n))
        (ends free (omega (arith, v.left)) (omega (arith, v.left, v.started)))
]
  where
    ends :
        (bs : List ℕ)
        → length bs ≡ 0
        → p.block_count ≡ p.initialized_blocks
        → Linked p.words p.block_count bs p.initialized_blocks
    ends [] h e = e
    ends (c ∷ cs) h e = absurd (omega arith)

chained :
    (p : MemoryPool) (b : ℕ) (live free : List ℕ)
    → IsValid p live free
    → b < p.initialized_blocks
    → NotIn b free
    → Linked
        (set p.words b (next_index p p.next_free_block))
        (get_or (set p.words b (next_index p p.next_free_block)) b 0)
        free
        p.initialized_blocks
chained p b live free v below alone =
    let v' = next_index p p.next_free_block in
    subst (λ n. Linked (set p.words b v') n free p.initialized_blocks)
      (sym (get_or-set_self p.words b v' 0 (omega (arith, below, v.started, v.stored))))
      (Linked-set p.words v' free p.initialized_blocks b v' alone (to_next p live free v))

-- A block that is handed out can be given back: the pool stays valid without it among the blocks that
-- are handed out.
pub deallocate-IsValid :
    (p : MemoryPool) (b : ℕ) (live free : List ℕ)
    → IsValid p live free
    → In b live
    → IsValid (deallocate p (some (b * p.aligned_block_size))) (remove b live) (b ∷ free)
unfolding deallocate
deallocate-IsValid p b live free v i =
    let below = All-In (λ x. x < p.initialized_blocks) b live v.below_live i in
    let alone = All-In (λ x. NotIn x free) b live v.disjoint i in
    let gone = length-remove b live i in
    let one : 0 < length live = omega (arith, gone) in
    rw (index p b v.some_size) (record {
      some_size = v.some_size;
      fits = v.fits;
      started = v.started;
      stored = length-set p.words b _ ∙ v.stored;
      left = omega (arith, v.left);
      shared = omega (arith, v.shared, gone);
      below_free = (below, v.below_free);
      below_live = All-remove (λ x. x < p.initialized_blocks) b live v.below_live;
      distinct_free = (alone, v.distinct_free);
      distinct_live = Distinct-remove b live v.distinct_live;
      disjoint =
          Disjoint-cons (remove b live) b free (NotIn-remove b live v.distinct_live)
            (All-remove (λ x. NotIn x free) b live v.disjoint);
      starts = inr (omega arith, (b, refl, (refl, chained p b live free v below alone)));
    })
