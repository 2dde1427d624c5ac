-- ===== src/MemoryPool/Run.antt =====
-- Any use of a pool by clients that keep to the blocks that they were given.
use cpp_torrent.Base.{
  ℕ, ◌*◌, ◌/◌, ◌+◌, ◌<◌, ◌≡◌, sym, ap, subst, ◌∙◌, none, some, List, [], ◌∷◌, length, length-set,
  set, All, In, size_mod, inl, inr,
}
use cpp_torrent.MemoryPool.{MemoryPool, init, allocate, deallocate}
use cpp_torrent.MemoryPool.Chain.{NotIn, Distinct, Linked-set, All-In, remove, All-weaken}
use cpp_torrent.MemoryPool.Valid.{allocate_cases, deallocate-IsValid}
use cpp_torrent.MemoryPool.Valid.Blocks.{IsValid, init-IsValid, index}

-- A pool with the blocks that are handed out.
pub record Use : Type 0 where
  pub pool : MemoryPool
  pub live : List ℕ

-- One step: a block is handed out, or none; a block is given back; a client overwrites the start of a
-- block that it was given.
pub data Step : Use → Use → Type 0 where
  got :
      {u v : Use} (size b : ℕ)
      → allocate u.pool size ≡ (some (b * u.pool.aligned_block_size), v.pool)
      → v.live ≡ b ∷ u.live
      → Step u v
  refused :
      {u v : Use} (size : ℕ) → allocate u.pool size ≡ (none, v.pool) → v.live ≡ u.live → Step u v
  freed :
      {u v : Use} (b : ℕ)
      → In b u.live
      → deallocate u.pool (some (b * u.pool.aligned_block_size)) ≡ v.pool
      → v.live ≡ remove b u.live
      → Step u v
  overwritten :
      {u v : Use} (b w : ℕ)
      → In b u.live
      → record u.pool { words = set u.pool.words b w } ≡ v.pool
      → v.live ≡ u.live
      → Step u v

pub data Reaches (u : Use) : Use → Type 0 where
  start : Reaches u u
  then_ : {v w : Use} → Reaches u v → Step v w → Reaches u w

abbrev Holds : Use → Type 0
Holds u = (free : List ℕ) × IsValid u.pool u.live free

overwritten-IsValid :
    (p : MemoryPool) (b w : ℕ) (live free : List ℕ)
    → IsValid p live free
    → In b live
    → IsValid (record p { words = set p.words b w }) live free
overwritten-IsValid p b w live free v i = record {
  some_size = v.some_size;
  fits = v.fits;
  started = v.started;
  stored = length-set p.words b w ∙ v.stored;
  left = v.left;
  shared = v.shared;
  below_free = v.below_free;
  below_live = v.below_live;
  distinct_free = v.distinct_free;
  distinct_live = v.distinct_live;
  disjoint = v.disjoint;
  starts = elim v.starts [
    | inl z ↦ inl z
    | inr (h, (x, e, l)) ↦ inr (
      h,
      (
        x,
        e,
        Linked-set p.words x free p.initialized_blocks b w
            (All-In (λ x. NotIn x free) b live v.disjoint i) l,
      ),
    )
  ];
}

-- An address belongs to one block.
same_block :
    (p : MemoryPool) (b c : ℕ)
    → 0 < p.aligned_block_size
    → some (b * p.aligned_block_size) ≡ some (c * p.aligned_block_size)
    → b ≡ c
same_block p b c s e =
    let n : b * p.aligned_block_size ≡ c * p.aligned_block_size = cc in
    sym (index p b s) ∙ (ap (λ a. a / p.aligned_block_size) n ∙ index p c s)

clash : {n : ℕ} → none ≡ some n → ⊥
clash e = cc

moved :
    {p q : MemoryPool} {live kept free : List ℕ}
    → p ≡ q
    → live ≡ kept
    → IsValid p live free
    → IsValid q kept free
moved {p} {q} {live} {kept} {free} e f v =
    subst (λ r. IsValid r kept free) e (subst (λ l. IsValid p l free) f v)

Step-Holds : {u v : Use} → Step u v → Holds u → Holds v
Step-Holds {u} {v} (got size b e l) (free, h) = elim (allocate_cases u.pool size u.live free h) [
  | inl (big, none_) ↦ absurd (clash (sym (ap (λ r. r.0) none_) ∙ ap (λ r. r.0) e))
  | inr (inl (fits, full, none_, rest)) ↦ absurd (clash (sym none_ ∙ ap (λ r. r.0) e))
  | inr (inr (fits, room, (c, at, below, new, (chain, w)))) ↦
      let same = same_block u.pool c b h.some_size (sym at ∙ ap (λ r. r.0) e) in
      (chain, moved (ap (λ r. r.1) e) (ap (λ x. x ∷ u.live) same ∙ sym l) w)
]
Step-Holds {u} {v} (refused size e l) (free, h) = elim (allocate_cases u.pool size u.live free h) [
  | inl (big, none_) ↦ (free, moved (ap (λ r. r.1) (sym none_ ∙ e)) (sym l) h)
  | inr (inl (fits, full, none_, (chain, w))) ↦ (chain, moved (ap (λ r. r.1) e) (sym l) w)
  | inr (inr (fits, room, (c, at, below, new, rest))) ↦ absurd (clash (sym (ap (λ r. r.0) e) ∙ at))
]
Step-Holds {u} {v} (freed b i e l) (free, h) =
    (b ∷ free, moved e (sym l) (deallocate-IsValid u.pool b u.live free h i))
Step-Holds {u} {v} (overwritten b w i e l) (free, h) =
    (free, moved e (sym l) (overwritten-IsValid u.pool b w u.live free h i))

Reaches-Holds : {u v : Use} → Reaches u v → Holds u → Holds v
Reaches-Holds start h = h
Reaches-Holds (then_ r s) h = Step-Holds s (Reaches-Holds r h)

-- From a new pool with at least one block, of a size and number that a size_t can count, and after any
-- steps of clients that write only to blocks that they hold: the blocks that are handed out are
-- different blocks of the pool, and with the free ones they make up all of them.
pub Reaches-Distinct :
    (block_size block_count : ℕ) {u : Use}
    → 0 < (init block_size block_count).aligned_block_size
    → 0 < block_count
    → block_count * (init block_size block_count).aligned_block_size < size_mod
    → Reaches (record { pool = init block_size block_count; live = [] }) u
    → Distinct u.live
      × All (λ b. b < u.pool.block_count) u.live
      × (length u.live + u.pool.free_blocks ≡ u.pool.block_count)
Reaches-Distinct block_size block_count {u} s c f r =
    let (free, v) = Reaches-Holds r ([], init-IsValid block_size block_count s c f) in
    (
      v.distinct_live,
      All-weaken u.live u.pool.initialized_blocks u.pool.block_count v.started v.below_live,
      v.shared,
    )
