-- ===== src/MemoryPool/Valid/Blocks.antt =====
-- What a valid pool of blocks is, and a block that is taken from it.
use native.Mathlib.Nat.{div-add-mod, mod-lt}
use cpp_torrent.Base.{
  ℕ, ◌+◌, ◌-◌, ◌*◌, ◌/◌, ◌%◌, ◌<◌, ◌≤◌, ◌≡◌, refl, ap, ◌∙◌, true, none, some, List, [], ◌∷◌, ◌++◌,
  arith, ltb, length, length-append, length-set, length-replicate, get_or, All, size_mod,
  Bool-cases, ◌⊎◌, inl, inr,
}
use cpp_torrent.PieceManager.Layout.{quotient_unique}
use cpp_torrent.MemoryPool.{
  MemoryPool, init, addr_from_index, index_from_addr, initialize_next, following, take_free,
  allocate,
}
use cpp_torrent.MemoryPool.Chain.{
  Linked, NotIn, Distinct, Disjoint, Linked-snoc, NotIn-below, All-snoc, Distinct-snoc,
  Disjoint-below, All-weaken, Disjoint-head, Disjoint-tail,
}

-- The next free block of a pool, `none` being the null pointer, begins the chain `free`.
abbrev Starts : MemoryPool → List ℕ → Type 0
Starts p free =
    ((p.free_blocks ≡ 0) × (p.next_free_block ≡ none))
    ⊎ ((0 < p.free_blocks)
        × ((x : ℕ) × (p.next_free_block ≡ some (x * p.aligned_block_size))
            × Linked p.words x free p.initialized_blocks))

-- The blocks `live` are handed out, and the blocks `free` were given back or stand ready; the blocks
-- behind `initialized_blocks` were never used.
pub record IsValid (p : MemoryPool) (live free : List ℕ) : Type 0 where
  pub some_size : 0 < p.aligned_block_size
  pub fits : p.block_count * p.aligned_block_size < size_mod
  pub started : p.initialized_blocks ≤ p.block_count
  pub stored : length p.words ≡ p.block_count
  pub left : p.free_blocks ≡ length free + (p.block_count - p.initialized_blocks)
  pub shared : length live + p.free_blocks ≡ p.block_count
  pub below_free : All (λ b. b < p.initialized_blocks) free
  pub below_live : All (λ b. b < p.initialized_blocks) live
  pub distinct_free : Distinct free
  pub distinct_live : Distinct live
  pub disjoint : Disjoint live free
  pub starts : Starts p free

pub index :
    (p : MemoryPool) (x : ℕ)
    → 0 < p.aligned_block_size
    → index_from_addr p (x * p.aligned_block_size) ≡ x
index p x s =
    let n = x * p.aligned_block_size in
    let split = div-add-mod n p.aligned_block_size in
    quotient_unique (n / p.aligned_block_size) x (n % p.aligned_block_size) 0 p.aligned_block_size
      (grind arith) (mod-lt n s) s

addr :
    (p : MemoryPool) (x : ℕ)
    → x ≤ p.block_count
    → p.block_count * p.aligned_block_size < size_mod
    → addr_from_index p x ≡ x * p.aligned_block_size
addr p x h f =
    let below : x * p.aligned_block_size ≤ p.block_count * p.aligned_block_size = grind arith in
    omega (arith, below, f)

-- A new pool: nothing is handed out, and nothing was used.
pub init-IsValid :
    (block_size block_count : ℕ)
    → 0 < (init block_size block_count).aligned_block_size
    → 0 < block_count
    → block_count * (init block_size block_count).aligned_block_size < size_mod
    → IsValid (init block_size block_count) [] []
unfolding init
init-IsValid block_size block_count s c f = record {
  some_size = s;
  fits = f;
  started = omega arith;
  stored = length-replicate block_count 0;
  left = omega arith;
  shared = omega arith;
  below_free = tt;
  below_live = tt;
  distinct_free = tt;
  distinct_live = tt;
  disjoint = tt;
  starts = inr (c, (0, ap some (omega arith), refl));
}

-- After `initialize_next` a pool with a free block has a chain that is not empty.
pub initialized :
    (p : MemoryPool) (live free : List ℕ)
    → IsValid p live free
    → (chain : List ℕ) × IsValid (initialize_next p) live chain
      × (0 < p.free_blocks → 0 < length chain)
unfolding initialize_next
initialized p live free v = elim (Bool-cases (ltb p.initialized_blocks p.block_count)) [
  | inr used ↦ rw used (free, v, λ h. ground (arith, v.left, v.started))
  | inl room ↦
      let k = p.initialized_blocks in
      let new = NotIn-below free k v.below_free in
      rw room (
        free ++ (k ∷ []),
        record {
          some_size = v.some_size;
          fits = v.fits;
          started = ground arith;
          stored = length-set p.words k (k + 1) ∙ v.stored;
          left = ground (arith, v.left, length-append free (k ∷ []));
          shared = v.shared;
          below_free =
              All-snoc (λ b. b < k + 1) free k
                (All-weaken free k (k + 1) (omega arith) v.below_free) (omega arith);
          below_live = All-weaken live k (k + 1) (omega arith) v.below_live;
          distinct_free = Distinct-snoc free k v.distinct_free new;
          distinct_live = v.distinct_live;
          disjoint = Disjoint-below live free k v.below_live v.disjoint;
          starts = elim v.starts [
            | inl (z, n) ↦ absurd (ground (arith, v.left))
            | inr (h, (x, e, l)) ↦
                inr
                  (h, (x, e, Linked-snoc p.words x free k (k + 1) (ground (arith, v.stored)) new l))
          ];
        },
        λ h. omega (arith, length-append free (k ∷ [])),
      )
]

-- A chain names blocks of the pool only.
named :
    (words : List ℕ) (x : ℕ) (free : List ℕ) (end : ℕ)
    → All (λ b. b < end) free
    → Linked words x free end
    → x ≤ end
named words x [] end a l = omega (arith, l)
named words x (y ∷ ys) end (h, a) (e, l) = omega (arith, e)

-- The next free block once the first one is taken.
after_taken :
    (p : MemoryPool) (live : List ℕ) (y : ℕ) (ys : List ℕ)
    → IsValid p live (y ∷ ys)
    → Linked p.words (get_or p.words y 0) ys p.initialized_blocks
    → Starts
        (record p {
          free_blocks = p.free_blocks - 1;
          next_free_block = following p (some (y * p.aligned_block_size));
        })
        ys
unfolding following
after_taken p live y ys v l = elim (Bool-cases (ltb 0 (p.free_blocks - 1))) [
  | inr last ↦ inl (ground arith, rw last refl)
  | inl more ↦
      let w = get_or p.words y 0 in
      let within = named p.words w ys p.initialized_blocks v.below_free.1 l in
      let place : addr_from_index p
            (get_or p.words (index_from_addr p (y * p.aligned_block_size)) 0)
          ≡ w * p.aligned_block_size =
        ap (λ i. addr_from_index p (get_or p.words i 0)) (index p y v.some_size)
        ∙ addr p w (omega (arith, within, v.started)) v.fits in
      inr (ground arith, (w, rw more (ap some place), l))
]

-- What `take_free` returns for a chain that starts with `y`.
pub taken :
    (p : MemoryPool) (live : List ℕ) (y : ℕ) (ys : List ℕ)
    → IsValid p live (y ∷ ys)
    → ((take_free p).0 ≡ some (y * p.aligned_block_size)) × IsValid (take_free p).1 (y ∷ live) ys
unfolding take_free following
taken p live y ys v = elim v.starts [
  | inl (z, n) ↦ absurd (omega (arith, v.left))
  | inr (h, (x, e, (same, l))) ↦
      let some_ : ltb 0 p.free_blocks ≡ true = ground arith in
      let next : p.next_free_block ≡ some (y * p.aligned_block_size) =
        e ∙ ap (λ i. some (i * p.aligned_block_size)) same in
      rw (some_, next)
        (
          refl,
          record {
            some_size = v.some_size;
            fits = v.fits;
            started = v.started;
            stored = v.stored;
            left = omega (arith, v.left);
            shared = omega (arith, v.shared);
            below_free = v.below_free.1;
            below_live = (v.below_free.0, v.below_live);
            distinct_free = v.distinct_free.1;
            distinct_live = (Disjoint-head live y ys v.disjoint, v.distinct_live);
            disjoint = (v.distinct_free.0, Disjoint-tail live y ys v.disjoint);
            starts = after_taken p live y ys v l;
          },
        )
]

-- What `allocate` does, in a pool where the blocks `live` are handed out.
abbrev pub Allocated : MemoryPool → ℕ → List ℕ → Type 0
Allocated p size live =
    ((p.aligned_block_size < size) × (allocate p size ≡ (none, p)))
    ⊎ (((size ≤ p.aligned_block_size)
          × (length live ≡ p.block_count)
          × ((allocate p size).0 ≡ none)
          × ((free : List ℕ) × IsValid (allocate p size).1 live free))
        ⊎ ((size ≤ p.aligned_block_size)
            × (length live < p.block_count)
            × ((b : ℕ) × ((allocate p size).0 ≡ some (b * p.aligned_block_size))
                × (b < p.block_count)
                × NotIn b live
                × ((free : List ℕ) × IsValid (allocate p size).1 (b ∷ live) free))))

pub unchanged :
    (p : MemoryPool)
    → ((initialize_next p).free_blocks ≡ p.free_blocks)
      × ((initialize_next p).block_count ≡ p.block_count)
      × ((initialize_next p).aligned_block_size ≡ p.aligned_block_size)
unfolding initialize_next
unchanged p = (ground arith, ground arith, ground arith)

pub nothing_left : (p : MemoryPool) → p.free_blocks ≡ 0 → take_free p ≡ (none, p)
unfolding take_free
nothing_left p z = ground arith
