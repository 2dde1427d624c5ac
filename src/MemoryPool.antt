-- ===== src/MemoryPool.antt =====
-- src/MemoryPool.hpp, src/MemoryPool.cpp, src/FixedSizeAllocator.hpp and `next_aligned` of
-- src/Utils.hpp: a pool of blocks of one size with a free list inside the blocks. An address is counted
-- from the start of the pool, and `words` holds the number at the start of each block. A pool that the
-- system cannot give is left out.
pub mod Chain
pub mod Valid
pub mod Run
mod Tests
use cpp_torrent.Base.{
  ℕ, zero, suc, ◌+◌, ◌-◌, ◌*◌, ◌/◌, ◌%◌, Bool, true, false, Option, none, some, List, [], ◌∷◌, ltb,
  if◌then◌else◌, get_or, set, replicate, size_mod, sub_size,
}

-- `alignof(std::max_align_t)`.
abbrev pub alignment : ℕ
alignment = 16

-- `(value + (alignment - 1)) & ~(alignment - 1)`, the alignment being a power of two.
unfoldable pub next_aligned : ℕ → ℕ
next_aligned n =
    let raised = (n + (alignment - 1)) % size_mod in sub_size raised (raised % alignment)

pub record MemoryPool : Type 0 where
  pub block_count : ℕ
  pub aligned_block_size : ℕ
  pub free_blocks : ℕ
  pub initialized_blocks : ℕ
  pub next_free_block : Option ℕ
  pub words : List ℕ

-- The constructor. The allocated memory holds anything; here it holds zeros.
unfoldable pub init : ℕ → ℕ → MemoryPool
unfolding next_aligned
init block_size block_count = record {
  block_count = block_count;
  aligned_block_size = next_aligned block_size;
  free_blocks = block_count;
  initialized_blocks = 0;
  next_free_block = some 0;
  words = replicate block_count 0;
}

abbrev pub addr_from_index : MemoryPool → ℕ → ℕ
addr_from_index p index = (index * p.aligned_block_size) % size_mod

abbrev pub index_from_addr : MemoryPool → ℕ → ℕ
index_from_addr p addr = addr / p.aligned_block_size

-- The next block that was never handed out gets the index of the block behind it.
unfoldable pub initialize_next : MemoryPool → MemoryPool
initialize_next p =
    if ltb p.initialized_blocks p.block_count
    then record p {
      words = set p.words p.initialized_blocks (p.initialized_blocks + 1);
      initialized_blocks = p.initialized_blocks + 1;
    }
    else p

-- The block behind the free block at `addr`, if there is one.
unfoldable pub following : MemoryPool → Option ℕ → Option ℕ
following p none = none
following p (some addr) =
    if ltb 0 (p.free_blocks - 1)
    then some (addr_from_index p (get_or p.words (index_from_addr p addr) 0))
    else none

unfoldable pub take_free : MemoryPool → Option ℕ × MemoryPool
unfolding following
take_free p =
    if ltb 0 p.free_blocks
    then (
      p.next_free_block,
      record p { free_blocks = p.free_blocks - 1; next_free_block = following p p.next_free_block },
    )
    else (none, p)

-- The address of the block, if there is one, and the pool after the call.
unfoldable pub allocate : MemoryPool → ℕ → Option ℕ × MemoryPool
unfolding initialize_next take_free
allocate p size = if ltb p.aligned_block_size size then (none, p) else take_free (initialize_next p)

abbrev next_index : MemoryPool → Option ℕ → ℕ
next_index p none = p.block_count
next_index p (some addr) = index_from_addr p addr

unfoldable pub deallocate : MemoryPool → Option ℕ → MemoryPool
deallocate p none = p
deallocate p (some ptr) = record p {
  words = set p.words (index_from_addr p ptr) (next_index p p.next_free_block);
  next_free_block = some ptr;
  free_blocks = p.free_blocks + 1;
}

-- `FixedSizeAllocator::allocate` for `n` elements of `element_size` bytes.
unfoldable pub allocate_elements : MemoryPool → ℕ → ℕ → Option ℕ × MemoryPool
unfolding allocate
allocate_elements p element_size n = allocate p ((n * element_size) % size_mod)
