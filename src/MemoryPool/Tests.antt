-- ===== src/MemoryPool/Tests.antt =====
-- A pool of two blocks of sixteen bytes, and the theorems applied to it.
use cpp_torrent.Base.{◌+◌, ◌<◌, ◌≡◌, inl, inr, refl, none, some, [], ◌∷◌, arith, All}
use cpp_torrent.MemoryPool.{MemoryPool, init, allocate, deallocate, next_aligned}
use cpp_torrent.MemoryPool.Chain.{Distinct, remove}
use cpp_torrent.MemoryPool.Valid.{allocate_cases}
use cpp_torrent.MemoryPool.Valid.Blocks.{IsValid, Allocated, init-IsValid}
use cpp_torrent.MemoryPool.Run.{Reaches, got, freed, start, then_, Reaches-Distinct}

abbrev two : MemoryPool
two = init 10 2

two-IsValid : IsValid two [] []
unfolding init next_aligned
two-IsValid = init-IsValid 10 2 (omega arith) (omega arith) (omega arith)

abbrev one_left : MemoryPool
one_left = (allocate two 10).1

abbrev full : MemoryPool
full = (allocate one_left 10).1

abbrev returned : MemoryPool
returned = deallocate full (some 0)

first_is_given_again : (allocate returned 10).0 ≡ some 0
unfolding allocate deallocate init next_aligned
first_is_given_again = refl

third_fails : (allocate full 10).0 ≡ none
unfolding allocate init next_aligned
third_fails = refl

run : Reaches (record { pool = two; live = [] }) (record { pool = returned; live = 1 ∷ [] })
unfolding allocate deallocate init next_aligned remove
run =
    then_
      (then_ (then_ start (got {v = record { pool = one_left; live = 0 ∷ [] }} 10 0 refl refl))
        (got {v = record { pool = full; live = 1 ∷ 0 ∷ [] }} 10 1 refl refl))
      (freed 0 (inr (inl refl)) refl refl)

Reaches-Distinct_example :
    Distinct (1 ∷ [])
    × All (λ b. b < returned.block_count) (1 ∷ [])
    × (1 + returned.free_blocks ≡ returned.block_count)
Reaches-Distinct_example =
    Reaches-Distinct 10 2 (unfold init next_aligned in omega arith) (omega arith)
      (unfold init next_aligned in omega arith) run

allocate_cases_example : Allocated two 10 []
allocate_cases_example = allocate_cases two 10 [] [] two-IsValid
