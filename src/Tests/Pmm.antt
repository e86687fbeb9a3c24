-- ===== src/Tests/Pmm.antt =====
-- The page allocator of kernel/memory/pmm.c on pools of 64 frames.
use aosis.Base.{
  ℕ, zero, suc, ◌+◌, ◌*◌, ◌^◌, ◌≤◌, ◌<◌, ◌≡◌, refl, true, List, [], ◌∷◌, arith, ◌==◌, ==_iff,
  if◌then◌else◌, all_below, all_below_sound, replicate, u32, length, ok, panic, ◌>>=◌, ◌⊎◌,
}
use aosis.Bits.{check_bit_set, set_bit}
use aosis.Bits.Digits.{bit}
use aosis.Memory.Pmm.{
  PhysicalMemory, frame_addr, last_page_addr, find_unset, alloc_loop, pmm_alloc_page, pmm_free_page,
}
use aosis.Memory.Pmm.Frames.{frame, IsWords}
use aosis.Memory.Pmm.Alloc.{IsValid, pmm_alloc_page-first_free, pmm_alloc_page-IsValid}
use aosis.Memory.Pmm.Free.{pmm_free_page-alloc, pmm_free_page-panics}
use aosis.Memory.Pmm.Boot.{pmm_init_user_task}
use aosis.Memory.Pmm.Boot.Laws.{pmm_init_user_task-misses_frame}
use aosis.Task.UserTask.{UserTask}

-- A pool of 64 frames with the given words.
abbrev pool : ℕ → List ℕ → PhysicalMemory
pool start words = record {
  total_memory = 0;
  total_page_memory = 64 * 4096;
  starting_addr = start;
  page_count = 64;
  bitmap = words;
}

-- Frame 33 is the first free one.
abbrev half_used : PhysicalMemory
half_used = pool 0x105000 (0xFFFFFFFF ∷ 5 ∷ [])

two-IsWords : (a b : ℕ) → a < 2 ^ 32 → b < 2 ^ 32 → IsWords (a ∷ b ∷ [])
two-IsWords a b h g zero = h
two-IsWords a b h g (suc zero) = g
two-IsWords a b h g (suc (suc i)) = omega arith

half_used-IsValid : IsValid half_used
half_used-IsValid = record {
  scanned = omega arith;
  words = two-IsWords 0xFFFFFFFF 5 (omega arith) (omega arith);
}

used_table : all_below 33 (λ q. frame half_used.bitmap q == 1) ≡ true
unfolding all_below frame bit
used_table = refl

used : (q : ℕ) → q < 33 → frame half_used.bitmap q ≡ 1
used q h = (==_iff _ 1).0 (all_below_sound 33 _ q used_table h)

free_33 : frame half_used.bitmap 33 ≡ 0
unfolding frame bit
free_33 = refl

passes : 0x105000 + 4096 * 33 ≤ last_page_addr half_used
unfolding last_page_addr
passes = omega arith

pmm_alloc_page-first_free_example :
    (bitmap : List ℕ) × (pmm_alloc_page half_used
      ≡ ok (u32 (0x105000 + 4096 * 33), record half_used { bitmap = bitmap }))
    × (length bitmap ≡ 2)
    × ((q : ℕ) → frame bitmap q ≡ (if 33 == q then 1 else frame half_used.bitmap q))
pmm_alloc_page-first_free_example =
    pmm_alloc_page-first_free half_used 33 half_used-IsValid (omega arith) free_33 used

pmm_alloc_page-IsValid_example :
    (addr : ℕ) × (pmm' : PhysicalMemory) × (pmm_alloc_page half_used ≡ ok (addr, pmm'))
    × IsValid pmm'
    × (((addr ≡ 0) × (pmm' ≡ half_used))
        ⊎ ((p : ℕ) × (addr ≡ u32 (0x105000 + 4096 * p))
            × (frame half_used.bitmap p ≡ 0)
            × (p < 64)
            × ((q : ℕ) → frame pmm'.bitmap q ≡ (if p == q then 1 else frame half_used.bitmap q))))
pmm_alloc_page-IsValid_example = pmm_alloc_page-IsValid half_used half_used-IsValid

pmm_free_page-alloc_example :
    (pmm_alloc_page half_used >>= λ (addr, pmm'). pmm_free_page pmm' addr) ≡ ok half_used
pmm_free_page-alloc_example =
    pmm_free_page-alloc half_used 33 half_used-IsValid (omega arith) (omega arith) free_33 used
      (omega arith) passes

-- A kernel that ends at 2 MiB leaves a pool in which nothing can be freed.
pmm_free_page-panics_example : pmm_free_page (pool 0x200000 (7 ∷ 0 ∷ [])) 0x201000 ≡ panic
pmm_free_page-panics_example =
    pmm_free_page-panics (pool 0x200000 (7 ∷ 0 ∷ [])) 0x201000 (omega arith) (omega arith)

abbrev no_task : UserTask
no_task = record {
  user_task = record { starting_eip = 0; phys_addr_start = 0; phys_addr_end = 0; len = 0 };
  once = true;
}

abbrev clear_pool : PhysicalMemory
clear_pool = pool 0x105000 (replicate 256 0)

pmm_init_user_task-misses_frame_example :
    (pmm' : PhysicalMemory) × (task' : UserTask) × (pmm_init_user_task
        (record { mod_start = 0x106000; mod_end = 0x106123 })
        clear_pool
        no_task
      ≡ ok (pmm', task'))
    × (frame pmm'.bitmap 4096 ≡ 1)
    × (frame pmm'.bitmap 1 ≡ frame clear_pool.bitmap 1)
pmm_init_user_task-misses_frame_example =
    pmm_init_user_task-misses_frame (record { mod_start = 0x106000; mod_end = 0x106123 }) 1
      clear_pool no_task refl (omega arith) (omega arith) (omega arith)

-- Two allocations in a row from a fresh pool.
alloc_twice :
    (pmm_alloc_page (pool 0x105000 (0 ∷ 0 ∷ [])) >>= λ (a, p). pmm_alloc_page p)
    ≡ ok (0x106000, pool 0x105000 (3 ∷ 0 ∷ []))
unfolding pmm_alloc_page alloc_loop find_unset frame_addr check_bit_set set_bit
alloc_twice = refl
