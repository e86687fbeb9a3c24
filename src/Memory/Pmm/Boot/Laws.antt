-- ===== src/Memory/Pmm/Boot/Laws.antt =====
-- What `pmm_init` takes from the memory map, and which frame it reserves for the user program.
use aosis.Base.{
  ℕ, zero, suc, ◌+◌, ◌*◌, ◌/◌, ◌%◌, ◌^◌, ◌≤◌, ◌<◌, ◌≡◌, ◌≢◌, refl, arith, some, length, u32, sub32,
  ok, fault,
}
use aosis.Memory.Pmm.{PhysicalMemory}
use aosis.Memory.Pmm.Frames.{frame, frame-set_bit}
use aosis.Memory.Pmm.Alloc.{mark}
use aosis.Memory.Pmm.Boot.{
  MmapEntry, ModList, MemoryEnd, see_entry, mmap_loop, pmm_init_user_task, module_info,
}
use aosis.Task.UserTask.{UserTask, task_init_user_task_info}

module _ (mmap : ℕ → MmapEntry) (mmap_addr : ℕ) where
  abbrev entry_at : ℕ → MmapEntry
  entry_at i = mmap (mmap_addr + i)

  shifted : (i k : ℕ) → i + suc k * 24 ≡ i + 24 + k * 24
  shifted i k = omega arith

  at_start : (i : ℕ) → i + 0 * 24 ≡ i
  at_start i = omega arith

  see_entry-other :
      (entry : MmapEntry) (found : MemoryEnd) → entry.entry_type ≢ 1 → see_entry entry found ≡ found
  unfolding see_entry
  see_entry-other entry found h = ground arith

  see_entry-available :
      (entry : MmapEntry) (found : MemoryEnd)
      → entry.entry_type ≡ 1
      → see_entry entry found ≡ record {
        total_memory = entry.len_low;
        last_mem_addr = some (u32 (entry.addr_low + entry.len_low));
      }
  unfolding see_entry
  see_entry-available entry found h = ground arith

  mmap_loop-skips :
      (left i : ℕ) (found : MemoryEnd)
      → ((k : ℕ) → k < left → (entry_at (i + k * 24)).entry_type ≢ 1)
      → mmap_loop mmap mmap_addr left i found ≡ found
  unfolding mmap_loop
  mmap_loop-skips zero i found h = refl
  mmap_loop-skips (suc left) i found h =
      rw (see_entry-other (entry_at i) found (rw (at_start i) at (h 0 (omega arith))))
        (mmap_loop-skips left (i + 24) found (λ k p. rw (shifted i k) at (h (suc k) (omega arith))))

  -- If entry `k` is the last available one of the memory map, the loop of `pmm_init` ends with its length
  -- as the total memory and its end as the end of memory: earlier regions do not count.
  mmap_loop-last :
      (left i k : ℕ) (found : MemoryEnd)
      → k < left
      → (entry_at (i + k * 24)).entry_type ≡ 1
      → ((j : ℕ) → k < j → j < left → (entry_at (i + j * 24)).entry_type ≢ 1)
      → mmap_loop mmap mmap_addr left i found ≡ record {
        total_memory = (entry_at (i + k * 24)).len_low;
        last_mem_addr =
            some (u32 ((entry_at (i + k * 24)).addr_low + (entry_at (i + k * 24)).len_low));
      }
  unfolding mmap_loop
  mmap_loop-last zero i k found h e skip = absurd (omega arith)
  mmap_loop-last (suc left) i zero found h e skip =
      rw (at_start i, see_entry-available (entry_at i) found (rw (at_start i) at e))
        (mmap_loop-skips left (i + 24) _
          (λ k p. rw (shifted i k) at (skip (suc k) (omega arith) (omega arith))))
  mmap_loop-last (suc left) i (suc k) found h e skip = rw (shifted i k) (
      mmap_loop-last left (i + 24) k (see_entry (entry_at i) found) (omega arith)
        (rw (shifted i k) at e)
        (λ j p q. rw (shifted i j) at (skip (suc j) (omega arith) (omega arith))))

  -- The whole loop.
  pub mmap_loop-ends :
      (left k : ℕ) (found : MemoryEnd)
      → k < left
      → (entry_at (k * 24)).entry_type ≡ 1
      → ((j : ℕ) → k < j → j < left → (entry_at (j * 24)).entry_type ≢ 1)
      → mmap_loop mmap mmap_addr left 0 found ≡ record {
        total_memory = (entry_at (k * 24)).len_low;
        last_mem_addr = some (u32 ((entry_at (k * 24)).addr_low + (entry_at (k * 24)).len_low));
      }
  mmap_loop-ends left k found h e skip =
      let from_zero : (j : ℕ) → 0 + j * 24 ≡ j * 24 = λ j. omega arith in
      rw (from_zero k) at (
        mmap_loop-last left 0 k found h (rw (from_zero k) e)
          (λ j p q. rw (from_zero j) (skip j p q)))

pub pmm_init_user_task-marks :
    (user_module : ModList) (m : ℕ) (pmm : PhysicalMemory) (task : UserTask)
    → user_module.mod_start ≡ pmm.starting_addr + 4096 * m
    → pmm.starting_addr + 4096 * m < 2 ^ 32
    → 128 * m < length pmm.bitmap
    → pmm_init_user_task user_module pmm task
      ≡ ok (mark pmm (4096 * m), task_init_user_task_info (module_info user_module) task)
unfolding pmm_init_user_task
pmm_init_user_task-marks user_module m pmm task e top within =
    let page : sub32 user_module.mod_start pmm.starting_addr ≡ 4096 * m = omega arith in
    let index : 4096 * m / 2 ^ 5 ≡ 4096 * m / 32 = omega arith in
    let shift : 4096 * m % 32 ≡ 0 = omega arith in rw (page, index, shift) (ground arith)

-- A module loaded at page `m` of the pool, for `m` not 0, does not get its frame reserved: where the
-- write stays in the bitmap, `pmm_init_user_task` marks frame `4096 * m` in place of frame `m`.
pub pmm_init_user_task-misses_frame :
    (user_module : ModList) (m : ℕ) (pmm : PhysicalMemory) (task : UserTask)
    → user_module.mod_start ≡ pmm.starting_addr + 4096 * m
    → pmm.starting_addr + 4096 * m < 2 ^ 32
    → 0 < m
    → 128 * m < length pmm.bitmap
    → (pmm' : PhysicalMemory) × (task' : UserTask) × (pmm_init_user_task user_module pmm task
        ≡ ok (pmm', task'))
      × (frame pmm'.bitmap (4096 * m) ≡ 1)
      × (frame pmm'.bitmap m ≡ frame pmm.bitmap m)
pmm_init_user_task-misses_frame user_module m pmm task e top pos within =
    let marked = frame-set_bit pmm.bitmap (4096 * m) in
    (
      mark pmm (4096 * m),
      _,
      pmm_init_user_task-marks user_module m pmm task e top within,
      ground (arith, marked (4096 * m) (omega arith)),
      ground (arith, marked m (omega arith)),
    )

-- A module that lies 8192 * 32 bytes or more into the pool, whose bitmap has 8192 words, makes
-- `pmm_init_user_task` write outside the bitmap.
pmm_init_user_task-faults :
    (user_module : ModList) (pmm : PhysicalMemory) (task : UserTask)
    → length pmm.bitmap ≡ 8192
    → pmm.starting_addr + 8192 * 32 ≤ user_module.mod_start
    → user_module.mod_start < 2 ^ 32
    → pmm_init_user_task user_module pmm task ≡ fault
unfolding pmm_init_user_task
pmm_init_user_task-faults user_module pmm task len h top = ground arith
