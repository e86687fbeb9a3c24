-- ===== src/Start/Frames.antt =====
-- The memory that `kmain` takes from the frame allocator of kernel/memory/pmm.c for
-- `paging_init`.
use aosis.Base.{
  ℕ, ◌+◌, ◌-◌, ◌*◌, ◌/◌, ◌%◌, ◌^◌, ◌≤◌, ◌<◌, ◌≡◌, ◌≢◌, ap, arith, false, ◌==◌, if◌then◌else◌,
  bit_and, shr, List, length, get_or, none, u32, ok,
}
use aosis.Bits.Digits.{bit-zero}
use aosis.Memory.Pmm.{PhysicalMemory, frame_addr, pmm_init_struct, pmm_alloc_page}
use aosis.Memory.Pmm.Frames.{frame, frame-set_bit, IsWords}
use aosis.Memory.Pmm.Alloc.{mark, mark-IsValid, pmm_alloc_page-marks, pmm_alloc_page-IsValid}
use aosis.Memory.Pmm.Alloc
use aosis.Memory.Pmm.Init.{pmm_init_struct-pool}
use aosis.Memory.Pmm.Boot.{pmm_init, MemoryEnd, module_info}
use aosis.Memory.Pmm.Boot.Laws.{mmap_loop-ends, pmm_init_user_task-marks}
use aosis.Task.UserTask.{UserTask, task_init_user_task_info}
use aosis.Start.Kmain.{Links, Loaded}

-- What the boot loader has left: the memory map, whose last available entry `k` ends at `top`,
-- within 1 GiB and well above the kernel, and a module at page `m` of the memory behind the
-- kernel.
pub record IsLoaded (l : Links) (b : Loaded) (k top m start : ℕ) : Type 0 where
  pub kernel_end : l.kernel_end_addr_phys ≤ 0x300000
  pub map_given : bit_and (shr b.mbt.flags 6) 1 ≡ 1
  pub in_map : k < (b.mbt.mmap_length + 24 - 1) / 24
  pub available : (b.mmap (b.mbt.mmap_addr + k * 24)).entry_type ≡ 1
  pub last :
      (j : ℕ)
      → k < j
      → j < (b.mbt.mmap_length + 24 - 1) / 24
      → (b.mmap (b.mbt.mmap_addr + j * 24)).entry_type ≢ 1
  pub ends :
      u32
        ((b.mmap (b.mbt.mmap_addr + k * 24)).addr_low + (b.mmap (b.mbt.mmap_addr + k * 24)).len_low)
      ≡ top
  pub enough : l.kernel_end_addr_phys + 0x40000 ≤ top
  pub within : top ≤ 2 ^ 30
  pub pool_start : start ≡ (l.kernel_end_addr_phys + 4095) / 4096 * 4096
  pub placed : (b.mods b.mbt.mods_addr).mod_start ≡ start + 4096 * m
  pub below : 128 * m < 8192

-- The frame that the first allocation gives: the frame 0 is the module's, if the module lies
-- there.
abbrev pub first_frame : ℕ → ℕ
first_frame m = if m == 0 then 1 else 0

-- A bitmap of zeros is valid and all its frames are free.
module _ (bitmap : List ℕ) (size : length bitmap ≡ 8192)
    (zeros : (i : ℕ) → get_or bitmap i 0 ≡ 0) where
  zeros-frame : (q : ℕ) → frame bitmap q ≡ 0
  unfolding frame
  zeros-frame q = rw (zeros (q / 32)) (bit-zero (q % 32))

  zeros-IsWords : IsWords bitmap
  zeros-IsWords i = omega (arith, zeros i)

-- The allocator when one frame `f` is marked; 8192 words.
pub record OneUsed (f start : ℕ) (pmm : PhysicalMemory) : Type 0 where
  pub at : pmm.starting_addr ≡ start
  pub many : 32 ≤ pmm.page_count
  pub valid : Alloc.IsValid pmm
  pub used : (q : ℕ) → frame pmm.bitmap q ≡ (if q == f then 1 else 0)

-- The pool over memory whose bitmap is all zeros.
pool_lem :
    (kernel_end top start : ℕ) (pmm : PhysicalMemory)
    → kernel_end ≤ 0x300000
    → kernel_end + 0x40000 ≤ top
    → top ≤ 2 ^ 30
    → start ≡ (kernel_end + 4095) / 4096 * 4096
    → length pmm.bitmap ≡ 8192
    → ((i : ℕ) → get_or pmm.bitmap i 0 ≡ 0)
    → let pool = pmm_init_struct kernel_end top pmm in
      (pool.starting_addr ≡ start)
      × (32 ≤ pool.page_count)
      × (pool.page_count / 32 ≤ 8192)
      × (length pool.bitmap ≡ 8192)
      × ((i : ℕ) → get_or pool.bitmap i 0 ≡ 0)
unfolding pmm_init_struct
pool_lem kernel_end top start pmm low enough within e size zeros =
    let (aligned, above, near, _, ends, full) =
      pmm_init_struct-pool kernel_end top pmm (omega arith) (omega arith) in
    (
      omega (arith, aligned, above, near),
      omega (arith, near, full),
      omega (arith, ends),
      size,
      zeros,
    )

marked-OneUsed :
    (f start : ℕ) (pool : PhysicalMemory)
    → length pool.bitmap ≡ 8192
    → ((i : ℕ) → get_or pool.bitmap i 0 ≡ 0)
    → f < 8192 * 32
    → pool.starting_addr ≡ start
    → 32 ≤ pool.page_count
    → pool.page_count / 32 ≤ 8192
    → OneUsed f start (mark pool f)
marked-OneUsed f start pool size zeros h at many few =
    let clear : Alloc.IsValid pool = record {
      scanned = omega (arith, few, size);
      words = zeros-IsWords pool.bitmap size zeros;
    } in
    record {
      at = at;
      many = many;
      valid = mark-IsValid pool f clear;
      used = λ q. ground (
        arith,
        frame-set_bit pool.bitmap f q (omega (arith, size)),
        zeros-frame pool.bitmap size zeros q,
      );
    }

pub init_frames_lem :
    (l : Links) (b : Loaded) (k top m start : ℕ) (pmm : PhysicalMemory) (task : UserTask)
    → IsLoaded l b k top m start
    → length pmm.bitmap ≡ 8192
    → ((i : ℕ) → get_or pmm.bitmap i 0 ≡ 0)
    → (pmm' : PhysicalMemory) × (task' : UserTask) × (pmm_init b.mmap b.mods l.kernel_end_addr_phys
          b.mbt pmm task
        ≡ ok (pmm', task'))
      × OneUsed (4096 * m) start pmm'
unfolding pmm_init
init_frames_lem l b k top m start pmm task v size zeros =
    let given : (bit_and (shr b.mbt.flags 6) 1 == 0) ≡ false = ground (arith, v.map_given) in
    let entries =
      mmap_loop-ends b.mmap b.mbt.mmap_addr _ k
        (record { total_memory = pmm.total_memory; last_mem_addr = none }) v.in_map v.available
        v.last in
    let pool =
      pmm_init_struct l.kernel_end_addr_phys top
        (record pmm { total_memory = (b.mmap (b.mbt.mmap_addr + k * 24)).len_low }) in
    let (at, many, few, size', zeros') =
      pool_lem l.kernel_end_addr_phys top start _ v.kernel_end v.enough v.within v.pool_start size
        zeros in
    let reserved =
      pmm_init_user_task-marks (b.mods b.mbt.mods_addr) m pool task (omega (arith, v.placed, at))
        (omega (arith, v.below, at, v.pool_start, v.kernel_end)) (omega (arith, v.below, size')) in
    (
      mark pool (4096 * m),
      task_init_user_task_info (module_info (b.mods b.mbt.mods_addr)) task,
      rw
          (
            given,
            ap (λ (e : MemoryEnd). e.last_mem_addr) entries,
            ap (λ (e : MemoryEnd). e.total_memory) entries,
            v.ends,
          )
          reserved,
      marked-OneUsed (4096 * m) start pool size' zeros' (omega (arith, v.below)) at many few,
    )

-- The two frames that are free first.
pub two_frames :
    (m start : ℕ) (pmm : PhysicalMemory)
    → OneUsed (4096 * m) start pmm
    → start < 2 ^ 30
    → let q = first_frame m in
      (pmm₁ : PhysicalMemory) × (pmm₂ : PhysicalMemory) × (pmm_alloc_page pmm
        ≡ ok (start + 4096 * q, pmm₁))
      × (pmm_alloc_page pmm₁ ≡ ok (start + 4096 * (q + 1), pmm₂))
      × Alloc.IsValid pmm₂
unfolding frame_addr
two_frames m start pmm v h =
    let q = first_frame m in
    let valid = mark-IsValid pmm q v.valid in
    let small : q ≤ 1 = ground arith in
    let marked = λ (p : ℕ). frame-set_bit pmm.bitmap q p (omega (arith, v.valid.scanned, v.many)) in
    let first =
      pmm_alloc_page-marks pmm q v.valid (omega (arith, v.many)) (ground (arith, v.used q))
        (λ p l. ground (arith, v.used p)) in
    let second =
      pmm_alloc_page-marks (mark pmm q) (q + 1) valid (omega (arith, v.many))
        (ground (arith, marked (q + 1), v.used (q + 1)))
        (λ p l. ground (arith, marked p, v.used p)) in
    let at : frame_addr pmm (q / 32) (q % 32) ≡ start + 4096 * q = omega (arith, v.at, small, h) in
    let at' : frame_addr (mark pmm q) ((q + 1) / 32) ((q + 1) % 32) ≡ start + 4096 * (q + 1) =
      omega (arith, v.at, small, h) in
    (
      mark pmm q,
      mark (mark pmm q) (q + 1),
      rw at at first,
      rw at' at second,
      mark-IsValid (mark pmm q) (q + 1) valid,
    )
