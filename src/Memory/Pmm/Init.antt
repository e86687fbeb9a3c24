-- ===== src/Memory/Pmm/Init.antt =====
-- The pool that `pmm_init_struct` lays out.
use aosis.Base.{ℕ, ◌+◌, ◌*◌, ◌%◌, ◌^◌, ◌≤◌, ◌<◌, ◌≡◌, arith}
use aosis.Memory.Page.{page_align_lem, page_increment, page_decrement}
use aosis.Memory.Pmm.{PhysicalMemory, pmm_init_struct}

-- The pool starts at the first page boundary at or above the kernel's end, and holds as many
-- whole pages as fit below the end of memory; if the kernel ends at least 4095 bytes below the
-- end of memory, and memory ends below the last page of the 32-bit address space.
pub pmm_init_struct-pool :
    (kernel_end last_mem_addr : ℕ) (pmm : PhysicalMemory)
    → kernel_end + 4095 ≤ last_mem_addr
    → last_mem_addr + 4096 < 2 ^ 32
    → let pool = pmm_init_struct kernel_end last_mem_addr pmm in
      (pool.starting_addr % 4096 ≡ 0)
      × (kernel_end ≤ pool.starting_addr)
      × (pool.starting_addr < kernel_end + 4096)
      × (pool.total_page_memory ≡ 4096 * pool.page_count)
      × (pool.starting_addr + 4096 * pool.page_count ≤ last_mem_addr)
      × (last_mem_addr < pool.starting_addr + 4096 * (pool.page_count + 1))
unfolding pmm_init_struct page_increment page_decrement
pmm_init_struct-pool kernel_end last_mem_addr pmm h top =
    rw (page_align_lem kernel_end (omega arith), page_align_lem last_mem_addr (omega arith))
      (ground arith)
