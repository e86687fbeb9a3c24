-- ===== src/Memory/Pmm.antt =====
-- kernel/memory/pmm.c: the page frame allocator over a bitmap with one bit for each 4 KiB frame.
-- `pmm`, the file's static struct, is passed along. What the linker and the boot loader provide
-- (`kernel_end_addr_phys`, the memory map and the module list of the multiboot information) are
-- arguments.
pub mod Frames
pub mod Free
pub mod Init
pub mod Boot
pub mod Alloc
use aosis.Base.{
  ℕ, zero, suc, ◌+◌, ◌-◌, ◌*◌, ◌/◌, ◌%◌, ◌^◌, ◌≤◌, ◌<◌, Bool, true, false, ◌&&◌, Option, none, some,
  List, ltb, leb, ◌==◌, if◌then◌else◌, length, get_or, set, u32, sub32, shl32, shr, not32, Result,
  ok, panic, fault, ◌>>=◌,
}
use aosis.Bits.{check_bit_set, set_bit, clear_bit}
use aosis.Memory.Page.{page_size, page_align, page_increment, page_decrement}

-- struct physical_memory; the bitmap has 8192 words
pub record PhysicalMemory : Type 0 where
  pub total_memory : ℕ
  pub total_page_memory : ℕ
  pub starting_addr : ℕ
  pub page_count : ℕ
  pub bitmap : List ℕ

-- The inner loop of `pmm_alloc_page`: the first of the bits `j`, ..., `j + left - 1` that is not
-- set.
unfoldable pub find_unset : ℕ → ℕ → ℕ → Option ℕ
find_unset zero j page_bitmap = none
find_unset (suc left) j page_bitmap =
    let rest = find_unset left (j + 1) page_bitmap in
    if check_bit_set page_bitmap j == 0 then some j else rest

-- The physical address of bit `j` of word `i`.
unfoldable pub frame_addr : PhysicalMemory → ℕ → ℕ → ℕ
frame_addr pmm i j = u32 (pmm.starting_addr + page_size * (32 * i) + page_size * j)

-- The outer loop at word `i`, with `left` words to go. The returned address is 0 for NULL.
unfoldable pub alloc_loop : ℕ → ℕ → PhysicalMemory → Result (ℕ × PhysicalMemory)
alloc_loop zero i pmm = ok (0, pmm)
alloc_loop (suc left) i pmm =
    let page_bitmap = get_or pmm.bitmap i 0 in
    let rest = alloc_loop left (i + 1) pmm in
    let take_bit = λ (j : ℕ). record pmm { bitmap = set pmm.bitmap i (set_bit page_bitmap j) } in
    if leb (length pmm.bitmap) i
    then fault
    else if page_bitmap == 0xFFFFFFFF
    then rest
    else elim (find_unset 32 0 page_bitmap) [
      | none ↦ rest
      | some j ↦ ok (frame_addr pmm i j, take_bit j)
    ]

-- The warning that all pages are allocated goes to the terminal, and is not modelled.
unfoldable pub pmm_alloc_page : PhysicalMemory → Result (ℕ × PhysicalMemory)
pmm_alloc_page pmm = alloc_loop (pmm.page_count / 32) 0 pmm

-- The address that `pmm_free_page` takes for the last page of the pool: the source multiplies.
unfoldable pub last_page_addr : PhysicalMemory → ℕ
last_page_addr pmm = u32 (pmm.starting_addr * u32 (page_size * sub32 pmm.page_count 1))

unfoldable pub clear_frame : PhysicalMemory → ℕ → Result PhysicalMemory
clear_frame pmm page_index =
    let i = page_index / 32 in
    if ltb i (length pmm.bitmap)
    then ok (record pmm {
      bitmap = set pmm.bitmap i (clear_bit (get_or pmm.bitmap i 0) (page_index % 32));
    })
    else fault

unfoldable pub pmm_free_page : PhysicalMemory → ℕ → Result PhysicalMemory
pmm_free_page pmm page =
    let page_to_clear = page_align page in
    if leb pmm.starting_addr page_to_clear && leb page_to_clear (last_page_addr pmm)
    then clear_frame pmm (sub32 page_to_clear pmm.starting_addr / page_size)
    else panic

-- `pmm_init_struct`, on the static struct, with the address of `kernel_end_addr_phys`.
unfoldable pub pmm_init_struct : ℕ → ℕ → PhysicalMemory → PhysicalMemory
pmm_init_struct kernel_end last_mem_addr pmm =
    let aligned = page_align kernel_end in
    let first_page_addr = if ltb aligned kernel_end then page_increment aligned else aligned in
    let last_aligned = page_align last_mem_addr in
    let last_page =
      if ltb last_mem_addr (page_increment last_aligned)
      then page_decrement last_aligned
      else last_aligned in
    let total = sub32 (page_increment last_page) first_page_addr in
    record pmm {
      starting_addr = first_page_addr;
      total_page_memory = total;
      page_count = total / page_size;
    }
