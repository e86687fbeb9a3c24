-- ===== src/Memory/Vmm.antt =====
-- kernel/memory/vmm.c: the blocks of virtual pages. The linked list of block descriptors is a list, its
-- head first; its last block is the tail. A bitmap has 32 words.
pub mod Scan
pub mod Alloc
pub mod Grow
pub mod Free
use aosis.Base.{
  ℕ, zero, suc, ◌+◌, ◌-◌, ◌*◌, ◌/◌, ◌%◌, ◌^◌, Bool, true, false, not, ◌&&◌, ◌||◌, Option, none,
  some, List, [], ◌∷◌, ◌++◌, ltb, leb, ◌==◌, if◌then◌else◌, length, get_or, set, replicate,
  for_range, u32, sub32, shl32, shr, not32, Result, ok, panic, fault, ◌>>=◌,
}
use aosis.Bits.{set_bit, clear_bit}
use aosis.Memory.Page.{page_size, page_align}
use aosis.Memory.Pmm.{find_unset}
use aosis.Memory.Paging.{
  Paging, PageTableEntry, page_table_indices, page_table_range, page_table_index, v2p_addr,
  kernel_virt_base, clear_table, paging_add_page_table, paging_is_virtual_page_present,
  paging_map_virtual_page,
}

abbrev pub vmm_bitmap_size : ℕ
vmm_bitmap_size = 32

abbrev pub high_water_threshold : ℕ
high_water_threshold = 1022

-- struct vmm_block_desc
pub record VmmBlock : Type 0 where
  pub bitmap : List ℕ
  pub high_water_mark : ℕ
  pub free_pages : ℕ
  pub first_page : ℕ
  pub page_table : ℕ

-- The list of blocks, the static flag of `vmm_alloc_page`, and the page tables.
pub record Vmm : Type 0 where
  pub blocks : List VmmBlock
  pub allocating_new_block : Bool
  pub paging : Paging

-- The outer loop of `vmm_get_page_from_bitmap` at word `i`, with `left` words to go.
unfoldable pub get_page_loop : ℕ → ℕ → List ℕ → Option (ℕ × List ℕ)
get_page_loop zero i bitmap = none
get_page_loop (suc left) i bitmap =
    let page_bitmap = get_or bitmap i 0 in
    let rest = get_page_loop left (i + 1) bitmap in
    if page_bitmap == 0xFFFFFFFF then rest else elim (find_unset 32 0 page_bitmap) [
      | none ↦ rest
      | some j ↦ some (32 * i + j, set bitmap i (set_bit page_bitmap j))
    ]

unfoldable pub vmm_get_page_from_bitmap : List ℕ → Option (ℕ × List ℕ)
vmm_get_page_from_bitmap bitmap = get_page_loop vmm_bitmap_size 0 bitmap

-- What the loop of `vmm_alloc_page` over the blocks finds: the page, its block after the change, whether that is
-- the last, and all the blocks.
pub record Taken : Type 0 where
  pub page : ℕ
  pub block : VmmBlock
  pub is_last : Bool
  pub blocks : List VmmBlock

-- The block after page `index_in_bitmap` was taken from it.
unfoldable pub take_from : VmmBlock → ℕ → List ℕ → VmmBlock
take_from b index_in_bitmap bitmap' =
    let next_page = index_in_bitmap + 1 in
    record b {
      bitmap = bitmap';
      free_pages = b.free_pages - 1;
      high_water_mark = if leb b.high_water_mark next_page then next_page else b.high_water_mark;
    }

abbrev pub is_empty : List VmmBlock → Bool
is_empty [] = true
is_empty (b ∷ bs) = false

abbrev pub behind : VmmBlock → Option Taken → Option Taken
behind b none = none
behind b (some t) = some (record t { blocks = b ∷ t.blocks })

unfoldable pub take_page : List VmmBlock → Option Taken
take_page [] = none
take_page (b ∷ bs) =
    let rest = behind b (take_page bs) in
    if b.free_pages == 0 then rest else elim (vmm_get_page_from_bitmap b.bitmap) [
      | none ↦ rest
      | some (index_in_bitmap, bitmap') ↦
          let b' = take_from b index_in_bitmap bitmap' in
          some (record {
            page = u32 (b.first_page + index_in_bitmap * page_size);
            block = b';
            is_last = is_empty bs;
            blocks = b' ∷ bs;
          })
    ]

-- The descriptor of the block behind `block`.
unfoldable pub next_block : VmmBlock → VmmBlock
next_block block = record {
  bitmap = replicate vmm_bitmap_size 0;
  high_water_mark = 0;
  free_pages = page_table_indices;
  first_page = u32 (block.first_page + page_table_range);
  page_table = u32 (block.first_page + high_water_threshold * page_size);
}

-- `new_vmm_block` is what `kmalloc` returns. It calls `vmm_alloc_page` itself only when it then returns
-- NULL, and the `memset` of the descriptor at NULL is undefined.
unfoldable pub vmm_add_vmm_block : ℕ → VmmBlock → Vmm → Result Vmm
vmm_add_vmm_block new_vmm_block block s =
    let new = next_block block in
    if new_vmm_block == 0
    then fault
    else (paging_map_virtual_page block.page_table new.page_table s.paging
        >>= λ (phys_addr, paging'). ok (record s {
          blocks = s.blocks ++ new ∷ [];
          paging =
              clear_table new.page_table (paging_add_page_table phys_addr new.first_page paging');
        }))

-- `initial` is what the memory of the descriptor held, and is kept where nothing is written.
unfoldable pub vmm_init : VmmBlock → ℕ → Vmm → Result Vmm
vmm_init initial initial_page_table s =
    let first_free_page = u32 (v2p_addr initial_page_table + page_size) / page_size in
    let last = shr first_free_page 5 in
    let remaining_bits_to_set = not32 (shl32 0xFFFFFFFF (first_free_page % 32)) in
    let full = for_range last 0 (λ i m. set m i 0xFFFFFFFF) initial.bitmap in
    let block : VmmBlock = record {
      bitmap = set full last remaining_bits_to_set;
      high_water_mark = first_free_page;
      free_pages = sub32 page_table_indices first_free_page;
      first_page = kernel_virt_base;
      page_table = initial_page_table;
    } in
    if ltb last vmm_bitmap_size then ok (record s { blocks = block ∷ [] }) else fault

-- The page is mapped if it is not yet.
unfoldable pub map_if_absent : ℕ → ℕ → Vmm → Result (ℕ × Vmm)
map_if_absent page_table vmm_page s =
    if paging_is_virtual_page_present page_table vmm_page s.paging
    then ok (vmm_page, s)
    else (paging_map_virtual_page page_table vmm_page s.paging >>= λ (_, paging').
        ok (vmm_page, record s { paging = paging' }))

-- The rest of `vmm_alloc_page`, after its loop has found a page.
unfoldable pub finish_alloc : ℕ → Taken → Vmm → Result (ℕ × Vmm)
finish_alloc new_vmm_block t s =
    let s₁ = record s { blocks = t.blocks } in
    let grow =
      t.block.high_water_mark == high_water_threshold
      && (t.is_last && not s.allocating_new_block) in
    let grown =
      if grow
      then (vmm_add_vmm_block new_vmm_block t.block (record s₁ { allocating_new_block = true })
          >>= λ s₂. ok (record s₂ { allocating_new_block = false }))
      else ok s₁ in
    if t.page == 0 then panic else (grown >>= λ s₃. map_if_absent t.block.page_table t.page s₃)

unfoldable pub vmm_alloc_page : ℕ → Vmm → Result (ℕ × Vmm)
vmm_alloc_page new_vmm_block s = elim (take_page s.blocks) [
  | none ↦ panic
  | some t ↦ finish_alloc new_vmm_block t s
]

-- The test by which `vmm_free_page` and `vmm_get_phys_addr` ask whether a page is in a block.
unfoldable pub in_range : ℕ → VmmBlock → Bool
in_range page b =
    let page_table_last_page = u32 (b.first_page + (page_table_range - page_size)) in
    leb b.first_page page || leb page page_table_last_page

-- The loop of `vmm_free_page`. The page's index is that of its distance from the kernel's base; an index outside
-- the bitmap is undefined.
unfoldable pub free_loop : ℕ → List VmmBlock → Result (List VmmBlock)
free_loop page [] = panic
free_loop page (b ∷ bs) =
    let rest = free_loop page bs in
    let page_index = v2p_addr page / page_size in
    let i = page_index / 32 in
    let cleared = set b.bitmap i (clear_bit (get_or b.bitmap i 0) (page_index % 32)) in
    if in_range (page_align page) b
    then (if ltb i (length b.bitmap) then ok (record b { bitmap = cleared } ∷ bs) else fault)
    else (rest >>= λ bs'. ok (b ∷ bs'))

unfoldable pub vmm_free_page : ℕ → Vmm → Result Vmm
vmm_free_page page s = free_loop page s.blocks >>= λ bs. ok (record s { blocks = bs })

-- The loop of `vmm_get_phys_addr`.
unfoldable pub phys_addr_loop : ℕ → List VmmBlock → Paging → ℕ
phys_addr_loop vmm_page [] p = 0
phys_addr_loop vmm_page (b ∷ bs) p =
    let rest = phys_addr_loop vmm_page bs p in
    let pt_entry = p.tables b.page_table (page_table_index vmm_page) in
    if in_range vmm_page b then u32 (pt_entry.phys_addr * 2 ^ 12) else rest

unfoldable pub vmm_get_phys_addr : ℕ → Vmm → ℕ
vmm_get_phys_addr vmm_page s = phys_addr_loop vmm_page s.blocks s.paging
