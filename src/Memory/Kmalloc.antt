-- ===== src/Memory/Kmalloc.antt =====
-- kernel/memory/kmalloc.c: the heap, on a memory that gives the 32-bit word at each address that is a
-- multiple of 4. A block's size is at its address, the next block's address 4 above it, and
-- its `free_memory` 8 above it, which is also where the memory handed out starts.
pub mod Laws
pub mod Chain
pub mod Release
pub mod Free
pub mod FirstFit
pub mod Refines
pub mod Reuse
use aosis.Base.{
  ℕ, zero, suc, ◌+◌, ◌-◌, ◌*◌, ◌/◌, ◌%◌, ◌^◌, Bool, true, false, ◌&&◌, ◌||◌, Option, none, some,
  ltb, leb, ◌==◌, if◌then◌else◌, u32, sub32, shr, shl32,
}
use aosis.Memory.Page.{page_size}

abbrev pub Words : Type 0
Words = ℕ → ℕ

-- The memory and the file's globals; 0 is NULL.
pub record Heap : Type 0 where
  pub words : Words
  pub block_list_head : ℕ
  pub block_list_tail : ℕ

abbrev pub block_header_size : ℕ
block_header_size = 8

abbrev pub smallest_block_size : ℕ
smallest_block_size = 32

abbrev pub put : ℕ → ℕ → Words → Words
put p v m a = if p == a then v else m a

-- The three fields of a block, written in the source's order.
abbrev pub put_block : ℕ → ℕ → ℕ → ℕ → Words → Words
put_block b size next free m = put (b + 8) free (put (b + 4) next (put b size m))

unfoldable pub kmalloc_init : ℕ → Heap → Heap
kmalloc_init kmalloc_init_block h = record {
  words =
      put_block kmalloc_init_block 4096 0 (u32 (block_header_size + kmalloc_init_block)) h.words;
  block_list_head = kmalloc_init_block;
  block_list_tail = kmalloc_init_block;
}

unfoldable pub kmalloc_split_block : ℕ → ℕ → Words → ℕ × Words
kmalloc_split_block block alloc_size m =
    let new_block = sub32 (u32 (block + m block)) (u32 (alloc_size + block_header_size)) in
    let m₁ =
      put_block new_block (u32 (alloc_size + block_header_size)) 0
        (u32 (block_header_size + new_block)) m in
    let m₂ = put block (sub32 (m₁ block) (m₁ new_block)) m₁ in (m₂ (new_block + 8), m₂)

-- The loop of `kmalloc` from `block`; none when the fuel is used up, which a list of fewer blocks than
-- that does not do.
unfoldable pub find_block : ℕ → ℕ → ℕ → Words → Option (ℕ × Words)
find_block zero block alloc_size m = none
find_block (suc fuel) block alloc_size m =
    let rest = find_block fuel (m (block + 4)) alloc_size m in
    let free_mem_in_block = sub32 (m block) block_header_size in
    let mem_left_over = sub32 free_mem_in_block alloc_size in
    if block == 0
    then some (0, m)
    else if leb alloc_size free_mem_in_block
    then (if leb smallest_block_size mem_left_over
        then some (kmalloc_split_block block alloc_size m)
        else some (m (block + 8), m))
    else rest

-- What `kmalloc` does with the page at `page` when no block was found; the tail stays where it is.
unfoldable pub add_page : ℕ → Heap → Heap
add_page page h =
    let m₁ = put page page_size h.words in
    let m₂ = put (page + 4) 0 (put (page + 8) (u32 (page + block_header_size)) m₁) in
    record h { words = put (h.block_list_tail + 4) page m₂ }

-- The size that is searched for: the next multiple of 8.
unfoldable pub round_up : ℕ → ℕ
round_up size = shl32 (shr (u32 (size + 7)) 3) 3

-- `page` is what the call of `vmm_alloc_page` returns.
unfoldable pub kmalloc : ℕ → ℕ → ℕ → Heap → Option (ℕ × Heap)
kmalloc fuel page size h =
    if size == 0
    then some (0, h)
    else elim (find_block fuel h.block_list_head (round_up size) h.words) [
      | none ↦ none
      | some (alloc_ptr, m) ↦
          let h' = record h { words = m } in
          if alloc_ptr == 0 then some (0, add_page page h') else some (alloc_ptr, h')
    ]

unfoldable pub kmalloc_coalesce : ℕ → ℕ → ℕ → Heap → Heap
kmalloc_coalesce prev_block new_block next_block h =
    let m = h.words in
    let m₁ = put (new_block + 4) (m (next_block + 4)) m in
    let joined = record h {
      words = put new_block (u32 (m₁ new_block + m₁ next_block)) m₁;
      block_list_tail = if h.block_list_tail == next_block then new_block else h.block_list_tail;
    } in
    let right =
      if next_block == 0
      then h
      else if next_block == u32 (new_block + m new_block)
      then joined
      else h in
    let r = right.words in
    let r₁ = put (prev_block + 4) (r (new_block + 4)) r in
    let left = record right { words = put prev_block (u32 (r₁ prev_block + r₁ new_block)) r₁ } in
    if prev_block == 0
    then right
    else if new_block == u32 (prev_block + r prev_block)
    then left
    else right

-- The loop of `kfree`: the block before `new_block`, or 0.
unfoldable pub find_prev : ℕ → ℕ → ℕ → Words → Option ℕ
find_prev zero block new_block m = none
find_prev (suc fuel) block new_block m =
    let rest = find_prev fuel (m (block + 4)) new_block m in
    if block == 0
    then some 0
    else if ltb block new_block && (ltb new_block (m (block + 4)) || m (block + 4) == 0)
    then some block
    else rest

-- The three ways in which `kfree` links the block, before it coalesces.
unfoldable pub link_block : ℕ → ℕ → ℕ → Heap → Heap
link_block prev_block new_block next_block h =
    if prev_block == 0
    then record h { words = put (new_block + 4) next_block h.words; block_list_head = new_block }
    else if next_block == 0
    then record h {
      words = put (new_block + 4) 0 (put (prev_block + 4) new_block h.words);
      block_list_tail = new_block;
    }
    else record h {
      words = put (new_block + 4) next_block (put (prev_block + 4) new_block h.words);
    }

unfoldable pub kfree : ℕ → ℕ → Heap → Option Heap
kfree fuel ptr h =
    let new_block = sub32 ptr block_header_size in
    let linked = λ (prev_block next_block : ℕ).
      kmalloc_coalesce prev_block new_block next_block
        (link_block prev_block new_block next_block h) in
    if ptr == 0
    then some h
    else if ltb new_block h.block_list_head
    then some (linked 0 h.block_list_head)
    else elim (find_prev fuel h.block_list_head new_block h.words) [
      | none ↦ none
      | some prev_block ↦
          some (linked prev_block (if prev_block == 0 then 0 else h.words (prev_block + 4)))
    ]
