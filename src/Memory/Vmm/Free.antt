-- ===== src/Memory/Vmm/Free.antt =====
-- What `vmm_free_page` and `vmm_get_phys_addr` of kernel/memory/vmm.c find, whatever the block that a page is in.
use aosis.Base.{
  ℕ, ◌+◌, ◌-◌, ◌*◌, ◌/◌, ◌%◌, ◌^◌, ◌≤◌, ◌<◌, ◌≡◌, ◌∙◌, inl, refl, ap, arith, true, false, ◌&&◌, not,
  List, [], ◌∷◌, ltb, ◌==◌, length, get_or, set, length-set, u32, sub32, ok, panic, fault, ◌>>=◌,
}
use aosis.Bits.{set_bit, clear_bit}
use aosis.Memory.Page.{page_align}
use aosis.Memory.Pmm.Frames.{marked, unmarked, unmarked-marked}
use aosis.Memory.Pmm.Alloc
use aosis.Memory.Paging.{page_table_index, v2p_addr}
use aosis.Memory.Vmm.{
  VmmBlock, Vmm, in_range, free_loop, vmm_free_page, phys_addr_loop, vmm_get_phys_addr,
  vmm_alloc_page, take_from, is_empty,
}
use aosis.Memory.Vmm.Alloc.{vmm_alloc_page-takes, vmm_alloc_page-panics}
use aosis.Memory.Vmm.Scan.{IsFirst, AllFull, taken_block, take_page-none}

-- The range test of both functions joins its two halves by `or`: every page passes it for a block below the
-- top of memory.
in_range-always :
    (page : ℕ) (b : VmmBlock) → b.first_page + 4096 * 1024 ≤ 2 ^ 32 → in_range page b ≡ true
unfolding in_range
in_range-always page b top = ground arith

-- For every page `vmm_get_phys_addr` reads the table of the first block, also for a page of another one.
pub vmm_get_phys_addr-head :
    (page : ℕ) (b : VmmBlock) (bs : List VmmBlock) (s : Vmm)
    → s.blocks ≡ b ∷ bs
    → b.first_page + 4096 * 1024 ≤ 2 ^ 32
    → vmm_get_phys_addr page s
      ≡ u32 ((s.paging.tables b.page_table (page_table_index page)).phys_addr * 2 ^ 12)
unfolding vmm_get_phys_addr phys_addr_loop
vmm_get_phys_addr-head page b bs s e top = rw (e, in_range-always page b top) refl

-- Let the first block have a bitmap of 32 words and end within the address space. A page 4 MiB or
-- more above the kernel's base, so of any block but the first, makes `vmm_free_page` write outside
-- the bitmap of the first block.
pub vmm_free_page-faults :
    (page : ℕ) (b : VmmBlock) (bs : List VmmBlock) (s : Vmm)
    → s.blocks ≡ b ∷ bs
    → b.first_page + 4096 * 1024 ≤ 2 ^ 32
    → length b.bitmap ≡ 32
    → 0xC0000000 + 4096 * 1024 ≤ page
    → page < 2 ^ 32
    → vmm_free_page page s ≡ fault
unfolding vmm_free_page free_loop v2p_addr
vmm_free_page-faults page b bs s e top len high below =
    rw (e, in_range-always (page_align page) b top) (ground arith)

-- What `vmm_free_page` does to a page of the first block.
free_head :
    (page : ℕ) (b : VmmBlock) (bs : List VmmBlock) (s : Vmm)
    → s.blocks ≡ b ∷ bs
    → b.first_page + 4096 * 1024 ≤ 2 ^ 32
    → length b.bitmap ≡ 32
    → 0xC0000000 ≤ page
    → page < 0xC0000000 + 4096 * 1024
    → let p = (page - 0xC0000000) / 4096 in
      vmm_free_page page s
      ≡ ok (record s {
        blocks =
            record b {
              bitmap = set b.bitmap (p / 32) (clear_bit (get_or b.bitmap (p / 32) 0) (p % 32));
            }
            ∷ bs;
      })
unfolding vmm_free_page free_loop v2p_addr
free_head page b bs s e top len low high =
    let p = (page - 0xC0000000) / 4096 in
    let index : sub32 page 0xC0000000 / 4096 ≡ p = omega arith in
    let inside : ltb (p / 32) (length b.bitmap) ≡ true = ground arith in
    rw (e, in_range-always (page_align page) b top, index, inside) refl

taken_top :
    (b : VmmBlock) (p : ℕ)
    → b.first_page ≡ 0xC0000000
    → (taken_block b p).first_page + 4096 * 1024 ≤ 2 ^ 32
unfolding take_from
taken_top b p e = omega (arith, e)

taken_bitmap :
    (b : VmmBlock) (p : ℕ)
    → unmarked (marked b.bitmap p) p ≡ b.bitmap
    → unmarked (taken_block b p).bitmap p ≡ b.bitmap
unfolding take_from
taken_bitmap b p e = e

taken_count : (b : VmmBlock) (p : ℕ) → (taken_block b p).free_pages ≡ b.free_pages - 1
unfolding take_from
taken_count b p = refl

taken_length : (b : VmmBlock) (p : ℕ) → length b.bitmap ≡ 32 → length (taken_block b p).bitmap ≡ 32
unfolding take_from
taken_length b p e =
    length-set b.bitmap (p / 32) (set_bit (get_or b.bitmap (p / 32) 0) (p % 32)) ∙ e

-- Let the first block start at the kernel's base, with a bitmap of 32 words, and have `p` as its
-- first free page, with no growth due, and let the frame allocator be valid. Allocating and freeing
-- that page gives the bitmap of the block back; but the count of its free pages stays one lower,
-- and the other blocks are as they were.
pub vmm_free_page-alloc :
    (new_vmm_block p : ℕ) (b : VmmBlock) (bs : List VmmBlock) (s : Vmm)
    → s.blocks ≡ b ∷ bs
    → b.first_page ≡ 0xC0000000
    → length b.bitmap ≡ 32
    → IsFirst b p
    → ((taken_block b p).high_water_mark == 1022 && (is_empty bs && not s.allocating_new_block))
      ≡ false
    → Alloc.IsValid s.paging.pmm
    → (b' : VmmBlock) × (s' : Vmm) × ((vmm_alloc_page new_vmm_block s >>= λ (page, s₁).
          vmm_free_page page s₁)
        ≡ ok s')
      × (s'.blocks ≡ b' ∷ bs)
      × (b'.bitmap ≡ b.bitmap)
      × (b'.free_pages ≡ b.free_pages - 1)
vmm_free_page-alloc new_vmm_block p b bs s e base len v stays pmm =
    let page = u32 (b.first_page + p * 4096) in
    let at : page ≡ 0xC0000000 + p * 4096 = omega (arith, base, v.below) in
    let (s₁, made, blocks, _, _) =
      vmm_alloc_page-takes new_vmm_block p 0 0 [] bs b s e tt v (omega (arith, at)) stays pmm in
    let t = taken_block b p in
    let freed =
      free_head page t bs s₁ blocks (taken_top b p base) (taken_length b p len) (omega (arith, at))
        (omega (arith, at, v.below)) in
    let index : (page - 0xC0000000) / 4096 ≡ p = omega (arith, at) in
    let same = unmarked-marked b.bitmap p v.words (omega (arith, len, v.below)) v.free in
    let restored =
      ap (λ (q : ℕ). ok (record s₁ { blocks = record t { bitmap = unmarked t.bitmap q } ∷ bs }))
        index
      ∙ ap (λ (m : List ℕ). ok (record s₁ { blocks = record t { bitmap = m } ∷ bs }))
          (taken_bitmap b p same) in
    (
      record t { bitmap = b.bitmap },
      record s₁ { blocks = record t { bitmap = b.bitmap } ∷ bs },
      rw made (freed ∙ restored),
      refl,
      refl,
      taken_count b p,
    )

abbrev pub NoneLeft : List VmmBlock → Type 0
NoneLeft [] = Unit
NoneLeft (b ∷ bs) = (b.free_pages ≡ 0) × NoneLeft bs

NoneLeft-AllFull : (bs : List VmmBlock) → NoneLeft bs → AllFull bs
NoneLeft-AllFull [] h = tt
NoneLeft-AllFull (b ∷ bs) h = (inl h.0, NoneLeft-AllFull bs h.1)

-- Let no block count a free page, and the first have a bitmap of 32 words and end within the
-- address space. Freeing a page of the first 4 MiB above the kernel's base does not make one
-- available: the next allocation panics.
pub vmm_alloc_page-after_free :
    (new_vmm_block page : ℕ) (b : VmmBlock) (bs : List VmmBlock) (s : Vmm)
    → s.blocks ≡ b ∷ bs
    → NoneLeft (b ∷ bs)
    → b.first_page + 4096 * 1024 ≤ 2 ^ 32
    → length b.bitmap ≡ 32
    → 0xC0000000 ≤ page
    → page < 0xC0000000 + 4096 * 1024
    → (vmm_free_page page s >>= λ s'. vmm_alloc_page new_vmm_block s') ≡ panic
vmm_alloc_page-after_free new_vmm_block page b bs s e none_left top len low high =
    let p = (page - 0xC0000000) / 4096 in
    let b' = record b { bitmap = unmarked b.bitmap p } in
    rw (free_head page b bs s e top len low high) (
      vmm_alloc_page-panics new_vmm_block (record s { blocks = b' ∷ bs })
        (take_page-none (b' ∷ bs) (NoneLeft-AllFull (b' ∷ bs) none_left)))
