-- ===== src/Memory/Vmm/Grow.antt =====
-- The new block of kernel/memory/vmm.c, and the page that holds its page table.
use aosis.Base.{
  ℕ, ◌+◌, ◌*◌, ◌/◌, ◌%◌, ◌^◌, ◌≤◌, ◌<◌, ◌≡◌, ◌≢◌, ◌∙◌, refl, ap, arith, true, false, List, [], ◌∷◌,
  ◌++◌, append_assoc, ◌==◌, length, get_or, u32, ok,
}
use aosis.Bits.Laws.{set_bit-lt}
use aosis.Memory.Pmm.Frames.{frame, frame-set_bit, set-IsWords}
use aosis.Memory.Pmm.Alloc.{pmm_alloc_page-IsValid}
use aosis.Memory.Pmm.Alloc
use aosis.Memory.Paging.{clear_table, paging_add_page_table, set_directory_entry}
use aosis.Memory.Vmm.{
  VmmBlock, Vmm, take_from, take_page, next_block, vmm_add_vmm_block, finish_alloc, vmm_alloc_page,
}
use aosis.Memory.Vmm.Scan.{IsFirst, AllFull, taken_block, take_page-first}
use aosis.Memory.Vmm.Alloc.{
  paging_map-present, map_if_absent_lem, vmm_alloc_page-found, vmm_alloc_page-takes,
}

-- Adding a block puts its descriptor behind the others.
vmm_add_vmm_block_lem :
    (new_vmm_block : ℕ) (b : VmmBlock) (s : Vmm)
    → new_vmm_block ≢ 0
    → Alloc.IsValid s.paging.pmm
    → (s' : Vmm) × (vmm_add_vmm_block new_vmm_block b s ≡ ok s')
      × (s'.blocks ≡ s.blocks ++ next_block b ∷ [])
      × (s'.allocating_new_block ≡ s.allocating_new_block)
      × Alloc.IsValid s'.paging.pmm
unfolding vmm_add_vmm_block clear_table paging_add_page_table set_directory_entry
vmm_add_vmm_block_lem new_vmm_block b s ne v =
    let real : (new_vmm_block == 0) ≡ false = ground (arith, ne) in
    let (phys, p, made, _, v', _) =
      paging_map-present b.page_table (next_block b).page_table 0 0 s.paging v in
    (
      record s {
        blocks = s.blocks ++ next_block b ∷ [];
        paging =
            clear_table (next_block b).page_table
              (paging_add_page_table phys (next_block b).first_page p);
      },
      rw (real, made) refl,
      refl,
      refl,
      v',
    )

-- An allocation that grows the list.
vmm_alloc_page-grows :
    (new_vmm_block p : ℕ) (pre : List VmmBlock) (b : VmmBlock) (s : Vmm)
    → new_vmm_block ≢ 0
    → s.blocks ≡ pre ++ b ∷ []
    → AllFull pre
    → IsFirst b p
    → u32 (b.first_page + p * 4096) ≢ 0
    → (taken_block b p).high_water_mark ≡ 1022
    → s.allocating_new_block ≡ false
    → Alloc.IsValid s.paging.pmm
    → (s' : Vmm) × (vmm_alloc_page new_vmm_block s ≡ ok (u32 (b.first_page + p * 4096), s'))
      × (s'.blocks ≡ pre ++ taken_block b p ∷ next_block b ∷ [])
      × (s'.allocating_new_block ≡ false)
      × Alloc.IsValid s'.paging.pmm
unfolding finish_alloc take_from next_block
vmm_alloc_page-grows new_vmm_block p pre b s made e full v ne mark flag pmm =
    let page = u32 (b.first_page + p * 4096) in
    let found = ap take_page e ∙ take_page-first pre [] b p full v in
    let real : (page == 0) ≡ false = ground (arith, ne) in
    let grow : ((taken_block b p).high_water_mark == 1022) ≡ true = ground (arith, mark) in
    let s₁ = record s { blocks = pre ++ taken_block b p ∷ []; allocating_new_block = true } in
    let (s₂, added, blocks, _, pmm₂) =
      vmm_add_vmm_block_lem new_vmm_block (taken_block b p) s₁ made pmm in
    let s₃ = record s₂ { allocating_new_block = false } in
    let (s', mapped, same, flag', _, pmm', _) = map_if_absent_lem b.page_table page 0 0 s₃ pmm₂ in
    (
      s',
      vmm_alloc_page-found new_vmm_block _ s found ∙ rw (real, grow, flag, added) mapped,
      same ∙ blocks ∙ append_assoc pre (taken_block b p ∷ []) (next_block b ∷ []),
      flag',
      pmm',
    )

-- The next page of a block is the first free one once its first free page was taken.
next-IsFirst :
    (b : VmmBlock) (p : ℕ)
    → IsFirst b p
    → length b.bitmap ≡ 32
    → 1 < b.free_pages
    → p + 1 < 1024
    → frame b.bitmap (p + 1) ≡ 0
    → IsFirst (taken_block b p) (p + 1)
unfolding take_from
next-IsFirst b p v len more below free =
    let set' = λ (q : ℕ). frame-set_bit b.bitmap p q (omega (arith, len, v.below)) in
    record {
      words =
          set-IsWords b.bitmap (p / 32) _ v.words
            (set_bit-lt (get_or b.bitmap (p / 32) 0) (p % 32) (v.words (p / 32)) (omega arith));
      counted = omega arith;
      below = below;
      free = ground (arith, set' (p + 1), free);
      used = λ q h. ground (arith, set' q, v.used q);
    }

-- Let the last block, behind full ones, have its pages up to 1020 in use and 1021 and 1022 free,
-- with a bitmap of 32 words, more than one page counted as free, its high-water mark not beyond
-- 1022, and its pages inside the address space; let no block be in the making, `kmalloc` not return
-- NULL, and the frame allocator be valid. The allocation of page 1021 adds a block, and the next
-- allocation gives out the page that holds the new block's page table.
pub vmm_alloc_page-gives_table :
    (new_vmm_block : ℕ) (pre : List VmmBlock) (b : VmmBlock) (s : Vmm)
    → new_vmm_block ≢ 0
    → s.blocks ≡ pre ++ b ∷ []
    → AllFull pre
    → IsFirst b 1021
    → length b.bitmap ≡ 32
    → 1 < b.free_pages
    → b.high_water_mark ≤ 1022
    → frame b.bitmap 1022 ≡ 0
    → b.first_page + 4096 * 1024 < 2 ^ 32
    → 0 < b.first_page
    → s.allocating_new_block ≡ false
    → Alloc.IsValid s.paging.pmm
    → (page : ℕ) × (s₁ : Vmm) × (table : ℕ) × (s₂ : Vmm) × (vmm_alloc_page new_vmm_block s
        ≡ ok (page, s₁))
      × (s₁.blocks ≡ pre ++ taken_block b 1021 ∷ next_block b ∷ [])
      × (vmm_alloc_page new_vmm_block s₁ ≡ ok (table, s₂))
      × (table ≡ (next_block b).page_table)
unfolding take_from next_block
vmm_alloc_page-gives_table new_vmm_block pre b s made e full v len more mark free top pos flag pmm =
    let (s₁, grown, blocks, flag', pmm') =
      vmm_alloc_page-grows new_vmm_block 1021 pre b s made e full v (omega arith)
        (ground (arith, mark)) flag pmm in
    let v' = next-IsFirst b 1021 v len more (omega arith) free in
    let (s₂, next, _, _, _) =
      vmm_alloc_page-takes new_vmm_block 1022 0 0 pre (next_block b ∷ []) (taken_block b 1021) s₁
        blocks full v' (omega arith) (ground (arith, mark)) pmm' in
    (
      u32 (b.first_page + 1021 * 4096),
      s₁,
      u32 (b.first_page + 1022 * 4096),
      s₂,
      grown,
      blocks,
      next,
      refl,
    )
