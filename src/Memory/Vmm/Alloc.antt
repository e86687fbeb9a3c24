-- ===== src/Memory/Vmm/Alloc.antt =====
-- What `vmm_alloc_page` of kernel/memory/vmm.c returns and maps.
use aosis.Base.{
  ℕ, ◌+◌, ◌*◌, ◌≡◌, ◌≢◌, ◌⊎◌, ◌∙◌, inl, inr, refl, ap, arith, true, false, not, ◌&&◌, Bool-cases,
  none, some, List, ◌∷◌, ◌++◌, ◌==◌, ltb, if◌then◌else◌, length, u32, ok, panic,
}
use aosis.Memory.Pmm.Alloc.{first_free, pmm_alloc_page-IsValid}
use aosis.Memory.Pmm.Alloc
use aosis.Memory.Pmm.Frames.{frame, frame-set_bit}
use aosis.Memory.Paging.{
  Paging, page_table_index, set_table_entry, paging_set_page_table_addr,
  paging_is_virtual_page_present, paging_map_virtual_page,
}
use aosis.Memory.Vmm.{
  VmmBlock, Vmm, Taken, take_from, take_page, is_empty, finish_alloc, map_if_absent, vmm_alloc_page,
}
use aosis.Memory.Vmm.Scan.{IsFirst, AllFull, taken_block, take_page-first}

-- Mapping a page leaves it present, and touches no other entry.
pub paging_map-present :
    (table page t i : ℕ) (s : Paging)
    → Alloc.IsValid s.pmm
    → (phys : ℕ) × (s' : Paging) × (paging_map_virtual_page table page s ≡ ok (phys, s'))
      × (paging_is_virtual_page_present table page s' ≡ true)
      × Alloc.IsValid s'.pmm
      × (((t ≡ table) × (i ≡ page_table_index page)) ⊎ (s'.tables t i ≡ s.tables t i))
unfolding paging_map_virtual_page paging_is_virtual_page_present set_table_entry
paging_map-present table page t i s v =
    let (phys, pmm', made, v', _) = pmm_alloc_page-IsValid s.pmm v in
    let index = page_table_index page in
    let entry = record (paging_set_page_table_addr phys (s.tables table index)) {
      present = true;
      r_w = true;
    } in
    (
      phys,
      set_table_entry table index entry (record s { pmm = pmm' }),
      rw made refl,
      ground arith,
      v',
      ground arith,
    )

pub map_if_absent_lem :
    (table page t i : ℕ) (s : Vmm)
    → Alloc.IsValid s.paging.pmm
    → (s' : Vmm) × (map_if_absent table page s ≡ ok (page, s'))
      × (s'.blocks ≡ s.blocks)
      × (s'.allocating_new_block ≡ s.allocating_new_block)
      × (paging_is_virtual_page_present table page s'.paging ≡ true)
      × Alloc.IsValid s'.paging.pmm
      × (((t ≡ table) × (i ≡ page_table_index page)) ⊎ (s'.paging.tables t i ≡ s.paging.tables t i))
unfolding map_if_absent
map_if_absent_lem table page t i s v =
    elim (Bool-cases (paging_is_virtual_page_present table page s.paging)) [
      | inl mapped ↦ (s, rw mapped refl, refl, refl, mapped, v, inr refl)
      | inr absent ↦
          let (phys, p, made, present, v', others) = paging_map-present table page t i s.paging v in
          (record s { paging = p }, rw (absent, made) refl, refl, refl, present, v', others)
    ]

pub vmm_alloc_page-found :
    (new_vmm_block : ℕ) (t : Taken) (s : Vmm)
    → take_page s.blocks ≡ some t
    → vmm_alloc_page new_vmm_block s ≡ finish_alloc new_vmm_block t s
unfolding vmm_alloc_page
vmm_alloc_page-found new_vmm_block t s e = rw (vmm_alloc_page, e) refl

pub vmm_alloc_page-takes :
    (new_vmm_block p t i : ℕ) (pre post : List VmmBlock) (b : VmmBlock) (s : Vmm)
    → s.blocks ≡ pre ++ b ∷ post
    → AllFull pre
    → IsFirst b p
    → u32 (b.first_page + p * 4096) ≢ 0
    → ((taken_block b p).high_water_mark == 1022 && (is_empty post && not s.allocating_new_block))
      ≡ false
    → Alloc.IsValid s.paging.pmm
    → let page = u32 (b.first_page + p * 4096) in
      (s' : Vmm) × (vmm_alloc_page new_vmm_block s ≡ ok (page, s'))
      × (s'.blocks ≡ pre ++ taken_block b p ∷ post)
      × (paging_is_virtual_page_present b.page_table page s'.paging ≡ true)
      × (((t ≡ b.page_table) × (i ≡ page_table_index page))
          ⊎ (s'.paging.tables t i ≡ s.paging.tables t i))
unfolding finish_alloc take_from
vmm_alloc_page-takes new_vmm_block p t i pre post b s e full v ne stays pmm =
    let page = u32 (b.first_page + p * 4096) in
    let found = ap take_page e ∙ take_page-first pre post b p full v in
    let real : (page == 0) ≡ false = ground (arith, ne) in
    let s₁ = record s { blocks = pre ++ taken_block b p ∷ post } in
    let (s', made, blocks, _, present, _, others) =
      map_if_absent_lem b.page_table page t i s₁ pmm in
    (
      s',
      vmm_alloc_page-found new_vmm_block _ s found ∙ rw (real, stays) made,
      blocks,
      present,
      others,
    )

-- Block `b'` is `b` with page `p` in use as well and one free page less, its high-water mark behind
-- that page.
pub record TakenFrom (p : ℕ) (b b' : VmmBlock) : Type 0 where
  pub pages : (q : ℕ) → frame b'.bitmap q ≡ (if p == q then 1 else frame b.bitmap q)
  pub count : b'.free_pages + 1 ≡ b.free_pages
  pub mark : b'.high_water_mark ≡ (if ltb p b.high_water_mark then b.high_water_mark else p + 1)
  pub same_first : b'.first_page ≡ b.first_page
  pub same_table : b'.page_table ≡ b.page_table

taken_block-TakenFrom :
    (b : VmmBlock) (p : ℕ) → IsFirst b p → length b.bitmap ≡ 32 → TakenFrom p b (taken_block b p)
unfolding take_from
taken_block-TakenFrom b p v size = record {
  pages = λ q. frame-set_bit b.bitmap p q (omega (arith, v.below, size));
  count = omega (arith, v.counted);
  mark = ground arith;
  same_first = refl;
  same_table = refl;
}

taken_block-mark :
    (b : VmmBlock) (p : ℕ)
    → (taken_block b p).high_water_mark
      ≡ (if ltb p b.high_water_mark then b.high_water_mark else p + 1)
unfolding take_from
taken_block-mark b p = ground arith

-- Let all blocks before `b` be full, `p` be the first free page of `b`, whose bitmap has 32 words,
-- its address not 0, let the high-water mark not ask for a new block, and let the frame allocator
-- be valid. Then `vmm_alloc_page` returns the address of that page, marks it and no other page of
-- the block, counts one free page less and raises the high-water mark behind the page, keeps the
-- other blocks, and leaves the page mapped in the block's table, of which no other entry changes.
pub vmm_alloc_page-first :
    (new_vmm_block p t i : ℕ) (pre post : List VmmBlock) (b : VmmBlock) (s : Vmm)
    → s.blocks ≡ pre ++ b ∷ post
    → AllFull pre
    → IsFirst b p
    → length b.bitmap ≡ 32
    → u32 (b.first_page + p * 4096) ≢ 0
    → ((if ltb p b.high_water_mark then b.high_water_mark else p + 1) == 1022
        && (is_empty post && not s.allocating_new_block))
      ≡ false
    → Alloc.IsValid s.paging.pmm
    → let page = u32 (b.first_page + p * 4096) in
      (b' : VmmBlock) × (s' : Vmm) × (vmm_alloc_page new_vmm_block s ≡ ok (page, s'))
      × (s'.blocks ≡ pre ++ b' ∷ post)
      × TakenFrom p b b'
      × (paging_is_virtual_page_present b.page_table page s'.paging ≡ true)
      × (((t ≡ b.page_table) × (i ≡ page_table_index page))
          ⊎ (s'.paging.tables t i ≡ s.paging.tables t i))
vmm_alloc_page-first new_vmm_block p t i pre post b s e full v size ne stays pmm =
    let due =
      ap (λ (n : ℕ). n == 1022 && (is_empty post && not s.allocating_new_block))
        (taken_block-mark b p) in
    let (s', made, blocks, present, others) =
      vmm_alloc_page-takes new_vmm_block p t i pre post b s e full v ne (due ∙ stays) pmm in
    (taken_block b p, s', made, blocks, taken_block-TakenFrom b p v size, present, others)

pub vmm_alloc_page-panics :
    (new_vmm_block : ℕ) (s : Vmm)
    → take_page s.blocks ≡ none
    → vmm_alloc_page new_vmm_block s ≡ panic
unfolding vmm_alloc_page
vmm_alloc_page-panics new_vmm_block s e = rw (vmm_alloc_page, e) refl
