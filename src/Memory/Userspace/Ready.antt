-- ===== src/Memory/Userspace/Ready.antt =====
-- Allocations of pages one after the other from the first block of kernel/memory/vmm.c, with no growth due, as
-- the user program's part of kernel/memory/paging.c makes them.
use aosis.Base.{
  ℕ, zero, suc, ◌+◌, ◌*◌, ◌/◌, ◌%◌, ◌≤◌, ◌<◌, ◌≡◌, ◌⊎◌, ◌∙◌, inl, inr, refl, sym, ap, arith, true,
  false, not, ◌&&◌, Bool-cases, List, [], ◌∷◌, ◌==◌, length, get_or, length-set, u32, Result, ok,
  ◌>>=◌,
}
use aosis.Bits.Laws.{set_bit-lt}
use aosis.Memory.Pmm.Frames.{frame, frame-set_bit, IsWords, set-IsWords}
use aosis.Memory.Pmm.Alloc.{pmm_alloc_page-IsValid}
use aosis.Memory.Pmm.Alloc
use aosis.Memory.Paging.{
  Paging, page_table_index, set_table_entry, paging_set_page_table_addr,
  paging_is_virtual_page_present, paging_map_virtual_page,
}
use aosis.Memory.Vmm.{
  VmmBlock, Vmm, take_from, take_page, is_empty, finish_alloc, map_if_absent, vmm_alloc_page,
}
use aosis.Memory.Vmm.Scan.{IsFirst, taken_block, take_page-first}
use aosis.Memory.Vmm.Alloc.{vmm_alloc_page-found}

-- The address of page `p` of the first block.
abbrev pub page_at : ℕ → ℕ
page_at p = 0xC0000000 + p * 4096

-- The tables and directories after a mapping: one entry of `table` may have changed.
pub record Maps (table page : ℕ) (s s' : Paging) : Type 0 where
  pub same_directories : s'.directories ≡ s.directories
  pub same_root : s'.kernel_page_directory ≡ s.kernel_page_directory
  pub others :
      (t i : ℕ) → ((t ≡ table) × (i ≡ page_table_index page)) ⊎ (s'.tables t i ≡ s.tables t i)

map_virtual_page-Maps :
    (table page : ℕ) (s : Paging)
    → Alloc.IsValid s.pmm
    → (phys : ℕ) × (s' : Paging) × (paging_map_virtual_page table page s ≡ ok (phys, s'))
      × Alloc.IsValid s'.pmm
      × Maps table page s s'
unfolding paging_map_virtual_page set_table_entry
map_virtual_page-Maps table page s v =
    let (phys, pmm', made, v', _) = pmm_alloc_page-IsValid s.pmm v in
    let index = page_table_index page in
    let entry = record (paging_set_page_table_addr phys (s.tables table index)) {
      present = true;
      r_w = true;
    } in
    (
      phys,
      set_table_entry table index entry (record s { pmm = pmm' }),
      rw made refl,
      v',
      record { same_directories = refl; same_root = refl; others = λ t i. ground arith },
    )

map_if_absent-Maps :
    (table page : ℕ) (s : Vmm)
    → Alloc.IsValid s.paging.pmm
    → (paging' : Paging) × (map_if_absent table page s ≡ ok (page, record s { paging = paging' }))
      × Alloc.IsValid paging'.pmm
      × Maps table page s.paging paging'
unfolding map_if_absent
map_if_absent-Maps table page s v =
    elim (Bool-cases (paging_is_virtual_page_present table page s.paging)) [
      | inl there ↦ (
        s.paging,
        rw there refl,
        v,
        record { same_directories = refl; same_root = refl; others = λ t i. inr refl },
      )
      | inr absent ↦
          let (phys, s', made, v', maps) = map_virtual_page-Maps table page s.paging v in
          (s', rw (absent, made) refl, v', maps)
    ]

-- The first block has the table `table` and at least `n` free pages, which follow its `p` used ones; none of them is
-- near its end, and the kernel's own directory and this table lie below them.
pub record Ready (table p n : ℕ) (s : Vmm) : Type 0 where
  pub block : VmmBlock
  pub behind : List VmmBlock
  pub head : s.blocks ≡ block ∷ behind
  pub base : block.first_page ≡ 0xC0000000
  pub at : block.page_table ≡ table
  pub size : length block.bitmap ≡ 32
  pub words : IsWords block.bitmap
  pub count : n ≤ block.free_pages
  pub mark : block.high_water_mark ≤ p
  pub room : p + n < 1022
  pub used : (q : ℕ) → q < p → frame block.bitmap q ≡ 1
  pub free : (q : ℕ) → p ≤ q → q < p + n → frame block.bitmap q ≡ 0
  pub pmm : Alloc.IsValid s.paging.pmm
  pub table_below : table < page_at p
  pub root_below : s.paging.kernel_page_directory < page_at p

-- The first page of a block that is ready is taken, and no growth is due.
ready-IsFirst : (table p n : ℕ) (s : Vmm) (r : Ready table p (suc n) s) → IsFirst r.block p
ready-IsFirst table p n s r = record {
  words = r.words;
  counted = omega (arith, r.count);
  below = omega (arith, r.room);
  free = r.free p (omega arith) (omega arith);
  used = r.used;
}

taken-Ready :
    (table p n : ℕ) (s : Vmm) (paging' : Paging) (r : Ready table p (suc n) s)
    → Alloc.IsValid paging'.pmm
    → paging'.kernel_page_directory ≡ s.paging.kernel_page_directory
    → Ready table
        (p + 1)
        n
        (record s { blocks = taken_block r.block p ∷ r.behind; paging = paging' })
unfolding take_from
taken-Ready table p n s paging' r pmm root =
    let bit = λ (q : ℕ). frame-set_bit r.block.bitmap p q (omega (arith, r.size, r.room)) in
    record {
      block = taken_block r.block p;
      behind = r.behind;
      head = refl;
      base = r.base;
      at = r.at;
      size = length-set r.block.bitmap (p / 32) _ ∙ r.size;
      words =
          set-IsWords r.block.bitmap (p / 32) _ r.words (
            set_bit-lt (get_or r.block.bitmap (p / 32) 0) (p % 32) (r.words (p / 32))
              (omega arith));
      count = omega (arith, r.count);
      mark = ground (arith, r.mark);
      room = omega (arith, r.room);
      used = λ q h. ground (arith, bit q, r.used q);
      free = λ q a b. ground (arith, bit q, r.free q);
      pmm = pmm;
      table_below = omega (arith, r.table_below);
      root_below = omega (arith, root, r.root_below);
    }

-- An allocation from a block that is ready returns its next page and changes the tables only where that page
-- is mapped.
pub vmm_alloc_page-Ready :
    (new_vmm_block table p n : ℕ) (s : Vmm)
    → Ready table p (suc n) s
    → (s' : Vmm) × (vmm_alloc_page new_vmm_block s ≡ ok (page_at p, s'))
      × Ready table (p + 1) n s'
      × Maps table (page_at p) s.paging s'.paging
      × (length s'.blocks ≡ length s.blocks)
unfolding finish_alloc take_from
vmm_alloc_page-Ready new_vmm_block table p n s r =
    let found =
      ap take_page r.head
      ∙ take_page-first [] r.behind r.block p tt (ready-IsFirst table p n s r) in
    let page : u32 (r.block.first_page + p * 4096) ≡ page_at p = omega (arith, r.base, r.room) in
    let real : (page_at p == 0) ≡ false = ground arith in
    let s₁ = record s { blocks = taken_block r.block p ∷ r.behind } in
    let (paging', mapped, pmm, maps) = map_if_absent-Maps r.block.page_table (page_at p) s₁ r.pmm in
    let stays : ((taken_block r.block p).high_water_mark == 1022
          && (is_empty r.behind && not s.allocating_new_block))
        ≡ false =
      ground (arith, r.mark, r.room) in
    (
      record s₁ { paging = paging' },
      vmm_alloc_page-found new_vmm_block _ s found ∙ rw (page, real, stays) mapped,
      taken-Ready table p n s paging' r pmm maps.same_root,
      rw (← r.at) maps,
      ap length (sym r.head),
    )

-- `n` calls of `vmm_alloc_page`, and the pages that they return.
unfoldable pub alloc_pages : ℕ → ℕ → Vmm → Result (List ℕ × Vmm)
alloc_pages new_vmm_block zero s = ok ([], s)
alloc_pages new_vmm_block (suc n) s = vmm_alloc_page new_vmm_block s >>= λ (page, s₁).
    alloc_pages new_vmm_block n s₁ >>= λ (pages, s₂). ok (page ∷ pages, s₂)

-- The addresses of `n` pages from page `p` on.
unfoldable pub pages_from : ℕ → ℕ → List ℕ
pages_from p zero = []
pages_from p (suc n) = page_at p ∷ pages_from (p + 1) n

-- The pages that are ready are allocated in their order, each once.
pub alloc_pages-Ready :
    (new_vmm_block table p n : ℕ) (s : Vmm)
    → Ready table p n s
    → (s' : Vmm) × (alloc_pages new_vmm_block n s ≡ ok (pages_from p n, s'))
unfolding alloc_pages pages_from
alloc_pages-Ready new_vmm_block table p zero s r = (s, refl)
alloc_pages-Ready new_vmm_block table p (suc n) s r =
    let (s₁, made, r₁, _, _) = vmm_alloc_page-Ready new_vmm_block table p n s r in
    let (s₂, others) = alloc_pages-Ready new_vmm_block table (p + 1) n s₁ r₁ in
    (s₂, rw (made, others) refl)
