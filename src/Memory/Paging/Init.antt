-- ===== src/Memory/Paging/Init.antt =====
-- The kernel's window, which `paging_init` of kernel/memory/paging.c builds.
use aosis.Base.{
  ℕ, zero, suc, ◌+◌, ◌-◌, ◌*◌, ◌/◌, ◌%◌, ◌^◌, ◌≤◌, ◌<◌, ◌≡◌, ◌≢◌, ◌∙◌, refl, ap, arith, true, false,
  some, none, ltb, leb, ◌==◌, ◌&&◌, if◌then◌else◌, for_range, Bool-cases, inl, inr, shr, ok,
}
use aosis.Memory.Page.{page_align_lem}
use aosis.Memory.Pmm.{PhysicalMemory, pmm_alloc_page}
use aosis.Memory.Paging.{
  Paging, PageDirectory, PageTableEntry, p2v_addr, v2p_addr, page_directory_index, page_table_index,
  no_pd_entry, paging_set_page_directory_addr, paging_set_page_table_addr, set_directory_entry,
  set_table_entry, clear_table, clear_directory, kernel_entry, map_kernel, install_kernel,
  paging_init, paging_change_page_directory, kernel_virt_base,
}
use aosis.Memory.Paging.Walk.{
  walk, walk-present, walk-absent, page_directory_index_lem, page_table_index_lem, v2p-p2v,
}

pub kernel_entry_lem :
    (i : ℕ)
    → i < 1024
    → ((kernel_entry (i * 4096)).present ≡ true) × ((kernel_entry (i * 4096)).phys_addr ≡ i)
unfolding kernel_entry paging_set_page_table_addr
kernel_entry_lem i h = (refl, omega (arith, page_align_lem (i * 4096)))

-- What a loop over the entries of one table leaves.
module _ (table : ℕ) (entry : ℕ → PageTableEntry) where
  abbrev pub fill : ℕ → ℕ → Paging → Paging
  fill n i s =
      for_range n i
        (λ k t. set_table_entry table (page_table_index (k * 4096)) (entry (k * 4096)) t) s

  pub fill_lem :
      (n i j : ℕ) (s : Paging)
      → i + n ≤ 1024
      → ((fill n i s).tables table j
          ≡ (if leb i j && ltb j (i + n) then entry (j * 4096) else s.tables table j))
        × ((fill n i s).directories ≡ s.directories)
        × ((fill n i s).kernel_page_directory ≡ s.kernel_page_directory)
  unfolding for_range set_table_entry
  fill_lem zero i j s h = ground arith
  fill_lem (suc n) i j s h =
      let here : page_table_index (i * 4096) ≡ i = omega (arith, page_table_index_lem (i * 4096)) in
      let s' = set_table_entry table (page_table_index (i * 4096)) (entry (i * 4096)) s in
      let (table', directories, root) = fill_lem n (i + 1) j s' (omega arith) in
      ground
        (arith, table', directories, root, here, ap (λ (k : ℕ). entry (k * 4096)) {x = i} {y = j})

table_back :
    (page_table : ℕ)
    → page_table < 2 ^ 32
    → page_table % 4096 ≡ 0
    → p2v_addr (shr (v2p_addr page_table) 12 % 2 ^ 20 * 4096) ≡ page_table
unfolding p2v_addr v2p_addr
table_back page_table h al = omega arith

-- The entries after `install_kernel`.
pub install_kernel_entries :
    (handler start page_table i j : ℕ) (s : Paging)
    → page_directory_index start ≡ 768
    → j < 1024
    → s.directories s.kernel_page_directory i ≡ no_pd_entry
    → let s' = (install_kernel handler start page_table s).1 in
      ((s'.directories s'.kernel_page_directory i).present ≡ (i == 768))
      × (i ≡ 768
          → (s'.directories s'.kernel_page_directory i).phys_addr
            ≡ shr (v2p_addr page_table) 12 % 2 ^ 20)
      × (s'.tables page_table j ≡ kernel_entry (j * 4096))
unfolding install_kernel map_kernel set_directory_entry paging_change_page_directory
    paging_set_page_directory_addr
install_kernel_entries handler start page_table i j s st h clear =
    let (table', directories, root) = fill_lem page_table kernel_entry 1024 0 j s (omega arith) in
    let m = map_kernel page_table s in
    let clear' : m.directories s.kernel_page_directory i ≡ no_pd_entry =
      ap (λ (d : ℕ → PageDirectory). d s.kernel_page_directory i) directories ∙ clear in
    (
      ground (arith, st, root, clear'),
      λ e. ground (arith, st, root, clear'),
      ground (arith, table'),
    )

-- The window of the first 4 MiB.
install_kernel-walk :
    (handler start page_table addr : ℕ) (s : Paging)
    → page_table < 2 ^ 32
    → page_table % 4096 ≡ 0
    → start / 2 ^ 22 ≡ 768
    → addr < 2 ^ 32
    → s.directories s.kernel_page_directory ≡ (λ _. no_pd_entry)
    → let s' = (install_kernel handler start page_table s).1 in
      walk p2v_addr s'.kernel_page_directory addr s' ≡ (
        if leb kernel_virt_base addr && ltb addr (kernel_virt_base + 2 ^ 22)
        then some (addr - kernel_virt_base)
        else none)
install_kernel-walk handler start page_table addr s h al st a clear =
    let i = page_directory_index addr in
    let j = page_table_index addr in
    let i' = page_directory_index_lem addr a in
    let j' = page_table_index_lem addr in
    let s' = (install_kernel handler start page_table s).1 in
    let (present, phys, table) =
      install_kernel_entries handler start page_table i j s
        (page_directory_index_lem start (omega arith) ∙ st) (omega (arith, j'))
        (ap (λ (d : PageDirectory). d i) clear) in
    let entry = kernel_entry_lem j (omega (arith, j')) in
    elim (Bool-cases (i == 768)) [
      | inl here ↦
          let at : i ≡ 768 = ground arith in
          let found =
            walk-present p2v_addr s'.kernel_page_directory addr page_table j s' (present ∙ here)
              (ap (λ (n : ℕ). p2v_addr (n * 4096)) (phys at) ∙ table_back page_table h al)
              (ap (λ (e : PageTableEntry). e.present) table ∙ entry.0)
              (ap (λ (e : PageTableEntry). e.phys_addr) table ∙ entry.1) in
          found ∙ ground (arith, i', j')
      | inr other ↦
          walk-absent p2v_addr s'.kernel_page_directory addr s' (present ∙ other)
          ∙ ground (arith, i')
    ]

p2v_below : (x : ℕ) → x < 2 ^ 30 → p2v_addr x ≡ x + kernel_virt_base
unfolding p2v_addr
p2v_below x h = omega arith

pub install_kernel_root :
    (handler start page_table : ℕ) (s : Paging)
    → let s' = (install_kernel handler start page_table s).1 in
      (s'.cr3 ≡ v2p_addr s.kernel_page_directory)
      × (s'.kernel_page_directory ≡ s.kernel_page_directory)
unfolding install_kernel set_directory_entry paging_change_page_directory map_kernel
install_kernel_root handler start page_table s =
    (refl, (fill_lem page_table kernel_entry 1024 0 0 s (omega arith)).2)

pub install_kernel_result :
    (handler start page_table : ℕ) (s : Paging)
    → install_kernel handler start page_table s
      ≡ (page_table, (install_kernel handler start page_table s).1)
unfolding install_kernel
install_kernel_result handler start page_table s = refl

pub cleared :
    (directory page_table : ℕ) (s : Paging) (pmm : PhysicalMemory)
    → (clear_table page_table (record (clear_directory directory s) { pmm = pmm })).directories
        directory
      ≡ (λ _. no_pd_entry)
unfolding clear_table clear_directory
cleared directory page_table s pmm =
    let e : (directory == directory) ≡ true = ground arith in rw e refl

-- Let the physical memory manager give `paging_init` two different frames below 1 GiB, the second at a page boundary, and
-- let the kernel's code start in the first 4 MiB above the kernel's base. Then `paging_init` returns the
-- table's address and loads the first frame as the page directory, and the processor translates each
-- 32-bit address in those 4 MiB to its distance from the base, and no other address.
pub paging_init-walk :
    (handler start first second addr : ℕ) (pmm₁ pmm₂ : PhysicalMemory) (s : Paging)
    → pmm_alloc_page s.pmm ≡ ok (first, pmm₁)
    → pmm_alloc_page pmm₁ ≡ ok (second, pmm₂)
    → first < 2 ^ 30
    → second < 2 ^ 30
    → first ≢ second
    → second % 4096 ≡ 0
    → start / 2 ^ 22 ≡ 768
    → addr < 2 ^ 32
    → (s' : Paging) × (paging_init handler start s ≡ ok (p2v_addr second, s'))
      × (s'.cr3 ≡ first)
      × (walk p2v_addr (p2v_addr s'.cr3) addr s' ≡ (
          if leb kernel_virt_base addr && ltb addr (kernel_virt_base + 2 ^ 22)
          then some (addr - kernel_virt_base)
          else none))
unfolding paging_init clear_table clear_directory
paging_init-walk handler start first second addr pmm₁ pmm₂ s a₁ a₂ f g apart al st h =
    let directory = p2v_addr first in
    let page_table = p2v_addr second in
    let s₁ = record s { pmm = pmm₁; kernel_page_directory = directory } in
    let s₂ = clear_table page_table (record (clear_directory directory s₁) { pmm = pmm₂ }) in
    let directory' = p2v_below first f in
    let page_table' = p2v_below second g in
    let real : (directory == 0) ≡ false = ground (arith, directory') in
    let real' : (page_table == 0) ≡ false = ground (arith, page_table') in
    let two : (directory == page_table) ≡ false = ground (arith, apart, directory', page_table') in
    let s' = (install_kernel handler start page_table s₂).1 in
    let root = install_kernel_root handler start page_table s₂ in
    let loaded : s'.cr3 ≡ first = ground (arith, root.0, v2p-p2v first) in
    let found =
      install_kernel-walk handler start page_table addr s₂ (omega (arith, page_table'))
        (omega (arith, page_table')) st h (cleared directory page_table s₁ pmm₂) in
    (
      s',
      rw (a₁, real, a₂, real', two) (ap ok (install_kernel_result handler start page_table s₂)),
      loaded,
      rw loaded (rw root.1 at found),
    )
