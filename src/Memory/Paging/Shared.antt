-- ===== src/Memory/Paging/Shared.antt =====
-- `paging_init` of kernel/memory/paging.c without a free frame: its directory and its table are one page.
use aosis.Base.{ℕ, ◌*◌, ◌/◌, ◌^◌, ◌<◌, ◌≡◌, ◌≢◌, ◌∙◌, refl, ap, arith, true, false, some, ◌==◌, ok}
use aosis.Memory.Pmm.{PhysicalMemory, pmm_alloc_page}
use aosis.Memory.Paging.{
  Paging, PageDirectory, PageDirectoryEntry, PageTableEntry, p2v_addr, page_directory_index,
  page_table_index, clear_table, clear_directory, kernel_entry, install_kernel, share_page,
  as_directory_entry, paging_init,
}
use aosis.Memory.Paging.Walk.{
  walk, walk-present, page_directory_index_lem, page_table_index_lem, v2p-p2v,
}
use aosis.Memory.Paging.Init.{
  kernel_entry_lem, install_kernel_entries, install_kernel_root, install_kernel_result, cleared,
}

-- A page that is both, after its table was filled and entry 768 written as one of the directory.
share_page-walk :
    (page addr : ℕ) (s : Paging)
    → page ≡ p2v_addr 0
    → addr < 2 ^ 22
    → page_table_index addr ≢ 768
    → ((j : ℕ) → j < 1024 → s.tables page j ≡ kernel_entry (j * 4096))
    → walk p2v_addr page addr (share_page page 768 s) ≡ some addr
unfolding share_page
share_page-walk page addr s at low other filled =
    let i' = page_directory_index_lem addr (omega arith) in
    let j' = page_table_index_lem addr in
    let j = page_table_index addr in
    let zero : page_directory_index addr ≡ 0 = omega (arith, i') in
    let s' = share_page page 768 s in
    let first : s'.directories page (page_directory_index addr)
        ≡ as_directory_entry (kernel_entry (0 * 4096)) =
      ground (arith, zero, ap as_directory_entry (filled 0 (omega arith))) in
    let entry : s'.tables page j ≡ kernel_entry (j * 4096) =
      ground (arith, other, filled j (omega (arith, j'))) in
    let head = kernel_entry_lem 0 (omega arith) in
    let cell = kernel_entry_lem j (omega (arith, j')) in
    walk-present p2v_addr page addr page j s'
      (ap (λ (e : PageDirectoryEntry). e.present) first ∙ head.0)
      (ap (λ (e : PageDirectoryEntry). p2v_addr (e.phys_addr * 4096)) first
        ∙ ap (λ (n : ℕ). p2v_addr (n * 4096)) (head.1)
        ∙ (ground (arith, at)))
      (ap (λ (e : PageTableEntry). e.present) entry ∙ cell.0)
      (ap (λ (e : PageTableEntry). e.phys_addr) entry ∙ cell.1)
    ∙ ground (arith, j')

-- Let the physical memory manager give `paging_init` NULL twice, and let the kernel's code start in
-- the first 4 MiB above the kernel's base. `paging_init` does not stop: it loads the page at physical
-- address 0, through which the processor translates the addresses of the first 4 MiB to themselves,
-- those in page 768 left aside.
paging_init-shared :
    (handler start addr : ℕ) (pmm₁ pmm₂ : PhysicalMemory) (s : Paging)
    → pmm_alloc_page s.pmm ≡ ok (0, pmm₁)
    → pmm_alloc_page pmm₁ ≡ ok (0, pmm₂)
    → start / 2 ^ 22 ≡ 768
    → addr < 2 ^ 22
    → page_table_index addr ≢ 768
    → (s' : Paging) × (paging_init handler start s ≡ ok (p2v_addr 0, s'))
      × (s'.cr3 ≡ 0)
      × (walk p2v_addr (p2v_addr s'.cr3) addr s' ≡ some addr)
unfolding paging_init clear_table clear_directory
paging_init-shared handler start addr pmm₁ pmm₂ s a₁ a₂ st low other =
    let page = p2v_addr 0 in
    let s₁ = record s { pmm = pmm₁; kernel_page_directory = page } in
    let s₂ = clear_table page (record (clear_directory page s₁) { pmm = pmm₂ }) in
    let s₃ = (install_kernel handler start page s₂).1 in
    let s' = share_page page 768 s₃ in
    let index : page_directory_index start ≡ 768 =
      page_directory_index_lem start (omega (arith, st)) ∙ st in
    let real : (page == 0) ≡ false = unfold p2v_addr in refl in
    let same : (page == page) ≡ true = ground arith in
    let root = install_kernel_root handler start page s₂ in
    let loaded : s'.cr3 ≡ 0 = unfold share_page in (root.0 ∙ v2p-p2v 0 (omega arith)) in
    let filled = λ (j : ℕ) (h : j < 1024).
      (install_kernel_entries handler start page 0 j s₂ index h
        (ap (λ (d : PageDirectory). d 0) (cleared page page s₁ pmm₂))).2 in
    let found = share_page-walk page addr s₃ refl low other filled in
    (
      s',
      rw (a₁, real, a₂, real, same, index)
          (ap (λ (r : ℕ × Paging). ok (r.0, share_page page 768 r.1))
            (install_kernel_result handler start page s₂)),
      loaded,
      ap (λ (c : ℕ). walk p2v_addr (p2v_addr c) addr s') loaded ∙ found,
    )
