-- ===== src/Memory/Paging/Keeps.antt =====
-- What `paging_init` of kernel/memory/paging.c leaves besides the tables.
use aosis.Base.{
  ℕ, ◌+◌, ◌^◌, ◌<◌, ◌≡◌, ◌≢◌, ◌∙◌, refl, ap, arith, false, ◌==◌, set, for_range-keeps, ok,
}
use aosis.Memory.Pmm.{PhysicalMemory, pmm_alloc_page}
use aosis.Memory.Paging.{
  Paging, p2v_addr, clear_directory, clear_table, set_table_entry, set_directory_entry, map_kernel,
  install_kernel, paging_init, paging_change_page_directory, v2p_addr,
}

-- The parts of the state that a write of an entry leaves alone.
record Same (s t : Paging) : Type 0 where
  pmm : t.pmm ≡ s.pmm
  root : t.kernel_page_directory ≡ s.kernel_page_directory

map_kernel-Same : (page_table : ℕ) (s : Paging) → Same s (map_kernel page_table s)
unfolding map_kernel set_table_entry
map_kernel-Same page_table s =
    for_range-keeps (λ _ t. Same s t) _ 1024 0 1024 s (omega arith)
      (λ k t _ _ same. record { pmm = same.pmm; root = same.root })
      (record { pmm = refl; root = refl })

-- Let the physical memory manager give `paging_init` two different frames below 1 GiB. It returns the
-- virtual address of the second and makes that of the first the kernel's directory, its handler
-- is entry 14 of the table, and the frame allocator is as the second allocation left it.
pub paging_init-keeps :
    (handler start first second : ℕ) (pmm₁ pmm₂ : PhysicalMemory) (s : Paging)
    → pmm_alloc_page s.pmm ≡ ok (first, pmm₁)
    → pmm_alloc_page pmm₁ ≡ ok (second, pmm₂)
    → first < 2 ^ 30
    → second < 2 ^ 30
    → first ≢ second
    → (s' : Paging) × (paging_init handler start s ≡ ok (second + 0xC0000000, s'))
      × (s'.cr3 ≡ first)
      × (s'.kernel_page_directory ≡ first + 0xC0000000)
      × (s'.idt_handlers ≡ set s.idt_handlers 14 handler)
      × (s'.pmm ≡ pmm₂)
unfolding paging_init install_kernel p2v_addr v2p_addr clear_table clear_directory
    set_directory_entry paging_change_page_directory
paging_init-keeps handler start first second pmm₁ pmm₂ s a₁ a₂ f g apart =
    let directory = p2v_addr first in
    let page_table = p2v_addr second in
    let at : directory ≡ first + 0xC0000000 = omega arith in
    let at' : page_table ≡ second + 0xC0000000 = omega arith in
    let real : (directory == 0) ≡ false = ground arith in
    let real' : (page_table == 0) ≡ false = ground arith in
    let two : (directory == page_table) ≡ false = ground (arith, apart, at, at') in
    let s₁ =
      clear_directory directory (record s { pmm = pmm₁; kernel_page_directory = directory }) in
    let s₂ = clear_table page_table (record s₁ { pmm = pmm₂ }) in
    let same = map_kernel-Same page_table s₂ in
    let s' = (install_kernel handler start page_table s₂).1 in
    (
      s',
      rw (a₁, real, a₂, real', two) (ap (λ (p : ℕ). ok (p, s')) at'),
      omega (arith, at),
      same.root ∙ at,
      refl,
      same.pmm,
    )
