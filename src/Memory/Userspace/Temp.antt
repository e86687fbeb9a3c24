-- ===== src/Memory/Userspace/Temp.antt =====
-- The first 4 MiB and the stack that `paging_add_temp_userspace` of kernel/memory/paging.c opens to user programs.
use aosis.Base.{
  ℕ, suc, length, ◌+◌, ◌*◌, ◌/◌, ◌%◌, true, ◌^◌, ◌<◌, ◌≡◌, ◌≢◌, ◌∙◌, inl, inr, refl, ap, sym, arith,
  u32, for_range-keeps, ok,
}
use aosis.Memory.Pmm.Alloc.{pmm_alloc_page-IsValid}
use aosis.Memory.Pmm.Alloc
use aosis.Memory.Pmm.{PhysicalMemory, pmm_alloc_page}
use aosis.Memory.Paging.{
  Paging, PageDirectory, PageTableEntry, page_table_index, set_directory_entry, set_table_entry,
}
use aosis.Memory.Vmm.{Vmm}
use aosis.Memory.Userspace.{
  global_table_entry, global_directory_entry, map_userspace, add_temp_stack,
  paging_add_temp_userspace,
}
use aosis.Memory.Userspace.Entries.{
  opens, opens_table, global_table_entry_lem, global_directory_entry_lem,
}
use aosis.Memory.Userspace.Ready.{page_at, Maps, Ready, vmm_alloc_page-Ready}
use aosis.Memory.Userspace.Link.{
  phys_of, get_phys_addr-Ready, keeps-Ready, repaged-Ready, phys_same, user_indices,
}

-- After the entries below `k` were written.
record Filled (table : ℕ) (s : Paging) (k : ℕ) (t : Paging) : Type 0 where
  directories : t.directories ≡ s.directories
  pmm : t.pmm ≡ s.pmm
  root : t.kernel_page_directory ≡ s.kernel_page_directory
  others : (u i : ℕ) → u ≢ table → t.tables u i ≡ s.tables u i
  entries : (i : ℕ) → i < k → t.tables table i ≡ global_table_entry (i * 4096)

fill_step :
    (table k : ℕ) (s t : Paging)
    → Filled table s k t
    → Filled table s (k + 1) (set_table_entry table k (global_table_entry (k * 4096)) t)
unfolding set_table_entry
fill_step table k s t c = record {
  directories = c.directories;
  pmm = c.pmm;
  root = c.root;
  others = λ u i ne. ground (arith, c.others u i ne);
  entries = λ i h.
      ground (arith, c.entries i, ap (λ (j : ℕ). global_table_entry (j * 4096)) {x = k} {y = i});
}

map_userspace_lem : (table : ℕ) (s : Paging) → Filled table s 1024 (map_userspace table s)
unfolding map_userspace
map_userspace_lem table s =
    for_range-keeps (Filled table s)
      (λ i t. set_table_entry table i (global_table_entry (i * 4096)) t) 1024 0 1024 s (omega arith)
      (λ k t a b c. fill_step table k s t c)
      (record {
        directories = refl;
        pmm = refl;
        root = refl;
        others = λ u i ne. refl;
        entries = λ i h. absurd (omega arith);
      })

-- The stack's part.
add_temp_stack_lem :
    (stack phys : ℕ) (s : Paging)
    → Alloc.IsValid s.pmm
    → (frame : ℕ) × (s' : Paging) × (add_temp_stack stack phys s ≡ ok s')
      × (s'.tables stack 1023 ≡ global_table_entry frame)
      × (s'.directories s.kernel_page_directory 767 ≡ global_directory_entry phys)
      × (s'.directories s.kernel_page_directory 0 ≡ s.directories s.kernel_page_directory 0)
      × ((u i : ℕ) → u ≢ stack → s'.tables u i ≡ s.tables u i)
      × Alloc.IsValid s'.pmm
      × (s'.kernel_page_directory ≡ s.kernel_page_directory)
      × (pmm_alloc_page s.pmm ≡ ok (frame, s'.pmm))
unfolding add_temp_stack set_table_entry set_directory_entry
add_temp_stack_lem stack phys s v =
    let (frame, pmm', made, valid, _) = pmm_alloc_page-IsValid s.pmm v in
    let (_, _, stack_pd, stack_pt) = user_indices in
    (
      frame,
      set_directory_entry s.kernel_page_directory 767 (global_directory_entry phys)
          (set_table_entry stack 1023 (global_table_entry frame) (record s { pmm = pmm' })),
      rw (made, stack_pd, stack_pt) refl,
      ground arith,
      ground arith,
      ground arith,
      λ u i ne. ground (arith, ne),
      valid,
      refl,
      made,
    )

-- A page that is ready is not the table that maps it.
unmapped :
    (table p n i : ℕ) (s : Vmm) (t t' : Paging)
    → Ready table p n s
    → Maps table (page_at (p + 1)) t t'
    → t'.tables (page_at p) i ≡ t.tables (page_at p) i
unmapped table p n i s t t' r maps = elim (maps.others (page_at p) i) [
  | inl (same, _) ↦ absurd (omega (arith, same, r.table_below))
  | inr kept ↦ kept
]

-- What `paging_add_temp_userspace` leaves, with `n` more pages ready behind the two that it takes.
pub paging_add_temp_userspace_lem :
    (new_vmm_block table p n i : ℕ) (s : Vmm)
    → Ready table p (suc (suc n)) s
    → i < 1024
    → let root = s.paging.kernel_page_directory in
      let stack = page_at (p + 1) in
      (s' : Vmm) × (frame : ℕ) × (paging_add_temp_userspace new_vmm_block s ≡ ok s')
      × (s'.paging.directories root 0
          ≡ global_directory_entry (phys_of table (page_at p) s'.paging))
      × (s'.paging.tables (page_at p) i ≡ global_table_entry (i * 4096))
      × (s'.paging.directories root 767 ≡ global_directory_entry (phys_of table stack s'.paging))
      × (s'.paging.tables stack 1023 ≡ global_table_entry frame)
      × Ready table (p + 1 + 1) n s'
      × (length s'.blocks ≡ length s.blocks)
      × ((pmm : PhysicalMemory) × (pmm_alloc_page pmm ≡ ok (frame, s'.paging.pmm)))
unfolding paging_add_temp_userspace set_directory_entry
paging_add_temp_userspace_lem new_vmm_block table p n i s r h =
    let (s₁, made, r₁, maps₁, size₁) = vmm_alloc_page-Ready new_vmm_block table p (suc n) s r in
    let filled = map_userspace_lem (page_at p) s₁.paging in
    let p₂ = map_userspace (page_at p) s₁.paging in
    let r₂ = keeps-Ready table (p + 1) (suc n) s₁ p₂ r₁ filled.pmm filled.root in
    let phys = phys_of table (page_at p) p₂ in
    let found =
      get_phys_addr-Ready table (p + 1) (suc n) (page_at p) (record s₁ { paging = p₂ }) r₂ in
    let p₃ = set_directory_entry p₂.kernel_page_directory 0 (global_directory_entry phys) p₂ in
    let r₃ = keeps-Ready table (p + 1) (suc n) s₁ p₃ r₁ filled.pmm filled.root in
    let (s₄, made₄, r₄, maps₄, size₄) =
      vmm_alloc_page-Ready new_vmm_block table (p + 1) n (record s₁ { paging = p₃ }) r₃ in
    let found₄ = get_phys_addr-Ready table (p + 1 + 1) n (page_at (p + 1)) s₄ r₄ in
    let (frame, p₅, placed, stack_entry, stack_linked, first_linked, others, valid, root, taken) =
      add_temp_stack_lem (page_at (p + 1)) (phys_of table (page_at (p + 1)) s₄.paging) s₄.paging
        r₄.pmm in
    let at_root : s₄.paging.kernel_page_directory ≡ s.paging.kernel_page_directory =
      maps₄.same_root ∙ filled.root ∙ maps₁.same_root in
    let index = page_table_index (page_at p) in
    let kept =
      ap (λ (e : PageTableEntry). u32 (e.phys_addr * 2 ^ 12))
        (others table index (omega (arith, r.table_below)))
      ∙ phys_same table (p + 1) p p₃ s₄.paging (omega arith) (omega (arith, r.room))
          (maps₄.others table index) in
    let kept₄ =
      ap (λ (e : PageTableEntry). u32 (e.phys_addr * 2 ^ 12))
        (others table (page_table_index (page_at (p + 1))) (omega (arith, r.table_below))) in
    let written : p₃.directories p₂.kernel_page_directory 0 ≡ global_directory_entry phys =
      ground arith in
    let first_entry =
      others (page_at p) i (omega arith)
      ∙ unmapped table p (suc (suc n)) i s p₃ s₄.paging r maps₄
      ∙ filled.entries i h in
    (
      record s₄ { paging = p₅ },
      frame,
      rw (made, found, made₄, found₄, placed) refl,
      ap (λ (k : ℕ). p₅.directories k 0) (sym at_root)
          ∙ first_linked
          ∙ ap (λ (m : ℕ → PageDirectory). m s₄.paging.kernel_page_directory 0)
              maps₄.same_directories
          ∙ ap (λ (k : ℕ). p₃.directories k 0) maps₄.same_root
          ∙ written
          ∙ ap global_directory_entry (sym kept),
      first_entry,
      ap (λ (k : ℕ). p₅.directories k 767) (sym at_root)
          ∙ stack_linked
          ∙ ap global_directory_entry (sym kept₄),
      stack_entry,
      repaged-Ready table (p + 1 + 1) n s₄ p₅ r₄ valid root,
      size₄ ∙ size₁,
      (s₄.paging.pmm, taken),
    )

-- Let the first block start at the kernel's base, with its pages before `p` in use and the next two
-- free, its high-water mark not beyond `p`, all of them below page 1022, and its table and the
-- kernel's directory below page `p`; and let the frame allocator be valid.
-- `paging_add_temp_userspace` makes the first the table of the first 4 MiB, which it maps to the
-- frames of the same addresses, and the second the table of the stack, whose last page gets the
-- frame that the last call of the frame allocator returned; the kernel's directory holds the frames
-- of both. All these entries are present, writable, open to user programs and global, and their
-- other bits are 0.
pub paging_add_temp_userspace-layout :
    (new_vmm_block table p i : ℕ) (s : Vmm)
    → Ready table p 2 s
    → i < 1024
    → let root = s.paging.kernel_page_directory in
      let stack = page_at (p + 1) in
      (s' : Vmm) × (frame : ℕ) × (paging_add_temp_userspace new_vmm_block s ≡ ok s')
      × (s'.paging.directories root 0
          ≡ opens_table true (phys_of table (page_at p) s'.paging / 4096))
      × (s'.paging.tables (page_at p) i ≡ opens true i)
      × (s'.paging.directories root 767 ≡ opens_table true (phys_of table stack s'.paging / 4096))
      × (s'.paging.tables stack 1023 ≡ opens true (frame / 4096 % 2 ^ 20))
      × ((pmm : PhysicalMemory) × (pmm_alloc_page pmm ≡ ok (frame, s'.paging.pmm)))
paging_add_temp_userspace-layout new_vmm_block table p i s r h =
    let (s', frame, made, first, entry, second, stack, _, _, taken) =
      paging_add_temp_userspace_lem new_vmm_block table p 0 i s r h in
    let frame_directory = λ (page : ℕ).
      global_directory_entry_lem (phys_of table page s'.paging)
      ∙ ap (opens_table true) {x = phys_of table page s'.paging / 4096 % 2 ^ 20}
          {y = phys_of table page s'.paging / 4096} (omega arith) in
    (
      s',
      frame,
      made,
      first ∙ frame_directory (page_at p),
      entry
          ∙ global_table_entry_lem (i * 4096)
          ∙ ap (opens true) {x = i * 4096 / 4096 % 2 ^ 20} {y = i} (omega arith),
      second ∙ frame_directory (page_at (p + 1)),
      stack ∙ global_table_entry_lem frame,
      taken,
    )
