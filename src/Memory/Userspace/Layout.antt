-- ===== src/Memory/Userspace/Layout.antt =====
-- The directory that `paging_create_userspace` of kernel/memory/paging.c makes.
use aosis.Base.{
  ℕ, ◌+◌, ◌*◌, ◌/◌, ◌%◌, false, ◌^◌, ◌≤◌, ◌<◌, ◌≡◌, ◌≢◌, ◌∙◌, refl, ap, arith, u32, for_range-keeps,
  ok,
}
use aosis.Memory.Paging.{
  Paging, PageDirectory, PageTable, kernel_virt_base, page_directory_index, page_table_index,
  set_directory_entry,
}
use aosis.Memory.Vmm.{Vmm}
use aosis.Memory.Userspace.{copy_kernel_entries, paging_create_userspace, stack_address_base}
use aosis.Memory.Userspace.Entries.{
  opens, opens_table, user_table_entry_lem, user_directory_entry_lem,
}
use aosis.Memory.Userspace.Ready.{page_at, Ready, vmm_alloc_page-Ready}
use aosis.Task.UserTask.{UserTaskInfo}
use aosis.Memory.Userspace.Link.{
  phys_of, get_phys_addr-Ready, keeps-Ready, add_user_page_lem, program_linked, program_entry,
  stack_linked, stack_entry, kernel_kept, earlier_kept,
}

-- After the entries from 768 up to `k` were copied.
record Copied (new_userspace : ℕ) (s : Paging) (k : ℕ) (t : Paging) : Type 0 where
  tables : t.tables ≡ s.tables
  pmm : t.pmm ≡ s.pmm
  root : t.kernel_page_directory ≡ s.kernel_page_directory
  kernel : t.directories s.kernel_page_directory ≡ s.directories s.kernel_page_directory
  entries :
      (i : ℕ)
      → 768 ≤ i
      → i < k
      → t.directories new_userspace i ≡ s.directories s.kernel_page_directory i

kernel_index : page_directory_index kernel_virt_base ≡ 768
unfolding page_directory_index
kernel_index = refl

copy_step :
    (new_userspace k : ℕ) (s t : Paging)
    → new_userspace ≢ s.kernel_page_directory
    → Copied new_userspace s k t
    → Copied new_userspace s
        (k + 1)
        (set_directory_entry new_userspace k (t.directories t.kernel_page_directory k) t)
unfolding set_directory_entry
copy_step new_userspace k s t ne c =
    let copied =
      ap (λ (d : ℕ). t.directories d k) c.root ∙ ap (λ (d : PageDirectory). d k) c.kernel in
    record {
      tables = c.tables;
      pmm = c.pmm;
      root = c.root;
      kernel = ground (arith, ne, c.kernel);
      entries = λ i a b. ground (
        arith,
        c.entries i a,
        copied,
        ap (s.directories s.kernel_page_directory) {x = i} {y = k},
      );
    }

copy_kernel_entries_lem :
    (new_userspace : ℕ) (s : Paging)
    → new_userspace ≢ s.kernel_page_directory
    → Copied new_userspace s 1024 (copy_kernel_entries new_userspace s)
unfolding copy_kernel_entries
copy_kernel_entries_lem new_userspace s ne = rw kernel_index (
    for_range-keeps (Copied new_userspace s)
      (λ i t. set_directory_entry new_userspace i (t.directories t.kernel_page_directory i) t) 256
      768 1024 s (omega arith) (λ k t a b c. copy_step new_userspace k s t ne c)
      (record {
        tables = refl;
        pmm = refl;
        root = refl;
        kernel = refl;
        entries = λ i a b. absurd (omega arith);
      }))

-- Let the first block start at the kernel's base, with its pages before `p` in use and the next
-- three free, its high-water mark not beyond `p`, all of them below page 1022, and its table and
-- the kernel's directory below page `p`; and let the frame allocator be valid.
-- `paging_create_userspace` makes the first a directory that shares the kernel's entries, from 768
-- on, and the other two the tables of its entries 0 and 767: these entries hold the frames of those
-- pages. The first page of the address space and the last before the kernel's base, the stack, get
-- the same frame, the program's. These four entries are present, writable and open to user
-- programs, and their other bits are 0.
pub paging_create_userspace-layout :
    (new_vmm_block table p i : ℕ) (user_task : UserTaskInfo) (s : Vmm)
    → Ready table p 3 s
    → 768 ≤ i
    → i < 1024
    → let d = page_at p in
      let program = page_at (p + 1) in
      let stack = page_at (p + 1 + 1) in
      (s' : Vmm) × (paging_create_userspace new_vmm_block user_task s
        ≡ ok (phys_of table d s'.paging, s'))
      × (s'.paging.directories d 0 ≡ opens_table false (phys_of table program s'.paging / 4096))
      × (s'.paging.tables program 0 ≡ opens false (user_task.phys_addr_start / 4096 % 2 ^ 20))
      × (s'.paging.directories d 767 ≡ opens_table false (phys_of table stack s'.paging / 4096))
      × (s'.paging.tables stack 1023 ≡ opens false (user_task.phys_addr_start / 4096 % 2 ^ 20))
      × (s'.paging.directories d i ≡ s.paging.directories s.paging.kernel_page_directory i)
unfolding paging_create_userspace
paging_create_userspace-layout new_vmm_block table p i user_task s r above below =
    let d = page_at p in
    let (s₁, made, r₁, maps, _) = vmm_alloc_page-Ready new_vmm_block table p 2 s r in
    let found = get_phys_addr-Ready table (p + 1) 2 d s₁ r₁ in
    let copied =
      copy_kernel_entries_lem d s₁.paging (omega (arith, maps.same_root, r.root_below)) in
    let s₂ = record s₁ { paging = copy_kernel_entries d s₁.paging } in
    let r₂ = keeps-Ready table (p + 1) 2 s₁ s₂.paging r₁ copied.pmm copied.root in
    let (s₃, program, r₃, l₃) =
      add_user_page_lem new_vmm_block table (p + 1) 1 d 0 user_task.phys_addr_start s₂ r₂ in
    let (s₄, stack, r₄, l₄) =
      add_user_page_lem new_vmm_block table (p + 1 + 1) 0 d stack_address_base
        user_task.phys_addr_start s₃ r₃ in
    let frame_directory = λ (page : ℕ) (q : Paging).
      user_directory_entry_lem (phys_of table page q)
      ∙ ap (opens_table false) {x = phys_of table page q / 4096 % 2 ^ 20}
          {y = phys_of table page q / 4096} (omega arith) in
    let room : p + 1 + 1 < 1022 = omega (arith, r.room) in
    let low : table < page_at (p + 1) = omega (arith, r.table_below) in
    let shared =
      ap (λ (k : ℕ). s₁.paging.directories k i) maps.same_root
      ∙ ap (λ (m : ℕ → PageDirectory). m s.paging.kernel_page_directory i) maps.same_directories in
    let phys = user_task.phys_addr_start in
    let kept =
      earlier_kept table (p + 1) d phys s₂.paging s₃.paging s₄.paging room low l₃ l₄ p (omega arith)
      ∙ ap (λ (m : ℕ → PageTable). u32 ((m table (page_table_index d)).phys_addr * 2 ^ 12))
          copied.tables in
    (
      s₄,
      rw (made, found, program, stack, kept) refl,
      program_linked table (p + 1) d phys s₂.paging s₃.paging s₄.paging room low l₃ l₄
          ∙ frame_directory (page_at (p + 1)) s₄.paging,
      program_entry table (p + 1) d phys s₂.paging s₃.paging s₄.paging room low l₃ l₄
          ∙ user_table_entry_lem phys,
      stack_linked table (p + 1) d phys s₂.paging s₃.paging s₄.paging room low l₃ l₄
          ∙ frame_directory (page_at (p + 1 + 1)) s₄.paging,
      stack_entry table (p + 1) d phys s₂.paging s₃.paging s₄.paging room low l₃ l₄
          ∙ user_table_entry_lem phys,
      kernel_kept table (p + 1) d phys s₂.paging s₃.paging s₄.paging room low l₃ l₄ i above
          ∙ copied.entries i above below
          ∙ shared,
    )
