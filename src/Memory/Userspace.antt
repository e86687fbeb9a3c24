-- ===== src/Memory/Userspace.antt =====
-- The user program's part of kernel/memory/paging.c, over the virtual pages of kernel/memory/vmm.c. A page that
-- `vmm_alloc_page` returns is read as a directory or as a table, whichever it is used as, and is not
-- cleared. What `kmalloc` returns, should a new block be due, is the argument `new_vmm_block`.
pub mod Ready
pub mod Link
pub mod Entries
pub mod Layout
pub mod Temp
pub mod Boot
use aosis.Base.{ℕ, ◌+◌, ◌-◌, ◌*◌, true, for_range, Result, ok, ◌>>=◌}
use aosis.Memory.Page.{page_size}
use aosis.Memory.Pmm.{pmm_alloc_page}
use aosis.Memory.Paging.{
  Paging, PageDirectoryEntry, PageTableEntry, no_pd_entry, no_pt_entry, kernel_virt_base,
  page_directory_index, page_table_index, paging_set_page_directory_addr,
  paging_set_page_table_addr, set_directory_entry, set_table_entry,
}
use aosis.Memory.Vmm.{Vmm, vmm_alloc_page, vmm_get_phys_addr}
use aosis.Task.UserTask.{UserTaskInfo}

unfoldable pub user_table_entry : ℕ → PageTableEntry
user_table_entry phys = record (paging_set_page_table_addr phys no_pt_entry) {
  present = true;
  r_w = true;
  user = true;
}

unfoldable pub user_directory_entry : ℕ → PageDirectoryEntry
user_directory_entry phys = record (paging_set_page_directory_addr phys no_pd_entry) {
  present = true;
  r_w = true;
  user = true;
}

-- The kernel's half of the directory.
unfoldable pub copy_kernel_entries : ℕ → Paging → Paging
copy_kernel_entries new_userspace s =
    for_range (1024 - page_directory_index kernel_virt_base) (page_directory_index kernel_virt_base)
      (λ i t. set_directory_entry new_userspace i (t.directories t.kernel_page_directory i) t) s

-- The new entry of the table and then that of the directory, for the page at `virt`.
unfoldable pub link_user_page : ℕ → ℕ → ℕ → ℕ → PageTableEntry → Paging → Paging
link_user_page directory table table_phys virt entry s =
    set_directory_entry directory (page_directory_index virt) (user_directory_entry table_phys)
      (set_table_entry table (page_table_index virt) entry s)

-- A new table that maps the page at `virt` to the frame of `phys`. The function does this twice.
unfoldable pub add_user_page : ℕ → ℕ → ℕ → ℕ → Vmm → Result Vmm
add_user_page new_vmm_block directory virt phys s =
    vmm_alloc_page new_vmm_block s >>= λ (table, s₁).
    let table_phys = vmm_get_phys_addr table s₁ in
    ok (record s₁ {
      paging = link_user_page directory table table_phys virt (user_table_entry phys) s₁.paging;
    })

abbrev pub stack_address_base : ℕ
stack_address_base = kernel_virt_base - page_size

-- The stack's page is given the frame of the program.
unfoldable pub paging_create_userspace : ℕ → UserTaskInfo → Vmm → Result (ℕ × Vmm)
paging_create_userspace new_vmm_block user_task s =
    vmm_alloc_page new_vmm_block s >>= λ (new_userspace, s₁).
    let user_page_directory_addr = vmm_get_phys_addr new_userspace s₁ in
    let s₂ = record s₁ { paging = copy_kernel_entries new_userspace s₁.paging } in
    add_user_page new_vmm_block new_userspace 0 user_task.phys_addr_start s₂ >>= λ s₃.
    add_user_page new_vmm_block new_userspace stack_address_base user_task.phys_addr_start s₃
    >>= λ s₄. ok (user_page_directory_addr, s₄)

-- The entries of `paging_add_temp_userspace` are global too.
unfoldable pub global_table_entry : ℕ → PageTableEntry
global_table_entry phys = record (user_table_entry phys) { global_translation = true }

unfoldable pub global_directory_entry : ℕ → PageDirectoryEntry
global_directory_entry phys = record (user_directory_entry phys) { global_translation = true }

-- The loop of `paging_add_temp_userspace`, over the first 4 MiB.
unfoldable pub map_userspace : ℕ → Paging → Paging
map_userspace table s =
    for_range 1024 0 (λ i t. set_table_entry table i (global_table_entry (i * page_size)) t) s

-- The stack of `paging_add_temp_userspace`, from its call of `pmm_alloc_page` on.
unfoldable pub add_temp_stack : ℕ → ℕ → Paging → Result Paging
add_temp_stack table table_phys s = pmm_alloc_page s.pmm >>= λ (frame, pmm').
    let stack_pt_entry = global_table_entry frame in
    let written =
      set_table_entry table (page_table_index stack_address_base) stack_pt_entry
        (record s { pmm = pmm' }) in
    ok (
      set_directory_entry s.kernel_page_directory (page_directory_index stack_address_base)
        (global_directory_entry table_phys) written)

unfoldable pub paging_add_temp_userspace : ℕ → Vmm → Result Vmm
paging_add_temp_userspace new_vmm_block s =
    vmm_alloc_page new_vmm_block s >>= λ (userspace_page_table, s₁).
    let mapped = record s₁ { paging = map_userspace userspace_page_table s₁.paging } in
    let user_pd_entry = global_directory_entry (vmm_get_phys_addr userspace_page_table mapped) in
    let linked = record mapped {
      paging =
          set_directory_entry mapped.paging.kernel_page_directory 0 user_pd_entry mapped.paging;
    } in
    vmm_alloc_page new_vmm_block linked >>= λ (user_stack_pt, s₂).
    add_temp_stack user_stack_pt (vmm_get_phys_addr user_stack_pt s₂) s₂.paging >>= λ paging'.
    ok (record s₂ { paging = paging' })
