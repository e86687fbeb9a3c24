-- ===== src/Memory/Paging.antt =====
-- kernel/memory/paging.c and paging.h: the page directory and the page tables, each found by the virtual
-- address at which the kernel reads it, and the control registers. The virtual base is that of
-- kernel/linker.ld. Flushing the TLB changes nothing here.
pub mod Walk
pub mod Init
pub mod Keeps
pub mod Shared
use aosis.Base.{
  ℕ, ◌+◌, ◌*◌, ◌/◌, ◌%◌, ◌^◌, Bool, true, false, List, bit_and, bit_or, ◌==◌, if◌then◌else◌, set,
  shr, u32, sub32, for_range, Result, ok, panic, ◌>>=◌,
}
use aosis.Memory.Page.{page_size, page_align}
use aosis.Memory.Pmm.{PhysicalMemory, pmm_alloc_page}

-- kernel_base_addr_virt
abbrev pub kernel_virt_base : ℕ
kernel_virt_base = 0xC0000000

-- P2V_ADDR and V2P_ADDR
unfoldable pub p2v_addr : ℕ → ℕ
p2v_addr x = u32 (x + kernel_virt_base)

unfoldable pub v2p_addr : ℕ → ℕ
v2p_addr x = sub32 x kernel_virt_base

abbrev pub page_table_indices : ℕ
page_table_indices = 1024

abbrev pub page_table_range : ℕ
page_table_range = page_table_indices * page_size

-- PAGE_DIRECTORY_INDEX and PAGE_TABLE_INDEX
unfoldable pub page_directory_index : ℕ → ℕ
page_directory_index addr = bit_and (shr addr 22) 0x3FF

unfoldable pub page_table_index : ℕ → ℕ
page_table_index addr = bit_and (shr addr 12) 0x3FF

-- struct page_directory_entry; a field of one bit is a Bool.
pub record PageDirectoryEntry : Type 0 where
  pub present : Bool
  pub r_w : Bool
  pub user : Bool
  pub write_through : Bool
  pub cache_disable : Bool
  pub accessed : Bool
  pub ignored : Bool
  pub page_size_bit : Bool
  pub global_translation : Bool
  pub ignored_2 : ℕ
  pub phys_addr : ℕ

-- struct page_table_entry
pub record PageTableEntry : Type 0 where
  pub present : Bool
  pub r_w : Bool
  pub user : Bool
  pub write_through : Bool
  pub cache_disable : Bool
  pub accessed : Bool
  pub dirty : Bool
  pub pat_support : Bool
  pub global_translation : Bool
  pub ignored : ℕ
  pub phys_addr : ℕ

-- `{ 0 }`
abbrev pub no_pd_entry : PageDirectoryEntry
no_pd_entry = record {
  present = false;
  r_w = false;
  user = false;
  write_through = false;
  cache_disable = false;
  accessed = false;
  ignored = false;
  page_size_bit = false;
  global_translation = false;
  ignored_2 = 0;
  phys_addr = 0;
}

abbrev pub no_pt_entry : PageTableEntry
no_pt_entry = record {
  present = false;
  r_w = false;
  user = false;
  write_through = false;
  cache_disable = false;
  accessed = false;
  dirty = false;
  pat_support = false;
  global_translation = false;
  ignored = 0;
  phys_addr = 0;
}

-- struct page_directory and struct page_table: an entry for each index below 1024.
abbrev pub PageDirectory : Type 0
PageDirectory = ℕ → PageDirectoryEntry

abbrev pub PageTable : Type 0
PageTable = ℕ → PageTableEntry

-- The directories and tables in memory, the file's global, the control registers, the handlers of the
-- interrupts and the physical memory manager. The directory and the table at an address are two views
-- of one page. The functions use a page as one of the two, and write the view that they use; only
-- `paging_init` may use one page as both, and then `share_page` writes both views of it.
pub record Paging : Type 0 where
  pub directories : ℕ → PageDirectory
  pub tables : ℕ → PageTable
  pub kernel_page_directory : ℕ
  pub cr3 : ℕ
  pub cr0 : ℕ
  pub idt_handlers : List ℕ
  pub pmm : PhysicalMemory

-- A memory with the value at one place changed.
abbrev pub update {ℓ} : {A : Type ℓ} → ℕ → A → (ℕ → A) → ℕ → A
update p v m a = if p == a then v else m a

unfoldable pub paging_set_page_directory_addr : ℕ → PageDirectoryEntry → PageDirectoryEntry
paging_set_page_directory_addr addr entry = record entry { phys_addr = shr addr 12 % 2 ^ 20 }

unfoldable pub paging_set_page_table_addr : ℕ → PageTableEntry → PageTableEntry
paging_set_page_table_addr addr entry = record entry { phys_addr = shr addr 12 % 2 ^ 20 }

unfoldable pub set_directory_entry : ℕ → ℕ → PageDirectoryEntry → Paging → Paging
set_directory_entry directory i entry s = record s {
  directories = update directory (update i entry (s.directories directory)) s.directories;
}

unfoldable pub set_table_entry : ℕ → ℕ → PageTableEntry → Paging → Paging
set_table_entry table i entry s = record s {
  tables = update table (update i entry (s.tables table)) s.tables;
}

-- `memset(table, 0, PAGE_SIZE)`
unfoldable pub clear_table : ℕ → Paging → Paging
clear_table table s = record s { tables = update table (λ _. no_pt_entry) s.tables }

unfoldable pub clear_directory : ℕ → Paging → Paging
clear_directory directory s = record s {
  directories = update directory (λ _. no_pd_entry) s.directories;
}

unfoldable pub paging_change_page_directory : ℕ → Paging → Paging
paging_change_page_directory page_directory_phys s = record s {
  cr3 = page_directory_phys;
  cr0 = bit_or s.cr0 0x80000000;
}

-- The entry of `paging_init` for one frame of the kernel's window.
unfoldable pub kernel_entry : ℕ → PageTableEntry
kernel_entry kernel_frame =
    record (paging_set_page_table_addr (page_align kernel_frame) no_pt_entry) {
      present = true;
      r_w = true;
      global_translation = true;
    }

-- The loop of `paging_init` over the first 4 MiB.
unfoldable pub map_kernel : ℕ → Paging → Paging
map_kernel page_table s =
    for_range 1024 0
      (λ i t.
        set_table_entry page_table (page_table_index (i * page_size)) (kernel_entry (i * page_size))
          t)
      s

-- The rest of `paging_init`, with both pages allocated and cleared.
unfoldable pub install_kernel : ℕ → ℕ → ℕ → Paging → ℕ × Paging
install_kernel handler kernel_start_addr_virt page_table s =
    let mapped = map_kernel page_table s in
    let pd_entry = record (paging_set_page_directory_addr (v2p_addr page_table) no_pd_entry) {
      present = true;
      r_w = true;
      global_translation = true;
    } in
    let directory = s.kernel_page_directory in
    let linked =
      set_directory_entry directory (page_directory_index kernel_start_addr_virt) pd_entry mapped in
    let handled = record linked { idt_handlers = set s.idt_handlers 14 handler } in
    (page_table, paging_change_page_directory (v2p_addr directory) handled)

-- An entry of a table read as one of a directory, bit for bit, and the other way round.
abbrev pub as_directory_entry : PageTableEntry → PageDirectoryEntry
as_directory_entry e = record {
  present = e.present;
  r_w = e.r_w;
  user = e.user;
  write_through = e.write_through;
  cache_disable = e.cache_disable;
  accessed = e.accessed;
  ignored = e.dirty;
  page_size_bit = e.pat_support;
  global_translation = e.global_translation;
  ignored_2 = e.ignored;
  phys_addr = e.phys_addr;
}

abbrev pub as_table_entry : PageDirectoryEntry → PageTableEntry
as_table_entry e = record {
  present = e.present;
  r_w = e.r_w;
  user = e.user;
  write_through = e.write_through;
  cache_disable = e.cache_disable;
  accessed = e.accessed;
  dirty = e.ignored;
  pat_support = e.page_size_bit;
  global_translation = e.global_translation;
  ignored = e.ignored_2;
  phys_addr = e.phys_addr;
}

-- The page that is directory and table at once: entry `i` was written last, as one of a directory,
-- and the others as ones of a table.
unfoldable pub share_page : ℕ → ℕ → Paging → Paging
share_page page i s =
    let entry = s.directories page i in
    record s {
      directories =
          update page (update i entry (λ j. as_directory_entry (s.tables page j))) s.directories;
      tables = update page (update i (as_table_entry entry) (s.tables page)) s.tables;
    }

-- `handler` is the address of `paging_page_fault_handler`. Without free frames both calls of `pmm_alloc_page`
-- return NULL, and the directory and the table are one page.
unfoldable pub paging_init : ℕ → ℕ → Paging → Result (ℕ × Paging)
paging_init handler kernel_start_addr_virt s = pmm_alloc_page s.pmm >>= λ (first, pmm₁).
    let directory = p2v_addr first in
    let s₁ =
      clear_directory directory (record s { pmm = pmm₁; kernel_page_directory = directory }) in
    if directory == 0
    then panic
    else (pmm_alloc_page pmm₁ >>= λ (second, pmm₂).
        let page_table = p2v_addr second in
        let s₂ = clear_table page_table (record s₁ { pmm = pmm₂ }) in
        if page_table == 0
        then panic
        else if directory == page_table
        then ok (
            let (table, s₃) = install_kernel handler kernel_start_addr_virt page_table s₂ in
            (table, share_page directory (page_directory_index kernel_start_addr_virt) s₃))
        else ok (install_kernel handler kernel_start_addr_virt page_table s₂))

unfoldable pub paging_add_page_table : ℕ → ℕ → Paging → Paging
paging_add_page_table pt_phys_addr pt_virt_addr s =
    let pd_entry = record (paging_set_page_directory_addr pt_phys_addr no_pd_entry) {
      present = true;
      r_w = true;
    } in
    set_directory_entry s.kernel_page_directory (page_directory_index pt_virt_addr) pd_entry s

unfoldable pub paging_is_virtual_page_present : ℕ → ℕ → Paging → Bool
paging_is_virtual_page_present page_table virt_page s =
    (s.tables page_table (page_table_index virt_page)).present

-- The address is not tested for NULL.
unfoldable pub paging_map_virtual_page : ℕ → ℕ → Paging → Result (ℕ × Paging)
paging_map_virtual_page page_table virt_page s = pmm_alloc_page s.pmm >>= λ (phys_page, pmm').
    let pt_index = page_table_index virt_page in
    let old = s.tables page_table pt_index in
    let entry = record (paging_set_page_table_addr phys_page old) { present = true; r_w = true } in
    ok (phys_page, set_table_entry page_table pt_index entry (record s { pmm = pmm' }))
