-- ===== src/Memory/Userspace/Entries.antt =====
-- The entries that kernel/memory/paging.c writes for user programs, field by field.
use aosis.Base.{ℕ, ◌/◌, ◌%◌, ◌^◌, ◌≡◌, ap, arith, Bool, true, false}
use aosis.Memory.Paging.{
  PageDirectoryEntry, PageTableEntry, no_pd_entry, no_pt_entry, paging_set_page_directory_addr,
  paging_set_page_table_addr,
}
use aosis.Memory.Userspace.{
  user_table_entry, user_directory_entry, global_table_entry, global_directory_entry,
}

-- An entry for frame `n` that user programs may read and write, every other bit 0 but perhaps the
-- one for a global translation.
abbrev pub opens : Bool → ℕ → PageTableEntry
opens global n = record no_pt_entry {
  present = true;
  r_w = true;
  user = true;
  global_translation = global;
  phys_addr = n;
}

-- The same for a directory, with the frame of a table.
abbrev pub opens_table : Bool → ℕ → PageDirectoryEntry
opens_table global n = record no_pd_entry {
  present = true;
  r_w = true;
  user = true;
  global_translation = global;
  phys_addr = n;
}

pub user_table_entry_lem : (phys : ℕ) → user_table_entry phys ≡ opens false (phys / 4096 % 2 ^ 20)
unfolding user_table_entry paging_set_page_table_addr
user_table_entry_lem phys = ap (opens false) (omega arith)

pub user_directory_entry_lem :
    (phys : ℕ) → user_directory_entry phys ≡ opens_table false (phys / 4096 % 2 ^ 20)
unfolding user_directory_entry paging_set_page_directory_addr
user_directory_entry_lem phys = ap (opens_table false) (omega arith)

pub global_table_entry_lem :
    (phys : ℕ) → global_table_entry phys ≡ opens true (phys / 4096 % 2 ^ 20)
unfolding global_table_entry user_table_entry paging_set_page_table_addr
global_table_entry_lem phys = ap (opens true) (omega arith)

pub global_directory_entry_lem :
    (phys : ℕ) → global_directory_entry phys ≡ opens_table true (phys / 4096 % 2 ^ 20)
unfolding global_directory_entry user_directory_entry paging_set_page_directory_addr
global_directory_entry_lem phys = ap (opens_table true) (omega arith)
