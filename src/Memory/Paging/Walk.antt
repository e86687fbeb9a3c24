-- ===== src/Memory/Paging/Walk.antt =====
-- What an address is translated to, by the directory and the tables of paging.c.
use aosis.Base.{
  ℕ, ◌+◌, ◌*◌, ◌/◌, ◌%◌, ◌^◌, ◌<◌, ◌≡◌, refl, arith, true, false, Option, some, none, ◌==◌, ◌&&◌,
  if◌then◌else◌, shr, ok,
}
use aosis.Bits.Digits.{bit_and_low}
use aosis.Memory.Pmm.{PhysicalMemory, pmm_alloc_page}
use aosis.Memory.Paging.{
  Paging, p2v_addr, v2p_addr, page_directory_index, page_table_index, paging_set_page_table_addr,
  set_table_entry, paging_map_virtual_page,
}

-- The two lookups of the processor for a 32-bit address; `table_at` gives the virtual address of the table at a
-- physical one. None is a page fault.
unfoldable pub walk : (ℕ → ℕ) → ℕ → ℕ → Paging → Option ℕ
walk table_at directory addr s =
    let pd_entry = s.directories directory (page_directory_index addr) in
    let pt_entry = s.tables (table_at (pd_entry.phys_addr * 4096)) (page_table_index addr) in
    if pd_entry.present && pt_entry.present
    then some (pt_entry.phys_addr * 4096 + addr % 4096)
    else none

pub page_directory_index_lem :
    (addr : ℕ) → addr < 2 ^ 32 → page_directory_index addr ≡ addr / 2 ^ 22
unfolding page_directory_index
page_directory_index_lem addr h = omega (arith, bit_and_low 10 (shr addr 22))

pub page_table_index_lem : (addr : ℕ) → page_table_index addr ≡ addr / 4096 % 1024
unfolding page_table_index
page_table_index_lem addr = omega (arith, bit_and_low 10 (shr addr 12))

pub p2v-v2p : (x : ℕ) → x < 2 ^ 32 → p2v_addr (v2p_addr x) ≡ x
unfolding p2v_addr v2p_addr
p2v-v2p x h = omega arith

pub v2p-p2v : (x : ℕ) → x < 2 ^ 32 → v2p_addr (p2v_addr x) ≡ x
unfolding p2v_addr v2p_addr
v2p-p2v x h = omega arith

-- The walk over an entry of each kind that is known.
pub walk-present :
    (table_at : ℕ → ℕ) (directory addr table phys : ℕ) (s : Paging)
    → (s.directories directory (page_directory_index addr)).present ≡ true
    → table_at ((s.directories directory (page_directory_index addr)).phys_addr * 4096) ≡ table
    → (s.tables table (page_table_index addr)).present ≡ true
    → (s.tables table (page_table_index addr)).phys_addr ≡ phys
    → walk table_at directory addr s ≡ some (phys * 4096 + addr % 4096)
unfolding walk
walk-present table_at directory addr table phys s pd at pt e = rw (at, pd, pt, e) refl

pub walk-absent :
    (table_at : ℕ → ℕ) (directory addr : ℕ) (s : Paging)
    → (s.directories directory (page_directory_index addr)).present ≡ false
    → walk table_at directory addr s ≡ none
unfolding walk
walk-absent table_at directory addr s pd = rw pd refl

-- Let the physical memory manager give the frame `phys`, a 32-bit address at a page boundary, and
-- let the directory have the table for `addr`. After `paging_map_virtual_page` the addresses of the
-- mapped page are translated into the frame, and those of the table's other pages as before.
pub paging_map_virtual_page-walk :
    (table_at : ℕ → ℕ) (directory page_table page phys addr : ℕ) (pmm' : PhysicalMemory)
    (s : Paging)
    → pmm_alloc_page s.pmm ≡ ok (phys, pmm')
    → phys < 2 ^ 32
    → phys % 4096 ≡ 0
    → (s.directories directory (page_directory_index addr)).present ≡ true
    → table_at ((s.directories directory (page_directory_index addr)).phys_addr * 4096) ≡ page_table
    → (s' : Paging) × (paging_map_virtual_page page_table page s ≡ ok (phys, s'))
      × (walk table_at directory addr s' ≡ (
          if page_table_index addr == page_table_index page
          then some (phys + addr % 4096)
          else walk table_at directory addr s))
unfolding paging_map_virtual_page set_table_entry paging_set_page_table_addr walk
paging_map_virtual_page-walk table_at directory page_table page phys addr pmm' s a h al pd at =
    let old = s.tables page_table (page_table_index page) in
    let entry = record (paging_set_page_table_addr phys old) { present = true; r_w = true } in
    (
      set_table_entry page_table (page_table_index page) entry (record s { pmm = pmm' }),
      rw a refl,
      rw (at, pd) (ground arith),
    )
