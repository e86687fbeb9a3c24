-- ===== src/Tests/Userspace.antt =====
-- The address space of a user program at 2 MiB, made when pages 33, 34 and 35 of the first block are free.
use aosis.Base.{
  ℕ, zero, suc, ◌+◌, ◌-◌, ◌*◌, ◌/◌, ◌%◌, ◌^◌, get_or, ◌≤◌, ◌<◌, ◌≡◌, refl, true, false, List, [],
  ◌∷◌, arith, ◌==◌, ==_iff, all_below, all_below_sound, replicate, get_or-replicate, ok,
}
use aosis.Bits.Digits.{bit}
use aosis.Memory.Pmm.{PhysicalMemory, pmm_alloc_page}
use aosis.Memory.Pmm.Frames.{frame, IsWords}
use aosis.Memory.Paging.{Paging, no_pd_entry, no_pt_entry}
use aosis.Memory.Vmm.{VmmBlock, Vmm, vmm_init}
use aosis.Memory.Userspace.{paging_create_userspace, paging_add_temp_userspace}
use aosis.Memory.Userspace.Entries.{opens, opens_table}
use aosis.Memory.Userspace.Ready.{Ready, alloc_pages, pages_from}
use aosis.Memory.Userspace.Link.{phys_of}
use aosis.Memory.Userspace.Boot.{vmm_init-alloc_pages}
use aosis.Memory.Userspace.Layout.{paging_create_userspace-layout}
use aosis.Memory.Userspace.Temp.{paging_add_temp_userspace-layout}
use aosis.Task.UserTask.{UserTaskInfo}

abbrev bitmap : List ℕ
bitmap = 0xFFFFFFFF ∷ 1 ∷ replicate 30 0

bitmap-IsWords : IsWords bitmap
bitmap-IsWords zero = omega arith
bitmap-IsWords (suc zero) = omega arith
bitmap-IsWords (suc (suc i)) = omega (arith, get_or-replicate {A = ℕ} 30 i 0)

pool-IsWords : IsWords (7 ∷ 0 ∷ [])
pool-IsWords zero = omega arith
pool-IsWords (suc zero) = omega arith
pool-IsWords (suc (suc i)) = omega arith

abbrev pool : PhysicalMemory
pool = record {
  total_memory = 0;
  total_page_memory = 64 * 4096;
  starting_addr = 0x105000;
  page_count = 64;
  bitmap = 7 ∷ 0 ∷ [];
}

abbrev paging : Paging
paging = record {
  directories = λ _ i. record no_pd_entry { phys_addr = i };
  tables = λ _ _. no_pt_entry;
  kernel_page_directory = 0xC0005000;
  cr3 = 0x5000;
  cr0 = 0x80000001;
  idt_handlers = [];
  pmm = pool;
}

abbrev block : VmmBlock
block = record {
  bitmap = bitmap;
  high_water_mark = 33;
  free_pages = 991;
  first_page = 0xC0000000;
  page_table = 0xC0006000;
}

abbrev vmm : Vmm
vmm = record { blocks = block ∷ []; allocating_new_block = false; paging = paging }

used_table : all_below 33 (λ q. frame bitmap q == 1) ≡ true
unfolding all_below frame bit
used_table = refl

free_table : all_below 3 (λ k. frame bitmap (33 + k) == 0) ≡ true
unfolding all_below frame bit
free_table = refl

free : (q : ℕ) → 33 ≤ q → q < 36 → frame bitmap q ≡ 0
free q a b =
    let e : 33 + (q - 33) ≡ q = omega arith in
    let found = (==_iff _ 0).0 (all_below_sound 3 _ (q - 33) free_table (omega arith)) in
    rw e at found

vmm-Ready : (n : ℕ) → n ≤ 3 → Ready 0xC0006000 33 n vmm
vmm-Ready n h = record {
  block = block;
  behind = [];
  head = refl;
  base = refl;
  at = refl;
  size = refl;
  words = bitmap-IsWords;
  count = omega arith;
  mark = omega arith;
  room = omega arith;
  used = λ q h. (==_iff _ 1).0 (all_below_sound 33 _ q used_table h);
  free = λ q a b. free q a (omega arith);
  pmm = record { scanned = omega arith; words = pool-IsWords };
  table_below = omega arith;
  root_below = omega arith;
}

abbrev program : UserTaskInfo
program = record {
  starting_eip = 0;
  phys_addr_start = 0x200000;
  phys_addr_end = 0x200800;
  len = 0x800;
}

paging_create_userspace-layout_example :
    (s' : Vmm) × (paging_create_userspace 0 program vmm
      ≡ ok (phys_of 0xC0006000 0xC0021000 s'.paging, s'))
    × (s'.paging.directories 0xC0021000 0
        ≡ opens_table false (phys_of 0xC0006000 0xC0022000 s'.paging / 4096))
    × (s'.paging.tables 0xC0022000 0 ≡ opens false 0x200)
    × (s'.paging.directories 0xC0021000 767
        ≡ opens_table false (phys_of 0xC0006000 0xC0023000 s'.paging / 4096))
    × (s'.paging.tables 0xC0023000 1023 ≡ opens false 0x200)
    × (s'.paging.directories 0xC0021000 800 ≡ record no_pd_entry { phys_addr = 800 })
paging_create_userspace-layout_example =
    paging_create_userspace-layout 0 0xC0006000 33 800 program vmm (vmm-Ready 3 (omega arith))
      (omega arith) (omega arith)

paging_add_temp_userspace-layout_example :
    (s' : Vmm) × (frame : ℕ) × (paging_add_temp_userspace 0 vmm ≡ ok s')
    × (s'.paging.directories 0xC0005000 0
        ≡ opens_table true (phys_of 0xC0006000 0xC0021000 s'.paging / 4096))
    × (s'.paging.tables 0xC0021000 5 ≡ opens true 5)
    × (s'.paging.directories 0xC0005000 767
        ≡ opens_table true (phys_of 0xC0006000 0xC0022000 s'.paging / 4096))
    × (s'.paging.tables 0xC0022000 1023 ≡ opens true (frame / 4096 % 2 ^ 20))
    × ((pmm : PhysicalMemory) × (pmm_alloc_page pmm ≡ ok (frame, s'.paging.pmm)))
paging_add_temp_userspace-layout_example =
    paging_add_temp_userspace-layout 0 0xC0006000 33 5 vmm (vmm-Ready 2 (omega arith)) (omega arith)

-- The first block after the table at page 6, over a descriptor whose first word was not 0.
abbrev garbage : VmmBlock
garbage = record block { bitmap = 0xC0112FE8 ∷ replicate 31 0 }

garbage_zeros : (k : ℕ) → (6 + 1) / 32 < k → get_or garbage.bitmap k 0 ≡ 0
garbage_zeros zero h = absurd (omega arith)
garbage_zeros (suc k) h = get_or-replicate {A = ℕ} 31 k 0

vmm_init-alloc_pages_example :
    (s' : Vmm) × (s'' : Vmm) × (vmm_init garbage 0xC0006000 vmm ≡ ok s')
    × (s'.paging ≡ paging)
    × (alloc_pages 0xC0300000 3 s' ≡ ok (0xC0007000 ∷ 0xC0008000 ∷ 0xC0009000 ∷ [], s''))
unfolding pages_from
vmm_init-alloc_pages_example =
    vmm_init-alloc_pages 0xC0300000 garbage 6 3 vmm refl garbage_zeros (omega arith)
      (vmm-Ready 0 (omega arith)).pmm (omega arith)
