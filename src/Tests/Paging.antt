-- ===== src/Tests/Paging.antt =====
-- The page tables of kernel/memory/paging.c at boot, and one page mapped later.
use aosis.Base.{ℕ, ◌*◌, ◌≡◌, refl, true, some, [], ◌∷◌, arith, ◌==◌, if◌then◌else◌, replicate, ok}
use aosis.Bits.{check_bit_set, set_bit}
use aosis.Memory.Pmm.{PhysicalMemory, frame_addr, find_unset, alloc_loop, pmm_alloc_page}
use aosis.Memory.Paging.{
  Paging, no_pd_entry, no_pt_entry, p2v_addr, page_directory_index, page_table_index, paging_init,
  paging_map_virtual_page,
}
use aosis.Memory.Paging.Walk.{walk, paging_map_virtual_page-walk}
use aosis.Memory.Paging.Init.{paging_init-walk}

-- A pool of 64 frames from 0x105000 on, with the given first word.
abbrev pool : ℕ → PhysicalMemory
pool word = record {
  total_memory = 0;
  total_page_memory = 64 * 4096;
  starting_addr = 0x105000;
  page_count = 64;
  bitmap = word ∷ 0 ∷ [];
}

gives_first : pmm_alloc_page (pool 0) ≡ ok (0x105000, pool 1)
unfolding pmm_alloc_page alloc_loop find_unset frame_addr check_bit_set set_bit
gives_first = refl

gives_second : pmm_alloc_page (pool 1) ≡ ok (0x106000, pool 3)
unfolding pmm_alloc_page alloc_loop find_unset frame_addr check_bit_set set_bit
gives_second = refl

gives_third : pmm_alloc_page (pool 3) ≡ ok (0x107000, pool 7)
unfolding pmm_alloc_page alloc_loop find_unset frame_addr check_bit_set set_bit
gives_third = refl

unfoldable at_boot : Paging
at_boot = record {
  directories = λ _ _. no_pd_entry;
  tables = λ _ _. no_pt_entry;
  kernel_page_directory = 0;
  cr3 = 0;
  cr0 = 1;
  idt_handlers = replicate 256 0;
  pmm = pool 0;
}

-- The kernel starts at 0xC0101000; the address is that of the screen.
paging_init-walk_example :
    (s' : Paging) × (paging_init 0xC0103000 0xC0101000 at_boot ≡ ok (p2v_addr 0x106000, s'))
    × (s'.cr3 ≡ 0x105000)
    × (walk p2v_addr (p2v_addr s'.cr3) 0xC00B8000 s' ≡ some 0xB8000)
unfolding at_boot
paging_init-walk_example =
    paging_init-walk 0xC0103000 0xC0101000 0x105000 0x106000 0xC00B8000 (pool 1) (pool 3) at_boot
      gives_first gives_second (omega arith) (omega arith) (omega arith) (omega arith) (omega arith)
      (omega arith)

-- One directory at 0xC0105000 with the table at 0x106000 for the kernel's 4 MiB.
abbrev one_table : Paging
one_table = record {
  directories = λ _ i.
      if i == 768 then record no_pd_entry { present = true; phys_addr = 0x106 } else no_pd_entry;
  tables = λ _ _. no_pt_entry;
  kernel_page_directory = 0xC0105000;
  cr3 = 0x105000;
  cr0 = 0x80000001;
  idt_handlers = replicate 256 0;
  pmm = pool 3;
}

paging_map_virtual_page-walk_example :
    (s' : Paging) × (paging_map_virtual_page 0xC0106000 0xC0200000 one_table ≡ ok (0x107000, s'))
    × (walk p2v_addr 0xC0105000 0xC0200123 s' ≡ some 0x107123)
unfolding page_directory_index page_table_index
paging_map_virtual_page-walk_example =
    paging_map_virtual_page-walk p2v_addr 0xC0105000 0xC0106000 0xC0200000 0x107000 0xC0200123
      (pool 7) one_table gives_third (omega arith) refl refl (unfold p2v_addr in refl)
