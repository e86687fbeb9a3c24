-- ===== src/Tests/Vmm.antt =====
-- The blocks of kernel/memory/vmm.c: a first block with some free pages, one with three left, and full ones.
use aosis.Base.{
  ℕ, zero, suc, ◌*◌, ◌^◌, ◌<◌, ◌≡◌, ◌⊎◌, refl, true, false, ◌&&◌, List, [], ◌∷◌, ◌++◌, arith, ◌==◌,
  ==_iff, all_below, all_below_sound, replicate, ok, panic, fault, ◌>>=◌,
}
use aosis.Bits.Digits.{bit}
use aosis.Memory.Pmm.{PhysicalMemory}
use aosis.Memory.Pmm.Frames.{frame, IsWords}
use aosis.Memory.Pmm.Alloc
use aosis.Memory.Paging.{
  Paging, no_pd_entry, no_pt_entry, page_table_index, paging_is_virtual_page_present,
}
use aosis.Memory.Vmm.{VmmBlock, Vmm, take_from, next_block, vmm_alloc_page, vmm_free_page}
use aosis.Memory.Vmm.Scan.{IsFirst, taken_block}
use aosis.Memory.Vmm.Alloc.{TakenFrom, vmm_alloc_page-first}
use aosis.Memory.Vmm.Grow.{vmm_alloc_page-gives_table}
use aosis.Memory.Vmm.Free.{vmm_free_page-faults, vmm_free_page-alloc, vmm_alloc_page-after_free}

all_ones : (n : ℕ) (rest : List ℕ) → IsWords rest → IsWords (replicate n 0xFFFFFFFF ++ rest)
all_ones zero rest h i = h i
all_ones (suc n) rest h zero = omega arith
all_ones (suc n) rest h (suc i) = all_ones n rest h i

one-IsWords : (a : ℕ) → a < 2 ^ 32 → IsWords (a ∷ [])
one-IsWords a h zero = h
one-IsWords a h (suc i) = omega arith

-- Pages 0 to 1020 are in use.
abbrev nearly_full : List ℕ
nearly_full = replicate 31 0xFFFFFFFF ++ (0x1FFFFFFF ∷ [])

nearly_full-IsWords : IsWords nearly_full
nearly_full-IsWords = all_ones 31 (0x1FFFFFFF ∷ []) (one-IsWords 0x1FFFFFFF (omega arith))

abbrev block : VmmBlock
block = record {
  bitmap = nearly_full;
  high_water_mark = 1021;
  free_pages = 3;
  first_page = 0xC0000000;
  page_table = 0xC0106000;
}

used_table : all_below 1021 (λ q. frame nearly_full q == 1) ≡ true
unfolding all_below frame bit
used_table = refl

free_1021 : frame nearly_full 1021 ≡ 0
unfolding frame bit
free_1021 = refl

free_1022 : frame nearly_full 1022 ≡ 0
unfolding frame bit
free_1022 = refl

first_page : IsFirst block 1021
first_page = record {
  words = nearly_full-IsWords;
  counted = omega arith;
  below = omega arith;
  free = free_1021;
  used = λ q h. (==_iff _ 1).0 (all_below_sound 1021 _ q used_table h);
}

abbrev pool : PhysicalMemory
pool = record {
  total_memory = 0;
  total_page_memory = 64 * 4096;
  starting_addr = 0x105000;
  page_count = 64;
  bitmap = 7 ∷ 0 ∷ [];
}

pool-IsWords : IsWords (7 ∷ 0 ∷ [])
pool-IsWords zero = omega arith
pool-IsWords (suc zero) = omega arith
pool-IsWords (suc (suc i)) = omega arith

pool-IsValid : Alloc.IsValid pool
pool-IsValid = record { scanned = omega arith; words = pool-IsWords }

abbrev paging : Paging
paging = record {
  directories = λ _ _. no_pd_entry;
  tables = λ _ i. record no_pt_entry { phys_addr = i };
  kernel_page_directory = 0xC0105000;
  cr3 = 0x105000;
  cr0 = 0x80000001;
  idt_handlers = [];
  pmm = pool;
}

abbrev vmm : List VmmBlock → Vmm
vmm blocks = record { blocks = blocks; allocating_new_block = false; paging = paging }

-- A block behind the first.
abbrev second : VmmBlock
second = record block { first_page = 0xC0400000; page_table = 0xC03FE000 }

abbrev other_table : ℕ
other_table = 5

abbrev other_index : ℕ
other_index = 0

stays : ((taken_block block 1021).high_water_mark == 1022 && false) ≡ false
unfolding take_from
stays = refl

vmm_alloc_page-first_example :
    (b' : VmmBlock) × (s' : Vmm) × (vmm_alloc_page 0 (vmm (block ∷ second ∷ []))
      ≡ ok (0xC03FD000, s'))
    × (s'.blocks ≡ b' ∷ second ∷ [])
    × TakenFrom 1021 block b'
    × (paging_is_virtual_page_present 0xC0106000 0xC03FD000 s'.paging ≡ true)
    × (((other_table ≡ 0xC0106000) × (other_index ≡ page_table_index 0xC03FD000))
        ⊎ (s'.paging.tables 5 0 ≡ paging.tables 5 0))
vmm_alloc_page-first_example =
    vmm_alloc_page-first 0 1021 5 0 [] (second ∷ []) block (vmm (block ∷ second ∷ [])) refl tt
      first_page refl (omega arith) refl pool-IsValid

vmm_alloc_page-gives_table_example :
    (page : ℕ) × (s₁ : Vmm) × (table : ℕ) × (s₂ : Vmm) × (vmm_alloc_page 0xC0300000
        (vmm (block ∷ []))
      ≡ ok (page, s₁))
    × (s₁.blocks ≡ taken_block block 1021 ∷ next_block block ∷ [])
    × (vmm_alloc_page 0xC0300000 s₁ ≡ ok (table, s₂))
    × (table ≡ (next_block block).page_table)
vmm_alloc_page-gives_table_example =
    vmm_alloc_page-gives_table 0xC0300000 [] block (vmm (block ∷ [])) (omega arith) refl tt
      first_page refl (omega arith) (omega arith) free_1022 (omega arith) (omega arith) refl
      pool-IsValid

vmm_free_page-faults_example : vmm_free_page 0xC0401000 (vmm (block ∷ second ∷ [])) ≡ fault
vmm_free_page-faults_example =
    vmm_free_page-faults 0xC0401000 block (second ∷ []) (vmm (block ∷ second ∷ [])) refl
      (omega arith) refl (omega arith) (omega arith)

vmm_free_page-alloc_example :
    (b' : VmmBlock) × (s' : Vmm) × ((vmm_alloc_page 0 (vmm (block ∷ second ∷ [])) >>= λ (page, s₁).
    vmm_free_page page s₁)
      ≡ ok s')
    × (s'.blocks ≡ b' ∷ second ∷ [])
    × (b'.bitmap ≡ nearly_full)
    × (b'.free_pages ≡ 2)
vmm_free_page-alloc_example =
    vmm_free_page-alloc 0 1021 block (second ∷ []) (vmm (block ∷ second ∷ [])) refl refl refl
      first_page stays pool-IsValid

abbrev none_left : VmmBlock
none_left = record block { bitmap = replicate 32 0xFFFFFFFF; free_pages = 0 }

vmm_alloc_page-after_free_example :
    (vmm_free_page 0xC0107000 (vmm (none_left ∷ [])) >>= λ s'. vmm_alloc_page 0 s') ≡ panic
vmm_alloc_page-after_free_example =
    vmm_alloc_page-after_free 0 0xC0107000 none_left [] (vmm (none_left ∷ [])) refl (refl, tt)
      (omega arith) refl (omega arith) (omega arith)
