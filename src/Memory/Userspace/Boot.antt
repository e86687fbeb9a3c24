-- ===== src/Memory/Userspace/Boot.antt =====
-- The first block after `vmm_init` of kernel/memory/vmm.c: what it makes available.
use aosis.Base.{
  ℕ, ◌+◌, ◌/◌, ◌%◌, ◌≤◌, ◌<◌, ◌≡◌, ◌∙◌, refl, arith, true, ap, List, [], ◌∷◌, ltb, ◌==◌, ==_iff,
  if◌then◌else◌, all_below, all_below_sound, length, get_or, set, length-set, get_or-set, for_range,
  for_range-keeps, u32, sub32, shl32, not32, ok,
}
use aosis.Bits.Digits.{bit, bit-zero}
use aosis.Memory.Pmm.Frames.{frame, IsWords, all_ones_bits}
use aosis.Memory.Pmm.Alloc
use aosis.Memory.Paging.{v2p_addr}
use aosis.Memory.Vmm.{VmmBlock, Vmm, vmm_init}
use aosis.Memory.Userspace.Ready.{page_at, Ready, alloc_pages, pages_from, alloc_pages-Ready}

-- The mask of the last word has its `k` low bits set.
mask_table :
    all_below 32
      (λ k. all_below 32 (λ j. bit (not32 (shl32 0xFFFFFFFF k)) j == (if ltb j k then 1 else 0)))
    ≡ true
unfolding all_below bit
mask_table = refl

mask_bit :
    (k j : ℕ) → k < 32 → j < 32 → bit (not32 (shl32 0xFFFFFFFF k)) j ≡ (if ltb j k then 1 else 0)
mask_bit k j h g = (==_iff _ _).0 (all_below_sound 32 _ j (all_below_sound 32 _ k mask_table h) g)

-- The words below `k` are all ones, and the others as before.
record Filled (bitmap : List ℕ) (k : ℕ) (m : List ℕ) : Type 0 where
  size : length m ≡ length bitmap
  words : (i : ℕ) → get_or m i 0 ≡ (if ltb i k then 0xFFFFFFFF else get_or bitmap i 0)

fill_words :
    (bitmap : List ℕ) (last : ℕ)
    → last ≤ length bitmap
    → Filled bitmap last (for_range last 0 (λ i m. set m i 0xFFFFFFFF) bitmap)
fill_words bitmap last h =
    for_range-keeps (Filled bitmap) (λ i m. set m i 0xFFFFFFFF) last 0 last bitmap (omega arith)
      (λ k m a b f. record {
        size = length-set m k 0xFFFFFFFF ∙ f.size;
        words = λ i. ground (arith, get_or-set m k i 0xFFFFFFFF 0, f.size, f.words i);
      })
      (record { size = refl; words = λ i. ground arith })

-- The bitmap of the first block, over what its memory held.
abbrev first_bitmap : List ℕ → ℕ → List ℕ
first_bitmap bitmap n =
    set (for_range (n / 32) 0 (λ i m. set m i 0xFFFFFFFF) bitmap) (n / 32)
      (not32 (shl32 0xFFFFFFFF (n % 32)))

first_word :
    (bitmap : List ℕ) (n i : ℕ)
    → length bitmap ≡ 32
    → ((k : ℕ) → n / 32 < k → get_or bitmap k 0 ≡ 0)
    → n < 1024
    → get_or (first_bitmap bitmap n) i 0 ≡ (
        if i == n / 32
        then not32 (shl32 0xFFFFFFFF (n % 32))
        else if ltb i (n / 32)
        then 0xFFFFFFFF
        else 0)
first_word bitmap n i size zeros h =
    let full = fill_words bitmap (n / 32) (omega (arith, size)) in
    ground (
      arith,
      get_or-set (for_range (n / 32) 0 (λ i m. set m i 0xFFFFFFFF) bitmap) (n / 32) i
          (not32 (shl32 0xFFFFFFFF (n % 32))) 0,
      full.size,
      size,
      full.words i,
      zeros i,
    )

first_frame :
    (bitmap : List ℕ) (n q : ℕ)
    → length bitmap ≡ 32
    → ((k : ℕ) → n / 32 < k → get_or bitmap k 0 ≡ 0)
    → n < 1024
    → frame (first_bitmap bitmap n) q ≡ (if ltb q n then 1 else 0)
unfolding frame
first_frame bitmap n q size zeros h =
    let word = first_word bitmap n (q / 32) size zeros h in
    let mask = mask_bit (n % 32) (q % 32) (omega arith) (omega arith) in
    let one = all_ones_bits (q % 32) (omega arith) in
    let none = bit-zero (q % 32) in ground (arith, ap (λ w. bit w (q % 32)) word, mask, one, none)

first-IsWords :
    (bitmap : List ℕ) (n : ℕ)
    → length bitmap ≡ 32
    → ((k : ℕ) → n / 32 < k → get_or bitmap k 0 ≡ 0)
    → n < 1024
    → IsWords (first_bitmap bitmap n)
first-IsWords bitmap n size zeros h i = ground (arith, first_word bitmap n i size zeros h)

pub vmm_init-Ready :
    (initial : VmmBlock) (m n : ℕ) (s : Vmm)
    → length initial.bitmap ≡ 32
    → ((k : ℕ) → (m + 1) / 32 < k → get_or initial.bitmap k 0 ≡ 0)
    → m + 1 + n < 1022
    → Alloc.IsValid s.paging.pmm
    → s.paging.kernel_page_directory < page_at (m + 1)
    → (s' : Vmm) × (vmm_init initial (page_at m) s ≡ ok s')
      × (s'.paging ≡ s.paging)
      × Ready (page_at m) (m + 1) n s'
unfolding vmm_init v2p_addr
vmm_init-Ready initial m n s size zeros room pmm root =
    let free_page : u32 (v2p_addr (page_at m) + 4096) / 4096 ≡ m + 1 = omega arith in
    let last : ltb ((m + 1) / 32) 32 ≡ true = ground arith in
    let full = fill_words initial.bitmap ((m + 1) / 32) (omega (arith, size)) in
    let bit = λ (q : ℕ). first_frame initial.bitmap (m + 1) q size zeros (omega arith) in
    let block : VmmBlock = record {
      bitmap = first_bitmap initial.bitmap (m + 1);
      high_water_mark = m + 1;
      free_pages = sub32 1024 (m + 1);
      first_page = 0xC0000000;
      page_table = page_at m;
    } in
    (
      record s { blocks = block ∷ [] },
      rw (free_page, last) refl,
      refl,
      record {
        block = block;
        behind = [];
        head = refl;
        base = refl;
        at = refl;
        size =
            length-set (for_range ((m + 1) / 32) 0 (λ i m. set m i 0xFFFFFFFF) initial.bitmap)
              ((m + 1) / 32) _
            ∙ full.size
            ∙ size;
        words = first-IsWords initial.bitmap (m + 1) size zeros (omega arith);
        count = omega arith;
        mark = omega arith;
        room = room;
        used = λ q h. ground (arith, bit q);
        free = λ q a b. ground (arith, bit q);
        pmm = pmm;
        table_below = omega arith;
        root_below = root;
      },
    )

-- Let the bitmap in the memory of the first descriptor have 32 words, those behind the word for
-- the first free page zeros, let the table of `paging_init` be page `m` of the kernel with the
-- kernel's directory not above it, let `n` more pages behind it end before page 1022, and let
-- the frame allocator be valid. Then `vmm_init` succeeds and does not touch the page tables, and `n`
-- calls of `vmm_alloc_page` after it succeed and return these `n` pages, one after the other in their
-- order.
pub vmm_init-alloc_pages :
    (new_vmm_block : ℕ) (initial : VmmBlock) (m n : ℕ) (s : Vmm)
    → length initial.bitmap ≡ 32
    → ((k : ℕ) → (m + 1) / 32 < k → get_or initial.bitmap k 0 ≡ 0)
    → m + 1 + n < 1022
    → Alloc.IsValid s.paging.pmm
    → s.paging.kernel_page_directory < page_at (m + 1)
    → (s' : Vmm) × (s'' : Vmm) × (vmm_init initial (page_at m) s ≡ ok s')
      × (s'.paging ≡ s.paging)
      × (alloc_pages new_vmm_block n s' ≡ ok (pages_from (m + 1) n, s''))
vmm_init-alloc_pages new_vmm_block initial m n s size zeros room pmm root =
    let (s', made, same, ready) = vmm_init-Ready initial m n s size zeros room pmm root in
    let (s'', pages) = alloc_pages-Ready new_vmm_block (page_at m) (m + 1) n s' ready in
    (s', s'', made, same, pages)
