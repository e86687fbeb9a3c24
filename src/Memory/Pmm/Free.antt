-- ===== src/Memory/Pmm/Free.antt =====
-- What `pmm_free_page` does, and when it refuses: the address that it takes for the last page of
-- the pool is a product where a sum is meant.
use aosis.Base.{
  List, ap, ℕ, ◌+◌, ◌*◌, ◌/◌, ◌%◌, ◌^◌, ◌≤◌, ◌<◌, ◌≡◌, refl, ap, arith, length, ◌∙◌, length-set,
  u32, sub32, ok, panic, ◌>>=◌,
}
use aosis.Memory.Page.{page_size, page_align, page_align_lem}
use aosis.Memory.Pmm.{
  PhysicalMemory, frame_addr, last_page_addr, clear_frame, pmm_alloc_page, pmm_free_page,
}
use aosis.Memory.Pmm.Frames.{unmarked, unmarked-marked, frame}
use aosis.Memory.Pmm.Alloc.{IsValid, mark, pmm_alloc_page-marks}

-- Marking frame `p` free.
abbrev pub unmark : PhysicalMemory → ℕ → PhysicalMemory
unmark pmm p = record pmm { bitmap = unmarked pmm.bitmap p }

clear_frame-unmark :
    (pmm : PhysicalMemory) (p : ℕ)
    → p / 32 < length pmm.bitmap
    → clear_frame pmm p ≡ ok (unmark pmm p)
unfolding clear_frame
clear_frame-unmark pmm p h = ground arith

unmark-mark :
    (pmm : PhysicalMemory) (p : ℕ)
    → IsValid pmm
    → p / 32 < length pmm.bitmap
    → frame pmm.bitmap p ≡ 0
    → unmark (mark pmm p) p ≡ pmm
unmark-mark pmm p v h e =
    ap (λ (m : List ℕ). record pmm { bitmap = m }) (unmarked-marked pmm.bitmap p v.words h e)

last_page_addr-mark :
    (pmm : PhysicalMemory) (p : ℕ) → last_page_addr (mark pmm p) ≡ last_page_addr pmm
unfolding last_page_addr
last_page_addr-mark pmm p = refl

-- For an address inside frame `p` of an aligned pool that passes the range test, and whose bit lies in
-- the bitmap, `pmm_free_page` clears the bit of `p` and does nothing else.
pmm_free_page-clears :
    (pmm : PhysicalMemory) (p offset : ℕ)
    → pmm.starting_addr % 4096 ≡ 0
    → offset < 4096
    → pmm.starting_addr + 4096 * p + offset < 2 ^ 32
    → pmm.starting_addr + 4096 * p ≤ last_page_addr pmm
    → p / 32 < length pmm.bitmap
    → pmm_free_page pmm (pmm.starting_addr + 4096 * p + offset) ≡ ok (unmark pmm p)
unfolding pmm_free_page
pmm_free_page-clears pmm p offset al o top guard within =
    let page = pmm.starting_addr + 4096 * p + offset in
    let aligned : page_align page ≡ pmm.starting_addr + 4096 * p =
      omega (arith, page_align_lem page top) in
    let index : sub32 (pmm.starting_addr + 4096 * p) pmm.starting_addr / page_size ≡ p =
      omega arith in
    rw (aligned, index) (ground (arith, clear_frame-unmark pmm p within))

frame_addr_lem :
    (pmm : PhysicalMemory) (p : ℕ)
    → pmm.starting_addr + 4096 * p < 2 ^ 32
    → frame_addr pmm (p / 32) (p % 32) ≡ pmm.starting_addr + 4096 * p + 0
unfolding frame_addr
frame_addr_lem pmm p h = omega arith

-- Let `p` be the first free frame among the scanned words of a valid allocator whose pool starts
-- at a page boundary. Allocating, which gives out `p`, and then freeing that address gives the
-- allocator back as it was, if the address fits 32 bits and is not above what `pmm_free_page`
-- takes for the last page.
pub pmm_free_page-alloc :
    (pmm : PhysicalMemory) (p : ℕ)
    → IsValid pmm
    → pmm.starting_addr % 4096 ≡ 0
    → p < pmm.page_count / 32 * 32
    → frame pmm.bitmap p ≡ 0
    → ((q : ℕ) → q < p → frame pmm.bitmap q ≡ 1)
    → pmm.starting_addr + 4096 * p < 2 ^ 32
    → pmm.starting_addr + 4096 * p ≤ last_page_addr pmm
    → (pmm_alloc_page pmm >>= λ (addr, pmm'). pmm_free_page pmm' addr) ≡ ok pmm
pmm_free_page-alloc pmm p v al h e full top guard =
    let within : p / 32 < length pmm.bitmap = omega (arith, v.scanned) in
    let addr : frame_addr pmm (p / 32) (p % 32) ≡ pmm.starting_addr + 4096 * p + 0 =
      frame_addr_lem pmm p top in
    rw (pmm_alloc_page-marks pmm p v h e full, addr)
      (pmm_free_page-clears (mark pmm p) p 0 al (omega arith) (omega arith)
          (rw (last_page_addr-mark pmm p) guard) (rw length-set within)
        ∙ ap ok (unmark-mark pmm p v within e))

product_wraps : (s b k m : ℕ) → s ≡ 1048576 * k → b ≡ 4096 * m → u32 (s * b) ≡ 0
product_wraps s b k m e e' = rw (e, e') (omega arith)

last_page_addr-zero :
    (pmm : PhysicalMemory) → pmm.starting_addr % 2 ^ 20 ≡ 0 → last_page_addr pmm ≡ 0
unfolding last_page_addr
last_page_addr-zero pmm al =
    let count = sub32 pmm.page_count 1 in
    product_wraps pmm.starting_addr (u32 (page_size * count)) (pmm.starting_addr / 1048576)
      (count % 2 ^ 20) (omega arith) (omega arith)

-- If the pool starts at a multiple of 1 MiB other than 0, `pmm_free_page` panics on every address: the
-- product that it compares with is 0 modulo 2 ^ 32.
pub pmm_free_page-panics :
    (pmm : PhysicalMemory) (page : ℕ)
    → pmm.starting_addr % 2 ^ 20 ≡ 0
    → 0 < pmm.starting_addr
    → pmm_free_page pmm page ≡ panic
unfolding pmm_free_page
pmm_free_page-panics pmm page al pos = ground (arith, last_page_addr-zero pmm al)
