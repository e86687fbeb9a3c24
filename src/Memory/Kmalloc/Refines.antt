-- ===== src/Memory/Kmalloc/Refines.antt =====
-- `kmalloc` and `kfree` of kernel/memory/kmalloc.c against `take_fit` and `release` on lists.
use aosis.Base.{
  ℕ, suc, ◌+◌, ◌≤◌, ◌<◌, ◌≡◌, ◌∙◌, refl, arith, false, ◌==◌, if◌then◌else◌, List, length, Option,
  none, some, ◌≢◌, ◌⊎◌, u32,
}
use aosis.Memory.Kmalloc.{Words, Heap, find_block, round_up, add_page, kmalloc, kfree}
use aosis.Memory.Kmalloc.Chain.{Block, Chain}
use aosis.Memory.Kmalloc.Free.{kfree-release}
use aosis.Memory.Kmalloc.FirstFit.{take_fit, Splits, Found, ResultOf, find_block-take_fit}

-- What `kmalloc` does, by what its loop finds.
pub kmalloc_found :
    (fuel page size p : ℕ) (h : Heap) (m : Words)
    → 0 < size
    → find_block fuel h.block_list_head (round_up size) h.words ≡ some (p, m)
    → kmalloc fuel page size h ≡ (
        if p == 0
        then some (0, add_page page (record h { words = m }))
        else some (p, record h { words = m }))
unfolding kmalloc
kmalloc_found fuel page size p h m pos e =
    let real : (size == 0) ≡ false = ground arith in rw (kmalloc, real, e) refl

-- The heap with one more page: its header is that of a block of 4096 bytes with no next block, the block at the
-- tail is linked to it, and nothing else has changed, the tail included.
pub record PageAdded (page : ℕ) (h h' : Heap) : Type 0 where
  pub size : h'.words page ≡ 4096
  pub next : h'.words (page + 4) ≡ 0
  pub free_memory : h'.words (page + 8) ≡ u32 (page + 8)
  pub link : h'.words (h.block_list_tail + 4) ≡ page
  pub others :
      (a : ℕ)
      → a ≢ page
      → a ≢ page + 4
      → a ≢ page + 8
      → a ≢ h.block_list_tail + 4
      → h'.words a ≡ h.words a
  pub same_head : h'.block_list_head ≡ h.block_list_head
  pub same_tail : h'.block_list_tail ≡ h.block_list_tail

-- The link at the tail is none of the words of the new header.
abbrev pub Apart : ℕ → Heap → Type 0
Apart page h = (h.block_list_tail + 8 ≤ page) ⊎ (page + 8 ≤ h.block_list_tail)

add_page-PageAdded : (page : ℕ) (h : Heap) → Apart page h → PageAdded page h (add_page page h)
unfolding add_page
add_page-PageAdded page h v = record {
  size = ground (arith, v);
  next = ground (arith, v);
  free_memory = ground (arith, v);
  link = ground arith;
  others = λ a p q r t. ground (arith, p, q, r, t);
  same_head = refl;
  same_tail = refl;
}

-- The outcome of a request, by what the list should become: the memory behind the new header,
-- and the shorter list; or NULL and one more page.
abbrev pub Outcome : ℕ → ℕ → ℕ → Heap → Option (ℕ × List Block) → Type 0
Outcome fuel page size h none =
    (h' : Heap) × (kmalloc fuel page size h ≡ some (0, h')) × PageAdded page h h'
Outcome fuel page size h (some (q, bs)) =
    (h' : Heap) × (kmalloc fuel page size h ≡ some (q + 8, h'))
    × Chain h'.words 1 h'.block_list_head bs
    × (h'.words q ≡ round_up size + 8)

Found-Outcome :
    (fuel page size : ℕ) (h : Heap) (bs : List Block) (r : Option (ℕ × List Block))
    → 0 < size
    → Apart page h
    → ResultOf (round_up size) h.block_list_head 1 fuel h.words bs r
    → Outcome (suc fuel) page size h r
Found-Outcome fuel page size h bs none pos apart v = (
  add_page page h,
  kmalloc_found (suc fuel) page size 0 h h.words pos v,
  add_page-PageAdded page h apart,
)
Found-Outcome fuel page size h bs (some (q, bs')) pos apart v =
    let real : (q + 8 == 0) ≡ false = ground arith in
    let made = kmalloc_found (suc fuel) page size (q + 8) h v.words pos v.found in
    (record h { words = v.words }, made ∙ rw real refl, v.chain, v.header)

-- Let the free list hold any number of blocks in the order of their addresses, with gaps
-- between them, in the 32-bit address space, each of them too small for a request that is not
-- 0, rounded up, or at least 40 bytes larger, and let the page that `vmm_alloc_page` would return not overlap
-- the first 8 bytes of the block at the tail, nor these its header. With more rounds than there are blocks `kmalloc`
-- hands out the end of the first block that is large enough, as `take_fit` does with a list; if
-- there is none, it returns NULL, makes that page a block of 4096 bytes with no next block, and links the block at the
-- tail to it; the tail stays, and so does every other word.
pub kmalloc-take_fit :
    (fuel page size : ℕ) (h : Heap) (blocks : List Block)
    → 0 < size
    → Apart page h
    → length blocks ≤ fuel
    → Chain h.words 1 h.block_list_head blocks
    → Splits (round_up size) blocks
    → Outcome (suc fuel) page size h (take_fit (round_up size) blocks)
kmalloc-take_fit fuel page size h blocks pos apart few v splits =
    Found-Outcome fuel page size h blocks (take_fit (round_up size) blocks) pos apart (
      find_block-take_fit (round_up size) h.words h.block_list_head 1 fuel blocks few (omega arith)
        v splits)

-- For such a list and a request that a block is large enough for, freeing what `kmalloc` handed
-- out at once restores all the blocks of the list, whichever of them was split.
pub kfree-take_fit :
    (fuel page size q : ℕ) (h : Heap) (blocks blocks' : List Block)
    → 0 < size
    → length blocks ≤ fuel
    → Chain h.words 1 h.block_list_head blocks
    → Splits (round_up size) blocks
    → take_fit (round_up size) blocks ≡ some (q, blocks')
    → (h₁ : Heap) × (h₂ : Heap) × (kmalloc (suc fuel) page size h ≡ some (q + 8, h₁))
      × (kfree (suc fuel) (q + 8) h₁ ≡ some h₂)
      × Chain h₂.words 1 h₂.block_list_head blocks
kfree-take_fit fuel page size q h blocks blocks' pos few v splits e =
    let found : Found (round_up size) h.block_list_head 1 fuel h.words blocks q blocks' = rw e at (
      find_block-take_fit (round_up size) h.words h.block_list_head 1 fuel blocks few (omega arith)
        v splits) in
    let h₁ = record h { words = found.words } in
    let real : (q + 8 == 0) ≡ false = ground arith in
    let made = kmalloc_found (suc fuel) page size (q + 8) h found.words pos found.found in
    let (h₂, freed, chain) =
      kfree-release fuel q (round_up size + 8) h₁ blocks' (omega (arith, found.count, few))
        found.chain found.apart (omega (arith, found.first)) (omega arith) found.header found.top in
    (h₁, h₂, made ∙ rw real refl, freed, rw found.back at chain)
