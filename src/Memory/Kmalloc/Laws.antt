-- ===== src/Memory/Kmalloc/Laws.antt =====
-- What the heap of kmalloc.c hands out and takes back.
use aosis.Base.{
  ℕ, suc, ◌+◌, ◌-◌, ◌%◌, ◌^◌, ◌≤◌, ◌<◌, ◌≡◌, ◌∙◌, ◌≢◌, ◌⊎◌, refl, arith, some, ◌==◌, if◌then◌else◌,
  u32, sub32,
}
use aosis.Memory.Kmalloc.{
  Heap, Words, kmalloc_split_block, find_block, round_up, kmalloc, kmalloc_coalesce, find_prev,
  link_block, kfree,
}

pub round_up_lem :
    (size : ℕ)
    → size < 2 ^ 32 - 8
    → (round_up size % 8 ≡ 0) × (size ≤ round_up size) × (round_up size < size + 8)
unfolding round_up
round_up_lem size h = omega arith

-- If the first block of the list has room for either of two requests, and is too small to be split
-- for either, `kmalloc` gives the same memory to both and leaves the heap as it was.
pub kmalloc-repeats :
    (fuel page size size' room : ℕ) (h : Heap)
    → 0 < size
    → 0 < size'
    → h.block_list_head ≢ 0
    → h.words (h.block_list_head + 8) ≢ 0
    → room ≡ sub32 (h.words h.block_list_head) 8
    → round_up size ≤ room
    → room < round_up size + 32
    → round_up size' ≤ room
    → room < round_up size' + 32
    → (kmalloc (suc fuel) page size h ≡ some (h.words (h.block_list_head + 8), h))
      × (kmalloc (suc fuel) page size' h ≡ some (h.words (h.block_list_head + 8), h))
unfolding kmalloc find_block
kmalloc-repeats fuel page size size' room h p p' ne ptr e fits left fits' left' =
    (ground arith, ground arith)

pub split_words :
    (b a size n k : ℕ) (m : Words)
    → m b ≡ size
    → 0 < b
    → b + size < 2 ^ 32
    → n + (a + 8) ≡ b + size
    → b + 32 ≤ n
    → let (p, m') = kmalloc_split_block b a m in
      (p ≡ n + 8)
      × (m' b ≡ n - b)
      × (m' n ≡ a + 8)
      × ((k ≡ b) ⊎ (k ≡ n) ⊎ (k ≡ n + 4) ⊎ (k ≡ n + 8) ⊎ (m' k ≡ m k))
unfolding kmalloc_split_block
split_words b a size n k m sz pos top e gap =
    let at : sub32 (u32 (b + m b)) (u32 (a + 8)) ≡ n = omega (arith, sz) in rw at (ground arith)

-- The piece that `kmalloc` takes off the end of the first block.
pub kmalloc-piece :
    (fuel page size b n : ℕ) (h : Heap)
    → h.block_list_head ≡ b
    → 0 < size
    → size < 2 ^ 32 - 8
    → 0 < b
    → b + h.words b < 2 ^ 32
    → round_up size + 40 ≤ h.words b
    → n + (round_up size + 8) ≡ b + h.words b
    → (m' : Words) × (kmalloc (suc fuel) page size h ≡ some (n + 8, record h { words = m' }))
      × (m' b ≡ n - b)
      × (m' n ≡ round_up size + 8)
      × ((k : ℕ) → (k ≡ b) ⊎ (k ≡ n) ⊎ (k ≡ n + 4) ⊎ (k ≡ n + 8) ⊎ (m' k ≡ h.words k))
unfolding kmalloc find_block
kmalloc-piece fuel page size b n h head p bound pos top room e =
    let a = round_up size in
    let parts = λ (k : ℕ). split_words b a (h.words b) n k h.words refl pos top e (omega arith) in
    (
      (kmalloc_split_block b a h.words).1,
      simp head (ground (arith, (parts 0).0)),
      (parts 0).1,
      (parts 0).2,
      λ k. (parts k).3,
    )

-- Let the first block lie in the 32-bit address space and have at least 40 bytes more than a
-- request that is not 0, rounded up. `kmalloc` splits it: it hands out the end of the block, at
-- least as many bytes as requested, behind a new header, and shortens the block by as much. The
-- block's link, the ends of the list and all words but the block's size and the first three words
-- of the piece stay as they were.
kmalloc-splits :
    (fuel page size b n k : ℕ) (h : Heap)
    → h.block_list_head ≡ b
    → 0 < size
    → size < 2 ^ 32 - 8
    → 0 < b
    → b + h.words b < 2 ^ 32
    → round_up size + 40 ≤ h.words b
    → n + (round_up size + 8) ≡ b + h.words b
    → (m' : Words) × (kmalloc (suc fuel) page size h ≡ some (n + 8, record h { words = m' }))
      × (n + 8 + size ≤ b + h.words b)
      × (m' b ≡ n - b)
      × (m' (b + 4) ≡ h.words (b + 4))
      × (m' n ≡ round_up size + 8)
      × ((k ≡ b) ⊎ (k ≡ n) ⊎ (k ≡ n + 4) ⊎ (k ≡ n + 8) ⊎ (m' k ≡ h.words k))
kmalloc-splits fuel page size b n k h head p bound pos top room e =
    let (m', made, short, piece, kept) =
      kmalloc-piece fuel page size b n h head p bound pos top room e in
    (
      m',
      made,
      omega (arith, round_up_lem size bound),
      short,
      ground (arith, kept (b + 4)),
      piece,
      kept k,
    )

coalesce_joins :
    (b n a next_block : ℕ) (h : Heap)
    → 0 < b
    → b + 32 ≤ n
    → n + (a + 8) < 2 ^ 32
    → h.words b ≡ n - b
    → h.words n ≡ a + 8
    → (next_block ≡ 0) ⊎ (n + (a + 8) < next_block)
    → let h' = kmalloc_coalesce b n next_block (link_block b n next_block h) in
      (h'.block_list_head ≡ h.block_list_head)
      × (h'.words b ≡ n - b + (a + 8))
      × (h'.words (b + 4) ≡ next_block)
      × (h'.block_list_tail ≡ (if next_block == 0 then n else h.block_list_tail))
unfolding link_block kmalloc_coalesce
coalesce_joins b n a next_block h pos gap top size piece next = ground arith

-- Freeing a piece behind the first block that touches it joins it to that block.
kfree-joins :
    (fuel b n a : ℕ) (h : Heap)
    → h.block_list_head ≡ b
    → 0 < b
    → b + 32 ≤ n
    → n + (a + 8) < 2 ^ 32
    → h.words b ≡ n - b
    → h.words n ≡ a + 8
    → (h.words (b + 4) ≡ 0) ⊎ (n + (a + 8) < h.words (b + 4))
    → (h' : Heap) × (kfree (suc fuel) (n + 8) h ≡ some h')
      × (h'.block_list_head ≡ b)
      × (h'.words b ≡ n - b + (a + 8))
      × (h'.words (b + 4) ≡ h.words (b + 4))
      × (h'.block_list_tail ≡ (if h.words (b + 4) == 0 then n else h.block_list_tail))
unfolding kfree find_prev
kfree-joins fuel b n a h e pos gap top size piece next =
    let freed : sub32 (n + 8) 8 ≡ n = omega arith in
    let next_block = h.words (b + 4) in
    let joined = coalesce_joins b n a next_block h pos gap top size piece next in
    (
      kmalloc_coalesce b n next_block (link_block b n next_block h),
      rw freed (ground (arith, e)),
      joined.0 ∙ e,
      joined.1,
      joined.2,
      joined.3,
    )

-- Let the first block lie in the 32-bit address space, have at least 40 bytes more than a request
-- that is not 0, rounded up, and be the last of the list or end below the next block. Allocating
-- from it and freeing the piece at once restores the size and the link of the block and the head
-- of the list. But if the block is the last of the list, the tail afterwards points at the freed
-- piece, which is no block any more.
pub kfree-kmalloc :
    (fuel fuel' page size b : ℕ) (h : Heap)
    → h.block_list_head ≡ b
    → 0 < size
    → size < 2 ^ 32 - 8
    → 0 < b
    → b + h.words b < 2 ^ 32
    → round_up size + 40 ≤ h.words b
    → (h.words (b + 4) ≡ 0) ⊎ (b + h.words b < h.words (b + 4))
    → (p : ℕ) × (h₁ : Heap) × (h₂ : Heap) × (kmalloc (suc fuel) page size h ≡ some (p, h₁))
      × (kfree (suc fuel') p h₁ ≡ some h₂)
      × (h₂.block_list_head ≡ b)
      × (h₂.words b ≡ h.words b)
      × (h₂.words (b + 4) ≡ h.words (b + 4))
      × (h₂.block_list_tail ≡ (if h.words (b + 4) == 0 then p - 8 else h.block_list_tail))
kfree-kmalloc fuel fuel' page size b h head pos bound base top room next =
    let a = round_up size in
    let n = b + h.words b - (a + 8) in
    let e : n + (a + 8) ≡ b + h.words b = omega arith in
    let (m', made, _, short, link, piece, _) =
      kmalloc-splits fuel page size b n b h head pos bound base top room e in
    let h₁ = record h { words = m' } in
    let next' : (m' (b + 4) ≡ 0) ⊎ (n + (a + 8) < m' (b + 4)) = ground (arith, link, next) in
    let (h₂, freed, head', size', link', tail) =
      kfree-joins fuel' b n a h₁ head base (omega arith) (omega arith) short piece next' in
    (
      n + 8,
      h₁,
      h₂,
      made,
      freed,
      head',
      omega (arith, size'),
      link' ∙ link,
      ground (arith, tail, link),
    )
