-- ===== src/Memory/Kmalloc/Reuse.antt =====
-- A freed block that `kmalloc` of kernel/memory/kmalloc.c hands out again as a whole.
use aosis.Base.{ℕ, suc, ◌+◌, ◌^◌, ◌≤◌, ◌<◌, ◌≡◌, ◌∙◌, ap, refl, arith, false, ◌==◌, inl, some}
use aosis.Memory.Kmalloc.{Words, Heap, find_prev, find_block, round_up, kmalloc, kfree}
use aosis.Memory.Kmalloc.Chain.{linked, linked-behind}
use aosis.Memory.Kmalloc.Free.{find_prev-stops, kfree-behind}
use aosis.Memory.Kmalloc.FirstFit.{find_block-small}
use aosis.Memory.Kmalloc.Refines.{kmalloc_found}

-- A block that fits and is not split.
find_block-whole :
    (fuel c n a : ℕ) (m : Words)
    → 0 < c
    → m c ≡ n
    → n < 2 ^ 32
    → a + 8 ≤ n
    → n < a + 40
    → find_block (suc fuel) c a m ≡ some (m (c + 8), m)
unfolding find_block
find_block-whole fuel c n a m pos size top fits left = ground arith

-- Let the heap have one free block, at `a`, too small for a request, and let a block behind it
-- that does not touch it be in use, with room for the request but not for a split; its user has
-- left the word `w`, not 0, at the start of its memory. After `kfree` of that block, `kmalloc`
-- returns `w` for the request, whatever it is, and not the address of the block.
pub kmalloc-user_word :
    (fuel page size a s b n w : ℕ) (h : Heap)
    → h.block_list_head ≡ a
    → 0 < a
    → h.words a ≡ s
    → h.words (a + 4) ≡ 0
    → 8 ≤ s
    → s < round_up size + 8
    → a + s < b
    → h.words b ≡ n
    → h.words (b + 8) ≡ w
    → 0 < w
    → b + n < 2 ^ 32
    → 0 < size
    → round_up size + 8 ≤ n
    → n < round_up size + 40
    → (h' : Heap) × (kfree (suc (suc fuel)) (b + 8) h ≡ some h')
      × (kmalloc (suc (suc fuel)) page size h' ≡ some (w, h'))
kmalloc-user_word fuel page size a s b n w h head pos size_a last gap small apart size_b word real
      top asked fits left =
    let h' = linked a b 0 h in
    let facts = λ (k : ℕ).
      linked-behind a s b n 0 k h pos gap size_a (omega arith) (omega arith) size_b top
        (inl refl) in
    let (head', size_b', _, size_a', next', _) = facts 0 in
    let far : (b == a + s) ≡ false = ground arith in
    let stay : (0 == b + n) ≡ false = ground arith in
    let word' : h'.words (b + 8) ≡ w = ground (arith, (facts (b + 8)).5, word) in
    let first =
      find_block-small (suc fuel) a s (round_up size) h'.words pos (rw far at size_a') gap
        (omega arith) small in
    let next : h'.words (a + 4) ≡ b = rw far at next' in
    let second =
      find_block-whole fuel b n (round_up size) h'.words (omega arith) (rw stay at size_b')
        (omega arith) fits left in
    let found : find_block (suc (suc fuel)) h'.block_list_head (round_up size) h'.words
        ≡ some (w, h'.words) =
      ap (λ (p : ℕ). find_block (suc (suc fuel)) p (round_up size) h'.words) (head' ∙ head)
      ∙ first
      ∙ ap (λ (p : ℕ). find_block (suc fuel) p (round_up size) h'.words) next
      ∙ second
      ∙ ap (λ (p : ℕ). some (p, h'.words)) word' in
    let behind = find_prev-stops (suc fuel) a b h.words pos (omega arith) (inl last) in
    let there : (a == 0) ≡ false = ground arith in
    let shown : (w == 0) ≡ false = ground arith in
    (
      h',
      kfree-behind (suc fuel) b a 0 h (omega arith) (rw there last) (omega (arith, head))
          (ap (λ (p : ℕ). find_prev (suc (suc fuel)) p b h.words) head ∙ behind),
      kmalloc_found (suc (suc fuel)) page size w h' h'.words asked found ∙ rw shown refl,
    )
