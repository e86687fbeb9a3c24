-- ===== src/Memory/Kmalloc/Chain.antt =====
-- The free list of kernel/memory/kmalloc.c as a list of blocks, for any number of them.
use aosis.Base.{
  ℕ, ◌+◌, ◌^◌, ◌≤◌, ◌<◌, ◌≡◌, ◌≢◌, ◌⊎◌, ◌∙◌, ap, Bool-cases, inl, inr, refl, arith, ◌==◌,
  if◌then◌else◌, List, [], ◌∷◌,
}
use aosis.Memory.Kmalloc.{Words, Heap, kmalloc_coalesce, link_block}

-- A block's address and its size, the header counted.
abbrev pub Block : Type 0
Block = ℕ × ℕ

-- From `p` on the list holds these blocks, which start at `lo` or above, follow one another in
-- memory, lie in the 32-bit address space and do not touch.
abbrev pub Chain : Words → ℕ → ℕ → List Block → Type 0
Chain m lo p [] = p ≡ 0
Chain m lo p ((a, n) ∷ bs) =
    (p ≡ a) × (lo ≤ a) × (m a ≡ n) × (8 ≤ n) × (a + n < 2 ^ 32) × Chain m (a + n + 1) (m (a + 4)) bs

-- Only the words from `lo` on matter.
pub Chain-keeps :
    (m m' : Words) (lo p : ℕ) (bs : List Block)
    → ((k : ℕ) → lo ≤ k → m' k ≡ m k)
    → Chain m lo p bs
    → Chain m' lo p bs
Chain-keeps m m' lo p [] same c = c
Chain-keeps m m' lo p ((a, n) ∷ bs) same (at, low, size, gap, top, rest) =
    let next : m' (a + 4) ≡ m (a + 4) = same (a + 4) (omega arith) in
    (
      at,
      low,
      same a low ∙ size,
      gap,
      top,
      rw next (Chain-keeps m m' (a + n + 1) (m (a + 4)) bs (λ k h. same k (omega arith)) rest),
    )

pub Chain-start :
    (m : Words) (lo p : ℕ) (bs : List Block)
    → Chain m lo p bs
    → (p ≡ 0) ⊎ ((lo ≤ p) × (p + m p < 2 ^ 32))
Chain-start m lo p [] c = inl c
Chain-start m lo p ((a, n) ∷ bs) (at, low, size, gap, top, rest) =
    inr (omega (arith, at, low), rw at (omega (arith, size, top)))

pub Chain-raise :
    (m : Words) (lo lo' p : ℕ) (bs : List Block)
    → Chain m lo p bs
    → (p ≡ 0) ⊎ (lo' ≤ p)
    → 0 < lo
    → Chain m lo' p bs
Chain-raise m lo lo' p [] c h pos = c
Chain-raise m lo lo' p ((a, n) ∷ bs) (at, low, size, gap, top, rest) h pos =
    (at, omega (arith, at, low, h, pos), size, gap, top, rest)

-- A block joined to the next one, if they touch.
unfoldable pub join : Block → List Block → List Block
join (b, n) [] = (b, n) ∷ []
join (b, n) ((c, l) ∷ bs) = if c == b + n then (b, n + l) ∷ bs else (b, n) ∷ (c, l) ∷ bs

-- A block put in front of a chain that starts behind it.
pub joined :
    (m m' : Words) (lo b n c : ℕ) (bs : List Block)
    → lo ≤ b
    → 8 ≤ n
    → b + n < 2 ^ 32
    → Chain m (b + n) c bs
    → m' b ≡ (if c == b + n then n + m c else n)
    → m' (b + 4) ≡ (if c == b + n then m (c + 4) else c)
    → ((k : ℕ) → b + n ≤ k → m' k ≡ m k)
    → Chain m' lo b (join (b, n) bs)
unfolding join
joined m m' lo b n c [] low gap top chain size next same =
    (refl, low, ground (arith, size, chain), gap, top, ground (arith, next, chain))
joined m m' lo b n c ((a, l) ∷ bs) low gap top (at, under, size₁, gap₁, top₁, rest) size next same =
    elim (Bool-cases (a == b + n)) [
      | inl touch ↦
          let e : a ≡ b + n = ground (arith, touch) in
          let behind : a + l + 1 ≡ b + (n + l) + 1 = omega (arith, e) in
          let next' : m' (b + 4) ≡ m (a + 4) =
            ground (arith, next, at, ap (λ (k : ℕ). m (k + 4)) at) in
          let kept =
            Chain-keeps m m' (a + l + 1) (m (a + 4)) bs (λ k h. same k (omega arith)) rest in
          rw touch (
            refl,
            low,
            ground (arith, size, at, ap m at, size₁),
            omega arith,
            omega arith,
            rw (← behind, next') kept,
          )
      | inr apart ↦
          let e : a ≢ b + n = ground (arith, apart) in
          let next' : m' (b + 4) ≡ a = ground (arith, next, at) in
          let kept =
            Chain-keeps m m' (b + n) a ((a, l) ∷ bs) same (refl, under, size₁, gap₁, top₁, rest) in
          rw apart (
            refl,
            low,
            ground (arith, size, at),
            gap,
            top,
            rw next' (
                Chain-raise m' (b + n) (b + n + 1) a ((a, l) ∷ bs) kept (inr (omega arith))
                  (omega arith)),
          )
    ]

-- The words after `kfree` has linked a block between two neighbours and joined it to those that
-- it touches.
abbrev pub linked : ℕ → ℕ → ℕ → Heap → Heap
linked prev_block new_block next_block h =
    kmalloc_coalesce prev_block new_block next_block (link_block prev_block new_block next_block h)

-- At the front of the list.
pub linked-front :
    (b n c k : ℕ) (h : Heap)
    → 0 < b
    → 8 ≤ n
    → h.words b ≡ n
    → b + n < 2 ^ 32
    → (c ≡ 0) ⊎ ((b + n ≤ c) × (c + h.words c < 2 ^ 32))
    → let m' = (linked 0 b c h).words in
      ((linked 0 b c h).block_list_head ≡ b)
      × (m' b ≡ (if c == b + n then n + h.words c else n))
      × (m' (b + 4) ≡ (if c == b + n then h.words (c + 4) else c))
      × ((k ≡ b) ⊎ (k ≡ b + 4) ⊎ (m' k ≡ h.words k))
unfolding link_block kmalloc_coalesce
linked-front b n c k h pos gap size top next = ground arith

-- Behind the block at `a`.
pub linked-behind :
    (a s b n c k : ℕ) (h : Heap)
    → 0 < a
    → 8 ≤ s
    → h.words a ≡ s
    → a + s ≤ b
    → 8 ≤ n
    → h.words b ≡ n
    → b + n < 2 ^ 32
    → (c ≡ 0) ⊎ ((b + n ≤ c) × (c + h.words c < 2 ^ 32))
    → let m' = (linked a b c h).words in
      let size' = if c == b + n then n + h.words c else n in
      let next' = if c == b + n then h.words (c + 4) else c in
      ((linked a b c h).block_list_head ≡ h.block_list_head)
      × (m' b ≡ size')
      × (m' (b + 4) ≡ next')
      × (m' a ≡ (if b == a + s then s + size' else s))
      × (m' (a + 4) ≡ (if b == a + s then next' else b))
      × ((k ≡ a) ⊎ (k ≡ a + 4) ⊎ (k ≡ b) ⊎ (k ≡ b + 4) ⊎ (m' k ≡ h.words k))
unfolding link_block kmalloc_coalesce
linked-behind a s b n c k h pos gap size apart gap' size' top next = ground arith
