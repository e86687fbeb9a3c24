-- ===== src/Memory/Kmalloc/Free.antt =====
-- `kfree` of kernel/memory/kmalloc.c on a list of any number of blocks.
use aosis.Base.{
  ℕ, zero, suc, ◌+◌, ◌^◌, ◌≤◌, ◌<◌, ◌≡◌, ◌⊎◌, ◌∙◌, ap, inl, inr, refl, arith, false, ◌==◌, ltb,
  if◌then◌else◌, List, [], ◌∷◌, length, some, sub32,
}
use aosis.Memory.Kmalloc.{Words, Heap, find_prev, kfree}
use aosis.Memory.Kmalloc.Release.{
  release, Apart, join-far, release-front, release-behind, front-Chain, behind-Chain,
}
use aosis.Memory.Kmalloc.Chain.{Block, Chain, Chain-raise, linked}

-- The loop stops at the last block before `b`.
pub find_prev-stops :
    (fuel a b : ℕ) (m : Words)
    → 0 < a
    → a < b
    → (m (a + 4) ≡ 0) ⊎ (b < m (a + 4))
    → find_prev (suc fuel) a b m ≡ some a
unfolding find_prev
find_prev-stops fuel a b m pos lt h = ground arith

find_prev-goes :
    (fuel a c b : ℕ) (m : Words)
    → 0 < a
    → m (a + 4) ≡ c
    → 0 < c
    → c ≤ b
    → find_prev (suc fuel) a b m ≡ find_prev fuel c b m
unfolding find_prev
find_prev-goes fuel a c b m pos e real le = rw e (ground arith)

-- What `kfree` does from the block at `a` on, which lies before `b`.
record Released (a s b n lo fuel : ℕ) (h : Heap) (bs : List Block) : Type 0 where
  prev : ℕ
  found : find_prev (suc fuel) a b h.words ≡ some prev
  real : 0 < prev
  head : (linked prev b (h.words (prev + 4)) h).block_list_head ≡ h.block_list_head
  chain : Chain (linked prev b (h.words (prev + 4)) h).words lo a (release b n ((a, s) ∷ bs))
  below : (k : ℕ) → k < a → (linked prev b (h.words (prev + 4)) h).words k ≡ h.words k

module _ (b n : ℕ) (h : Heap) (gap : 8 ≤ n) (size : h.words b ≡ n) (top : b + n < 2 ^ 32) where
  -- The block goes right behind the one at `a`.
  Released-here :
      (a s lo fuel : ℕ) (bs : List Block)
      → 0 < lo
      → Chain h.words lo a ((a, s) ∷ bs)
      → a + s ≤ b
      → (h.words (a + 4) ≡ 0) ⊎ (b + n ≤ h.words (a + 4))
      → Released a s b n lo fuel h bs
  unfolding release
  Released-here a s lo fuel bs pos (_, low, size_a, gap_a, top_a, rest) apart next =
      let c = h.words (a + 4) in
      let front =
        release-front h.words (a + s + 1) c b n bs (omega arith) rest (ground (arith, next)) in
      let tail = Chain-raise h.words (a + s + 1) (b + n) c bs rest next (omega arith) in
      let (head, chain, below) =
        behind-Chain a s b n lo h bs (omega arith) low gap_a size_a apart gap size top tail in
      let after : ltb b a ≡ false = ground arith in
      record {
        prev = a;
        found = find_prev-stops fuel a b h.words (omega arith) (omega arith) (ground (arith, next));
        real = omega arith;
        head = head;
        chain = rw (after, front) chain;
        below = below;
      }

  -- The blocks behind the one at `a` change, and it stays.
  Released-later :
      (a s c l lo fuel : ℕ) (bs : List Block)
      → 0 < lo
      → Chain h.words lo a ((a, s) ∷ (c, l) ∷ bs)
      → c + l ≤ b
      → Released c l b n (a + s + 1) fuel h bs
      → Released a s b n lo (suc fuel) h ((c, l) ∷ bs)
  Released-later a s c l lo fuel bs pos (_, low, size_a, gap_a, top_a, (at, under, _, _, _, _))
        apart r =
      let m' = (linked r.prev b (h.words (r.prev + 4)) h).words in
      let next : m' (a + 4) ≡ c = r.below (a + 4) (omega (arith, under)) ∙ at in
      let same =
        release-behind b n a s ((c, l) ∷ bs) (omega (arith, under)) ∙ join-far m' c a s _ r.chain in
      let chain : Chain m' lo a ((a, s) ∷ release b n ((c, l) ∷ bs)) =
        (refl, low, r.below a (omega (arith, under)) ∙ size_a, gap_a, top_a, rw next r.chain) in
      record {
        prev = r.prev;
        found =
            find_prev-goes (suc fuel) a c b h.words (omega arith) at (omega (arith, under))
              (omega arith)
            ∙ r.found;
        real = r.real;
        head = r.head;
        chain = rw same chain;
        below = λ k g. r.below k (omega (arith, under));
      }

  -- The loop finds the place, with as much fuel as there are blocks behind.
  release-Released :
      (a s lo fuel : ℕ) (bs : List Block)
      → length bs ≤ fuel
      → 0 < lo
      → Chain h.words lo a ((a, s) ∷ bs)
      → Apart b n ((a, s) ∷ bs)
      → a + s ≤ b
      → Released a s b n lo fuel h bs
  release-Released a s lo fuel [] few pos v apart behind =
      Released-here a s lo fuel [] pos v behind (inl v.5)
  release-Released a s lo zero ((c, l) ∷ bs) few pos v apart behind = absurd (omega (arith, few))
  release-Released a s lo (suc fuel) ((c, l) ∷ bs) few pos v apart behind =
      let (at, under, size_c, gap_c, top_c, rest) = v.5 in
      elim apart.1.0 [
        | inl before ↦ Released-later a s c l lo fuel bs pos v before (
            release-Released c l (a + s + 1) fuel bs (omega (arith, few)) (omega arith)
              (refl, under, size_c, gap_c, top_c, rest) apart.1 before)
        | inr after ↦
            Released-here a s lo (suc fuel) ((c, l) ∷ bs) pos v behind
              (inr (omega (arith, at, after)))
      ]

-- The function, by the place of the block.
kfree-before :
    (fuel b : ℕ) (h : Heap)
    → b + 8 < 2 ^ 32
    → b < h.block_list_head
    → kfree fuel (b + 8) h ≡ some (linked 0 b h.block_list_head h)
unfolding kfree
kfree-before fuel b h top lt =
    let freed : sub32 (b + 8) 8 ≡ b = omega arith in rw freed (ground arith)

pub kfree-behind :
    (fuel b prev next : ℕ) (h : Heap)
    → b + 8 < 2 ^ 32
    → (if prev == 0 then 0 else h.words (prev + 4)) ≡ next
    → h.block_list_head ≤ b
    → find_prev (suc fuel) h.block_list_head b h.words ≡ some prev
    → kfree (suc fuel) (b + 8) h ≡ some (linked prev b next h)
unfolding kfree
kfree-behind fuel b prev next h top e le found =
    let freed : sub32 (b + 8) 8 ≡ b = omega arith in
    let after : ltb b h.block_list_head ≡ false = ground arith in
    let real : (b + 8 == 0) ≡ false = ground arith in
    rw (kfree, freed, real, after, found, e, freed) refl

find_prev-none : (fuel p b : ℕ) (m : Words) → p ≡ 0 → find_prev (suc fuel) p b m ≡ some 0
unfolding find_prev
find_prev-none fuel p b m e = ground (arith, e)

-- Let the free list hold any number of blocks in the order of their addresses, with gaps
-- between them, in the 32-bit address space, and let a block that was handed out, with its
-- header, overlap none of them. With more rounds than there are blocks `kfree` puts it in its
-- place, joined to the blocks that it touches on either side, as `release` does with a list.
pub kfree-release :
    (fuel b n : ℕ) (h : Heap) (blocks : List Block)
    → length blocks ≤ suc fuel
    → Chain h.words 1 h.block_list_head blocks
    → Apart b n blocks
    → 0 < b
    → 8 ≤ n
    → h.words b ≡ n
    → b + n < 2 ^ 32
    → (h' : Heap) × (kfree (suc fuel) (b + 8) h ≡ some h')
      × Chain h'.words 1 h'.block_list_head (release b n blocks)
kfree-release fuel b n h [] few v apart pos gap size top =
    let found = find_prev-none fuel 0 b h.words refl in
    let (head, chain) = front-Chain b n 1 0 h [] pos pos gap size top refl in
    (
      linked 0 b 0 h,
      kfree-behind fuel b 0 0 h (omega arith) refl (omega (arith, v))
          (ap (λ (p : ℕ). find_prev (suc fuel) p b h.words) v ∙ found),
      rw head (rw (← release-front h.words 1 0 b n [] (omega arith) refl (inl refl)) at chain),
    )
kfree-release fuel b n h ((a, s) ∷ bs) few (at, low, size_a, gap_a, top_a, rest) apart pos gap size
      top =
    elim apart.0 [
      | inl before ↦
          let r =
            release-Released b n h gap size top a s 1 fuel bs (omega (arith, few)) (omega arith)
              (refl, low, size_a, gap_a, top_a, rest) apart before in
          let real : (r.prev == 0) ≡ false = ground (arith, r.real) in
          (
            linked r.prev b (h.words (r.prev + 4)) h,
            kfree-behind fuel b r.prev _ h (omega arith) (rw real refl) (omega (arith, at, gap_a))
                (ap (λ (p : ℕ). find_prev (suc fuel) p b h.words) at ∙ r.found),
            rw (r.head ∙ at) r.chain,
          )
      | inr after ↦
          let v : Chain h.words (b + n) a ((a, s) ∷ bs) =
            (refl, after, size_a, gap_a, top_a, rest) in
          let (head, chain) = front-Chain b n 1 a h ((a, s) ∷ bs) pos pos gap size top v in
          (
            linked 0 b a h,
            kfree-before (suc fuel) b h (omega arith) (omega (arith, at, after, gap))
                ∙ ap (λ (p : ℕ). some (linked 0 b p h)) at,
            rw head (
                rw
                  (← release-front h.words (b + n) a b n ((a, s) ∷ bs) (omega arith) v
                    (inr (omega (arith, after, gap))))
                  at chain),
          )
    ]
