-- ===== src/Memory/Kmalloc/Release.antt =====
-- What the release of a block by `kfree` of kernel/memory/kmalloc.c should do to a list of
-- blocks, and the words that it writes.
use aosis.Base.{
  ℕ, ◌+◌, ◌^◌, ◌≤◌, ◌<◌, ◌≡◌, ◌⊎◌, refl, arith, true, false, ◌==◌, ltb, if◌then◌else◌, List, [],
  ◌∷◌,
}
use aosis.Memory.Kmalloc.{Words, Heap}
use aosis.Memory.Kmalloc.Chain.{
  Block, Chain, Chain-start, join, joined, linked, linked-front, linked-behind,
}

-- What the list should be after the release of a block: it takes its place by its address, and
-- is joined to its neighbours where they touch.
unfoldable pub release : ℕ → ℕ → List Block → List Block
release b n [] = (b, n) ∷ []
release b n ((a, s) ∷ bs) =
    let rest = join (a, s) (release b n bs) in if ltb b a then join (b, n) ((a, s) ∷ bs) else rest

-- No block overlaps the one that is released.
abbrev pub Apart : ℕ → ℕ → List Block → Type 0
Apart b n [] = Unit {0}
Apart b n ((a, s) ∷ bs) = ((a + s ≤ b) ⊎ (b + n ≤ a)) × Apart b n bs

-- In front of all blocks.
pub release-front :
    (m : Words) (lo c b n : ℕ) (bs : List Block)
    → 0 < lo
    → Chain m lo c bs
    → (c ≡ 0) ⊎ (b < c)
    → release b n bs ≡ join (b, n) bs
unfolding release join
release-front m lo c b n [] pos v h = refl
release-front m lo c b n ((a, s) ∷ bs) pos (at, low, _, _, _, _) h =
    let before : ltb b a ≡ true = ground (arith, at, low, h, pos) in rw before refl

-- A block that does not touch the next stays as it is.
pub join-far :
    (m : Words) (c a s : ℕ) (bs : List Block)
    → Chain m (a + s + 1) c bs
    → join (a, s) bs ≡ (a, s) ∷ bs
unfolding join
join-far m c a s [] v = refl
join-far m c a s ((d, l) ∷ bs) (at, low, _, _, _, _) =
    let far : (d == a + s) ≡ false = ground (arith, low) in rw far refl

pub release-behind :
    (b n a s : ℕ) (bs : List Block)
    → a ≤ b
    → release b n ((a, s) ∷ bs) ≡ join (a, s) (release b n bs)
unfolding release
release-behind b n a s bs h = let after : ltb b a ≡ false = ground arith in rw after refl

pub front-Chain :
    (b n lo p : ℕ) (h : Heap) (bs : List Block)
    → 0 < b
    → lo ≤ b
    → 8 ≤ n
    → h.words b ≡ n
    → b + n < 2 ^ 32
    → Chain h.words (b + n) p bs
    → ((linked 0 b p h).block_list_head ≡ b) × Chain (linked 0 b p h).words lo b (join (b, n) bs)
front-Chain b n lo p h bs pos low gap size top chain =
    let start = Chain-start h.words (b + n) p bs chain in
    let facts = λ (k : ℕ). linked-front b n p k h pos gap size top start in
    let (head, size', next, _) = facts 0 in
    (
      head,
      joined h.words (linked 0 b p h).words lo b n p bs low gap top chain size' next
          (λ k g. ground (arith, (facts k).3)),
    )

-- Behind the block at `a`, the words below which stay.
pub behind-Chain :
    (a s b n lo : ℕ) (h : Heap) (bs : List Block)
    → 0 < a
    → lo ≤ a
    → 8 ≤ s
    → h.words a ≡ s
    → a + s ≤ b
    → 8 ≤ n
    → h.words b ≡ n
    → b + n < 2 ^ 32
    → Chain h.words (b + n) (h.words (a + 4)) bs
    → let h' = linked a b (h.words (a + 4)) h in
      (h'.block_list_head ≡ h.block_list_head)
      × Chain h'.words lo a (join (a, s) (join (b, n) bs))
      × ((k : ℕ) → k < a → h'.words k ≡ h.words k)
behind-Chain a s b n lo h bs pos low gap size apart gap' size' top chain =
    let c = h.words (a + 4) in
    let m' = (linked a b c h).words in
    let start = Chain-start h.words (b + n) c bs chain in
    let facts = λ (k : ℕ). linked-behind a s b n c k h pos gap size apart gap' size' top start in
    let (head, size_b, next_b, size_a, next_a, _) = facts 0 in
    let second =
      joined h.words m' (a + s) b n c bs apart gap' top chain size_b next_b
        (λ k g. ground (arith, (facts k).5)) in
    (
      head,
      joined m' m' lo a s b (join (b, n) bs) low gap (omega arith) second
          (ground (arith, size_a, size_b)) (ground (arith, next_a, next_b)) (λ k g. refl),
      λ k g. ground (arith, (facts k).5),
    )
