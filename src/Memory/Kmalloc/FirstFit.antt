-- ===== src/Memory/Kmalloc/FirstFit.antt =====
-- `kmalloc` of kernel/memory/kmalloc.c on a list of any number of blocks.
use aosis.Base.{
  ℕ, zero, suc, ◌+◌, ◌-◌, ◌^◌, ◌≤◌, ◌<◌, ◌≡◌, ◌⊎◌, ◌∙◌, ap, inl, inr, refl, arith, true, false,
  ◌==◌, leb, if◌then◌else◌, List, [], ◌∷◌, length, Option, none, some,
}
use aosis.Memory.Kmalloc.{Words, kmalloc_split_block, find_block}
use aosis.Memory.Kmalloc.Laws.{split_words}
use aosis.Memory.Kmalloc.Chain.{Block, Chain, Chain-keeps, Chain-start, Chain-raise, join}
use aosis.Memory.Kmalloc.Release.{release, Apart, join-far, release-front, release-behind}

abbrev after : Block → Option (ℕ × List Block) → Option (ℕ × List Block)
after b none = none
after b (some (q, bs)) = some (q, b ∷ bs)

-- What an allocation of `a` bytes should do to the list: the first block with room for them and
-- a header gives its end. The address is that of the new header.
unfoldable pub take_fit : ℕ → List Block → Option (ℕ × List Block)
take_fit a [] = none
take_fit a ((c, n) ∷ bs) =
    let rest = after (c, n) (take_fit a bs) in
    if leb (a + 8) n then some (c + (n - (a + 8)), (c, n - (a + 8)) ∷ bs) else rest

-- Each block is too small or is large enough to be split.
abbrev pub Splits : ℕ → List Block → Type 0
Splits a [] = Unit {0}
Splits a ((c, n) ∷ bs) = ((n < a + 8) ⊎ (a + 40 ≤ n)) × Splits a bs

find_block-end : (fuel a : ℕ) (m : Words) → find_block (suc fuel) 0 a m ≡ some (0, m)
unfolding find_block
find_block-end fuel a m = refl

pub find_block-small :
    (fuel c n a : ℕ) (m : Words)
    → 0 < c
    → m c ≡ n
    → 8 ≤ n
    → n < 2 ^ 32
    → n < a + 8
    → find_block (suc fuel) c a m ≡ find_block fuel (m (c + 4)) a m
unfolding find_block
find_block-small fuel c n a m pos size gap top small = ground arith

find_block-fits :
    (fuel c n a : ℕ) (m : Words)
    → 0 < c
    → m c ≡ n
    → n < 2 ^ 32
    → a + 40 ≤ n
    → find_block (suc fuel) c a m ≡ some (kmalloc_split_block c a m)
unfolding find_block
find_block-fits fuel c n a m pos size top fits = ground arith

-- What the loop finds from the block at `c` on, by what the list should become.
pub record Found (a c lo fuel : ℕ) (m : Words) (bs : List Block) (q : ℕ) (bs' : List Block)
    : Type 0 where
  pub words : Words
  pub start : lo ≤ c
  pub found : find_block (suc fuel) c a m ≡ some (q + 8, words)
  pub chain : Chain words lo c bs'
  pub header : words q ≡ a + 8
  pub below : (k : ℕ) → k < c → words k ≡ m k
  pub first : c < q
  pub top : q + (a + 8) < 2 ^ 32
  pub apart : Apart q (a + 8) bs'
  pub back : release q (a + 8) bs' ≡ bs
  pub count : length bs' ≡ length bs

abbrev pub ResultOf : ℕ → ℕ → ℕ → ℕ → Words → List Block → Option (ℕ × List Block) → Type 0
ResultOf a c lo fuel m bs none = find_block (suc fuel) c a m ≡ some (0, m)
ResultOf a c lo fuel m bs (some (q, bs')) = Found a c lo fuel m bs q bs'

join-touch :
    (c k q l : ℕ) (bs : List Block) → q ≡ c + k → join (c, k) ((q, l) ∷ bs) ≡ (c, k + l) ∷ bs
unfolding join
join-touch c k q l bs e = let touch : (q == c + k) ≡ true = ground (arith, e) in rw touch refl

above-Apart :
    (m : Words) (lo p b n : ℕ) (bs : List Block) → b + n ≤ lo → Chain m lo p bs → Apart b n bs
above-Apart m lo p b n [] h v = tt
above-Apart m lo p b n ((a, s) ∷ bs) h (at, low, size, gap, top, rest) = (
  inr (omega (arith, low)),
  above-Apart m (a + s + 1) (m (a + 4)) b n bs (omega (arith, low)) rest,
)

module _ (a : ℕ) (m : Words) where
  -- The block at `c` is split.
  Found-here :
      (c n lo fuel : ℕ) (bs : List Block)
      → 0 < lo
      → Chain m lo c ((c, n) ∷ bs)
      → a + 40 ≤ n
      → Found a c lo fuel m ((c, n) ∷ bs) (c + (n - (a + 8))) ((c, n - (a + 8)) ∷ bs)
  Found-here c n lo fuel bs pos (_, low, size, gap, top, rest) fits =
      let k = n - (a + 8) in
      let q = c + k in
      let ends : q + (a + 8) ≡ c + n = omega arith in
      let parts = λ (i : ℕ). split_words c a n q i m size (omega arith) top ends (omega arith) in
      let m' = (kmalloc_split_block c a m).1 in
      let next : m' (c + 4) ≡ m (c + 4) = ground (arith, (parts (c + 4)).3) in
      let kept =
        Chain-keeps m m' (c + n + 1) (m (c + 4)) bs (λ i h. ground (arith, (parts i).3)) rest in
      let start = Chain-start m (c + n + 1) (m (c + 4)) bs rest in
      let tail =
        Chain-raise m' (c + n + 1) (c + k + 1) (m (c + 4)) bs kept (ground (arith, start))
          (omega arith) in
      let alone =
        release-front m (c + n + 1) (m (c + 4)) q (a + 8) bs (omega arith) rest
          (ground (arith, start))
        ∙ join-far m (m (c + 4)) q (a + 8) bs (rw (← ends) at rest) in
      let whole : k + (a + 8) ≡ n = omega arith in
      record {
        words = m';
        start = low;
        found =
            find_block-fits fuel c n a m (omega arith) size (omega arith) fits
            ∙ ap (λ (p : ℕ). some (p, m')) (parts 0).0;
        chain = (refl, low, omega (arith, (parts 0).1), omega arith, omega arith, rw next tail);
        header = (parts 0).2;
        below = λ i h. ground (arith, (parts i).3);
        first = omega arith;
        top = omega arith;
        apart = (
          inl (omega arith),
          above-Apart m (c + n + 1) (m (c + 4)) q (a + 8) bs (omega arith) rest,
        );
        back =
            release-behind q (a + 8) c k bs (omega arith)
            ∙ ap (join (c, k)) alone
            ∙ join-touch c k q (a + 8) bs refl
            ∙ ap (λ (l : ℕ). (c, l) ∷ bs) whole;
        count = refl;
      }

  Found-later :
      (c n lo fuel q : ℕ) (bs bs' : List Block)
      → 0 < lo
      → Chain m lo c ((c, n) ∷ bs)
      → n < a + 8
      → Found a (m (c + 4)) (c + n + 1) fuel m bs q bs'
      → Found a c lo (suc fuel) m ((c, n) ∷ bs) q ((c, n) ∷ bs')
  Found-later c n lo fuel q bs bs' pos (_, low, size, gap, top, rest) small r = record {
    words = r.words;
    start = low;
    found =
        find_block-small (suc fuel) c n a m (omega arith) size gap (omega arith) small ∙ r.found;
    chain = (
      refl,
      low,
      r.below c (omega (arith, r.start)) ∙ size,
      gap,
      top,
      rw (r.below (c + 4) (omega (arith, r.start))) r.chain,
    );
    header = r.header;
    below = λ i h. r.below i (omega (arith, r.start));
    first = omega (arith, r.start, r.first);
    top = r.top;
    apart = (inl (omega (arith, r.start, r.first)), r.apart);
    back =
        release-behind q (a + 8) c n bs' (omega (arith, r.start, r.first))
        ∙ ap (join (c, n)) r.back
        ∙ join-far m (m (c + 4)) c n bs rest;
    count = ap suc r.count;
  }

  -- One block more in front.
  later-Result :
      (c n lo fuel : ℕ) (bs : List Block) (r : Option (ℕ × List Block))
      → 0 < lo
      → Chain m lo c ((c, n) ∷ bs)
      → n < a + 8
      → ResultOf a (m (c + 4)) (c + n + 1) fuel m bs r
      → ResultOf a c lo (suc fuel) m ((c, n) ∷ bs) (after (c, n) r)
  later-Result c n lo fuel bs none pos (_, low, size, gap, top, rest) small r =
      find_block-small (suc fuel) c n a m (omega arith) size gap (omega arith) small ∙ r
  later-Result c n lo fuel bs (some (q, bs')) pos v small r =
      Found-later c n lo fuel q bs bs' pos v small r

  -- The loop does what `take_fit` does.
  pub find_block-take_fit :
      (c lo fuel : ℕ) (bs : List Block)
      → length bs ≤ fuel
      → 0 < lo
      → Chain m lo c bs
      → Splits a bs
      → ResultOf a c lo fuel m bs (take_fit a bs)
  unfolding take_fit
  find_block-take_fit c lo fuel [] few pos v h = rw v (find_block-end fuel a m)
  find_block-take_fit c lo zero ((d, n) ∷ bs) few pos v h = absurd (omega (arith, few))
  find_block-take_fit c lo (suc fuel) ((d, n) ∷ bs) few pos (at, low, size, gap, top, rest) h =
      elim h.0 [
        | inl small ↦
            let no_room : leb (a + 8) n ≡ false = ground arith in
            let r =
              find_block-take_fit (m (d + 4)) (d + n + 1) fuel bs (omega (arith, few)) (omega arith)
                rest h.1 in
            rw (at, no_room)
              (later-Result d n lo fuel bs (take_fit a bs) pos (refl, low, size, gap, top, rest)
                small r)
        | inr fits ↦
            let room : leb (a + 8) n ≡ true = ground arith in
            rw (at, room)
              (Found-here d n lo (suc fuel) bs pos (refl, low, size, gap, top, rest) fits)
      ]
