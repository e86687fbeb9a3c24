-- ===== src/Memory/Pmm/Alloc.antt =====
-- What `pmm_alloc_page` does: it hands out the first free frame of the words that it scans, and
-- marks it; it gives NULL exactly when all of them are in use.
use aosis.Base.{
  ap, ℕ, zero, suc, ◌+◌, ◌*◌, ◌/◌, ◌%◌, ◌≤◌, ◌<◌, ◌≡◌, refl, List, arith, ◌==◌, if◌then◌else◌,
  length, get_or, length-set, u32, ok, ◌∙◌, inl, inr, ◌⊎◌,
}
use native.Mathlib.Decide.{ℕ_discrete}
use aosis.Bits.{set_bit}
use aosis.Bits.Laws.{set_bit-lt}
use aosis.Memory.Pmm.{PhysicalMemory, frame_addr, alloc_loop, pmm_alloc_page}
use aosis.Memory.Pmm.Frames.{
  marked, frame, frame-lt, IsWords, full_word, first_in_word, frame-set_bit, set-IsWords,
}

-- The scanned words lie in the bitmap, whose words are 32-bit numbers.
pub record IsValid (pmm : PhysicalMemory) : Type 0 where
  pub scanned : pmm.page_count / 32 ≤ length pmm.bitmap
  pub words : IsWords pmm.bitmap

-- Marking frame `p` in use.
abbrev pub mark : PhysicalMemory → ℕ → PhysicalMemory
mark pmm p = record pmm { bitmap = marked pmm.bitmap p }

module _ (pmm : PhysicalMemory) (ws : IsWords pmm.bitmap) where
  alloc_loop-full :
      (left i : ℕ)
      → i + left ≤ length pmm.bitmap
      → ((q : ℕ) → i * 32 ≤ q → q < (i + left) * 32 → frame pmm.bitmap q ≡ 1)
      → alloc_loop left i pmm ≡ ok (0, pmm)
  unfolding alloc_loop
  alloc_loop-full zero i h full = refl
  alloc_loop-full (suc left) i h full =
      let word = full_word pmm.bitmap ws i (λ q a b. full q a (omega arith)) in
      let rest =
        alloc_loop-full left (i + 1) (omega arith) (λ q a b. full q (omega arith) (omega arith)) in
      ground (arith, word, rest)

  alloc_loop-first :
      (left i p : ℕ)
      → i + left ≤ length pmm.bitmap
      → i * 32 ≤ p
      → p < (i + left) * 32
      → frame pmm.bitmap p ≡ 0
      → ((q : ℕ) → i * 32 ≤ q → q < p → frame pmm.bitmap q ≡ 1)
      → alloc_loop left i pmm ≡ ok (frame_addr pmm (p / 32) (p % 32), mark pmm p)
  unfolding alloc_loop
  alloc_loop-first zero i p h a b e full = absurd (omega arith)
  alloc_loop-first (suc left) i p h a b e full = elim (ℕ_discrete (p / 32) i) [
    | yes here ↦
        let hit = first_in_word pmm.bitmap p e (λ q c d. full q (omega arith) d) in
        rw (← here) (ground (arith, hit))
    | no later ↦
        let word = full_word pmm.bitmap ws i (λ q c d. full q c (omega arith)) in
        let rest =
          alloc_loop-first left (i + 1) p (omega arith) (omega arith) (omega arith) e
            (λ q c d. full q (omega arith) d) in
        ground (arith, word, rest)
  ]

pub pmm_alloc_page-marks :
    (pmm : PhysicalMemory) (p : ℕ)
    → IsValid pmm
    → p < pmm.page_count / 32 * 32
    → frame pmm.bitmap p ≡ 0
    → ((q : ℕ) → q < p → frame pmm.bitmap q ≡ 1)
    → pmm_alloc_page pmm ≡ ok (frame_addr pmm (p / 32) (p % 32), mark pmm p)
unfolding pmm_alloc_page
pmm_alloc_page-marks pmm p v h e full =
    alloc_loop-first pmm v.words (pmm.page_count / 32) 0 p (omega (arith, v.scanned)) (omega arith)
      (omega arith) e (λ q _ d. full q d)

-- Frame `p` starts `p` pages after the start of the pool.
frame_addr-word :
    (pmm : PhysicalMemory) (p : ℕ)
    → frame_addr pmm (p / 32) (p % 32) ≡ u32 (pmm.starting_addr + 4096 * p)
unfolding frame_addr
frame_addr-word pmm p = ap u32 (omega arith)

-- On a valid allocator, when `p` is the first free frame of the scanned words, `pmm_alloc_page`
-- returns the start of the pool plus 4096 * p, as a 32-bit number. Frame `p` is then in use, every
-- other frame is as before, and so are the other fields of the allocator.
pub pmm_alloc_page-first_free :
    (pmm : PhysicalMemory) (p : ℕ)
    → IsValid pmm
    → p < pmm.page_count / 32 * 32
    → frame pmm.bitmap p ≡ 0
    → ((q : ℕ) → q < p → frame pmm.bitmap q ≡ 1)
    → (bitmap : List ℕ) × (pmm_alloc_page pmm
        ≡ ok (u32 (pmm.starting_addr + 4096 * p), record pmm { bitmap = bitmap }))
      × (length bitmap ≡ length pmm.bitmap)
      × ((q : ℕ) → frame bitmap q ≡ (if p == q then 1 else frame pmm.bitmap q))
pmm_alloc_page-first_free pmm p v h e full = (
  marked pmm.bitmap p,
  pmm_alloc_page-marks pmm p v h e full ∙ ap (λ a. ok (a, mark pmm p)) (frame_addr-word pmm p),
  length-set pmm.bitmap (p / 32) (set_bit (get_or pmm.bitmap (p / 32) 0) (p % 32)),
  λ q. frame-set_bit pmm.bitmap p q (omega (arith, v.scanned)),
)

-- On a valid allocator whose scanned words have no free frame, `pmm_alloc_page` returns NULL and
-- changes nothing.
pmm_alloc_page-exhausted :
    (pmm : PhysicalMemory)
    → IsValid pmm
    → ((q : ℕ) → q < pmm.page_count / 32 * 32 → frame pmm.bitmap q ≡ 1)
    → pmm_alloc_page pmm ≡ ok (0, pmm)
unfolding pmm_alloc_page
pmm_alloc_page-exhausted pmm v full =
    alloc_loop-full pmm v.words (pmm.page_count / 32) 0 (omega (arith, v.scanned))
      (λ q _ d. full q (omega arith))

-- Every frame of a prefix is in use, or there is a first free one.
pub first_free :
    (n : ℕ) (bitmap : List ℕ)
    → ((q : ℕ) → q < n → frame bitmap q ≡ 1)
      ⊎ ((p : ℕ) × (p < n) × (frame bitmap p ≡ 0) × ((q : ℕ) → q < p → frame bitmap q ≡ 1))
first_free zero bitmap = inl (λ q h. elim h [ ])
first_free (suc n) bitmap = elim (first_free n bitmap) [
  | inr (p, h, e, full) ↦ inr (p, omega arith, e, full)
  | inl full ↦ elim (ℕ_discrete (frame bitmap n) 0) [
    | yes e ↦ inr (n, omega arith, e, full)
    | no used ↦
        inl (λ q h. ground (arith, full q, frame-lt bitmap n, ap (frame bitmap) {x = q} {y = n}))
  ]
]

pub mark-IsValid : (pmm : PhysicalMemory) (p : ℕ) → IsValid pmm → IsValid (mark pmm p)
mark-IsValid pmm p v = record {
  scanned = omega (
    arith,
    v.scanned,
    length-set pmm.bitmap (p / 32) (set_bit (get_or pmm.bitmap (p / 32) 0) (p % 32)),
  );
  words =
      set-IsWords pmm.bitmap (p / 32) _ v.words
        (set_bit-lt (get_or pmm.bitmap (p / 32) 0) (p % 32) (v.words (p / 32)) (omega arith));
}

-- `pmm_alloc_page` on a valid allocator never faults or panics, keeps it valid, frees no frame, and
-- marks at most one frame: it returns NULL and changes nothing, or it returns the address of the one
-- frame that it marks, which is the start of the pool plus 4096 for each frame before it, as a
-- 32-bit number, and which was free before.
pub pmm_alloc_page-IsValid :
    (pmm : PhysicalMemory)
    → IsValid pmm
    → (addr : ℕ) × (pmm' : PhysicalMemory) × (pmm_alloc_page pmm ≡ ok (addr, pmm'))
      × IsValid pmm'
      × (((addr ≡ 0) × (pmm' ≡ pmm))
          ⊎ ((p : ℕ) × (addr ≡ u32 (pmm.starting_addr + 4096 * p))
              × (frame pmm.bitmap p ≡ 0)
              × (p < pmm.page_count / 32 * 32)
              × ((q : ℕ) → frame pmm'.bitmap q ≡ (if p == q then 1 else frame pmm.bitmap q))))
pmm_alloc_page-IsValid pmm v = elim (first_free (pmm.page_count / 32 * 32) pmm.bitmap) [
  | inl full ↦ (0, pmm, pmm_alloc_page-exhausted pmm v full, v, inl (refl, refl))
  | inr (p, h, e, full) ↦ (
    frame_addr pmm (p / 32) (p % 32),
    mark pmm p,
    pmm_alloc_page-marks pmm p v h e full,
    mark-IsValid pmm p v,
    inr (
      p,
      frame_addr-word pmm p,
      e,
      h,
      λ q. frame-set_bit pmm.bitmap p q (omega (arith, v.scanned)),
    ),
  )
]
