-- ===== src/Memory/Vmm/Scan.antt =====
-- What the search for a page finds, in one block and along the list of blocks of kernel/memory/vmm.c.
use aosis.Base.{
  ℕ, zero, suc, ◌+◌, ◌*◌, ◌/◌, ◌%◌, ◌≤◌, ◌<◌, ◌≡◌, ◌⊎◌, ◌∙◌, inl, inr, refl, ap, arith, none, some,
  List, [], ◌∷◌, ◌++◌, u32,
}
use native.Mathlib.Decide.{ℕ_discrete}
use aosis.Memory.Pmm.Frames.{marked, frame, IsWords, full_word, first_in_word}
use aosis.Memory.Vmm.{
  VmmBlock, get_page_loop, vmm_get_page_from_bitmap, take_from, take_page, is_empty, behind,
}

module _ (bitmap : List ℕ) (ws : IsWords bitmap) where
  get_page_loop-full :
      (left i : ℕ)
      → ((q : ℕ) → i * 32 ≤ q → q < (i + left) * 32 → frame bitmap q ≡ 1)
      → get_page_loop left i bitmap ≡ none
  unfolding get_page_loop
  get_page_loop-full zero i full = refl
  get_page_loop-full (suc left) i full =
      let word = full_word bitmap ws i (λ q a b. full q a (omega arith)) in
      let rest = get_page_loop-full left (i + 1) (λ q a b. full q (omega arith) (omega arith)) in
      ground (arith, word, rest)

  get_page_loop-first :
      (left i p : ℕ)
      → i * 32 ≤ p
      → p < (i + left) * 32
      → frame bitmap p ≡ 0
      → ((q : ℕ) → i * 32 ≤ q → q < p → frame bitmap q ≡ 1)
      → get_page_loop left i bitmap ≡ some (p, marked bitmap p)
  unfolding get_page_loop
  get_page_loop-first zero i p a b e full = absurd (omega arith)
  get_page_loop-first (suc left) i p a b e full = elim (ℕ_discrete (p / 32) i) [
    | yes here ↦
        let hit = first_in_word bitmap p e (λ q c d. full q (omega arith) d) in
        let place : 32 * (p / 32) + p % 32 ≡ p = omega arith in
        rw (← here) (ground (arith, hit, place))
    | no later ↦
        let word = full_word bitmap ws i (λ q c d. full q c (omega arith)) in
        let rest =
          get_page_loop-first left (i + 1) p (omega arith) (omega arith) e
            (λ q c d. full q (omega arith) d) in
        ground (arith, word, rest)
  ]

-- Page `p` is the first free one of a block of 1024.
pub record IsFirst (b : VmmBlock) (p : ℕ) : Type 0 where
  pub words : IsWords b.bitmap
  pub counted : 0 < b.free_pages
  pub below : p < 1024
  pub free : frame b.bitmap p ≡ 0
  pub used : (q : ℕ) → q < p → frame b.bitmap q ≡ 1

pub get_page-first :
    (b : VmmBlock) (p : ℕ)
    → IsFirst b p
    → vmm_get_page_from_bitmap b.bitmap ≡ some (p, marked b.bitmap p)
unfolding vmm_get_page_from_bitmap
get_page-first b p v =
    get_page_loop-first b.bitmap v.words 32 0 p (omega arith) (omega (arith, v.below)) v.free
      (λ q _ h. v.used q h)

-- A block from which no page is taken: its count is 0, or all of its pages are in use.
abbrev pub IsFull : VmmBlock → Type 0
IsFull b = (b.free_pages ≡ 0) ⊎ (IsWords b.bitmap × ((q : ℕ) → q < 1024 → frame b.bitmap q ≡ 1))

abbrev pub AllFull : List VmmBlock → Type 0
AllFull [] = Unit
AllFull (b ∷ bs) = IsFull b × AllFull bs

take_page-skip :
    (b : VmmBlock) (bs : List VmmBlock) → IsFull b → take_page (b ∷ bs) ≡ behind b (take_page bs)
unfolding take_page vmm_get_page_from_bitmap
take_page-skip b bs (inl e) = ground (arith, e)
take_page-skip b bs (inr (ws, full)) =
    ground (arith, get_page_loop-full b.bitmap ws 32 0 (λ q _ h. full q (omega arith)))

-- The block after its first free page was taken.
abbrev pub taken_block : VmmBlock → ℕ → VmmBlock
taken_block b p = take_from b p (marked b.bitmap p)

-- The search passes the full blocks and takes the first free page of the next.
pub take_page-first :
    (pre post : List VmmBlock) (b : VmmBlock) (p : ℕ)
    → AllFull pre
    → IsFirst b p
    → take_page (pre ++ b ∷ post)
      ≡ some (record {
        page = u32 (b.first_page + p * 4096);
        block = taken_block b p;
        is_last = is_empty post;
        blocks = pre ++ taken_block b p ∷ post;
      })
unfolding take_page
take_page-first [] post b p full v = ground (arith, v.counted, get_page-first b p v)
take_page-first (c ∷ pre) post b p full v =
    take_page-skip c (pre ++ b ∷ post) full.0
    ∙ ap (behind c) (take_page-first pre post b p full.1 v)

-- No block has a page to give.
pub take_page-none : (bs : List VmmBlock) → AllFull bs → take_page bs ≡ none
unfolding take_page
take_page-none [] full = refl
take_page-none (b ∷ bs) full = take_page-skip b bs full.0 ∙ ap (behind b) (take_page-none bs full.1)
