-- ===== src/Tests/Kmalloc.antt =====
-- The heap of kernel/memory/kmalloc.c as `kmalloc_init` leaves it, with its block at 0x1000.
use aosis.Base.{ℕ, ◌-◌, ◌≡◌, inl, inr, refl, arith, some, List, [], ◌∷◌}
use aosis.Memory.Kmalloc.{Heap, Words, put_block, kmalloc_init, round_up, kmalloc, kfree}
use aosis.Memory.Kmalloc.Laws.{kmalloc-repeats, kfree-kmalloc}
use aosis.Memory.Kmalloc.Chain.{Block, Chain}
use aosis.Memory.Kmalloc.Release.{release}
use aosis.Memory.Kmalloc.Free.{kfree-release}
use aosis.Memory.Kmalloc.FirstFit.{take_fit, Splits}
use aosis.Memory.Kmalloc.Refines.{Outcome, kmalloc-take_fit, kfree-take_fit}
use aosis.Memory.Kmalloc.Reuse.{kmalloc-user_word}

abbrev heap_of : ℕ → Heap
heap_of size = record {
  words = put_block 0x1000 size 0 0x1008 (λ _. 0);
  block_list_head = 0x1000;
  block_list_tail = 0x1000;
}

fresh_heap :
    kmalloc_init 0x1000 (record { words = λ _. 0; block_list_head = 0; block_list_tail = 0 })
    ≡ heap_of 4096
unfolding kmalloc_init
fresh_heap = refl

kmalloc-repeats_example :
    (kmalloc 1 0x9000 20 (heap_of 40) ≡ some (0x1008, heap_of 40))
    × (kmalloc 1 0x9000 30 (heap_of 40) ≡ some (0x1008, heap_of 40))
unfolding round_up
kmalloc-repeats_example =
    kmalloc-repeats 0 0x9000 20 30 32 (heap_of 40) (omega arith) (omega arith) (omega arith)
      (omega arith) refl (omega arith) (omega arith) (omega arith) (omega arith)

kfree-kmalloc_example :
    (p : ℕ) × (h₁ : Heap) × (h₂ : Heap) × (kmalloc 1 0x9000 100 (heap_of 4096) ≡ some (p, h₁))
    × (kfree 1 p h₁ ≡ some h₂)
    × (h₂.block_list_head ≡ 0x1000)
    × (h₂.words 0x1000 ≡ 4096)
    × (h₂.words 0x1004 ≡ 0)
    × (h₂.block_list_tail ≡ p - 8)
unfolding round_up
kfree-kmalloc_example =
    kfree-kmalloc 0 0 0x9000 100 0x1000 (heap_of 4096) refl (omega arith) (omega arith)
      (omega arith) (omega arith) (omega arith) (inl refl)

-- Three blocks, and one in use from 0x2100 on that fills the space between the last two.
abbrev three_words : Words
three_words = put_block 0x2100 0x1F00 0 0x77 (
    put_block 0x1000 0x20 0x2000 0x1008
      (put_block 0x2000 0x100 0x4000 0x2008 (put_block 0x4000 0x80 0 0x4008 (λ _. 0))))

abbrev three : Heap
three = record { words = three_words; block_list_head = 0x1000; block_list_tail = 0x4000 }

abbrev blocks : List Block
blocks = (0x1000, 0x20) ∷ (0x2000, 0x100) ∷ (0x4000, 0x80) ∷ []

three-Chain : Chain three_words 1 0x1000 blocks
three-Chain = (
  refl,
  omega arith,
  refl,
  omega arith,
  omega arith,
  (
    refl,
    omega arith,
    refl,
    omega arith,
    omega arith,
    (refl, omega arith, refl, omega arith, omega arith, refl),
  ),
)

released : release 0x2100 0x1F00 blocks ≡ (0x1000, 0x20) ∷ (0x2000, 0x2080) ∷ []
unfolding release aosis.Memory.Kmalloc.Chain.join
released = refl

kfree-release_example :
    (h' : Heap) × (kfree 3 0x2108 three ≡ some h')
    × Chain h'.words 1 h'.block_list_head (release 0x2100 0x1F00 blocks)
kfree-release_example =
    kfree-release 2 0x2100 0x1F00 three blocks (omega arith) three-Chain
      (inl (omega arith), (inl (omega arith), (inr (omega arith), tt))) (omega arith) (omega arith)
      refl (omega arith)

-- The first block is too small for 50 bytes.
three-Splits : Splits (round_up 50) blocks
unfolding round_up
three-Splits = (inl (omega arith), (inr (omega arith), (inr (omega arith), tt)))

taken :
    take_fit (round_up 50) blocks
    ≡ some (0x20C0, (0x1000, 0x20) ∷ (0x2000, 0xC0) ∷ (0x4000, 0x80) ∷ [])
unfolding round_up take_fit
taken = refl

kmalloc-take_fit_example : Outcome 4 0x9000 50 three (take_fit (round_up 50) blocks)
kmalloc-take_fit_example =
    kmalloc-take_fit 3 0x9000 50 three blocks (omega arith) (inl (omega arith)) (omega arith)
      three-Chain three-Splits

kfree-take_fit_example :
    (h₁ : Heap) × (h₂ : Heap) × (kmalloc 4 0x9000 50 three ≡ some (0x20C8, h₁))
    × (kfree 4 0x20C8 h₁ ≡ some h₂)
    × Chain h₂.words 1 h₂.block_list_head blocks
kfree-take_fit_example =
    kfree-take_fit 3 0x9000 50 0x20C0 three blocks
      ((0x1000, 0x20) ∷ (0x2000, 0xC0) ∷ (0x4000, 0x80) ∷ []) (omega arith) (omega arith)
      three-Chain three-Splits taken

-- The user of the block at 0x2000 wrote 0x61616161.
abbrev written : Heap
written = record {
  words = put_block 0x2000 0x40 0 0x61616161 (put_block 0x1000 0x20 0 0x1008 (λ _. 0));
  block_list_head = 0x1000;
  block_list_tail = 0x1000;
}

kmalloc-user_word_example :
    (h' : Heap) × (kfree 2 0x2008 written ≡ some h')
    × (kmalloc 2 0x9000 50 h' ≡ some (0x61616161, h'))
unfolding round_up
kmalloc-user_word_example =
    kmalloc-user_word 0 0x9000 50 0x1000 0x20 0x2000 0x40 0x61616161 written refl (omega arith) refl
      refl (omega arith) (omega arith) (omega arith) refl refl (omega arith) (omega arith)
      (omega arith) (omega arith) (omega arith)
