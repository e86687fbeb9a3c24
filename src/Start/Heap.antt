-- ===== src/Start/Heap.antt =====
-- The first requests of `kmain` to the heap of kernel/memory/kmalloc.c.
use aosis.Base.{ℕ, ◌+◌, ◌-◌, ◌^◌, ◌≤◌, ◌<◌, ◌≡◌, ◌⊎◌, inl, inr, refl, arith, some, ok}
use aosis.Memory.Kmalloc.{Heap, kmalloc_init, round_up, kmalloc}
use aosis.Memory.Kmalloc.Laws.{kmalloc-piece}
use aosis.Start.Kmain.{Kernel, heap_fuel, kernel_kmalloc}

-- The heap is one block of `size` bytes at `b`, and the words in it are zeros but for the
-- header and the block's `free_memory`.
pub record OneBlock (b size : ℕ) (h : Heap) : Type 0 where
  pub head : h.block_list_head ≡ b
  pub len : h.words b ≡ size
  pub zeros : (k : ℕ) → b + 12 ≤ k → k < b + size → h.words k ≡ 0

pub kmalloc_init-OneBlock :
    (b : ℕ) (h : Heap)
    → ((k : ℕ) → b ≤ k → k < b + 4096 → h.words k ≡ 0)
    → OneBlock b 4096 (kmalloc_init b h)
unfolding kmalloc_init
kmalloc_init-OneBlock b h z = record {
  head = refl;
  len = ground arith;
  zeros = λ k a c. ground (arith, z k);
}

-- A request that finds a block takes no page.
kernel_kmalloc-found :
    (size p : ℕ) (k : Kernel) (h : Heap)
    → kmalloc heap_fuel 0 size k.heap ≡ some (p, h)
    → 0 < p
    → kernel_kmalloc size k ≡ ok (p, record k { heap = h })
unfolding kernel_kmalloc
kernel_kmalloc-found size p k h made real = rw (kernel_kmalloc, made) (ground arith)

-- A request takes `round_up size + 8` bytes off the end.
pub kernel_kmalloc-OneBlock :
    (size b room : ℕ) (k : Kernel)
    → OneBlock b (room + (round_up size + 8)) k.heap
    → 0 < size
    → size < 2 ^ 32 - 8
    → 0 < b
    → 32 ≤ room
    → b + room + (round_up size + 8) < 2 ^ 32
    → (h : Heap) × (kernel_kmalloc size k ≡ ok (b + room + 8, record k { heap = h }))
      × OneBlock b room h
      × ((j : ℕ) → b + room + 12 ≤ j → j < b + room + (round_up size + 8) → h.words j ≡ 0)
kernel_kmalloc-OneBlock size b room k v pos bound base gap top =
    let (m', made, short, _, kept) =
      kmalloc-piece 1023 0 size b (b + room) k.heap v.head pos bound base (omega (arith, v.len))
        (omega (arith, v.len)) (omega (arith, v.len)) in
    let zeros : (j : ℕ)
        → b + 12 ≤ j
        → j < b + (room + (round_up size + 8))
        → (j < b + room) ⊎ (b + room + 12 ≤ j)
        → m' j ≡ 0 =
      λ j low high out. ground (arith, kept j, v.zeros j) in
    (
      record k.heap { words = m' },
      kernel_kmalloc-found size (b + room + 8) k (record k.heap { words = m' }) made (omega arith),
      record {
        head = v.head;
        len = omega (arith, short);
        zeros = λ j low high. zeros j low (omega arith) (inl high);
      },
      λ j low high. zeros j (omega arith) (omega arith) (inr low),
    )
