-- ===== src/Start/Memory.antt =====
-- The part of `kmain` of kernel/kernel.c on the memory: what its steps leave.
use aosis.Base.{
  ℕ, zero, suc, ◌+◌, ◌*◌, ◌/◌, ◌%◌, ◌^◌, ◌≤◌, ◌<◌, ◌≡◌, ◌∙◌, refl, ap, arith, length, get_or, set,
  ok, bind_ok,
}
use aosis.Memory.Pmm.Alloc
use aosis.Memory.Paging.{Paging}
use aosis.Memory.Paging.Keeps.{paging_init-keeps}
use aosis.Memory.Kmalloc.{Words, Heap, round_up}
use aosis.Memory.Vmm.{Vmm}
use aosis.Memory.Userspace.Ready.{page_at, Ready}
use aosis.Memory.Userspace.Boot.{vmm_init-Ready}
use aosis.Terminal.Tty.Bounds.{IsValid}
use aosis.Interrupt.Idt.{codes}
use aosis.Start.Kmain.{
  Links, Loaded, Kernel, with_interrupts, words_at, descriptor_at, init_frames, init_paging,
  init_heap, init_vmm, kmain_memory,
}
use aosis.Start.Text.{is_plain, said, said-IsValid, say-plain}
use aosis.Start.Heap.{OneBlock, kmalloc_init-OneBlock, kernel_kmalloc-OneBlock}
use aosis.Start.Frames.{IsLoaded, OneUsed, first_frame, init_frames_lem, two_frames}

words_at-length : (n p : ℕ) (m : Words) → length (words_at n p m) ≡ n
unfolding words_at
words_at-length zero p m = refl
words_at-length (suc n) p m = ground (arith, words_at-length n (p + 4) m)

words_at-zero :
    (n p i : ℕ) (m : Words)
    → ((j : ℕ) → p + 4 * i ≤ j → j < p + 4 * n → m j ≡ 0)
    → get_or (words_at n p m) i 0 ≡ 0
unfolding words_at
words_at-zero zero p i m z = refl
words_at-zero (suc n) p zero m z = z p (omega arith) (omega arith)
words_at-zero (suc n) p (suc i) m z =
    words_at-zero n (p + 4) i m (λ j a b. z j (omega arith) (omega arith))

-- The page behind the table that `paging_init` makes is the first that `vmm_init` leaves free.
pub init_vmm_lem :
    (b page n : ℕ) (k : Kernel)
    → OneBlock b 4096 k.heap
    → 0 < b
    → b + 4096 < 2 ^ 32
    → page + 1 + n < 1022
    → Alloc.IsValid k.vmm.paging.pmm
    → k.vmm.paging.kernel_page_directory < page_at (page + 1)
    → (s : Vmm) × (h : Heap) × (init_vmm (page_at page) k ≡ ok (record k { heap = h; vmm = s }))
      × OneBlock b 3936 h
      × (s.paging ≡ k.vmm.paging)
      × Ready (page_at page) (page + 1) n s
unfolding init_vmm round_up descriptor_at
init_vmm_lem b page n k v pos top room pmm root =
    let (h, made, v', zeros) =
      kernel_kmalloc-OneBlock 148 b 3936 k v (omega arith) (omega arith) pos (omega arith)
        (omega arith) in
    let p = b + 3936 + 8 in
    let initial = descriptor_at p h.words in
    let behind = λ (i : ℕ) (low : (page + 1) / 32 < i).
      words_at-zero 32 p i h.words (λ j a c. zeros j (omega arith) (omega arith)) in
    let (s, inited, same, ready) =
      vmm_init-Ready initial page n k.vmm (words_at-length 32 p h.words) behind room pmm root in
    (s, h, rw (made, inited) refl, v', same, ready)

-- The statics before the boot.
pub record IsFresh (l : Links) (k : Kernel) : Type 0 where
  pub frames : length k.vmm.paging.pmm.bitmap ≡ 8192
  pub all_free : (i : ℕ) → get_or k.vmm.paging.pmm.bitmap i 0 ≡ 0
  pub heap_at : 0 < l.kmalloc_init_block
  pub heap_top : l.kmalloc_init_block + 4096 < 2 ^ 32
  pub heap_zeros :
      (i : ℕ) → l.kmalloc_init_block ≤ i → i < l.kmalloc_init_block + 4096 → k.heap.words i ≡ 0

-- The number of the kernel's page that holds the table.
abbrev pub table_page : ℕ → ℕ → ℕ
table_page m start = start / 4096 + first_frame m + 1

pub record MemoryDone (l : Links) (m start n : ℕ) (k k' : Kernel) : Type 0 where
  pub ready : Ready (page_at (table_page m start)) (table_page m start + 1) n k'.vmm
  pub heap : OneBlock l.kmalloc_init_block 3936 k'.heap
  pub handlers :
      k'.pic.interrupts.idt_handlers ≡ set k.pic.interrupts.idt_handlers 14 l.page_fault_handler
  pub tty : IsValid k.pic.interrupts.tty → IsValid k'.pic.interrupts.tty
  pub loaded : k'.vmm.paging.cr3 ≡ start + 4096 * first_frame m

module _ (l : Links) (m start : ℕ) where
  init_paging_lem :
      (k : Kernel)
      → OneUsed (4096 * m) start k.vmm.paging.pmm
      → start < 2 ^ 29
      → start % 4096 ≡ 0
      → let i = k.pic.interrupts in
        (p : Paging) × (init_paging l k
          ≡ ok (
            page_at (table_page m start),
            with_interrupts
                (record i { idt_handlers = p.idt_handlers })
                (record k { vmm = record k.vmm { paging = p } }),
          ))
        × (p.idt_handlers ≡ set i.idt_handlers 14 l.page_fault_handler)
        × (p.cr3 ≡ start + 4096 * first_frame m)
        × (p.kernel_page_directory < page_at (table_page m start + 1))
        × Alloc.IsValid p.pmm
  unfolding init_paging
  init_paging_lem k v h al =
      let (pmm₁, pmm₂, a₁, a₂, valid) = two_frames m start k.vmm.paging.pmm v (omega arith) in
      let q = first_frame m in
      let small : q ≤ 1 = ground arith in
      let (p, made, loaded, root, handlers, pmm) =
        paging_init-keeps l.page_fault_handler l.kernel_start_addr_virt (start + 4096 * q)
          (start + 4096 * (q + 1)) pmm₁ pmm₂
          (record k.vmm.paging { idt_handlers = k.pic.interrupts.idt_handlers }) a₁ a₂
          (omega (arith, small)) (omega (arith, small)) (omega arith) in
      let at : start + 4096 * (q + 1) + 0xC0000000 ≡ page_at (table_page m start) =
        omega (arith, al) in
      (p, rw (made, at) refl, handlers, loaded, omega (arith, root, al), rw pmm valid)

-- Let the kernel be as the linker leaves it, with the heap's first block within the address
-- space, let the boot loader's memory map and module be usable, and let `n` be at most 200. The
-- part of `kmain` on the memory returns: the first frames are the kernel's directory, which is
-- loaded, and its table; the page fault handler is installed; the heap has handed out the first
-- descriptor; and the next `n` pages behind the table are ready.
pub kmain_memory_lem :
    (l : Links) (b : Loaded) (j top m start n : ℕ) (k : Kernel)
    → IsLoaded l b j top m start
    → IsFresh l k
    → n ≤ 200
    → (k' : Kernel) × (kmain_memory l b k ≡ ok k') × MemoryDone l m start n k k'
unfolding kmain_memory init_frames init_heap is_plain
kmain_memory_lem l b j top m start n k v fresh few =
    let k₁ = said (codes "[-] Initializing Physical Memory Management...\n") k in
    let (pmm', task, framed, one) =
      init_frames_lem l b j top m start k.vmm.paging.pmm k.user_task v fresh.frames
        fresh.all_free in
    let k₂ = record k₁ {
      vmm = record k.vmm { paging = record k.vmm.paging { pmm = pmm' } };
      user_task = task;
    } in
    let k₃ = said (codes "[-] Initializing Paging and Virtual Memory...\n") k₂ in
    let (p, paged, handlers, loaded, root, pmm) =
      init_paging_lem l m start k₃ one (omega (arith, v.pool_start, v.kernel_end))
        (omega (arith, v.pool_start)) in
    let k₄ =
      with_interrupts (record k₃.pic.interrupts { idt_handlers = p.idt_handlers })
        (record k₃ { vmm = record k.vmm { paging = p } }) in
    let k₅ = said (codes "[-] Initializing Heap...\n") k₄ in
    let k₆ = said (codes "[-] Initializing Virtual Memory Manager...\n") (init_heap l k₅) in
    let heap = kmalloc_init-OneBlock l.kmalloc_init_block k.heap fresh.heap_zeros in
    let small : first_frame m ≤ 1 = ground arith in
    let (s, h, made, heap', same, ready) =
      init_vmm_lem l.kmalloc_init_block (table_page m start) n k₆ heap fresh.heap_at fresh.heap_top
        (omega (arith, small, v.pool_start, v.kernel_end)) pmm root in
    (
      record k₆ { heap = h; vmm = s },
      bind_ok _ (say-plain _ k refl) (
          bind_ok _ (bind_ok _ framed refl) (
            bind_ok _ (say-plain _ k₂ refl) (
              bind_ok _ paged (
                bind_ok _ (say-plain _ k₄ refl)
                  (bind_ok _ (say-plain _ (init_heap l k₅) refl) made))))),
      record {
        ready = ready;
        heap = heap';
        handlers = handlers;
        tty = λ valid.
            said-IsValid _ _ (init_heap l k₅) refl
              (said-IsValid _ _ k₄ refl (said-IsValid _ _ k₂ refl (said-IsValid _ _ k refl valid)));
        loaded = ap (λ (q : Paging). q.cr3) same ∙ loaded;
      },
    )
