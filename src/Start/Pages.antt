-- ===== src/Start/Pages.antt =====
-- The pages that `kmain` of kernel/kernel.c takes while no new block is due, and what its steps
-- on the tasks leave.
use aosis.Base.{
  ℕ, suc, ◌+◌, ◌-◌, ◌^◌, ◌≤◌, ◌<◌, ◌≡◌, refl, arith, true, ◌==◌, some, length, Result, ok, bind_ok,
}
use aosis.Memory.Kmalloc.{Heap, round_up, kmalloc}
use aosis.Memory.Kmalloc.Laws.{kmalloc-piece}
use aosis.Memory.Paging.{kernel_virt_base}
use aosis.Memory.Vmm.{Vmm, vmm_alloc_page}
use aosis.Memory.Userspace.Ready.{page_at, Ready, vmm_alloc_page-Ready}
use aosis.Memory.Userspace.Temp.{paging_add_temp_userspace_lem}
use aosis.Task.Switch.{task_init, task_create_kernel, task_create_user}
use aosis.Start.Kmain.{
  Links, Kernel, with_tasks, heap_fuel, sizeof_vmm_block_desc, with_pages, kernel_alloc_page,
  kernel_kmalloc, init_boot_task, init_kernel_task, init_user_task, init_userspace,
}
use aosis.Start.Heap.{OneBlock, kernel_kmalloc-OneBlock}

-- The descriptor that `kmalloc` would give is not taken.
with_pages-steady {ℓ} :
    {A : Type ℓ} (f : ℕ → Vmm → Result (A × Vmm)) (p : ℕ) (h : Heap) (k : Kernel) (a : A) (s : Vmm)
    → kmalloc heap_fuel 0 sizeof_vmm_block_desc k.heap ≡ some (p, h)
    → f p k.vmm ≡ ok (a, s)
    → length s.blocks ≡ length k.vmm.blocks
    → with_pages f k ≡ ok (a, record k { vmm = s })
unfolding with_pages
with_pages-steady f p h k a s found made e =
    let same : (length s.blocks == length k.vmm.blocks) ≡ true = ground (arith, e) in
    rw (with_pages, found, made, same) refl

-- The heap has room for a descriptor.
descriptor_found :
    (b room : ℕ) (h : Heap)
    → OneBlock b room h
    → 0 < b
    → 200 ≤ room
    → b + room < 2 ^ 32
    → (m : Heap) × (kmalloc heap_fuel 0 sizeof_vmm_block_desc h ≡ some (b + (room - 160) + 8, m))
unfolding round_up
descriptor_found b room h v pos gap top =
    let (m', made, _, _, _) =
      kmalloc-piece 1023 0 148 b (b + (room - 160)) h v.head (omega arith) (omega arith) pos
        (omega (arith, v.len)) (omega (arith, v.len)) (omega (arith, v.len)) in
    (record h { words = m' }, made)

module _ (b room table p : ℕ) (pos : 0 < b) (gap : 200 ≤ room) (top : b + room < 2 ^ 32) where
  kernel_alloc_page-Ready :
      (n : ℕ) (k : Kernel)
      → OneBlock b room k.heap
      → Ready table p (suc n) k.vmm
      → (s : Vmm) × (kernel_alloc_page k ≡ ok (page_at p, record k { vmm = s }))
        × Ready table (p + 1) n s
        × (s.paging.kernel_page_directory ≡ k.vmm.paging.kernel_page_directory)
  unfolding kernel_alloc_page
  kernel_alloc_page-Ready n k v r =
      let (h, found) = descriptor_found b room k.heap v pos gap top in
      let (s, made, r', maps, size) =
        vmm_alloc_page-Ready (b + (room - 160) + 8) table p n k.vmm r in
      (
        s,
        with_pages-steady vmm_alloc_page (b + (room - 160) + 8) h k (page_at p) s found made size,
        r',
        maps.same_root,
      )

  pub init_userspace_lem :
      (n : ℕ) (k : Kernel)
      → OneBlock b room k.heap
      → Ready table p (suc (suc n)) k.vmm
      → (s : Vmm) × (init_userspace k ≡ ok (record k { vmm = s })) × Ready table (p + 1 + 1) n s
  unfolding init_userspace
  init_userspace_lem n k v r =
      let (h, found) = descriptor_found b room k.heap v pos gap top in
      let new = b + (room - 160) + 8 in
      let (s, _, made, _, _, _, _, r', size, _) =
        paging_add_temp_userspace_lem new table p n 0 k.vmm r (omega arith) in
      (s, bind_ok _ (with_pages-steady _ new h k s s found (bind_ok _ made refl) size) refl, r')

-- A task takes 48 bytes off the block.
module _ (b room : ℕ) (pos : 0 < b) (gap : 200 ≤ room) (top : b + room + 48 < 2 ^ 32) where
  task_memory :
      (k : Kernel)
      → OneBlock b (room + 48) k.heap
      → (h : Heap) × (kernel_kmalloc 40 k ≡ ok (b + room + 8, record k { heap = h }))
        × OneBlock b room h
  unfolding round_up
  task_memory k v =
      let (h, made, v', _) =
        kernel_kmalloc-OneBlock 40 b room k v (omega arith) (omega arith) pos (omega arith) top in
      (h, made, v')

  pub init_boot_task_lem :
      (k : Kernel)
      → OneBlock b (room + 48) k.heap
      → (h : Heap) × (init_boot_task k
          ≡ ok (
              with_tasks
                (task_init (b + room + 8) k.vmm.paging.kernel_page_directory k.pic.tasks)
                (record k { heap = h })))
        × OneBlock b room h
  unfolding init_boot_task
  init_boot_task_lem k v = let (h, made, v') = task_memory k v in (h, bind_ok _ made refl, v')

  module _ (l : Links) (table p n : ℕ) where
    -- Both tasks get their stacks from the next page.
    pub init_kernel_task_lem :
        (k : Kernel)
        → OneBlock b (room + 48) k.heap
        → Ready table p (suc n) k.vmm
        → (h : Heap) × (s : Vmm) × (init_kernel_task l k
            ≡ ok (
                with_tasks
                  (task_create_kernel
                    (b + room + 8)
                    (page_at p)
                    k.vmm.paging.kernel_page_directory
                    l.task_test
                    k.pic.tasks)
                  (record k { heap = h; vmm = s })))
          × OneBlock b room h
          × Ready table (p + 1) n s
          × (s.paging.kernel_page_directory ≡ k.vmm.paging.kernel_page_directory)
    unfolding init_kernel_task
    init_kernel_task_lem k v r =
        let (h, made, v') = task_memory k v in
        let (s, paged, r', root) =
          kernel_alloc_page-Ready b room table p pos gap (omega arith) n (record k { heap = h }) v'
            r in
        (h, s, bind_ok _ made (bind_ok _ paged (rw root refl)), v', r', root)

    pub init_user_task_lem :
        (k : Kernel)
        → OneBlock b (room + 48) k.heap
        → Ready table p (suc n) k.vmm
        → (h : Heap) × (s : Vmm) × (init_user_task l k
            ≡ ok (
                with_tasks
                  (task_create_user
                    (b + room + 8)
                    (page_at p)
                    l.task_userspace
                    kernel_virt_base
                    k.pic.tasks)
                  (record k { heap = h; vmm = s })))
          × OneBlock b room h
          × Ready table (p + 1) n s
    unfolding init_user_task
    init_user_task_lem k v r =
        let (h, made, v') = task_memory k v in
        let (s, paged, r', _) =
          kernel_alloc_page-Ready b room table p pos gap (omega arith) n (record k { heap = h }) v'
            r in
        (h, s, bind_ok _ made (bind_ok _ paged refl), v', r')
