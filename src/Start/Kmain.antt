-- ===== src/Start/Kmain.antt =====
-- kernel/kernel.c: `kmain` up to the loop of the shell. Addresses of the linker and of machine
-- code are the fields of `Links`; `load_idt_asm`, `sti` and `gdt_load_tss_asm` change only
-- registers, and no interrupt comes during the boot.
use aosis.Base.{
  ℕ, zero, suc, ◌+◌, ◌||◌, not, false, none, some, List, [], ◌∷◌, ◌==◌, if◌then◌else◌, length,
  Result, ok, panic, fault, ◌>>=◌,
}
use aosis.Terminal.Tty.{Tty, initialize_terminal}
use aosis.Terminal.Tty.Print.{Arg, num, kprintf}
use aosis.Interrupt.Idt.{Interrupts, codes, interrupt_init}
use aosis.Interrupt.Keyboard.{Keyboard, keyboard_init}
use aosis.Interrupt.Pic.{Pic, pic_init}
use aosis.Memory.Pmm.Boot.{MmapEntry, ModList, MultibootInfo, pmm_init}
use aosis.Memory.Paging.{paging_init, kernel_virt_base}
use aosis.Memory.Kmalloc.{Words, Heap, kmalloc_init, kmalloc}
use aosis.Memory.Vmm.{VmmBlock, Vmm, vmm_init, vmm_alloc_page}
use aosis.Memory.Userspace.{paging_add_temp_userspace}
use aosis.Task.UserTask.{UserTask}
use aosis.Task.Switch.{task_init, task_create_kernel, task_create_user, scheduler_init, Tasks}
use aosis.Shell.{Shell, kshell_start}

-- What the linker, the assembler and the hardware give.
pub record Links : Type 0 where
  pub inb : List (ℕ × ℕ) → ℕ → ℕ
  pub stub : ℕ → ℕ
  pub other_interrupt_at : ℕ
  pub idt : ℕ
  pub page_fault_handler : ℕ
  pub kernel_start_addr_virt : ℕ
  pub kernel_end_addr_phys : ℕ
  pub kmalloc_init_block : ℕ
  pub task_test : ℕ
  pub task_userspace : ℕ
  pub key_press_at : ℕ
  pub pic_callback_at : ℕ

-- The multiboot magic number in eax, and the structures that the boot loader left in memory.
pub record Loaded : Type 0 where
  pub magic : ℕ
  pub mbt : MultibootInfo
  pub mmap : ℕ → MmapEntry
  pub mods : ℕ → ModList

-- The statics of all the files.
pub record Kernel : Type 0 where
  pub pic : Pic
  pub vmm : Vmm
  pub heap : Heap
  pub user_task : UserTask
  pub keyboard : Keyboard

abbrev pub with_interrupts : Interrupts → Kernel → Kernel
with_interrupts i k = record k { pic = record k.pic { interrupts = i } }

abbrev pub with_tty : Tty → Kernel → Kernel
with_tty t k = with_interrupts (record k.pic.interrupts { tty = t }) k

abbrev pub with_tasks : Tasks → Kernel → Kernel
with_tasks t k = record k { pic = record k.pic { tasks = t } }

-- A `kprintf` of `kmain`.
unfoldable pub say : List ℕ → List Arg → Kernel → Result Kernel
say format args k = kprintf format args k.pic.interrupts.tty >>= λ (_, t). ok (with_tty t k)

-- More blocks than the free list has during the boot.
abbrev pub heap_fuel : ℕ
heap_fuel = 1024

abbrev pub sizeof_vmm_block_desc : ℕ
sizeof_vmm_block_desc = 148

abbrev pub sizeof_task : ℕ
sizeof_task = 40

-- A function that may call `vmm_alloc_page`. When a new block is due, that takes its descriptor
-- from the heap.
unfoldable pub with_pages {ℓ} :
    {A : Type ℓ} → (ℕ → Vmm → Result (A × Vmm)) → Kernel → Result (A × Kernel)
with_pages f k = elim (kmalloc heap_fuel 0 sizeof_vmm_block_desc k.heap) [
  | none ↦ fault
  | some (new_vmm_block, heap') ↦ f new_vmm_block k.vmm >>= λ (a, vmm').
      let heap = if length vmm'.blocks == length k.vmm.blocks then k.heap else heap' in
      ok (a, record k { vmm = vmm'; heap = heap })
]

unfoldable pub kernel_alloc_page : Kernel → Result (ℕ × Kernel)
kernel_alloc_page k = with_pages vmm_alloc_page k

-- `kmalloc`, with the page that it takes when no block is large enough.
unfoldable pub kernel_kmalloc : ℕ → Kernel → Result (ℕ × Kernel)
kernel_kmalloc size k = elim (kmalloc heap_fuel 0 size k.heap) [
  | none ↦ fault
  | some (ptr, heap') ↦
      if size == 0 || not (ptr == 0)
      then ok (ptr, record k { heap = heap' })
      else (kernel_alloc_page k >>= λ (page, k'). elim (kmalloc heap_fuel page size k'.heap) [
        | none ↦ fault
        | some (ptr', heap'') ↦ ok (ptr', record k' { heap = heap'' })
      ])
]

-- The descriptor as the words at `p`.
unfoldable pub words_at : ℕ → ℕ → Words → List ℕ
words_at zero p m = []
words_at (suc n) p m = m p ∷ words_at n (p + 4) m

unfoldable pub descriptor_at : ℕ → Words → VmmBlock
descriptor_at p m = record {
  bitmap = words_at 32 p m;
  high_water_mark = m (p + 128);
  free_pages = m (p + 132);
  first_page = m (p + 136);
  page_table = m (p + 140);
}

unfoldable pub init_interrupts : Links → Kernel → Kernel
init_interrupts l k =
    with_interrupts (interrupt_init l.stub l.other_interrupt_at l.idt k.pic.interrupts) k

unfoldable pub init_frames : Links → Loaded → Kernel → Result Kernel
init_frames l b k =
    pmm_init b.mmap b.mods l.kernel_end_addr_phys b.mbt k.vmm.paging.pmm k.user_task
    >>= λ (pmm', task). ok (record k {
      vmm = record k.vmm { paging = record k.vmm.paging { pmm = pmm' } };
      user_task = task;
    })

-- `paging_init` sets an entry of the table of handlers.
unfoldable pub init_paging : Links → Kernel → Result (ℕ × Kernel)
init_paging l k =
    let handlers = k.pic.interrupts.idt_handlers in
    paging_init l.page_fault_handler l.kernel_start_addr_virt
      (record k.vmm.paging { idt_handlers = handlers })
    >>= λ (page_table, paging'). ok (
      page_table,
      with_interrupts (record k.pic.interrupts { idt_handlers = paging'.idt_handlers })
          (record k { vmm = record k.vmm { paging = paging' } }),
    )

unfoldable pub init_heap : Links → Kernel → Kernel
init_heap l k = record k { heap = kmalloc_init l.kmalloc_init_block k.heap }

unfoldable pub init_vmm : ℕ → Kernel → Result Kernel
init_vmm initial_page_table k = kernel_kmalloc sizeof_vmm_block_desc k >>= λ (p, k₁).
    vmm_init (descriptor_at p k₁.heap.words) initial_page_table k₁.vmm >>= λ vmm'.
    ok (record k₁ { vmm = vmm' })

-- `task_init`, `task_create_kernel` and `task_create_user`, with their calls of `kmalloc` and
-- `vmm_alloc_page`.
unfoldable pub init_boot_task : Kernel → Result Kernel
init_boot_task k = kernel_kmalloc sizeof_task k >>= λ (boot_task, k₁).
    ok (with_tasks (task_init boot_task k₁.vmm.paging.kernel_page_directory k₁.pic.tasks) k₁)

unfoldable pub init_kernel_task : Links → Kernel → Result Kernel
init_kernel_task l k = kernel_kmalloc sizeof_task k >>= λ (new_task, k₁).
    kernel_alloc_page k₁ >>= λ (stack, k₂).
    let directory = k₂.vmm.paging.kernel_page_directory in
    ok (with_tasks (task_create_kernel new_task stack directory l.task_test k₂.pic.tasks) k₂)

unfoldable pub init_user_task : Links → Kernel → Result Kernel
init_user_task l k = kernel_kmalloc sizeof_task k >>= λ (new_task, k₁).
    kernel_alloc_page k₁ >>= λ (stack, k₂).
    ok (
      with_tasks (task_create_user new_task stack l.task_userspace kernel_virt_base k₂.pic.tasks)
        k₂)

unfoldable pub init_userspace : Kernel → Result Kernel
init_userspace k =
    with_pages (λ new_vmm_block s. paging_add_temp_userspace new_vmm_block s >>= λ s'. ok (s', s'))
      k
    >>= λ (_, k'). ok k'

unfoldable pub init_keyboard : Links → Kernel → Kernel
init_keyboard l k =
    let i = k.pic.interrupts in
    with_interrupts (record i { idt_handlers = keyboard_init l.key_press_at i.idt_handlers }) k

unfoldable pub init_timer : Links → Kernel → Result Kernel
init_timer l k = pic_init l.pic_callback_at 20 false k.pic >>= λ pic'. ok (record k { pic = pic' })

abbrev pub multiboot_bootloader_magic : ℕ
multiboot_bootloader_magic = 0x2BADB002

-- The part of `kmain` up to the test of the magic number.
unfoldable pub kmain_console : Links → Kernel → Result Kernel
kmain_console l k = do
  let k₁ = with_tty (initialize_terminal l.inb k.pic.interrupts.tty) k
  k₂ ← say (codes "[-] Terminal Initalized\n") [] k₁
  k₃ ← say (codes "[-] Initializing Interrupts...\n") [] k₂
  ok (init_interrupts l k₃)

-- The part on the memory.
unfoldable pub kmain_memory : Links → Loaded → Kernel → Result Kernel
kmain_memory l b k = do
  k₁ ← say (codes "[-] Initializing Physical Memory Management...\n") [] k
  k₂ ← init_frames l b k₁
  k₃ ← say (codes "[-] Initializing Paging and Virtual Memory...\n") [] k₂
  (initial_page_table, k₄) ← init_paging l k₃
  k₅ ← say (codes "[-] Initializing Heap...\n") [] k₄
  k₆ ← say (codes "[-] Initializing Virtual Memory Manager...\n") [] (init_heap l k₅)
  init_vmm initial_page_table k₆

-- The part on the tasks, up to `paging_add_temp_userspace`.
unfoldable pub kmain_tasks : Links → Kernel → Result Kernel
kmain_tasks l k = do
  k₁ ← init_boot_task k
  k₂ ← init_kernel_task l k₁
  k₃ ← init_user_task l k₂
  k₄ ← say (codes "[-] Initializing Scheduler...\n") [] k₃
  init_userspace (with_tasks (scheduler_init k₄.pic.tasks) k₄)

-- The part on the devices.
unfoldable pub kmain_devices : Links → Kernel → Result Kernel
kmain_devices l k = do
  k₁ ← say (codes "[-] Initializing Keyboard...\n") [] k
  k₂ ← say (codes "[-] Initializing Timer (Freq: %dHz)...\n") (num 20 ∷ []) (init_keyboard l k₁)
  k₃ ← init_timer l k₂
  say (codes "[-] Launching Kernel Console...\n") [] k₃

-- The kernel and the shell, whose loop `kmain` enters in the end.
unfoldable pub kmain : Links → Loaded → Kernel → Result (Kernel × Shell)
kmain l b k = do
  k₁ ← kmain_console l k
  k₂ ← if b.magic == multiboot_bootloader_magic then kmain_memory l b k₁ else panic
  k₃ ← kmain_tasks l k₂
  k₄ ← kmain_devices l k₃
  shell ← kshell_start k₄.keyboard k₄.pic.interrupts.tty
  ok (k₄, shell)
