-- ===== src/Start/Boots.antt =====
-- `kmain` of kernel/kernel.c as a whole: what it leaves when it enters the shell, and how it
-- fails.
use aosis.Base.{
  ℕ, suc, ◌+◌, ◌≤◌, ◌<◌, ◌≡◌, ◌≢◌, refl, arith, true, false, ◌==◌, ltb, if◌then◌else◌, List, length,
  length-set, get_or, get_or-set, set, ok, panic, bind_ok, bind_panic, for_range, ◌⊎◌, inl, inr,
  bit_and, shr,
}
use aosis.Terminal.Tty.Reach.{IsReady}
use aosis.Interrupt.Idt.{codes}
use aosis.Interrupt.Idt.Laws.{interrupt_init-handlers}
use aosis.Interrupt.Keyboard.{keyboard_init}
use aosis.Memory.Pmm.Boot.{pmm_init}
use aosis.Memory.Userspace.Ready.{page_at, Ready}
use aosis.Task.Switch.{Tasks, scheduler}
use aosis.Task.Switch.Laws.{IsRing}
use aosis.Shell.{Shell}
use aosis.Start.{IsApart, turn, start_tasks, started-current, start_tasks-round_robin}
use aosis.Start.Kmain.{
  Links, Loaded, Kernel, with_tty, init_interrupts, init_keyboard, kmain_memory, kmain, init_frames,
}
use aosis.Start.Text.{is_plain, said, say-plain}
use aosis.Start.Heap.{OneBlock}
use aosis.Start.Frames.{IsLoaded}
use aosis.Start.Memory.{IsFresh, table_page, kmain_memory_lem}
use aosis.Start.Parts.{
  boot_places, timed, kmain_console_lem, init_interrupts-IsValid, kmain_tasks_lem,
  kmain_devices_lem, kshell_start_lem,
}

-- The handlers, when `kmain` is done.
abbrev pub boot_handler : Links → ℕ → ℕ
boot_handler l i =
    if i == 14
    then l.page_fault_handler
    else if i == 32
    then l.pic_callback_at
    else if i == 33
    then l.key_press_at
    else if ltb i 47
    then 0
    else l.other_interrupt_at

places-IsApart : (l : Links) (p directory : ℕ) → IsApart (boot_places l p directory)
places-IsApart l p directory = record {
  boot = omega arith;
  kernel = omega arith;
  user = omega arith;
  boot_kernel = omega arith;
  boot_user = omega arith;
  kernel_user = omega arith;
}

-- The tasks are a ring; the boot task runs, and the scheduler gives the kernel's task, the
-- user's and the boot task their turns.
pub record Turns (l : Links) (p : ℕ) (t : Tasks) : Type 0 where
  pub ring : (directory : ℕ) × IsRing (turn (boot_places l p directory)) 2 t
  pub now : t.current_task ≡ l.kmalloc_init_block + 3896
  pub first : (for_range 1 0 (λ _ t. scheduler t) t).current_task ≡ l.kmalloc_init_block + 3848
  pub second : (for_range 2 0 (λ _ t. scheduler t) t).current_task ≡ l.kmalloc_init_block + 3800
  pub third : (for_range 3 0 (λ _ t. scheduler t) t).current_task ≡ l.kmalloc_init_block + 3896

start_tasks-Turns :
    (l : Links) (p directory : ℕ) (s : Tasks)
    → Turns l p (start_tasks (boot_places l p directory) s)
start_tasks-Turns l p directory s =
    let a = boot_places l p directory in
    let (ring, first, second, third) = start_tasks-round_robin a s (places-IsApart l p directory) in
    record {
      ring = (directory, ring);
      now = omega (arith, started-current a s);
      first = omega (arith, first);
      second = omega (arith, second);
      third = omega (arith, third);
    }

-- The kernel when the shell starts, with `n` more pages ready.
pub record IsBooted (l : Links) (m start n : ℕ) (k : Kernel) : Type 0 where
  pub pages : Ready (page_at (table_page m start)) (table_page m start + 5) n k.vmm
  pub heap : OneBlock l.kmalloc_init_block 3792 k.heap
  pub handlers : (i : ℕ) → i < 256 → get_or k.pic.interrupts.idt_handlers i 0 ≡ boot_handler l i
  pub turns : Turns l (table_page m start + 1) k.pic.tasks
  pub silent : k.pic.print ≡ false

boot_handlers :
    (l : Links) (i : ℕ) (start : List ℕ)
    → length start ≡ 256
    → get_or start i 0 ≡ (if ltb i 47 then 0 else l.other_interrupt_at)
    → get_or
        (set (set (set start 14 l.page_fault_handler) 33 l.key_press_at) 32 l.pic_callback_at)
        i
        0
      ≡ boot_handler l i
boot_handlers l i start size old =
    let one = set start 14 l.page_fault_handler in
    let two = set one 33 l.key_press_at in
    let size₁ = length-set start 14 l.page_fault_handler in
    let size₂ = length-set one 33 l.key_press_at in
    ground (
      arith,
      old,
      get_or-set start 14 i l.page_fault_handler 0 (omega (arith, size)),
      get_or-set one 33 i l.key_press_at 0 (omega (arith, size, size₁)),
      get_or-set two 32 i l.pic_callback_at 0 (omega (arith, size, size₁, size₂)),
    )

-- Let the kernel's statics be as the linker leaves them, the frame bitmap and, within the
-- address space, the heap's first block all zeros, with a table of 256 handlers and a screen of
-- 2000 cells; let the kernel end at most 3 MiB up, the last available entry of the memory map
-- end within 1 GiB and at least 256 KiB above the kernel, and the user's module lie at one of
-- the first 64 page boundaries behind the kernel; let the magic number be right and `n` at most
-- 190. Then `kmain` neither panics nor faults, and enters the shell with an empty line, with
-- the cursor on the screen and the hardware's cursor at it. By then the heap's first block has
-- handed out the first descriptor and three tasks; these are a ring with the boot task running,
-- and the scheduler runs the kernel's task, the user's and the boot task again; the page fault,
-- the timer and the keyboard have their handlers and the other vectors those of
-- `interrupt_init`; and the next `n` pages of the kernel are ready.
pub kmain-IsBooted :
    (l : Links) (b : Loaded) (j top m start n : ℕ) (k : Kernel)
    → IsLoaded l b j top m start
    → IsFresh l k
    → length k.pic.interrupts.idt_handlers ≡ 256
    → length k.pic.interrupts.tty.tty_buffer ≡ 2000
    → b.magic ≡ 0x2BADB002
    → n ≤ 190
    → (k' : Kernel) × (shell : Shell) × (kmain l b k ≡ ok (k', shell))
      × IsBooted l m start n k'
      × (shell.cmd_len ≡ 0)
      × (shell.running ≡ true)
      × IsReady shell.tty
unfolding kmain init_interrupts init_keyboard keyboard_init
kmain-IsBooted l b j top m start n k v fresh size cells magic few =
    let (t, console, shows) = kmain_console_lem l k in
    let k₁ = init_interrupts l (with_tty t k) in
    let (count, old) =
      interrupt_init-handlers l.stub l.other_interrupt_at l.idt (with_tty t k).pic.interrupts
        size in
    let fresh₁ : IsFresh l k₁ = record {
      frames = fresh.frames;
      all_free = fresh.all_free;
      heap_at = fresh.heap_at;
      heap_top = fresh.heap_top;
      heap_zeros = fresh.heap_zeros;
    } in
    let (k₂, memory, m₂) =
      kmain_memory_lem l b j top m start (suc (suc (suc (suc n)))) k₁ v fresh₁ (omega arith) in
    let p = table_page m start + 1 in
    let (k₃, tasks, m₃) =
      kmain_tasks_lem l (page_at (table_page m start)) p n k₂ fresh.heap_at fresh.heap_top m₂.heap
        m₂.ready in
    let (t₄, devices, kept) = kmain_devices_lem l k₃ in
    let k₄ = timed l t₄ (init_keyboard l k₃) in
    let (shell, started, len, running, shown) = kshell_start_lem k₄.keyboard t₄ in
    let right : (b.magic == 0x2BADB002) ≡ true = ground (arith, magic) in
    let chosen : (if b.magic == 0x2BADB002 then kmain_memory l b k₁ else panic) ≡ ok k₂ =
      rw right memory in
    let behind : table_page m start + 1 + 4 ≡ table_page m start + 5 = omega arith in
    let directory = k₂.vmm.paging.kernel_page_directory in
    (
      k₄,
      shell,
      bind_ok _ console
          (bind_ok _ chosen (bind_ok _ tasks (bind_ok _ devices (bind_ok _ started refl)))),
      record {
        pages = rw behind at m₃.ready;
        heap = m₃.heap;
        handlers = λ i h. rw (m₃.handlers, m₂.handlers) (boot_handlers l i _ count (old i h));
        turns = rw m₃.tasks (start_tasks-Turns l p directory k₂.pic.tasks);
        silent = refl;
      },
      len,
      running,
      shown (kept (m₃.tty (m₂.tty (init_interrupts-IsValid l (with_tty t k) (shows cells))))),
    )

-- Without the bit for the memory map the frame allocator is not initialised.
init_frames-panics :
    (l : Links) (b : Loaded) (k : Kernel)
    → bit_and (shr b.mbt.flags 6) 1 ≡ 0
    → init_frames l b k ≡ panic
unfolding init_frames pmm_init
init_frames-panics l b k e =
    let absent : (bit_and (shr b.mbt.flags 6) 1 == 0) ≡ true = ground (arith, e) in rw absent refl

kmain_memory-panics :
    (l : Links) (b : Loaded) (k : Kernel)
    → bit_and (shr b.mbt.flags 6) 1 ≡ 0
    → kmain_memory l b k ≡ panic
unfolding kmain_memory is_plain
kmain_memory-panics l b k e =
    let k₁ = said (codes "[-] Initializing Physical Memory Management...\n") k in
    bind_ok _ (say-plain _ k refl) (bind_panic _ (init_frames-panics l b k₁ e))

-- `kmain` panics if the magic number is wrong, and also if the boot loader gave no memory map.
pub kmain-panics :
    (l : Links) (b : Loaded) (k : Kernel)
    → (b.magic ≢ 0x2BADB002) ⊎ (bit_and (shr b.mbt.flags 6) 1 ≡ 0)
    → kmain l b k ≡ panic
unfolding kmain
kmain-panics l b k h =
    let (t, console, _) = kmain_console_lem l k in
    let k₁ = init_interrupts l (with_tty t k) in
    let stopped : (if b.magic == 0x2BADB002 then kmain_memory l b k₁ else panic) ≡ panic = elim h [
      | inl wrong ↦ ground (arith, wrong)
      | inr absent ↦ ground (arith, kmain_memory-panics l b k₁ absent)
    ] in
    bind_ok _ console (bind_panic _ stopped)
