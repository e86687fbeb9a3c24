-- ===== src/Start/Parts.antt =====
-- What the other parts of `kmain` of kernel/kernel.c leave: the console, the tasks, the devices
-- and the shell's start.
use aosis.Base.{
  length, ℕ, suc, ◌+◌, ◌^◌, ◌<◌, ◌≡◌, refl, arith, true, false, [], ◌∷◌, set, ok, bind_ok,
}
use aosis.Terminal.Tty.{Tty, outb, initialize_terminal}
use aosis.Terminal.Tty.Print.Format.{text, decimal, format_of, args_of, show, kprintf-pieces}
use aosis.Terminal.Tty.Bounds.{IsValid}
use aosis.Terminal.Tty.Reach.{
  IsReady, tty_printstr_starts, tty_printstr-IsReady, tty_printint-IsReady,
  initialize_terminal-IsReady,
}
use aosis.Interrupt.Idt.{codes, interrupt_init, remap_pic}
use aosis.Interrupt.Keyboard.{Keyboard}
use aosis.Interrupt.Pic.{pic_init, programmed}
use aosis.Memory.Paging.{kernel_virt_base}
use aosis.Memory.Userspace.Ready.{page_at, Ready}
use aosis.Task.Switch.{task_init, task_create_kernel, task_create_user, scheduler_init}
use aosis.Shell.{Shell, command_start, kshell_start}
use aosis.Start.{Places, start_tasks}
use aosis.Start.Kmain.{
  Links, Kernel, with_tty, with_tasks, init_interrupts, init_keyboard, init_timer, kmain_console,
  kmain_tasks, kmain_devices,
}
use aosis.Start.Text.{is_plain, is_plain_lem, said, said-IsValid, say-plain, say-pieces}
use aosis.Start.Heap.{OneBlock}
use aosis.Start.Pages.{
  init_boot_task_lem, init_kernel_task_lem, init_user_task_lem, init_userspace_lem,
}

-- The terminal is set up and the interrupts are on.
pub kmain_console_lem :
    (l : Links) (k : Kernel)
    → (t : Tty) × (kmain_console l k ≡ ok (init_interrupts l (with_tty t k)))
      × (length k.pic.interrupts.tty.tty_buffer ≡ 2000 → IsValid t)
unfolding kmain_console is_plain
kmain_console_lem l k =
    let k₁ = with_tty (initialize_terminal l.inb k.pic.interrupts.tty) k in
    let k₂ = said (codes "[-] Terminal Initalized\n") k₁ in
    (
      _,
      bind_ok _ (say-plain _ k₁ refl)
          (bind_ok _ (say-plain (codes "[-] Initializing Interrupts...\n") k₂ refl) refl),
      λ size. said-IsValid _ _ k₂ refl (
          said-IsValid _ _ k₁ refl
            (initialize_terminal-IsReady l.inb k.pic.interrupts.tty size).valid),
    )

-- The controllers' ports do not matter to the screen.
pub init_interrupts-IsValid :
    (l : Links) (k : Kernel)
    → IsValid k.pic.interrupts.tty
    → IsValid (init_interrupts l k).pic.interrupts.tty
unfolding init_interrupts interrupt_init remap_pic outb
init_interrupts-IsValid l k v = record { xpos_in = v.xpos_in; ypos_in = v.ypos_in; size = v.size }

-- The addresses of the tasks, their stacks and what they share.
abbrev pub boot_places : Links → ℕ → ℕ → Places
boot_places l p directory = record {
  boot_task = l.kmalloc_init_block + 3888 + 8;
  kernel_task = l.kmalloc_init_block + 3840 + 8;
  user_task = l.kmalloc_init_block + 3792 + 8;
  kernel_stack = page_at p;
  user_stack = page_at (p + 1);
  page_directory = directory;
  task_test = l.task_test;
  task_userspace = l.task_userspace;
  user_esp = kernel_virt_base;
}

pub record TasksDone (l : Links) (table p n : ℕ) (k k' : Kernel) : Type 0 where
  pub ready : Ready table (p + 4) n k'.vmm
  pub heap : OneBlock l.kmalloc_init_block 3792 k'.heap
  pub tasks :
      k'.pic.tasks ≡ start_tasks (boot_places l p k.vmm.paging.kernel_page_directory) k.pic.tasks
  pub handlers : k'.pic.interrupts.idt_handlers ≡ k.pic.interrupts.idt_handlers
  pub tty : IsValid k.pic.interrupts.tty → IsValid k'.pic.interrupts.tty

pub kmain_tasks_lem :
    (l : Links) (table p n : ℕ) (k : Kernel)
    → 0 < l.kmalloc_init_block
    → l.kmalloc_init_block + 4096 < 2 ^ 32
    → OneBlock l.kmalloc_init_block 3936 k.heap
    → Ready table p (suc (suc (suc (suc n)))) k.vmm
    → (k' : Kernel) × (kmain_tasks l k ≡ ok k') × TasksDone l table p n k k'
unfolding kmain_tasks start_tasks is_plain
kmain_tasks_lem l table p n k pos top v r =
    let b = l.kmalloc_init_block in
    let root = k.vmm.paging.kernel_page_directory in
    let booted = task_init (b + 3888 + 8) root k.pic.tasks in
    let kernel = task_create_kernel (b + 3840 + 8) (page_at p) root l.task_test booted in
    let user =
      task_create_user (b + 3792 + 8) (page_at (p + 1)) l.task_userspace kernel_virt_base kernel in
    let (h₁, made₁, v₁) = init_boot_task_lem b 3888 pos (omega arith) (omega arith) k v in
    let k₁ = with_tasks booted (record k { heap = h₁ }) in
    let (h₂, s₂, made₂, v₂, r₂, _) =
      init_kernel_task_lem b 3840 pos (omega arith) (omega arith) l table p (suc (suc (suc n))) k₁
        v₁ r in
    let k₂ = with_tasks kernel (record k₁ { heap = h₂; vmm = s₂ }) in
    let (h₃, s₃, made₃, v₃, r₃) =
      init_user_task_lem b 3792 pos (omega arith) (omega arith) l table (p + 1) (suc (suc n)) k₂ v₂
        r₂ in
    let k₃ = with_tasks user (record k₂ { heap = h₃; vmm = s₃ }) in
    let k₄ = said (codes "[-] Initializing Scheduler...\n") k₃ in
    let k₅ = with_tasks (scheduler_init user) k₄ in
    let (s₆, made₆, r₆) =
      init_userspace_lem b 3792 table (p + 1 + 1) pos (omega arith) (omega arith) n k₅ v₃ r₃ in
    let count : p + 1 + 1 + 1 + 1 ≡ p + 4 = omega arith in
    (
      record k₅ { vmm = s₆ },
      bind_ok _ made₁ (bind_ok _ made₂ (bind_ok _ made₃ (bind_ok _ (say-plain _ k₃ refl) made₆))),
      record {
        ready = rw count at r₆;
        heap = v₃;
        tasks = refl;
        handlers = refl;
        tty = λ valid. said-IsValid _ _ k₃ refl valid;
      },
    )

-- The kernel with the timer on.
abbrev pub timed : Links → Tty → Kernel → Kernel
timed l t k = record k {
  pic = record k.pic {
    print = false;
    interrupts = record k.pic.interrupts {
      idt_handlers = set k.pic.interrupts.idt_handlers 32 l.pic_callback_at;
      tty = t;
    };
  };
}

init_timer_lem :
    (l : Links) (k : Kernel)
    → (t : Tty) × (init_timer l k ≡ ok (timed l t k)) × (IsValid k.pic.interrupts.tty → IsValid t)
unfolding init_timer pic_init programmed outb
init_timer_lem l k =
    (_, refl, λ v. record { xpos_in = v.xpos_in; ypos_in = v.ypos_in; size = v.size })

pub kmain_devices_lem :
    (l : Links) (k : Kernel)
    → (t : Tty) × (kmain_devices l k ≡ ok (timed l t (init_keyboard l k)))
      × (IsValid k.pic.interrupts.tty → IsValid t)
unfolding kmain_devices init_keyboard is_plain format_of args_of show
kmain_devices_lem l k =
    let before = codes "[-] Initializing Timer (Freq: " in
    let after = codes "Hz)...\n" in
    let k₁ = said (codes "[-] Initializing Keyboard...\n") k in
    let k₂ = init_keyboard l k₁ in
    let pieces = text before ∷ decimal 20 ∷ text after ∷ [] in
    let k₃ = with_tty (show pieces k₂.pic.interrupts.tty) k₂ in
    let shown = say-pieces pieces k₂ (is_plain_lem before refl, (is_plain_lem after refl, tt)) in
    let (t, programmed, kept) = init_timer_lem l k₃ in
    (
      _,
      bind_ok _ (say-plain _ k refl) (
          bind_ok _ shown (
            bind_ok _ programmed
              (say-plain (codes "[-] Launching Kernel Console...\n") (timed l t k₃) refl))),
      λ v.
          let started =
            tty_printstr_starts _ _ k₁.pic.interrupts.tty refl (said-IsValid _ _ k refl v) in
          let counted = tty_printstr-IsReady after _ (tty_printint-IsReady 20 _ started) in
          said-IsValid _ _ (timed l t k₃) refl (kept counted.valid),
    )

pub kshell_start_lem :
    (k : Keyboard) (t : Tty)
    → (s : Shell) × (kshell_start k t ≡ ok s)
      × (s.cmd_len ≡ 0)
      × (s.running ≡ true)
      × (IsValid t → IsReady s.tty)
unfolding kshell_start command_start is_plain format_of args_of show
kshell_start_lem k t =
    let welcome = codes "\nWelcome to AOSIS: Run 'help' to get started!\n" in
    (
      _,
      bind_ok _ (kprintf-pieces (text welcome ∷ []) t (is_plain_lem welcome refl, tt)) refl,
      refl,
      refl,
      λ v. tty_printstr_starts _ _ _ refl (tty_printstr_starts _ _ t refl v).valid,
    )
