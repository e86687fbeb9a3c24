-- ===== src/Tests/Start.antt =====
-- A boot on a machine of 128 MiB, with the program of the user right behind the kernel.
use aosis.Base.{
  ℕ, ◌+◌, ◌*◌, ◌≡◌, refl, arith, true, false, ◌==◌, if◌then◌else◌, [], replicate, get_or-replicate,
  length-replicate, ok, panic, inl,
}
use aosis.Terminal.Tty.{Tty}
use aosis.Terminal.Tty.Reach.{IsReady}
use aosis.Memory.Pmm.{PhysicalMemory}
use aosis.Memory.Pmm.Boot.{MmapEntry}
use aosis.Memory.Paging.{no_pd_entry, no_pt_entry}
use aosis.Task.Switch.{Task, Trapframe}
use aosis.Shell.{Shell}
use aosis.Start.Kmain.{Links, Loaded, Kernel, kmain}
use aosis.Start.Frames.{IsLoaded}
use aosis.Start.Memory.{IsFresh}
use aosis.Start.Boots.{IsBooted, kmain-IsBooted, kmain-panics}

abbrev links : Links
links = record {
  inb = λ _ _. 0;
  stub = λ i. 0xC0101000 + 16 * i;
  other_interrupt_at = 0xC0102000;
  idt = 0xC0110000;
  page_fault_handler = 0xC0103000;
  kernel_start_addr_virt = 0xC0101000;
  kernel_end_addr_phys = 0x11F010;
  kmalloc_init_block = 0xC0112000;
  task_test = 0xC0104000;
  task_userspace = 0x100100;
  key_press_at = 0xC0105000;
  pic_callback_at = 0xC0106000;
}

abbrev low_memory : MmapEntry
low_memory = record { addr_low = 0; len_low = 0x9FC00; entry_type = 1 }

abbrev high_memory : MmapEntry
high_memory = record { addr_low = 0x100000; len_low = 0x7F00000; entry_type = 1 }

abbrev loaded : ℕ → ℕ → Loaded
loaded magic flags = record {
  magic = magic;
  mbt = record { flags = flags; mods_addr = 0x10000; mmap_length = 48; mmap_addr = 0x9000 };
  mmap = λ a. if a == 0x9018 then high_memory else low_memory;
  mods = λ _. record { mod_start = 0x120000; mod_end = 0x121000 };
}

abbrev no_task : Task
no_task = record {
  trapframe = 0;
  page_directory_phys = 0;
  pid = 0;
  is_user = false;
  kernel_stack_base = 0;
  next_task = 0;
}

abbrev no_frame : Trapframe
no_frame = record { ds = 0; eip = 0; cs = 0; eflags = 0; esp = 0; ss = 0 }

abbrev tty : Tty
tty = record {
  tty_xpos = 0;
  tty_ypos = 0;
  tty_color = 0;
  tty_buffer = replicate 2000 0;
  ports = [];
}

abbrev pmm : PhysicalMemory
pmm = record {
  total_memory = 0;
  total_page_memory = 0;
  starting_addr = 0;
  page_count = 0;
  bitmap = replicate 8192 0;
}

abbrev kernel : Kernel
kernel = record {
  pic = record {
    print = true;
    tick = 0;
    interrupts = record {
      idt = [];
      idt_handlers = replicate 256 0;
      idtp_size = 0;
      idtp_ptr = 0;
      prev_int = 0;
      tty = tty;
    };
    tasks = record {
      tasks = λ _. no_task;
      frames = λ _. no_frame;
      current_task = 0;
      task_list_head = 0;
      task_list_tail = 0;
      scheduler_initialized = false;
      esp0 = 0;
    };
  };
  vmm = record {
    blocks = [];
    allocating_new_block = false;
    paging = record {
      directories = λ _ _. no_pd_entry;
      tables = λ _ _. no_pt_entry;
      kernel_page_directory = 0;
      cr3 = 0x5000;
      cr0 = 0x80000001;
      idt_handlers = [];
      pmm = pmm;
    };
  };
  heap = record { words = λ _. 0; block_list_head = 0; block_list_tail = 0 };
  user_task = record {
    user_task = record { starting_eip = 0; phys_addr_start = 0; phys_addr_end = 0; len = 0 };
    once = true;
  };
  keyboard = record { buff = []; len = 0; head = 0; tail = 0 };
}

kernel-IsFresh : IsFresh links kernel
kernel-IsFresh = record {
  frames = length-replicate {A = ℕ} 8192 0;
  all_free = λ i. get_or-replicate {A = ℕ} 8192 i 0;
  heap_at = omega arith;
  heap_top = omega arith;
  heap_zeros = λ i a b. refl;
}

loaded-IsLoaded : IsLoaded links (loaded 0x2BADB002 0x4F) 1 0x8000000 0 0x120000
loaded-IsLoaded = record {
  kernel_end = omega arith;
  map_given = refl;
  in_map = omega arith;
  available = refl;
  last = λ j a b. absurd (omega arith);
  ends = refl;
  enough = omega arith;
  within = omega arith;
  pool_start = refl;
  placed = refl;
  below = omega arith;
}

kmain-IsBooted_example :
    (k' : Kernel) × (shell : Shell) × (kmain links (loaded 0x2BADB002 0x4F) kernel ≡ ok (k', shell))
    × IsBooted links 0 0x120000 100 k'
    × (shell.cmd_len ≡ 0)
    × (shell.running ≡ true)
    × IsReady shell.tty
kmain-IsBooted_example =
    kmain-IsBooted links (loaded 0x2BADB002 0x4F) 1 0x8000000 0 0x120000 100 kernel loaded-IsLoaded
      kernel-IsFresh (length-replicate {A = ℕ} 256 0) (length-replicate {A = ℕ} 2000 0) refl
      (omega arith)

kmain-panics_example : kmain links (loaded 0x1BADB002 0x4F) kernel ≡ panic
kmain-panics_example = kmain-panics links (loaded 0x1BADB002 0x4F) kernel (inl (omega arith))
