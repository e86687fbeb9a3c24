-- ===== src/Tests/Tasks.antt =====
-- A ring of two tasks, at 0x1000 and 0x2000.
use aosis.Base.{ℕ, ◌+◌, ◌*◌, ◌≡◌, refl, arith, true, false, ◌==◌, if◌then◌else◌, for_range}
use aosis.Task.Switch.{Tasks, Task, Trapframe, task_create_kernel, task_create_user, scheduler}
use aosis.Task.Switch.Laws.{IsRing, task_create-IsRing, scheduler-round_robin}
use aosis.Start.{Places, IsApart}

abbrev at : ℕ → ℕ
at i = 0x1000 * (i + 1)

abbrev task_of : ℕ → Task
task_of next = record {
  trapframe = 0;
  page_directory_phys = 0;
  pid = 0;
  is_user = false;
  kernel_stack_base = 0;
  next_task = next;
}

abbrev no_frame : Trapframe
no_frame = record { ds = 0; eip = 0; cs = 0; eflags = 0; esp = 0; ss = 0 }

abbrev two_tasks : Tasks
two_tasks = record {
  tasks = λ a. if a == 0x1000 then task_of 0x2000 else task_of 0x1000;
  frames = λ _. no_frame;
  current_task = 0x1000;
  task_list_head = 0x1000;
  task_list_tail = 0x2000;
  scheduler_initialized = true;
  esp0 = 0;
}

two_tasks-IsRing : IsRing at 1 two_tasks
two_tasks-IsRing = record {
  head = refl;
  tail = refl;
  link = λ i h. ground arith;
  close = refl;
  real = λ i h. omega arith;
  apart = λ i j h g. omega arith;
}

task_create-IsRing_example :
    IsRing at 2 (task_create_kernel 0x3000 0x8000 0 0x500 two_tasks)
    × IsRing at 2 (task_create_user 0x3000 0x8000 0 0x500 two_tasks)
task_create-IsRing_example =
    task_create-IsRing at 1 0x8000 0 0x500 two_tasks two_tasks-IsRing (omega arith)
      (λ i h. omega arith)

scheduler-round_robin_example :
    ((for_range 1 0 (λ _ t. scheduler t) two_tasks).current_task ≡ 0x2000)
    × ((for_range 2 0 (λ _ t. scheduler t) two_tasks).current_task ≡ 0x1000)
scheduler-round_robin_example =
    scheduler-round_robin at 1 1 two_tasks two_tasks-IsRing refl refl (omega arith)

abbrev places : Places
places = record {
  boot_task = 0x1000;
  kernel_task = 0x2000;
  user_task = 0x3000;
  kernel_stack = 0xC0030000;
  user_stack = 0xC0031000;
  page_directory = 0xC0005000;
  task_test = 0xC0101200;
  task_userspace = 0xC0101400;
  user_esp = 0xC0000000;
}

places-IsApart : IsApart places
places-IsApart = record {
  boot = omega arith;
  kernel = omega arith;
  user = omega arith;
  boot_kernel = omega arith;
  boot_user = omega arith;
  kernel_user = omega arith;
}
