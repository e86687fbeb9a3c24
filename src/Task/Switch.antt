-- ===== src/Task/Switch.antt =====
-- kernel/task/task.c and kernel/task/scheduler.c: the tasks, by the addresses that `kmalloc` returns for
-- them, and the switch from one to the next. Addresses that other parts give (the new task, its
-- stack from `vmm_alloc_page`, the page directory, the entry points) are arguments. Of
-- `task_switch_asm` the store of the current task is modelled, not the change of registers.
pub mod Laws
use aosis.Base.{ℕ, ◌+◌, ◌-◌, Bool, true, false, ◌||◌, ◌==◌, if◌then◌else◌, u32, sub32, not}
use aosis.Memory.Page.{page_size}
use aosis.Memory.Gdt.{
  gdt_kernel_code_seg, gdt_kernel_data_seg, gdt_user_code_seg, gdt_user_data_seg,
}

-- The fields of struct task that the kernel uses.
pub record Task : Type 0 where
  pub trapframe : ℕ
  pub page_directory_phys : ℕ
  pub pid : ℕ
  pub is_user : Bool
  pub kernel_stack_base : ℕ
  pub next_task : ℕ

-- The fields of struct trapframe that the kernel sets; the others are 0 on a cleared stack.
pub record Trapframe : Type 0 where
  pub ds : ℕ
  pub eip : ℕ
  pub cs : ℕ
  pub eflags : ℕ
  pub esp : ℕ
  pub ss : ℕ

-- The tasks and the trap frames in memory, the globals of both files, and the stack of the task state
-- segment.
pub record Tasks : Type 0 where
  pub tasks : ℕ → Task
  pub frames : ℕ → Trapframe
  pub current_task : ℕ
  pub task_list_head : ℕ
  pub task_list_tail : ℕ
  pub scheduler_initialized : Bool
  pub esp0 : ℕ

abbrev pub put_task : ℕ → Task → (ℕ → Task) → ℕ → Task
put_task p t tasks a = if p == a then t else tasks a

abbrev pub put_frame : ℕ → Trapframe → (ℕ → Trapframe) → ℕ → Trapframe
put_frame p f frames a = if p == a then f else frames a

unfoldable pub task_init : ℕ → ℕ → Tasks → Tasks
task_init boot_task page_directory s =
    let t = s.tasks boot_task in
    let t' = record t { pid = 0; next_task = boot_task; page_directory_phys = page_directory } in
    record s {
      tasks = put_task boot_task t' s.tasks;
      current_task = boot_task;
      task_list_head = boot_task;
      task_list_tail = boot_task;
    }

unfoldable pub task_update_trapframe : ℕ → Tasks → Tasks
task_update_trapframe tf s =
    let t = s.tasks s.current_task in
    if s.current_task == 0
    then s
    else record s { tasks = put_task s.current_task (record t { trapframe = tf }) s.tasks }

-- The end of `task_create_kernel` and of `task_create_user`: the new task `t` at the end of the list.
unfoldable pub append_task : ℕ → Task → Tasks → Tasks
append_task new_task t s =
    let tail = s.tasks s.task_list_tail in
    let numbered = record t { pid = u32 (tail.pid + 1) } in
    let stored = put_task new_task numbered s.tasks in
    let last = stored s.task_list_tail in
    let linked = record last { next_task = new_task } in
    if s.task_list_tail == 0
    then record s { tasks = put_task new_task t s.tasks; task_list_tail = new_task }
    else record s { tasks = put_task s.task_list_tail linked stored; task_list_tail = new_task }

-- The new task keeps what its memory held in the fields that are not set.
unfoldable pub task_create_kernel : ℕ → ℕ → ℕ → ℕ → Tasks → Tasks
task_create_kernel new_task alloc_stack page_directory task_test s =
    let base = u32 (alloc_stack + page_size) in
    let tf = sub32 base 56 in
    let t = s.tasks new_task in
    let t' = record t {
      next_task = s.task_list_head;
      page_directory_phys = page_directory;
      kernel_stack_base = base;
      trapframe = tf;
    } in
    let f : Trapframe = record {
      ds = gdt_kernel_data_seg;
      eip = task_test;
      cs = gdt_kernel_code_seg;
      eflags = 0x2;
      esp = 0;
      ss = 0;
    } in
    append_task new_task t' (record s { frames = put_frame tf f s.frames })

unfoldable pub task_create_user : ℕ → ℕ → ℕ → ℕ → Tasks → Tasks
task_create_user new_task alloc_stack task_userspace kernel_virt_base s =
    let base = u32 (alloc_stack + page_size) in
    let tf = sub32 base 64 in
    let t = s.tasks new_task in
    let t' = record t {
      is_user = true;
      next_task = s.task_list_head;
      kernel_stack_base = base;
      trapframe = tf;
    } in
    let f : Trapframe = record {
      ds = gdt_user_data_seg;
      eip = task_userspace;
      cs = gdt_user_code_seg;
      eflags = 0x2;
      esp = kernel_virt_base;
      ss = gdt_user_data_seg;
    } in
    append_task new_task t' (record s { frames = put_frame tf f s.frames })

unfoldable pub scheduler : Tasks → Tasks
scheduler s =
    let next_task = (s.tasks s.current_task).next_task in
    let stack =
      if (s.tasks next_task).is_user then (s.tasks next_task).kernel_stack_base else s.esp0 in
    if not s.scheduler_initialized || (s.current_task == 0 || next_task == 0)
    then s
    else record s { esp0 = stack; current_task = next_task }

unfoldable pub scheduler_init : Tasks → Tasks
scheduler_init s = record s { scheduler_initialized = true }
