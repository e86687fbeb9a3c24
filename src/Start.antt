-- ===== src/Start.antt =====
-- kernel/kernel.c: the tasks that `kmain` makes before it turns the scheduler on.
pub mod Kmain
pub mod Heap
pub mod Text
pub mod Panic
pub mod Frames
pub mod Memory
pub mod Pages
pub mod Parts
pub mod Boots
use aosis.Base.{ℕ, ◌≤◌, ◌≡◌, ◌≢◌, refl, arith, true, ◌==◌, if◌then◌else◌, for_range}
use aosis.Task.Switch.{
  Tasks, append_task, task_init, task_create_kernel, task_create_user, scheduler_init, scheduler,
}
use aosis.Task.Switch.Laws.{IsRing, task_create-IsRing, scheduler-round_robin}

-- What the calls of `kmalloc` and `vmm_alloc_page` return, and the addresses of both entry points, of the
-- kernel's directory and of its base, which is the stack pointer of the user task.
pub record Places : Type 0 where
  pub boot_task : ℕ
  pub kernel_task : ℕ
  pub user_task : ℕ
  pub kernel_stack : ℕ
  pub user_stack : ℕ
  pub page_directory : ℕ
  pub task_test : ℕ
  pub task_userspace : ℕ
  pub user_esp : ℕ

-- The calls of `kmain` from `task_init` to `scheduler_init`.
unfoldable pub start_tasks : Places → Tasks → Tasks
start_tasks a s =
    let booted = task_init a.boot_task a.page_directory s in
    let kernel =
      task_create_kernel a.kernel_task a.kernel_stack a.page_directory a.task_test booted in
    scheduler_init (task_create_user a.user_task a.user_stack a.task_userspace a.user_esp kernel)

-- The tasks in the order in which they run.
abbrev pub turn : Places → ℕ → ℕ
turn a i = if i == 0 then a.boot_task else if i == 1 then a.kernel_task else a.user_task

-- No two tasks share an address, and none is NULL.
pub record IsApart (a : Places) : Type 0 where
  pub boot : a.boot_task ≢ 0
  pub kernel : a.kernel_task ≢ 0
  pub user : a.user_task ≢ 0
  pub boot_kernel : a.boot_task ≢ a.kernel_task
  pub boot_user : a.boot_task ≢ a.user_task
  pub kernel_user : a.kernel_task ≢ a.user_task

booted-IsRing :
    (a : Places) (s : Tasks)
    → IsApart a
    → IsRing (turn a) 0 (task_init a.boot_task a.page_directory s)
unfolding task_init
booted-IsRing a s v = record {
  head = refl;
  tail = refl;
  link = λ i l. absurd (omega arith);
  close = ground arith;
  real = λ i l. ground (arith, v.boot);
  apart = λ i j l g. absurd (omega arith);
}

scheduler_init-IsRing :
    (at : ℕ → ℕ) (n : ℕ) (s : Tasks) → IsRing at n s → IsRing at n (scheduler_init s)
unfolding scheduler_init
scheduler_init-IsRing at n s v = record {
  head = v.head;
  tail = v.tail;
  link = v.link;
  close = v.close;
  real = v.real;
  apart = v.apart;
}

pub started-current : (a : Places) (s : Tasks) → (start_tasks a s).current_task ≡ a.boot_task
unfolding start_tasks scheduler_init task_create_user task_create_kernel append_task task_init
started-current a s = ground arith

started-on : (a : Places) (s : Tasks) → (start_tasks a s).scheduler_initialized ≡ true
unfolding start_tasks scheduler_init
started-on a s = refl

started-IsRing :
    (a : Places) (s : Tasks)
    → IsRing (turn a) 2 (
        task_create_user a.user_task a.user_stack a.task_userspace a.user_esp (
          task_create_kernel a.kernel_task a.kernel_stack a.page_directory a.task_test
            (task_init a.boot_task a.page_directory s)))
    → IsRing (turn a) 2 (start_tasks a s)
unfolding start_tasks
started-IsRing a s v = scheduler_init-IsRing (turn a) 2 _ v

-- Let the three tasks have different addresses, none of them NULL. Then `kmain` leaves them in a ring with the
-- boot task running, and one call of `scheduler` after the other runs the kernel's task, the user's,
-- and the boot task again.
pub start_tasks-round_robin :
    (a : Places) (s : Tasks)
    → IsApart a
    → let s' = start_tasks a s in
      IsRing (turn a) 2 s'
      × ((for_range 1 0 (λ _ t. scheduler t) s').current_task ≡ a.kernel_task)
      × ((for_range 2 0 (λ _ t. scheduler t) s').current_task ≡ a.user_task)
      × ((for_range 3 0 (λ _ t. scheduler t) s').current_task ≡ a.boot_task)
start_tasks-round_robin a s v =
    let ring₁ =
      task_create-IsRing (turn a) 0 a.kernel_stack a.page_directory a.task_test _
        (booted-IsRing a s v) v.kernel (λ i h. ground (arith, v.boot_kernel)) in
    let ring₂ =
      task_create-IsRing (turn a) 1 a.user_stack a.task_userspace a.user_esp _ ring₁.0 v.user
        (λ i h. ground (arith, v.boot_user, v.kernel_user)) in
    let ring = started-IsRing a s ring₂.1 in
    let turns = λ (k : ℕ) (h : k ≤ 2).
      scheduler-round_robin (turn a) 2 k (start_tasks a s) ring (started-on a s)
        (started-current a s) h in
    (ring, (turns 1 (omega arith)).0, (turns 2 (omega arith)).0, (turns 2 (omega arith)).1)
