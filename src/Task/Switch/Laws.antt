-- ===== src/Task/Switch/Laws.antt =====
-- The list of tasks is a ring, and the scheduler goes round it.
use aosis.Base.{
  ℕ, zero, suc, ◌+◌, ◌≤◌, ◌<◌, ◌≡◌, ◌≢◌, ◌⊎◌, ◌∙◌, refl, ap, arith, true, ◌==◌, if◌then◌else◌,
  for_range, Bool-cases, inl, inr,
}
use aosis.Task.Switch.{
  Task, Tasks, append_task, task_create_kernel, task_create_user, scheduler, task_init,
}

-- The tasks at `at 0`, ..., `at n`, in this order, are a ring from the head of the list to its tail.
pub record IsRing (at : ℕ → ℕ) (n : ℕ) (s : Tasks) : Type 0 where
  pub head : s.task_list_head ≡ at 0
  pub tail : s.task_list_tail ≡ at n
  pub link : (i : ℕ) → i < n → (s.tasks (at i)).next_task ≡ at (i + 1)
  pub close : (s.tasks (at n)).next_task ≡ at 0
  pub real : (i : ℕ) → i ≤ n → at i ≢ 0
  pub apart : (i j : ℕ) → i < j → j ≤ n → at i ≢ at j

equal-cases : (i j : ℕ) → (i ≡ j) ⊎ (i ≢ j)
equal-cases i j = elim (Bool-cases (i == j)) [
  | inl e ↦ inl (ground arith)
  | inr e ↦ inr (ground arith)
]

append_task-IsRing :
    (at : ℕ → ℕ) (n : ℕ) (t : Task) (s : Tasks)
    → IsRing at n s
    → t.next_task ≡ at 0
    → at (n + 1) ≢ 0
    → ((i : ℕ) → i ≤ n → at i ≢ at (n + 1))
    → IsRing at (n + 1) (append_task (at (n + 1)) t s)
unfolding append_task
append_task-IsRing at n t s v e new fresh = record {
  head = ground (arith, v.head, v.tail, v.real n);
  tail = ground (arith, v.tail, v.real n);
  link = λ i h. elim (equal-cases i n) [
    | inl last ↦ rw last (ground (arith, v.tail, v.real n (omega arith)))
    | inr before ↦ ground (
      arith,
      v.tail,
      v.real n (omega arith),
      v.link i (omega arith),
      fresh i (omega arith),
      v.apart i n (omega arith) (omega arith),
    )
  ];
  close = ground (arith, v.tail, v.real n (omega arith), fresh n (omega arith), e);
  real = λ i h. elim (equal-cases i (n + 1)) [
    | inl last ↦ rw last new
    | inr before ↦ v.real i (omega arith)
  ];
  apart = λ i j h g. elim (equal-cases j (n + 1)) [
    | inl last ↦ rw last (fresh i (omega arith))
    | inr before ↦ v.apart i j h (omega arith)
  ];
}

-- Creating a task, of the kernel or of the user, at an address that is not 0 and not that of a task of the
-- ring puts it into the ring, behind the last and before the head.
pub task_create-IsRing :
    (at : ℕ → ℕ) (n stack a b : ℕ) (s : Tasks)
    → IsRing at n s
    → at (n + 1) ≢ 0
    → ((i : ℕ) → i ≤ n → at i ≢ at (n + 1))
    → IsRing at (n + 1) (task_create_kernel (at (n + 1)) stack a b s)
      × IsRing at (n + 1) (task_create_user (at (n + 1)) stack a b s)
unfolding task_create_kernel task_create_user
task_create-IsRing at n stack a b s v new fresh = (
  append_task-IsRing at n _ _
      (record {
        head = v.head;
        tail = v.tail;
        link = v.link;
        close = v.close;
        real = v.real;
        apart = v.apart;
      })
      v.head new fresh,
  append_task-IsRing at n _ _
      (record {
        head = v.head;
        tail = v.tail;
        link = v.link;
        close = v.close;
        real = v.real;
        apart = v.apart;
      })
      v.head new fresh,
)

scheduler-next :
    (at : ℕ → ℕ) (n i : ℕ) (s : Tasks)
    → IsRing at n s
    → s.scheduler_initialized ≡ true
    → i ≤ n
    → s.current_task ≡ at i
    → ((scheduler s).current_task ≡ at (if i == n then 0 else i + 1))
      × ((scheduler s).tasks ≡ s.tasks)
      × ((scheduler s).task_list_head ≡ s.task_list_head)
      × ((scheduler s).task_list_tail ≡ s.task_list_tail)
      × ((scheduler s).scheduler_initialized ≡ true)
unfolding scheduler
scheduler-next at n i s v on h e = elim (equal-cases i n) [
  | inl last ↦ ground (arith, on, e, last, v.close, v.real 0 (omega arith), v.real n (omega arith))
  | inr before ↦
      ground (arith, on, e, v.link i (omega arith), v.real i h, v.real (i + 1) (omega arith))
]

scheduler-IsRing :
    (at : ℕ → ℕ) (n i : ℕ) (s : Tasks)
    → IsRing at n s
    → s.scheduler_initialized ≡ true
    → i ≤ n
    → s.current_task ≡ at i
    → IsRing at n (scheduler s)
scheduler-IsRing at n i s v on h e =
    let (_, tasks, head, tail, _) = scheduler-next at n i s v on h e in
    record {
      head = head ∙ v.head;
      tail = tail ∙ v.tail;
      link = λ k l. ap (λ (t : ℕ → Task). (t (at k)).next_task) tasks ∙ v.link k l;
      close = ap (λ (t : ℕ → Task). (t (at n)).next_task) tasks ∙ v.close;
      real = v.real;
      apart = v.apart;
    }

scheduler-reaches :
    (k j : ℕ) (at : ℕ → ℕ) (n i : ℕ) (s : Tasks)
    → IsRing at n s
    → s.scheduler_initialized ≡ true
    → i + k ≤ n
    → s.current_task ≡ at i
    → (for_range k j (λ _ t. scheduler t) s).current_task ≡ at (i + k)
unfolding for_range
scheduler-reaches zero j at n i s v on h e = e ∙ ap at {x = i} {y = i + 0} (omega arith)
scheduler-reaches (suc k) j at n i s v on h e =
    let moved = scheduler-next at n i s v on (omega arith) e in
    let here : (scheduler s).current_task ≡ at (i + 1) = ground (arith, moved.0) in
    let ring = scheduler-IsRing at n i s v on (omega arith) e in
    scheduler-reaches k (j + 1) at n (i + 1) (scheduler s) ring moved.4 (omega arith) here
    ∙ ap at {x = i + 1 + k} {y = i + suc k} (omega arith)

scheduler-returns :
    (k j : ℕ) (at : ℕ → ℕ) (n i : ℕ) (s : Tasks)
    → IsRing at n s
    → s.scheduler_initialized ≡ true
    → i + k ≡ n
    → s.current_task ≡ at i
    → (for_range (suc k) j (λ _ t. scheduler t) s).current_task ≡ at 0
unfolding for_range
scheduler-returns zero j at n i s v on h e =
    ground (arith, scheduler-next at n i s v on (omega arith) e)
scheduler-returns (suc k) j at n i s v on h e =
    let moved = scheduler-next at n i s v on (omega arith) e in
    let here : (scheduler s).current_task ≡ at (i + 1) = ground (arith, moved.0) in
    let ring = scheduler-IsRing at n i s v on (omega arith) e in
    scheduler-returns k (j + 1) at n (i + 1) (scheduler s) ring moved.4 (omega arith) here

-- Once the scheduler is initialised and the head of the ring of `n + 1` tasks runs, `k` calls, for `k` up to `n`,
-- bring on the task at place `k`, so each task has its turn, and `n + 1` calls the head again.
pub scheduler-round_robin :
    (at : ℕ → ℕ) (n k : ℕ) (s : Tasks)
    → IsRing at n s
    → s.scheduler_initialized ≡ true
    → s.current_task ≡ at 0
    → k ≤ n
    → ((for_range k 0 (λ _ t. scheduler t) s).current_task ≡ at k)
      × ((for_range (suc n) 0 (λ _ t. scheduler t) s).current_task ≡ at 0)
scheduler-round_robin at n k s v on e h = (
  scheduler-reaches k 0 at n 0 s v on (omega arith) e ∙ ap at {x = 0 + k} {y = k} (omega arith),
  scheduler-returns n 0 at n 0 s v on (omega arith) e,
)

-- The boot task alone, at an address that is not 0, is a ring after `task_init`.
pub task_init-IsRing :
    (boot_task page_directory : ℕ) (s : Tasks)
    → boot_task ≢ 0
    → IsRing (λ _. boot_task) 0 (task_init boot_task page_directory s)
unfolding task_init
task_init-IsRing boot_task page_directory s h = record {
  head = refl;
  tail = refl;
  link = λ i l. absurd (omega arith);
  close = ground arith;
  real = λ i l. h;
  apart = λ i j l g. absurd (omega arith);
}
