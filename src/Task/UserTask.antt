-- ===== src/Task/UserTask.antt =====
-- `task_init_user_task_info` of kernel/task/task.c and struct user_task_info of
-- include/kernel/task/task.h. The function's `static bool once` and the file's static `user_task`
-- are the state.
use aosis.Base.{ℕ, Bool, false, if◌then◌else◌}

-- struct user_task_info
pub record UserTaskInfo : Type 0 where
  pub starting_eip : ℕ
  pub phys_addr_start : ℕ
  pub phys_addr_end : ℕ
  pub len : ℕ

pub record UserTask : Type 0 where
  pub user_task : UserTaskInfo
  pub once : Bool

-- Only the first call has an effect.
unfoldable pub task_init_user_task_info : UserTaskInfo → UserTask → UserTask
task_init_user_task_info info s = if s.once then record { user_task = info; once = false } else s
