-- ===== src/Task.antt =====
-- kernel/task: the description of the user program that the boot loader left in memory, and the list of
-- tasks that the scheduler goes round.
pub mod UserTask
pub mod Switch
pub mod Test
