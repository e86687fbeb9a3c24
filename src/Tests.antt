-- ===== src/Tests.antt =====
-- The theorems at concrete inputs, and runs of the modelled functions.
mod Pmm
mod Tty
mod Keyboard
mod Tables
mod Libc
mod Kmalloc
mod Tasks
mod Paging
mod Vmm
mod Shell
mod Userspace
mod Start
