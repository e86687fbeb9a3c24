-- ===== src/Lib.antt =====
-- A verification library for the AOSIS kernel, a small 32-bit x86 kernel in C.
--
-- The parts of the kernel, and the files that model them:
--
-- Base holds what the parts share: Boolean tests with their laws, arrays as lists (Base/Array), 8-,
-- 16- and 32-bit words as natural numbers with the wrap-around written out (Base/Word), the three
-- ways in which code can end (Base/Effect: a value; `panic`, a call of the kernel's panic; `fault`,
-- an access that C leaves undefined) and counted loops (Base/Loop). Bits models
-- include/kernel/common/common_macros.h and proves what the macros do to each bit.
--
-- Memory/Page and Memory/Pmm model include/kernel/memory/pmm.h and kernel/memory/pmm.c.
-- `PhysicalMemory` is struct physical_memory; `pmm_alloc_page`, `pmm_free_page` and
-- `pmm_init_struct` are the functions of those names, and `alloc_loop`, `find_unset` and
-- `clear_frame` the loops and the block inside them. Memory/Pmm/Boot adds `pmm_init` and
-- `pmm_init_user_task`, which read the structures of include/kernel/memory/multiboot.h through
-- functions from an address to a record, and save the user module's description in Task/UserTask
-- (kernel/task/task.c). Task/Switch models the rest of that file and kernel/task/scheduler.c: the
-- tasks by their addresses, the list, and the choice of the next task; Task/Test has the loop of the
-- test task. `Pmm/Frames` reads the bitmap as one sequence of frames, which the theorems on
-- allocation and release use. Memory/Gdt models kernel/memory/gdt.c.
--
-- Memory/Paging models kernel/memory/paging.c, paging.h and memory.h: the directories and the tables
-- by the virtual addresses at which the kernel reads them, with an entry's bits as Booleans;
-- Paging/Walk adds the two lookups of the processor. Memory/Vmm models kernel/memory/vmm.c: the
-- linked list of blocks is a list, the loops along it are `take_page`, `free_loop` and
-- `phys_addr_loop`, and what `kmalloc` returns for a new descriptor is an argument, which
-- Start/Kmain supplies. Both call `pmm_alloc_page` of Memory/Pmm, and Vmm calls Paging. Directory
-- and table are two views of a page, of which the functions use one; `share_page` is the case in
-- which `paging_init` uses one page as both. Memory/Userspace models the functions of paging.c that
-- make the address space of a user program; they allocate with Vmm.
--
-- Terminal/Vga and Terminal/Tty model kernel/terminal/vga.c and kernel/terminal/tty.c. `Tty` has the
-- file's statics, the screen's 2000 cells, and a log of the bytes sent to the ports with `outb`
-- (kernel/common/ports.c), the latest first. Terminal/Tty/Print has the functions that print strings
-- and numbers, and `kprintf` with its arguments as a list.
--
-- Interrupt/Keyboard models kernel/interrupt/keyboard.c: the ring of key events, the decoder with
-- the tables of include/kernel/interrupt/keyboard_lut.h (Keyboard/Layout), and the interrupt
-- handler, which clears the terminal on its shortcut. Interrupt/Idt models
-- kernel/interrupt/interrupt.c and Interrupt/Pic kernel/interrupt/pic.c, whose tick calls the
-- scheduler of Task/Switch; a handler is its address, 0 for NULL.
--
-- Memory/Kmalloc models kernel/memory/kmalloc.c: the list of free blocks on a memory that gives the
-- 32-bit word at each address; the page that `kmalloc` asks of `vmm_alloc_page` is an argument.
-- Kmalloc/Chain reads the list from memory as a list of blocks, and Kmalloc/Release and
-- Kmalloc/FirstFit have the two operations on such lists that `kfree` and `kmalloc` are compared
-- with.
--
-- Shell models kernel/terminal/kshell.c over the keyboard, the terminal, `strcmp` and the character
-- tests: `kshell_round` is one round of its endless loop, after the interrupt that `halt` waits for.
-- Shell/Strip and Shell/Names are about the two loops of `command_run`, Shell/Edit about the line
-- editor, and Shell/Session about whole lines.
--
-- Start/Kmain models `kmain` of kernel/kernel.c up to the loop of the shell: `Kernel` has the
-- statics of all the files, `Links` the addresses that the linker and the assembly give, `Loaded`
-- what the boot loader left. Its steps call the functions of the other modules in the source's
-- order; `kernel_kmalloc` and `with_pages` join `kmalloc` to `vmm_alloc_page`, each of which calls
-- the other. Start has the part on the tasks by itself, over Task/Switch; Start/Panic models `panic`
-- and the page fault handler of kernel/memory/paging.c, which calls it. The other modules of Start
-- follow the boot: the text, the heap, the frames, the memory, the pages.
--
-- Libc/Ctype models libc/ctype; Libc/Stdio libc/stdio; Libc/Mem and Libc/Str model libc/string, on a
-- memory that gives the byte at each address.
--
-- Bounds: a 32-bit value is a natural number below 2 ^ 32, a theorem says so where it needs it.
-- Every loop of the modelled code is counted: its number of rounds is computed from the state as the
-- source's test says. Fuel is used for the digits of `tty_printint`, where 32 rounds are the places
-- of its array and 10 are enough; for the loops of the heap along its list, where more rounds than
-- the list has blocks are enough; and for the loops of `strlen`, `strcmp` and `strcat`, where more
-- rounds than the string has characters are enough. A loop without fuel left returns none.
--
-- The names of the shell's commands are shorter than the 16 rounds of its `strcmp`. The boot gives
-- the loops of the heap 1024 rounds; its list is then one block.
--
-- Not modelled: the assembly (boot, interrupt stubs, loading of tables, context switch), whose
-- addresses are arguments; interrupts that come during the boot; the messages of pmm_alloc_page.
pub mod Base
pub mod Bits
pub mod Task
pub mod Memory
pub mod Terminal
pub mod Libc
pub mod Interrupt
pub mod Shell
pub mod Start
pub mod Tests
