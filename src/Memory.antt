-- ===== src/Memory.antt =====
-- kernel/memory: the physical page allocator, paging, the virtual pages, the heap and the segment descriptors.
pub mod Page
pub mod Pmm
pub mod Gdt
pub mod Kmalloc
pub mod Paging
pub mod Vmm
pub mod Userspace
