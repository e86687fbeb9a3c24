-- ===== src/Memory/Pmm/Boot.antt =====
-- `pmm_init` and `pmm_init_user_task` of kernel/memory/pmm.c. The structures that GRUB left in memory
-- are read through `mmap` and `mods`, which give the record at an address.
pub mod Laws
use aosis.Base.{
  ℕ, zero, suc, ◌+◌, ◌-◌, ◌*◌, ◌/◌, ◌%◌, ◌^◌, Bool, true, false, ◌&&◌, Option, none, some, ltb,
  ◌==◌, if◌then◌else◌, length, get_or, set, u32, sub32, shl32, shr, not32, bit_and, Result, ok,
  panic, fault, ◌>>=◌,
}
use aosis.Bits.{set_bit}
use aosis.Memory.Pmm.{PhysicalMemory, pmm_init_struct}
use aosis.Task.UserTask.{UserTaskInfo, UserTask, task_init_user_task_info}

-- The fields of struct multiboot_info that the allocator reads.
pub record MultibootInfo : Type 0 where
  pub flags : ℕ
  pub mods_addr : ℕ
  pub mmap_length : ℕ
  pub mmap_addr : ℕ

-- struct multiboot_mmap_entry, less the fields that nothing reads
pub record MmapEntry : Type 0 where
  pub addr_low : ℕ
  pub len_low : ℕ
  pub entry_type : ℕ

-- struct multiboot_mod_list, less the fields that nothing reads
pub record ModList : Type 0 where
  pub mod_start : ℕ
  pub mod_end : ℕ

-- sizeof(multiboot_memory_map_t)
abbrev pub mmap_entry_size : ℕ
mmap_entry_size = 24

abbrev pub multiboot_memory_available : ℕ
multiboot_memory_available = 1

-- What the loop over the memory map has gathered; `last_mem_addr` is not initialised at first.
pub record MemoryEnd : Type 0 where
  pub total_memory : ℕ
  pub last_mem_addr : Option ℕ

unfoldable pub see_entry : MmapEntry → MemoryEnd → MemoryEnd
see_entry entry found =
    if entry.entry_type == multiboot_memory_available
    then record {
      total_memory = entry.len_low;
      last_mem_addr = some (u32 (entry.addr_low + entry.len_low));
    }
    else found

-- The loop from byte `i` of the map, with `left` rounds to go.
unfoldable pub mmap_loop : (ℕ → MmapEntry) → ℕ → ℕ → ℕ → MemoryEnd → MemoryEnd
mmap_loop mmap mmap_addr zero i found = found
mmap_loop mmap mmap_addr (suc left) i found =
    mmap_loop mmap mmap_addr left (i + mmap_entry_size) (see_entry (mmap (mmap_addr + i)) found)

-- The user task's description that `pmm_init_user_task` saves.
unfoldable pub module_info : ModList → UserTaskInfo
module_info user_module = record {
  starting_eip = 0;
  phys_addr_start = user_module.mod_start;
  phys_addr_end = user_module.mod_end;
  len = sub32 user_module.mod_end user_module.mod_start;
}

-- The bit that `pmm_init_user_task` sets, as it computes it: the page is a byte offset, and the
-- bit's number is a mask. A shift by 32 or more and a word outside the bitmap are undefined.
unfoldable pub pmm_init_user_task :
    ModList → PhysicalMemory → UserTask → Result (PhysicalMemory × UserTask)
pmm_init_user_task user_module pmm task =
    let page = sub32 user_module.mod_start pmm.starting_addr in
    let bitmap_index = shr page 5 in
    let bitmap_bit = not32 (shl32 0xFFFFFFFF (page % 32)) in
    let bitmap' =
      set pmm.bitmap bitmap_index (set_bit (get_or pmm.bitmap bitmap_index 0) bitmap_bit) in
    if ltb bitmap_index (length pmm.bitmap) && ltb bitmap_bit 32
    then ok
        (record pmm { bitmap = bitmap' }, task_init_user_task_info (module_info user_module) task)
    else fault

-- The number of rounds is that of the test `i < mbt->mmap_length`, as `i` grows by the entry's size.
unfoldable pub pmm_init :
    (ℕ → MmapEntry)
    → (ℕ → ModList)
    → ℕ
    → MultibootInfo
    → PhysicalMemory
    → UserTask
    → Result (PhysicalMemory × UserTask)
pmm_init mmap mods kernel_end mbt pmm task =
    let rounds = (mbt.mmap_length + mmap_entry_size - 1) / mmap_entry_size in
    let found =
      mmap_loop mmap mbt.mmap_addr rounds 0
        (record { total_memory = pmm.total_memory; last_mem_addr = none }) in
    if bit_and (shr mbt.flags 6) 1 == 0 then panic else elim found.last_mem_addr [
      | none ↦ fault
      | some last_mem_addr ↦
          pmm_init_user_task (mods mbt.mods_addr)
            (pmm_init_struct kernel_end last_mem_addr
              (record pmm { total_memory = found.total_memory }))
            task
    ]
