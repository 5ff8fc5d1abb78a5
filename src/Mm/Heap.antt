-- ===== src/Mm/Heap.antt =====
-- The heap of the kernel, kernel/mm/heap.c, and the system calls for memory of
-- kernel/mm/syscall_wrappers.c. `malloc` returns in its first line, so that every block is an area of
-- pages of its own and `free` does nothing; the list of blocks that was kept before is Mm/Heap/Blocks.
pub mod Blocks
pub mod Malloc
pub mod Tests
use fruity_orange.Base.{ℕ, zero, suc, ◌+◌, ◌-◌, ◌*◌, ◌/◌, ◌%◌, ◌^◌, ◌==◌, if◌then◌else◌}
use fruity_orange.Mm.Vmm.{M, pure, ◌>>=◌, ◌>>◌, vmm_kernel_flags, vmm_user_flags}
use fruity_orange.Mm.Vmm.Find.{vmm_find, fill_area, the_context, vmm_unmap_area}
use fruity_orange.Vfs.Inode.{num_pages}

abbrev pub vaddr_kernel_heap_start : ℕ
vaddr_kernel_heap_start = 0xe0000000

abbrev pub vaddr_kernel_heap_end : ℕ
vaddr_kernel_heap_end = 0xefffffff

abbrev pub vaddr_user_heap_start : ℕ
vaddr_user_heap_start = 0xa0000000

abbrev pub vaddr_user_heap_end : ℕ
vaddr_user_heap_end = 0xafffffff

pub heap_pages : ℕ → M ℕ
heap_pages pages = do
  context ← the_context
  vaddr ← vmm_find context pages vaddr_kernel_heap_start vaddr_kernel_heap_end
  if vaddr == 0 then pure 0 else (fill_area pages vaddr vmm_kernel_flags >> pure vaddr)

pub malloc : ℕ → M ℕ
unfolding heap_pages
malloc bytes = heap_pages (num_pages bytes)

abbrev pub free : ℕ → M (Unit {0})
free ptr = pure tt

-- The address for `ecx`, and `used_mem_pages` of the process.
pub syscall_malloc_pages : ℕ → ℕ → M (ℕ × ℕ)
syscall_malloc_pages pages used_mem_pages = do
  context ← the_context
  vaddr ← vmm_find context pages vaddr_user_heap_start vaddr_user_heap_end
  fill_area pages vaddr vmm_user_flags
  pure (vaddr, (used_mem_pages + pages) % 2 ^ 32)

pub syscall_mfree_pages : ℕ → ℕ → ℕ → M ℕ
syscall_mfree_pages vaddr pages used_mem_pages = do
  context ← the_context
  r ← vmm_unmap_area context vaddr pages
  pure ((used_mem_pages + 2 ^ 32 - pages) % 2 ^ 32)
