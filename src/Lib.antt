-- ===== src/Lib.antt =====
-- A development on the FruityOrange kernel (C for the x86) and on the C library in lib/common.
--
-- The parts, and how they interact:
--
-- - Mm/Pmm: kernel/mm/pmm.c, the physical memory manager. `Pmm` is its three globals: the bitmap
--   (one bit for each frame of 4 KiB, set when the frame is free), the frame freed last and the
--   flag that allows to hand it out at once. `pmm_alloc`, `pmm_free`, `pmm_mark_used` and
--   `init_pmm` are the functions of that name. Mm/Pmm/Boot reads the multiboot structures of
--   kernel/include/multiboot.h, which the boot loader fills in and which are data of the model.
-- - Mm/Vmm: kernel/mm/vmm.c and the constants of kernel/include/mm.h. The state is the words of
--   the page frames, the frames that are left, the context that is current and whether paging is
--   on. Page directories are words of their frame; page tables are reached by pointers, which the
--   walk of the processor, `page_walk`, translates. An operation is a function of the state whose
--   result is `none` at a page fault. Mm/Vmm/Table finds or makes a table, Mm/Vmm/Map and
--   Mm/Vmm/Unmap are about one page, Mm/Vmm/Find searches for room and maps areas, and
--   Mm/Vmm/Contexts is `vmm_create_context`, `vmm_fork`, `vmm_activate_context` and `init_vmm`.
--   A context is named by the physical address of its page directory. `automap`, an argument of
--   the functions that look for a table, makes the table of another context visible; it is given
--   by `window_on`, which needs none itself, as it works on the context that is current.
-- - Mm/Heap: kernel/mm/heap.c and the system calls of kernel/mm/syscall_wrappers.c, on Mm/Vmm.
-- - Clib: what kernel and programs share. Clib/Mem is lib/common/string/mem.c on a memory of
--   bytes; Clib/Str is lib/common/string/string.c, with the functions that write on the bytes of
--   memory in Clib/Str/Writes, and lib/common/stdlib/atoX.c; Clib/Format is the number formats
--   of lib/common/string/vsprintf.c and Clib/Print its format strings, where the bytes at the
--   literal "" that may be overwritten are an argument; Clib/Tar is lib/common/tar/tar.c with
--   the walk of kernel/vfs/initrd.c; Clib/Time is lib/common/time/time.c with include/time.h.
-- - Proc: kernel/proc and kernel/include/proc/proc.h. The process structures are a store from
--   addresses, so that the ring of `next` and `prev` has its aliasing. Proc/Task makes and links
--   them, Proc/Scheduler is kernel/proc/scheduler.c, Proc/Exit is sleeping, waiting and ending,
--   Proc/Env the environment and Proc/Fd the file descriptors.
-- - Vfs: kernel/vfs/inode.c, the permissions, the reading and the writing of inodes, whose
--   contents stand in the memory of Clib/Mem, the lookup of paths of
--   kernel/vfs/pathname_lookup.c, and the system calls of kernel/vfs/syscall_wrappers.c that
--   read, write and seek by the descriptors of Proc/Fd.
-- - Driver/Keyboard: kernel/driver/kbc/keyboard.c and translate.c, the interrupt handler of the
--   keyboard as a state machine and its tables. Driver/Clock is kernel/driver/cmos/rtc.c and
--   mktm.c, and Driver/Ports the writes to the ports of the cursor and of the timer.
-- - Driver/Console: kernel/driver/console/console.c. Its variables and the cells of the video
--   memory are `Screen`; `put_c`, `videotext_control`, `scroll` and `putchar` are functions of it,
--   Driver/Console/Puts is `parse_ansi`, `puts` and, with Clib/Print, `printf`.
-- - Driver/Reading: kernel/driver/kbc/syscall_wrapper.c, the calls of a process that waits for
--   keys and the step that the keyboard's handler takes for it, on the kernel of Proc/Task.
-- - Interrupt: kernel/interrupt, the descriptors, the tables of handlers, which kernel and
--   drivers fill, and the ends of interrupts. Interrupt/Segments is kernel/init/gdt.c.
-- - User/Tractius: tractius/main.c, the text editor: its buffers, the keys and saving.
-- - Base holds what the parts share: numbers with Boolean tests, lists with a read and a write
--   at an index, and the bits of words. The tests of a part are its module `Tests`.
--
-- Numbers are natural numbers with the wrap-around of the C types written out: int, unsigned
-- int, long and pointers have 32 bits on this machine. A C string that is only read is the list
-- of its bytes. A read outside of an array is the value `none` where the code can come to it.
--
-- Loops are structural where the C loop counts, and on fuel where it tests something else; out
-- of fuel they return `none`, except for the loops over tokens and the counts of digits, which
-- return what they have. The loops over pages get 2 ^ 20 rounds, one for each frame; the
-- digits of a number get 32, one for each bit; the loop over the tokens of a path gets its
-- length and 2, the walk over an archive its number of headers and 2, and the years of
-- `gmtime` the number of days; a loop around the ring of processes gets its number of
-- processes. The theorems say that these are enough. The loop of `vmm_unmap_page` gets one
-- round more than a table has entries, and a module is mapped in at most 2 ^ 20 rounds.
--
-- Not modelled: the assembly (entry stubs, loading of descriptor tables), port input and output,
-- what is printed for debugging, the TLB, and floating point.
pub mod Base
pub mod Mm
pub mod Clib
pub mod Proc
pub mod Vfs
pub mod Driver
pub mod Interrupt
pub mod User
