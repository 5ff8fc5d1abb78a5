-- ===== src/Mm.antt =====
-- Memory management: kernel/mm and kernel/include/mm.h.
pub mod Pmm
pub mod Vmm
pub mod Heap
