-- ===== src/Vfs.antt =====
-- The virtual file system: kernel/vfs and kernel/include/vfs.h.
pub mod Inode
pub mod Calls
pub mod Path
pub mod Tests
