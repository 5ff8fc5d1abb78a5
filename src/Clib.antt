-- ===== src/Clib.antt =====
-- The C library that the kernel and the programs share: lib/common and include.
pub mod Mem
pub mod Str
pub mod Format
pub mod Tar
pub mod Time
pub mod Print
pub mod Tests
