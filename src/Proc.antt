-- ===== src/Proc.antt =====
-- Processes: kernel/proc and kernel/include/proc.
pub mod Task
pub mod Scheduler
pub mod Exit
pub mod Env
pub mod Fd
pub mod Tests
