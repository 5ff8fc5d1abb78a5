-- ===== src/Driver.antt =====
-- Drivers: kernel/driver and kernel/include/driver.
pub mod Keyboard
pub mod Clock
pub mod Ports
pub mod Console
pub mod Reading
pub mod Tests
