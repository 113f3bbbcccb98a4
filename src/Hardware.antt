-- ===== src/Hardware.antt =====
-- compyter/hardware/: the devices. Each is a state with the two operations that `Memory` calls, on
-- the offsets in its window.
pub mod Intc
pub mod Timer
pub mod Keyboard
pub mod Printer
pub mod Storage
pub mod Rtc
pub mod Internet
