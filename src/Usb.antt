-- ===== src/Usb.antt =====
-- The USB drivers.
pub mod Mouse
mod Tests
pub mod GChar
