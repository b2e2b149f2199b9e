-- ===== src/Panel.antt =====
-- The panel of the device: the screens, the taps and the turns of the loop of firmware/src/main.rs.
pub mod Layout
pub mod Touch
pub mod Turns
pub mod Shown
pub mod Taps
pub mod Backlight
pub mod Command
