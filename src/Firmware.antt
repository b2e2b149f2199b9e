-- ===== src/Firmware.antt =====
-- The firmware of the M5Stack (firmware/src): over-the-air updates, the settings and the Telegram
-- client.
pub mod Ota
pub mod Validation
pub mod Settings
pub mod Telegram
pub mod BridgeClient
pub mod Notifier
pub mod MagicPacket
