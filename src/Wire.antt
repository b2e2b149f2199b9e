-- ===== src/Wire.antt =====
-- What the firmware and the bridge share (shared/pc-remote-signing): the signed requests, the
-- power actions, the firmware manifest and the order of versions.
pub mod Crypto
pub mod Request
pub mod PowerAction
pub mod Manifest
pub mod Version
pub mod Notice
pub mod Status
