-- ===== src/Bridge.antt =====
-- The Windows bridge (m5stack-pc-bridge).
pub mod NonceStore
pub mod Auth
pub mod Power
pub mod Server
