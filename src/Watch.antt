-- ===== src/Watch.antt =====
-- The timers, debouncers and watchers of shared/ that decide when the device acts or notifies.
pub mod StableNotify
pub mod PowerNotify
pub mod WakeWatch
pub mod SleepWatch
pub mod WakeTexts
pub mod OnlineState
pub mod UpdateCursor
pub mod AlertThrottle
pub mod Timers
