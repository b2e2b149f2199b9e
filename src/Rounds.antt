-- ===== src/Rounds.antt =====
-- The periodic rounds of the loop of firmware/src/main.rs: the STATUS round and the battery round.
pub mod Target
pub mod Status
pub mod Events
pub mod Notices
pub mod Announced
pub mod Counts
pub mod Bounds
pub mod Battery
pub mod Sources
