-- ===== src/Tests.antt =====
-- Runs on concrete inputs, one for each result of Lib.antt that has hypotheses or arguments.
pub mod Instances
pub mod Stable
pub mod Power
pub mod Wake
pub mod Sleep
pub mod Online
pub mod Menu
pub mod Polls
pub mod Alerts
pub mod Wires
pub mod Bridges
pub mod Devices
pub mod Fetches
pub mod Panels
pub mod Loops
pub mod Senders
