-- ===== src/Calendar.antt =====
-- The clock and the calendar of firmware/src/ui.rs.
pub mod Civil
pub mod Years
pub mod Months
pub mod Days
pub mod Succession
pub mod View
pub mod Grid
