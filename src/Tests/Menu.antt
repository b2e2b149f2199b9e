-- ===== src/Tests/Menu.antt =====
-- A run of Firmware/Telegram/StatusMenu.antt.
use m5stack_pc_remote.Base.{true, false, All}
use m5stack_pc_remote.Wire.Status.{PcStatusSnapshot, from_snapshot, status_buttons}
use m5stack_pc_remote.Firmware.Telegram.StatusMenu.{IsOffered, status_buttons-IsOffered}

abbrev snapshot : PcStatusSnapshot
snapshot = record { pc_online = true; bridge_online = true; is_locked = false }

status_buttons-IsOffered_example :
    All (All (IsOffered snapshot)) (status_buttons (from_snapshot snapshot))
status_buttons-IsOffered_example = status_buttons-IsOffered snapshot
