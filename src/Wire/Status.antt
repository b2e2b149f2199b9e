-- ===== src/Wire/Status.antt =====
-- The state of the PC and the buttons of `/status` (shared/pc-remote-signing/src/lib.rs); the labels
-- of the buttons are not modelled.
use m5stack_pc_remote.Base.{Bool, not, List, [], ◌∷◌, if◌then◌else◌}
use m5stack_pc_remote.Base.Text.{Text, text}

pub record PcStatusSnapshot : Type 0 where
  pub pc_online : Bool
  pub bridge_online : Bool
  pub is_locked : Bool

pub data PcControlStatus : Type 0 where
  locked off ready bridge_unavailable : PcControlStatus

-- `From<PcStatusSnapshot>`.
unfoldable pub from_snapshot : PcStatusSnapshot → PcControlStatus
from_snapshot s =
    if s.is_locked
    then locked
    else if not s.pc_online
    then off
    else if s.bridge_online
    then ready
    else bridge_unavailable

-- The data of the buttons.
abbrev pub cb_refresh : Text
cb_refresh = text "status:refresh"

abbrev pub cb_wake : Text
cb_wake = text "status:wake"

abbrev pub cb_reboot : Text
cb_reboot = text "status:reboot"

abbrev pub cb_shutdown : Text
cb_shutdown = text "status:shutdown"

abbrev pub cb_unlock : Text
cb_unlock = text "lock:off"

abbrev first_row : PcControlStatus → List Text
first_row ready = cb_reboot ∷ cb_shutdown ∷ []
first_row off = cb_wake ∷ []
first_row locked = cb_unlock ∷ []
first_row bridge_unavailable = []

abbrev with_refresh : List Text → List (List Text)
with_refresh [] = (cb_refresh ∷ []) ∷ []
with_refresh (b ∷ row) = (b ∷ row) ∷ (cb_refresh ∷ []) ∷ []

unfoldable pub status_buttons : PcControlStatus → List (List Text)
status_buttons status = with_refresh (first_row status)
