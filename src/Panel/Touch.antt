-- ===== src/Panel/Touch.antt =====
-- What a tap does (firmware/src/main.rs). The controls of the screen, the radio and the bridge are
-- inputs of a turn, and what the turn sends and draws are its outputs. A turn reads one clock, and
-- a drawing that fails ends the program, so that no turn follows it.
use m5stack_pc_remote.Base.{
  ℕ, Bool, true, false, ◌&&◌, Option, none, some, List, [], ◌∷◌, ◌++◌, if◌then◌else◌,
}
use m5stack_pc_remote.Base.Decimal.{show_ℕ}
use m5stack_pc_remote.Base.Result.{Result, ok, err}
use m5stack_pc_remote.Base.Text.{Text, text}
use m5stack_pc_remote.Wire.PowerAction.{PowerAction, reboot, shutdown}
use m5stack_pc_remote.Firmware.BridgeClient.{accepted_text, rejected_text, failed_text}
use m5stack_pc_remote.Watch.WakeTexts.{wake_request_text, wake_request_failed_text}
use m5stack_pc_remote.Firmware.Telegram.Operations.{is_accepted}
use m5stack_pc_remote.Panel.Layout.{
  contains, wake_button, reboot_button, shutdown_button, clock_tap_zone, calendar_back_button,
  cancel_button, ok_button, Screen, main, calendar, confirm, power_button_tapped,
}

-- The inputs of a turn. The lock is read when the turn starts, when a tap is tested, and again
-- when the operation is about to run.
pub record Turn : Type 0 where
  pub now : ℕ
  pub touch : Option (ℕ × ℕ)
  pub locked_at_start : Bool
  pub locked_at_tap : Bool
  pub locked_at_run : Bool
  pub pc_online : Bool
  pub brightness : ℕ
  pub brightness_written : Bool
  pub backlight_written : Bool
  pub wol_sent : Bool
  pub wol_port : ℕ
  pub bridge : Result Text ℕ
  pub pc_ip_address : Text
  pub has_notifier : Bool

pub data Output : Type 0 where
  draw : Screen → Output
  wol : ℕ → Output
  command : PowerAction → Text → Output
  notice : Text → Output

-- The locals of the loop that a turn changes, the wake watch that it shares, and the state of the
-- supply of the backlight, which the power controller holds.
pub record Panel : Type 0 where
  pub screen : Screen
  pub locked : Bool
  pub toast : Option Text
  pub toast_at : ℕ
  pub touch_was_down : Bool
  pub backlight_on : Bool
  pub last_touch_activity_at : ℕ
  pub applied_brightness : ℕ
  pub supply_on : Bool
  pub wake_watch : Option ℕ

-- `LOCKED_TOAST`.
abbrev pub locked_toast : Text
locked_toast = text "Locked (/unlock in Telegram)"

unfoldable pub reject_locked : Turn → Panel → Panel × List Output
reject_locked t p =
    (record p { toast = some locked_toast; toast_at = t.now; screen = main }, draw main ∷ [])

unfoldable pub notify_panel_action : Turn → Text → List Output
notify_panel_action t report =
    if t.has_notifier then notice (text "[本体パネル操作] " ++ report) ∷ [] else []

-- `refresh_current_screen`: a confirmation stays as it is drawn.
abbrev pub refresh : Screen → List Output
refresh (confirm action) = []
refresh s = draw s ∷ []

abbrev pub wake_report : Bool → Text × Text
wake_report true = (text "Magic packet sent", wake_request_text)
wake_report false = (text "WOL failed", wake_request_failed_text)

-- The arm of the WAKE button, under the lock of power operations.
unfoldable pub press_wake : Turn → Panel → Panel × List Output
unfolding reject_locked
press_wake t p = if t.locked_at_run then reject_locked t p else (
  record p {
    wake_watch = if t.wol_sent then (if t.pc_online then none else some t.now) else p.wake_watch;
    toast = some (wake_report t.wol_sent).0;
    toast_at = t.now;
  },
  wol t.wol_port ∷ notify_panel_action t (wake_report t.wol_sent).1 ++ refresh p.screen,
)

abbrev pub command_report : PowerAction → Result Text ℕ → Text × Text
command_report action (err e) = (text "Command failed", failed_text action)
command_report action (ok code) =
    if is_accepted code
    then (text "Command accepted", accepted_text action)
    else (text "Command rejected (" ++ (show_ℕ code ++ text ")"), rejected_text action code)

-- The arm of the OK button.
unfoldable pub press_ok : Turn → Panel → PowerAction → Panel × List Output
unfolding reject_locked
press_ok t p action = if t.locked_at_run then reject_locked t p else (
  record p { toast = some (command_report action t.bridge).0; toast_at = t.now; screen = main },
  command action t.pc_ip_address ∷ notify_panel_action t (command_report action t.bridge).1
      ++ draw main ∷ [],
)

-- A change of the screen, which is drawn.
abbrev pub show : Panel → Screen → Panel × List Output
show p s = (record p { screen = s }, draw s ∷ [])

abbrev pub is_main : Screen → Bool
is_main main = true
is_main _ = false

abbrev pub is_calendar : Screen → Bool
is_calendar calendar = true
is_calendar _ = false

-- The arm of the main screen and of the calendar.
unfoldable pub press_button : Turn → Panel → ℕ → ℕ → Panel × List Output
unfolding press_wake contains
press_button t p x y =
    if contains wake_button x y
    then press_wake t p
    else if t.pc_online && contains reboot_button x y
    then show p (confirm reboot)
    else if t.pc_online && contains shutdown_button x y
    then show p (confirm shutdown)
    else if is_main p.screen && contains clock_tap_zone x y
    then show p calendar
    else if is_calendar p.screen && contains calendar_back_button x y
    then show p main
    else (p, [])

-- The arm of the confirmation.
unfoldable pub press_decision : Turn → Panel → PowerAction → ℕ → ℕ → Panel × List Output
unfolding press_ok contains
press_decision t p action x y =
    if contains cancel_button x y
    then show (record p { toast = none }) main
    else if contains ok_button x y
    then press_ok t p action
    else (p, [])

abbrev pub press_screen : Screen → Turn → Panel → ℕ → ℕ → Panel × List Output
press_screen (confirm action) t p x y = press_decision t p action x y
press_screen _ t p x y = press_button t p x y

-- A touch that was not there in the turn before.
unfoldable pub tap : Turn → Panel → ℕ → ℕ → Panel × List Output
unfolding power_button_tapped press_button press_decision
tap t p x y =
    if power_button_tapped p.screen x y && t.locked_at_tap
    then reject_locked t p
    else press_screen p.screen t p x y
