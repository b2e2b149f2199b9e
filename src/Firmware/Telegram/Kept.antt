-- ===== src/Firmware/Telegram/Kept.antt =====
-- The commands of the Telegram client keep it well formed.
use m5stack_pc_remote.Base.Result.{Result, ok, err}
use m5stack_pc_remote.Base.{
  ℕ, ◌≡◌, refl, inl, inr, true, false, not, ◌&&◌, Option, none, some, arith, Bool-cases,
  Option-cases,
}
use m5stack_pc_remote.Base.Int.{ℤ}
use m5stack_pc_remote.Base.Text.{Text}
use mathlib.Core.Path.{subst}
use m5stack_pc_remote.Wire.PowerAction.{PowerAction, sleep, eq_action}
use m5stack_pc_remote.Firmware.Settings.{ConfigChange, IsValidChange, apply-IsValidSettings}
use m5stack_pc_remote.Firmware.Telegram.{
  PendingKind, power, config, firmware_update, Config, Client, World,
}
use m5stack_pc_remote.Firmware.Telegram.Operations.{
  after_command, is_accepted, run_power_action, do_wake, accepted_kind, consume_pending,
  apply_config_change, confirmed_power, confirmed_config, confirmed_firmware, handle_confirmation,
  handle_config_confirmation, handle_update_confirmation,
}
use m5stack_pc_remote.Firmware.Telegram.Dispatch.{
  Command, show_status, show_settings, lock, unlock, wake, ask_power, confirm_power, update,
  confirm_update, confirm_set, set_value, all_commands, find_command, allowed_while_locked,
  contains, run_command, dispatch_command,
}
use m5stack_pc_remote.Firmware.Telegram.Commands.{
  is_harmless, allowed-IsHarmless, contains-IsHarmless,
}
use m5stack_pc_remote.Firmware.Telegram.Confirmed.{accepted_kind_lem}
use m5stack_pc_remote.Firmware.Telegram.Confirmed.Sound.{consumed}
use m5stack_pc_remote.Firmware.Telegram.WellFormed.{
  IsValidKind, IsValidPending, IsWell, request-IsWell, handle_set_command-IsWell,
  handle_update_command-IsWell, set_operation_lock-IsWell,
}

abbrev pub IsValidTaken : Option PendingKind → Type 0
IsValidTaken none = Unit
IsValidTaken (some kind) = IsValidKind kind

pub accepted_kind-IsValidTaken :
    (w : World) (c : Client) (supplied : Text)
    → IsWell c
    → IsValidTaken (accepted_kind w.now supplied c.pending)
accepted_kind-IsValidTaken w c supplied (s, p, l) =
    elim (Option-cases (accepted_kind w.now supplied c.pending)) [
      | inl e ↦ rw e tt
      | inr (kind, e) ↦
          let (q, held_before, k, _, _) = accepted_kind_lem w.now supplied c.pending kind e in
          rw e (subst IsValidKind k (subst IsValidPending held_before p))
    ]

pub consumed-IsWell : (c : Client) → IsWell c → IsWell (consumed c)
consumed-IsWell c (s, p, inl l) = (s, tt, inl l)
consumed-IsWell c (s, p, inr l) = (s, tt, inr (refl, l.1))

after_command-IsWell :
    (c : Client) (action : PowerAction) (response : Result Text ℕ)
    → IsWell c
    → IsWell (after_command c action response)
after_command-IsWell c action (err e) i = i
after_command-IsWell c action (ok code) i =
    elim (Bool-cases (is_accepted code && eq_action action sleep)) [
      | inl e ↦ rw e i
      | inr e ↦ rw e i
    ]

pub run_power_action-IsWell :
    (w : World) (c : Client) (action : PowerAction)
    → IsWell c
    → IsWell (run_power_action w c action).0
unfolding run_power_action
run_power_action-IsWell w c action i = after_command-IsWell c action w.bridge i

pub do_wake-IsWell :
    (w : World) (c : Client) (chat_id : ℤ) → IsWell c → IsWell (do_wake w c chat_id).0
unfolding do_wake
do_wake-IsWell w c chat_id i = elim (Bool-cases w.wake_sent) [ inl e ↦ rw e i | inr e ↦ rw e i ]

pub apply_config_change-IsWell :
    (w : World) (c : Client) (change : ConfigChange)
    → IsValidChange change
    → IsWell c
    → IsWell (apply_config_change w c change).0
unfolding apply_config_change
apply_config_change-IsWell w c change v (s, p, l) =
    (apply-IsValidSettings change c.settings w.settings_written v s, p, l)

confirmed_power-IsWell :
    (w : World) (c : Client) (chat_id : ℤ) (action : PowerAction) (taken : Option PendingKind)
    → IsWell c
    → IsWell (confirmed_power w chat_id action (c, taken)).0
confirmed_power-IsWell w c chat_id action none i = i
confirmed_power-IsWell w c chat_id action (some (config change)) i = i
confirmed_power-IsWell w c chat_id action (some (firmware_update version)) i = i
confirmed_power-IsWell w c chat_id action (some (power held_action)) i =
    elim (Bool-cases (eq_action held_action action)) [
      | inl e ↦ rw e (run_power_action-IsWell w c action i)
      | inr e ↦ rw e i
    ]

confirmed_config-IsWell :
    (w : World) (c : Client) (chat_id : ℤ) (taken : Option PendingKind)
    → IsValidTaken taken
    → IsWell c
    → IsWell (confirmed_config w chat_id (c, taken)).0
unfolding IsValidKind
confirmed_config-IsWell w c chat_id none v i = i
confirmed_config-IsWell w c chat_id (some (power action)) v i = i
confirmed_config-IsWell w c chat_id (some (firmware_update version)) v i = i
confirmed_config-IsWell w c chat_id (some (config change)) v i =
    apply_config_change-IsWell w c change v i

confirmed_firmware-IsWell :
    (w : World) (c : Client) (chat_id : ℤ) (taken : Option PendingKind)
    → IsWell c
    → IsWell (confirmed_firmware w chat_id (c, taken)).0
confirmed_firmware-IsWell w c chat_id none i = i
confirmed_firmware-IsWell w c chat_id (some (power action)) i = i
confirmed_firmware-IsWell w c chat_id (some (config change)) i = i
confirmed_firmware-IsWell w c chat_id (some (firmware_update version)) i = i

run_command-IsWell :
    (g : Config) (w : World) (c : Client) (chat_id : ℤ) (arguments : Text)
    (command : Option Command)
    → (is_harmless command ≡ false → c.is_locked ≡ false)
    → IsWell c
    → IsWell (run_command g w c chat_id arguments command).0
unfolding run_command IsValidKind handle_confirmation handle_config_confirmation
    handle_update_confirmation consume_pending
run_command-IsWell g w c chat_id arguments none h i = i
run_command-IsWell g w c chat_id arguments (some show_status) h i = i
run_command-IsWell g w c chat_id arguments (some show_settings) h i = i
run_command-IsWell g w c chat_id arguments (some lock) h i = set_operation_lock-IsWell c true i
run_command-IsWell g w c chat_id arguments (some unlock) h i = set_operation_lock-IsWell c false i
run_command-IsWell g w c chat_id arguments (some wake) h i = do_wake-IsWell w c chat_id i
run_command-IsWell g w c chat_id arguments (some (ask_power action)) h i =
    request-IsWell g w c chat_id (power action) (h refl) tt i
run_command-IsWell g w c chat_id arguments (some (confirm_power action)) h i =
    confirmed_power-IsWell w (consumed c) chat_id action _ (consumed-IsWell c i)
run_command-IsWell g w c chat_id arguments (some update) h i =
    handle_update_command-IsWell g w c chat_id (h refl) i
run_command-IsWell g w c chat_id arguments (some confirm_update) h i =
    confirmed_firmware-IsWell w (consumed c) chat_id _ (consumed-IsWell c i)
run_command-IsWell g w c chat_id arguments (some confirm_set) h i =
    confirmed_config-IsWell w (consumed c) chat_id _ (accepted_kind-IsValidTaken w c arguments i)
      (consumed-IsWell c i)
run_command-IsWell g w c chat_id arguments (some (set_value kind)) h i =
    handle_set_command-IsWell g w c chat_id kind arguments (h refl) i

pub dispatch_command-IsWell :
    (g : Config) (w : World) (c : Client) (chat_id : ℤ) (command arguments : Text)
    → IsWell c
    → IsWell (dispatch_command g w c chat_id command arguments).0
unfolding dispatch_command
dispatch_command-IsWell g w c chat_id command arguments i =
    let found = find_command command all_commands in
    elim (Bool-cases (c.is_locked && not (contains allowed_while_locked command))) [
      | inl e ↦ rw e i
      | inr e ↦ rw e (
          run_command-IsWell g w c chat_id arguments found
            (λ h.
              ground (arith, contains-IsHarmless allowed_while_locked command allowed-IsHarmless))
            i)
    ]
