-- ===== src/Firmware/Telegram/Commands.antt =====
-- The commands of `dispatch_command` (firmware/src/telegram.rs) are sound.
use m5stack_pc_remote.Base.{
  ◌≡◌, refl, inl, inr, Bool, true, false, not, ◌&&◌, Option, none, some, List, [], ◌∷◌, arith,
  Bool-cases, All,
}
use m5stack_pc_remote.Base.Int.{ℤ}
use m5stack_pc_remote.Base.Text.{Text, eqb, eqb_iff}
use mathlib.Core.Path.{subst}
use mathlib.Core.Bool.{false≢true}
use m5stack_pc_remote.Firmware.Telegram.{power, Config, Client, World}
use m5stack_pc_remote.Firmware.Telegram.Operations.{set_operation_lock}
use m5stack_pc_remote.Firmware.Telegram.Dispatch.{
  Command, show_status, show_settings, lock, unlock, wake, ask_power, confirm_power, update,
  confirm_update, confirm_set, set_value, literal, all_commands, find_command, allowed_while_locked,
  contains, run_command, dispatch_command,
}
use m5stack_pc_remote.Firmware.Telegram.Confirmed.{IsJustified, operations, asks, IsSound}
use m5stack_pc_remote.Firmware.Telegram.Confirmed.Sound.{
  request-IsSound, do_wake-IsSound, handle_set_command-IsSound, handle_update_command-IsSound,
}
use m5stack_pc_remote.Firmware.Telegram.Confirmed.Confirmations.{
  handle_confirmation-IsSound, handle_config_confirmation-IsSound,
  handle_update_confirmation-IsSound,
}

-- The commands that do nothing but talk and lock.
abbrev pub is_harmless : Option Command → Bool
is_harmless none = true
is_harmless (some show_status) = true
is_harmless (some show_settings) = true
is_harmless (some lock) = true
is_harmless (some unlock) = true
is_harmless other = false

abbrev IsHarmless : Text → Type 0
IsHarmless s = is_harmless (find_command s all_commands) ≡ true

pub allowed-IsHarmless : All IsHarmless allowed_while_locked
unfolding find_command literal eqb
allowed-IsHarmless = (refl, (refl, (refl, (refl, tt))))

pub contains-IsHarmless :
    (l : List Text) (s : Text) → All IsHarmless l → contains l s ≡ true → IsHarmless s
unfolding contains
contains-IsHarmless [] s h k = absurd (false≢true k)
contains-IsHarmless (t ∷ l) s (p, h) k = elim (Bool-cases (eqb t s)) [
  | inl e ↦ subst IsHarmless ((eqb_iff t s).0 e) p
  | inr e ↦ contains-IsHarmless l s h (rw e at k)
]

run_command-IsSound :
    (g : Config) (w : World) (c : Client) (chat_id : ℤ) (arguments : Text)
    (command : Option Command)
    → (is_harmless command ≡ false → c.is_locked ≡ false)
    → IsSound w c (run_command g w c chat_id arguments command)
unfolding run_command IsJustified operations asks set_operation_lock
run_command-IsSound g w c chat_id arguments none h = (tt, omega arith)
run_command-IsSound g w c chat_id arguments (some show_status) h = ((tt, tt), omega arith)
run_command-IsSound g w c chat_id arguments (some show_settings) h = ((tt, tt), omega arith)
run_command-IsSound g w c chat_id arguments (some lock) h = ((tt, tt), omega arith)
run_command-IsSound g w c chat_id arguments (some unlock) h = ((tt, tt), omega arith)
run_command-IsSound g w c chat_id arguments (some wake) h = do_wake-IsSound w c chat_id (h refl)
run_command-IsSound g w c chat_id arguments (some (ask_power action)) h =
    request-IsSound g w c chat_id (power action) (h refl)
run_command-IsSound g w c chat_id arguments (some (confirm_power action)) h =
    handle_confirmation-IsSound w c chat_id action arguments (h refl)
run_command-IsSound g w c chat_id arguments (some update) h =
    handle_update_command-IsSound g w c chat_id (h refl)
run_command-IsSound g w c chat_id arguments (some confirm_update) h =
    handle_update_confirmation-IsSound w c chat_id arguments (h refl)
run_command-IsSound g w c chat_id arguments (some confirm_set) h =
    handle_config_confirmation-IsSound w c chat_id arguments (h refl)
run_command-IsSound g w c chat_id arguments (some (set_value kind)) h =
    handle_set_command-IsSound g w c chat_id kind arguments (h refl)

pub dispatch_command-IsSound :
    (g : Config) (w : World) (c : Client) (chat_id : ℤ) (command arguments : Text)
    → IsSound w c (dispatch_command g w c chat_id command arguments)
unfolding dispatch_command IsJustified operations asks
dispatch_command-IsSound g w c chat_id command arguments =
    let found = find_command command all_commands in
    elim (Bool-cases (c.is_locked && not (contains allowed_while_locked command))) [
      | inl e ↦ rw e ((tt, tt), omega arith)
      | inr e ↦ rw e (
          run_command-IsSound g w c chat_id arguments found (λ h.
            ground (arith, contains-IsHarmless allowed_while_locked command allowed-IsHarmless)))
    ]
