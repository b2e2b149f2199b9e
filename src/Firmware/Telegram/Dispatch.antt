-- ===== src/Firmware/Telegram/Dispatch.antt =====
-- `dispatch_command` of firmware/src/telegram.rs.
use m5stack_pc_remote.Base.{
  Bool, true, false, not, ◌&&◌, ◌||◌, Option, none, some, List, [], ◌∷◌, if◌then◌else◌,
}
use m5stack_pc_remote.Base.Int.{ℤ}
use m5stack_pc_remote.Base.Text.{Text, text, eqb}
use m5stack_pc_remote.Wire.PowerAction.{PowerAction, reboot, shutdown, sleep}
use m5stack_pc_remote.Firmware.Telegram.{
  power, SettingKind, pc_ip, wol_port, brightness, Config, Client, World, Effect, send,
}
use m5stack_pc_remote.Firmware.Telegram.Operations.{
  do_wake, request, handle_set_command, set_operation_lock, handle_confirmation,
  handle_config_confirmation, handle_update_confirmation, handle_update_command,
}

-- The commands of `dispatch_command`.
pub data Command : Type 0 where
  show_status show_settings lock unlock wake : Command
  ask_power confirm_power : PowerAction → Command
  update confirm_update confirm_set : Command
  set_value : SettingKind → Command

abbrev ask_literal : PowerAction → Text
ask_literal reboot = text "/reboot"
ask_literal shutdown = text "/shutdown"
ask_literal sleep = text "/sleep"

abbrev confirm_literal : PowerAction → Text
confirm_literal reboot = text "/confirm_reboot"
confirm_literal shutdown = text "/confirm_shutdown"
confirm_literal sleep = text "/confirm_sleep"

abbrev set_literal : SettingKind → Text
set_literal pc_ip = text "/set_ip"
set_literal wol_port = text "/set_wol_port"
set_literal brightness = text "/set_brightness"

unfoldable pub literal : Command → Text
literal show_status = text "/status"
literal show_settings = text "/settings"
literal lock = text "/lock"
literal unlock = text "/unlock"
literal wake = text "/wake"
literal (ask_power action) = ask_literal action
literal (confirm_power action) = confirm_literal action
literal update = text "/update"
literal confirm_update = text "/confirm_update"
literal confirm_set = text "/confirm_set"
literal (set_value kind) = set_literal kind

-- The patterns of the `match`, in order.
abbrev pub all_commands : List Command
all_commands =
    show_status
    ∷ show_settings
    ∷ lock
    ∷ unlock
    ∷ wake
    ∷ ask_power reboot
    ∷ ask_power shutdown
    ∷ ask_power sleep
    ∷ confirm_power reboot
    ∷ confirm_power shutdown
    ∷ confirm_power sleep
    ∷ update
    ∷ confirm_update
    ∷ set_value pc_ip
    ∷ set_value wol_port
    ∷ set_value brightness
    ∷ confirm_set
    ∷ []

unfoldable pub find_command : Text → List Command → Option Command
find_command s [] = none
find_command s (command ∷ commands) =
    let rest = find_command s commands in if eqb (literal command) s then some command else rest

abbrev pub allowed_while_locked : List Text
allowed_while_locked = text "/status" ∷ text "/settings" ∷ text "/lock" ∷ text "/unlock" ∷ []

unfoldable pub contains : List Text → Text → Bool
contains [] s = false
contains (t ∷ l) s = eqb t s || contains l s

unfoldable pub run_command :
    Config → World → Client → ℤ → Text → Option Command → Client × List Effect
run_command g w c chat_id arguments none = (c, [])
run_command g w c chat_id arguments (some show_status) = (c, send chat_id ∷ [])
run_command g w c chat_id arguments (some show_settings) = (c, send chat_id ∷ [])
run_command g w c chat_id arguments (some lock) = (set_operation_lock c true, send chat_id ∷ [])
run_command g w c chat_id arguments (some unlock) = (set_operation_lock c false, send chat_id ∷ [])
run_command g w c chat_id arguments (some wake) = do_wake w c chat_id
run_command g w c chat_id arguments (some (ask_power action)) = request g w c chat_id (power action)
run_command g w c chat_id arguments (some (confirm_power action)) =
    handle_confirmation w c chat_id action arguments
run_command g w c chat_id arguments (some update) = handle_update_command g w c chat_id
run_command g w c chat_id arguments (some confirm_update) =
    handle_update_confirmation w c chat_id arguments
run_command g w c chat_id arguments (some confirm_set) =
    handle_config_confirmation w c chat_id arguments
run_command g w c chat_id arguments (some (set_value kind)) =
    handle_set_command g w c chat_id kind arguments

unfoldable pub dispatch_command : Config → World → Client → ℤ → Text → Text → Client × List Effect
dispatch_command g w c chat_id command arguments =
    if c.is_locked && not (contains allowed_while_locked command)
    then (c, send chat_id ∷ [])
    else run_command g w c chat_id arguments (find_command command all_commands)
