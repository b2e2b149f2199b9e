-- ===== src/Firmware/Telegram/Callback.antt =====
-- The data of buttons, and what a button confirms.
use m5stack_pc_remote.Base.{
  Bool, true, false, ◌&&◌, Option, none, some, List, [], ◌∷◌, if◌then◌else◌,
}
use m5stack_pc_remote.Base.Text.{Text, text, eqb, split}
use m5stack_pc_remote.Wire.PowerAction.{PowerAction, from_slug, eq_action}
use m5stack_pc_remote.Firmware.Telegram.{
  PendingKind, power, config, firmware_update, SettingKind, pc_ip, wol_port, brightness,
}

pub data CallbackTarget : Type 0 where
  power_target : PowerAction → CallbackTarget
  config_target firmware_update_target : CallbackTarget

pub data StatusAction : Type 0 where
  refresh wake_pc reboot_pc shutdown_pc : StatusAction

pub data Callback : Type 0 where
  decision : (confirm : Bool) (target : CallbackTarget) (nonce : Text) → Callback
  edit_setting : SettingKind → Callback
  set_lock : Bool → Callback
  status : StatusAction → Callback

-- `CallbackTarget::matches`.
unfoldable pub matches : CallbackTarget → PendingKind → Bool
matches (power_target a) (power b) = eq_action a b
matches config_target (config change) = true
matches firmware_update_target (firmware_update version) = true
matches _ _ = false

unfoldable pub setting_slug : SettingKind → Text
setting_slug pc_ip = text "pc_ip"
setting_slug wol_port = text "wol_port"
setting_slug brightness = text "brightness"

unfoldable pub setting_from_slug : Text → Option SettingKind
setting_from_slug s =
    if eqb (setting_slug pc_ip) s
    then some pc_ip
    else if eqb (setting_slug wol_port) s
    then some wol_port
    else if eqb (setting_slug brightness) s
    then some brightness
    else none

abbrev power_decision : Bool → Text → Option PowerAction → Option Callback
power_decision confirm nonce none = none
power_decision confirm nonce (some action) = some (decision confirm (power_target action) nonce)

-- The inner function `decision` of `parse_callback_data`.
unfoldable pub parse_decision : Bool → Text → Text → Option Callback
parse_decision confirm target nonce =
    if eqb target (text "config")
    then some (decision confirm config_target nonce)
    else if eqb target (text "update")
    then some (decision confirm firmware_update_target nonce)
    else power_decision confirm nonce (from_slug target)

abbrev edit_of : Option SettingKind → Option Callback
edit_of none = none
edit_of (some kind) = some (edit_setting kind)

unfoldable pub parse_status : Text → Option Callback
parse_status s =
    if eqb s (text "refresh")
    then some (status refresh)
    else if eqb s (text "wake")
    then some (status wake_pc)
    else if eqb s (text "reboot")
    then some (status reboot_pc)
    else if eqb s (text "shutdown")
    then some (status shutdown_pc)
    else none

-- The slice patterns of `parse_callback_data`, in order.
unfoldable pub parse_parts : List Text → Option Callback
parse_parts (head ∷ target ∷ (c ∷ nonce) ∷ []) =
    if eqb head (text "confirm")
    then parse_decision true target (c ∷ nonce)
    else if eqb head (text "cancel")
    then parse_decision false target (c ∷ nonce)
    else none
parse_parts (head ∷ value ∷ []) =
    if eqb head (text "setedit")
    then edit_of (setting_from_slug value)
    else if eqb head (text "lock") && eqb value (text "on")
    then some (set_lock true)
    else if eqb head (text "lock") && eqb value (text "off")
    then some (set_lock false)
    else if eqb head (text "status")
    then parse_status value
    else none
parse_parts parts = none

unfoldable pub parse_callback_data : Text → Option Callback
parse_callback_data s = parse_parts (split b':' s)
