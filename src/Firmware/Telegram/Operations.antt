-- ===== src/Firmware/Telegram/Operations.antt =====
-- The operations that commands and buttons share.
use m5stack_pc_remote.Base.{
  ℕ, ◌+◌, Bool, true, false, not, ◌&&◌, Option, none, some, List, [], ◌∷◌, ◌++◌, ltb, leb,
  if◌then◌else◌,
}
use m5stack_pc_remote.Base.Int.{ℤ}
use m5stack_pc_remote.Base.Result.{Result, ok, err}
use m5stack_pc_remote.Base.Text.{Text, eqb}
use m5stack_pc_remote.Wire.PowerAction.{PowerAction, sleep, eq_action}
use m5stack_pc_remote.Wire.Manifest.{OtaManifest}
use m5stack_pc_remote.Wire.Version.{compare_versions, shows_confirm_button}
use m5stack_pc_remote.Watch.SleepWatch.{begin}
use m5stack_pc_remote.Firmware.Ota.{OtaError}
use m5stack_pc_remote.Firmware.Validation.{
  validate_ipv4, validate_wol_port, validate_brightness_percent,
}
use m5stack_pc_remote.Firmware.Settings.{ConfigChange, apply}
use m5stack_pc_remote.Firmware.Telegram.{
  PendingKind, power, config, firmware_update, SettingKind, pc_ip, wol_port, brightness, Pending,
  Config, Client, World, Effect, send, ask, wake, power_command, write_settings, update_firmware,
  is_chat,
}

-- `bridge_client::is_accepted`: any status of the class 2xx.
abbrev pub is_accepted : ℕ → Bool
is_accepted code = leb 200 code && ltb code 300

-- A sleep that the bridge accepted starts the watch that silences the off notice.
abbrev pub after_command : Client → PowerAction → Result Text ℕ → Client
after_command c action (err e) = c
after_command c action (ok code) =
    if is_accepted code && eq_action action sleep
    then record c { sleep_watch = begin c.sleep_watch }
    else c

unfoldable pub run_power_action : World → Client → PowerAction → Client × List Effect
run_power_action w c action =
    (after_command c action w.bridge, power_command action c.settings.pc_ip_address ∷ [])

-- `do_wake` with `begin_wake_watch`.
unfoldable pub do_wake : World → Client → ℤ → Client × List Effect
do_wake w c chat_id = (
  if w.wake_sent then record c { wake_watch = if w.pc_online then none else some w.now } else c,
  wake c.settings.wol_port ∷ send chat_id ∷ [],
)

-- The tests of `consume_pending` on what was taken.
abbrev pub accepted_kind : ℕ → Text → Option Pending → Option PendingKind
accepted_kind now supplied none = none
accepted_kind now [] (some p) = none
accepted_kind now (x ∷ supplied) (some p) =
    if eqb p.nonce (x ∷ supplied) && ltb now p.expires_at then some p.kind else none

unfoldable pub consume_pending : World → Client → Text → Client × Option PendingKind
consume_pending w c supplied = (record c { pending = none }, accepted_kind w.now supplied c.pending)

-- A new confirmation replaces the one before it; the message carries its nonce.
unfoldable pub request : Config → World → Client → ℤ → PendingKind → Client × List Effect
request g w c chat_id kind = (
  record c {
    pending =
        some (record { kind = kind; nonce = w.fresh_nonce; expires_at = w.now + g.confirm_ttl });
  },
  ask chat_id w.fresh_nonce ∷ [],
)

unfoldable pub apply_config_change : World → Client → ConfigChange → Client × List Effect
apply_config_change w c change = (
  record c { settings = (apply change c.settings w.settings_written).0 },
  write_settings change ∷ [],
)

unfoldable pub start_setting_input :
    Config → World → Client → ℤ → SettingKind → Client × List Effect
start_setting_input g w c chat_id kind = (
  record c { pending_input = some (record { kind = kind; expires_at = w.now + g.confirm_ttl }) },
  send chat_id ∷ [],
)

abbrev pub as_change {ℓ} :
    {A : Type ℓ} → (A → ConfigChange) → Result Text A → Result Text ConfigChange
as_change f (ok a) = ok (f a)
as_change f (err e) = err e

-- `SettingKind::parse`.
unfoldable pub parse : SettingKind → Text → Result Text ConfigChange
parse pc_ip raw = as_change ConfigChange.pc_ip_address (validate_ipv4 raw)
parse wol_port raw = as_change ConfigChange.wol_port (validate_wol_port raw)
parse brightness raw = as_change ConfigChange.brightness (validate_brightness_percent raw)

abbrev pub parsed_input :
    Config → World → Client → ℤ → SettingKind → Result Text ConfigChange → Client × List Effect
parsed_input g w c chat_id kind (ok change) = request g w c chat_id (config change)
parsed_input g w c chat_id kind (err message) = start_setting_input g w c chat_id kind

unfoldable pub handle_setting_input :
    Config → World → Client → ℤ → SettingKind → Text → Client × List Effect
handle_setting_input g w c chat_id kind raw = parsed_input g w c chat_id kind (parse kind raw)

unfoldable pub handle_set_command :
    Config → World → Client → ℤ → SettingKind → Text → Client × List Effect
handle_set_command g w c chat_id kind [] = start_setting_input g w c chat_id kind
handle_set_command g w c chat_id kind (x ∷ arguments) =
    handle_setting_input g w c chat_id kind (x ∷ arguments)

unfoldable pub set_operation_lock : Client → Bool → Client
set_operation_lock c true = record c { is_locked = true; pending = none; pending_input = none }
set_operation_lock c false = record c { is_locked = false }

abbrev pub if_chat : ℤ → List Effect → List Effect
if_chat chat_id effects = if is_chat chat_id then effects else []

-- `execute_confirmed_ota_update`, whose update ends in a restart or in a message.
abbrev pub confirmed_update : ℤ → Text → Result OtaError OtaManifest → List Effect
confirmed_update chat_id confirmed_version (err e) = send chat_id ∷ []
confirmed_update chat_id confirmed_version (ok m) =
    if eqb m.version confirmed_version
    then if_chat chat_id (send chat_id ∷ [])
      ++ update_firmware m ∷ if_chat chat_id (send chat_id ∷ [])
    else send chat_id ∷ []

unfoldable pub execute_confirmed_ota_update : World → ℤ → Text → List Effect
execute_confirmed_ota_update w chat_id confirmed_version =
    confirmed_update chat_id confirmed_version w.manifest

abbrev then_send : ℤ → Client × List Effect → Client × List Effect
then_send chat_id (c, effects) = (c, effects ++ send chat_id ∷ [])

-- The arms of `handle_confirmation`.
abbrev pub confirmed_power :
    World → ℤ → PowerAction → Client × Option PendingKind → Client × List Effect
confirmed_power w chat_id action (c, some (power pending_action)) =
    if eq_action pending_action action
    then then_send chat_id (run_power_action w c action)
    else (c, send chat_id ∷ [])
confirmed_power w chat_id action (c, other) = (c, send chat_id ∷ [])

unfoldable pub handle_confirmation : World → Client → ℤ → PowerAction → Text → Client × List Effect
handle_confirmation w c chat_id action supplied =
    confirmed_power w chat_id action (consume_pending w c supplied)

abbrev pub confirmed_config : World → ℤ → Client × Option PendingKind → Client × List Effect
confirmed_config w chat_id (c, some (config change)) =
    then_send chat_id (apply_config_change w c change)
confirmed_config w chat_id (c, other) = (c, send chat_id ∷ [])

unfoldable pub handle_config_confirmation : World → Client → ℤ → Text → Client × List Effect
handle_config_confirmation w c chat_id supplied =
    confirmed_config w chat_id (consume_pending w c supplied)

abbrev pub confirmed_firmware : World → ℤ → Client × Option PendingKind → Client × List Effect
confirmed_firmware w chat_id (c, some (firmware_update version)) =
    (c, execute_confirmed_ota_update w chat_id version)
confirmed_firmware w chat_id (c, other) = (c, send chat_id ∷ [])

unfoldable pub handle_update_confirmation : World → Client → ℤ → Text → Client × List Effect
handle_update_confirmation w c chat_id supplied =
    confirmed_firmware w chat_id (consume_pending w c supplied)

abbrev pub offered_update :
    Config → World → Client → ℤ → Result OtaError OtaManifest → Client × List Effect
offered_update g w c chat_id (err e) = (c, send chat_id ∷ [])
offered_update g w c chat_id (ok m) =
    if not (shows_confirm_button (compare_versions g.firmware_version m.version))
    then (c, send chat_id ∷ [])
    else request g w c chat_id (firmware_update m.version)

unfoldable pub handle_update_command : Config → World → Client → ℤ → Client × List Effect
handle_update_command g w c chat_id = offered_update g w c chat_id w.manifest
