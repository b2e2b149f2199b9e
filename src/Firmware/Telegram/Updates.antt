-- ===== src/Firmware/Telegram/Updates.antt =====
-- The handlers of an update from Telegram.
use m5stack_pc_remote.Firmware.Telegram.Dispatch.{dispatch_command}
use m5stack_pc_remote.Base.{
  ℕ, Bool, true, false, not, ◌&&◌, Option, none, some, List, [], ◌∷◌, ◌++◌, map, ltb, ◌==◌,
  if◌then◌else◌,
}
use m5stack_pc_remote.Base.Int.{ℤ}
use m5stack_pc_remote.Base.Text.{Text, trim, split, split_once}
use m5stack_pc_remote.Wire.PowerAction.{reboot, shutdown}
use m5stack_pc_remote.Watch.AlertThrottle.{record_failure}
use m5stack_pc_remote.Watch.UpdateCursor.{UpdateCursor, advance}
use m5stack_pc_remote.Firmware.Validation.{telegram_user_id_matches, parse_telegram_user_id}
use m5stack_pc_remote.Firmware.Telegram.{
  PendingKind, power, config, firmware_update, SettingKind, PendingInput, Config, Client, World,
  Effect, answer, send, alert, is_chat,
}
use m5stack_pc_remote.Firmware.Telegram.Callback.{
  CallbackTarget, matches, StatusAction, refresh, wake_pc, reboot_pc, shutdown_pc, Callback,
  decision, edit_setting, set_lock, status, parse_callback_data,
}
use m5stack_pc_remote.Firmware.Telegram.Operations.{
  run_power_action, do_wake, consume_pending, request, apply_config_change, start_setting_input,
  handle_setting_input, set_operation_lock, execute_confirmed_ota_update, if_chat,
}

-- The fields of a callback query and of a message; one that is missing, or has another type, reads
-- as zero or the empty text.
pub record CallbackQuery : Type 0 where
  pub id : Text
  pub from_id : ℤ
  pub data_text : Text
  pub chat_id : ℤ
  pub message_id : ℤ

pub record Message : Type 0 where
  pub from_id : ℤ
  pub chat_id : ℤ
  pub text_field : Text

abbrev pub alert_to : Option ℤ → Option ℕ → List Effect
alert_to (some chat_id) (some count) = alert chat_id count ∷ []
alert_to chat_id count = []

unfoldable pub record_unauthorized_access : Config → World → Client → Client × List Effect
record_unauthorized_access g w c =
    let (alerts, count) = record_failure c.unauthorized_alerts w.now in
    (
      record c { unauthorized_alerts = alerts },
      alert_to (parse_telegram_user_id g.telegram_allowed_user_id) count,
    )

-- The arm `Callback::Status` of `handle_callback_query`.
unfoldable pub press_status :
    Config → World → Client → CallbackQuery → StatusAction → Client × List Effect
press_status g w c q refresh = (
  c,
  (if is_chat q.chat_id && is_chat q.message_id then send q.chat_id ∷ [] else [])
      ++ answer q.id ∷ [],
)
press_status g w c q wake_pc =
    let (c', effects) = do_wake w c q.chat_id in
    if is_chat q.chat_id then (c', answer q.id ∷ effects) else (c, answer q.id ∷ [])
press_status g w c q reboot_pc =
    let (c', effects) = request g w c q.chat_id (power reboot) in
    if is_chat q.chat_id then (c', answer q.id ∷ effects) else (c, answer q.id ∷ [])
press_status g w c q shutdown_pc =
    let (c', effects) = request g w c q.chat_id (power shutdown) in
    if is_chat q.chat_id then (c', answer q.id ∷ effects) else (c, answer q.id ∷ [])

abbrev pub filter_target : CallbackTarget → Option PendingKind → Option PendingKind
filter_target target none = none
filter_target target (some kind) = if matches target kind then some kind else none

abbrev pub answer_and_send : CallbackQuery → List Effect
answer_and_send q = answer q.id ∷ if_chat q.chat_id (send q.chat_id ∷ [])

abbrev then_answer : CallbackQuery → Client × List Effect → Client × List Effect
then_answer q (c, effects) = (c, effects ++ answer_and_send q)

-- The end of `handle_callback_query`, for a confirmation that is valid.
unfoldable pub press_confirmed :
    World → Client → CallbackQuery → Option PendingKind → Client × List Effect
press_confirmed w c q none = (c, answer_and_send q)
press_confirmed w c q (some (power action)) = then_answer q (run_power_action w c action)
press_confirmed w c q (some (config change)) = then_answer q (apply_config_change w c change)
press_confirmed w c q (some (firmware_update version)) =
    (c, answer q.id ∷ execute_confirmed_ota_update w q.chat_id version)

unfoldable pub press_decision :
    World
    → CallbackQuery
    → Bool
    → CallbackTarget
    → Client × Option PendingKind
    → Client × List Effect
press_decision w q false target (c, taken) = (c, answer_and_send q)
press_decision w q true target (c, taken) = press_confirmed w c q (filter_target target taken)

unfoldable pub press : Config → World → Client → CallbackQuery → Callback → Client × List Effect
press g w c q (decision confirm target nonce) =
    press_decision w q confirm target (consume_pending w c nonce)
press g w c q (edit_setting kind) =
    let (c', effects) = start_setting_input g w c q.chat_id kind in
    if is_chat q.chat_id then (c', answer q.id ∷ effects) else (c, answer q.id ∷ [])
press g w c q (set_lock locked) = (set_operation_lock c locked, answer_and_send q)
press g w c q (status action) = press_status g w c q action

-- The one button that works while the client is locked.
abbrev pub is_unlock : Callback → Bool
is_unlock (set_lock false) = true
is_unlock other = false

abbrev pub press_parsed :
    Config → World → Client → CallbackQuery → Option Callback → Client × List Effect
press_parsed g w c q none = (c, answer q.id ∷ [])
press_parsed g w c q (some parsed) =
    let pressed = press g w c q parsed in
    if c.is_locked && not (is_unlock parsed) then (c, answer q.id ∷ []) else pressed

abbrev pub refused : Config → World → Client → List Effect → Client × List Effect
refused g w c before =
    let (c', effects) = record_unauthorized_access g w c in (c', before ++ effects)

unfoldable pub handle_callback_query :
    Config → World → Client → CallbackQuery → Client × List Effect
handle_callback_query g w c q =
    if not (telegram_user_id_matches g.telegram_allowed_user_id q.from_id)
    then refused g w c (answer q.id ∷ [])
    else press_parsed g w c q (parse_callback_data q.data_text)

-- `take_pending_input`.
abbrev pub input_kind : ℕ → Option PendingInput → Option SettingKind
input_kind now none = none
input_kind now (some p) = if ltb now p.expires_at then some p.kind else none

abbrev pub given_input :
    Config → World → Client → ℤ → Text → Option SettingKind → Client × List Effect
given_input g w c chat_id raw none = (c, [])
given_input g w c chat_id raw (some kind) =
    if c.is_locked then (c, send chat_id ∷ []) else handle_setting_input g w c chat_id kind raw

abbrev pub command_and_args : Text → Option (Text × Text) → Text × Text
command_and_args s none = (s, [])
command_and_args s (some (command, arguments)) = (command, trim arguments)

-- `split('@').next()`.
abbrev pub before_at : List Text → Text → Text
before_at [] command = command
before_at (head ∷ rest) command = head

unfoldable pub handle_text : Config → World → Client → ℤ → Text → Client × List Effect
handle_text g w c chat_id [] = (c, [])
handle_text g w c chat_id (x ∷ s) =
    let (command, arguments) = command_and_args (x ∷ s) (split_once b' ' (x ∷ s)) in
    let input =
      given_input g w (record c { pending_input = none }) chat_id (x ∷ s)
        (input_kind w.now c.pending_input) in
    if not (x == b'/')
    then input
    else dispatch_command g w c chat_id (before_at (split b'@' command) command) arguments

unfoldable pub handle_message : Config → World → Client → Message → Client × List Effect
handle_message g w c m =
    if not (telegram_user_id_matches g.telegram_allowed_user_id m.from_id)
    then refused g w c []
    else handle_text g w c m.chat_id (trim m.text_field)

-- An update: a callback query goes before a message.
pub record Update : Type 0 where
  pub update_id : ℤ
  pub callback_query : Option CallbackQuery
  pub message : Option Message

abbrev pub handle_parts :
    Config → World → Client → Option CallbackQuery → Option Message → Client × List Effect
handle_parts g w c (some q) message = handle_callback_query g w c q
handle_parts g w c none (some m) = handle_message g w c m
handle_parts g w c none none = (c, [])

unfoldable pub handle_update : Config → World → Client → Update → Client × List Effect
handle_update g w c u = handle_parts g w c u.callback_query u.message

-- The updates in order, each with what its calls give.
unfoldable pub handle_updates : Config → Client → List (World × Update) → Client × List Effect
handle_updates g c [] = (c, [])
handle_updates g c ((w, u) ∷ updates) =
    let (c', effects) = handle_update g w c u in
    let (c'', rest) = handle_updates g c' updates in (c'', effects ++ rest)

unfoldable pub process_updates :
    Config → UpdateCursor → Client → List (World × Update) → UpdateCursor × (Client × List Effect)
process_updates g cursor c updates =
    let advanced = advance cursor (map (λ item. item.1.update_id) updates) in
    let handled = handle_updates g c updates in
    (advanced.0, if advanced.1 then handled else (c, []))
