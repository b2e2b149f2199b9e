-- ===== src/Firmware/Telegram/Access.antt =====
-- Whose updates the Telegram client acts on, and on what confirmation.
use m5stack_pc_remote.Base.{
  ℕ, ◌+◌, ◌≤◌, refl, inl, inr, false, not, ◌&&◌, Option, none, some, List, [], ◌∷◌, arith, ◌==◌,
  Bool-cases, All-append, All-map,
}
use m5stack_pc_remote.Base.Int.{ℤ}
use m5stack_pc_remote.Base.Text.{Text, trim, split, split_once}
use m5stack_pc_remote.Watch.AlertThrottle.{record_failure}
use m5stack_pc_remote.Firmware.Validation.{telegram_user_id_matches, parse_telegram_user_id}
use m5stack_pc_remote.Firmware.Telegram.{
  SettingKind, Config, Client, World, Effect, power_command, write_settings, update_firmware,
  answer, send, alert, ask,
}
use m5stack_pc_remote.Firmware.Telegram.Callback.{Callback, parse_callback_data}
use m5stack_pc_remote.Firmware.Telegram.Operations.{handle_setting_input}
use m5stack_pc_remote.Firmware.Telegram.Updates.{
  CallbackQuery, Message, alert_to, record_unauthorized_access, is_unlock, press_parsed, refused,
  handle_callback_query, input_kind, given_input, command_and_args, before_at, handle_text,
  handle_message, Update, handle_parts, handle_update, handle_updates,
}
use m5stack_pc_remote.Firmware.Telegram.Confirmed.{
  IsJustified, operations, asks, held, IsSound, operations-append, asks-append,
}
use m5stack_pc_remote.Firmware.Telegram.Confirmed.Sound.{IsTalk, handle_setting_input-IsSound}
use m5stack_pc_remote.Firmware.Telegram.Commands.{dispatch_command-IsSound}
use m5stack_pc_remote.Firmware.Telegram.Buttons.{press-IsSound}

alert_to-IsTalk :
    (w : World) (c : Client) (chat_id : Option ℤ) (count : Option ℕ)
    → IsTalk w c (alert_to chat_id count)
unfolding IsJustified operations
alert_to-IsTalk w c none count = (tt, refl)
alert_to-IsTalk w c (some chat_id) none = (tt, refl)
alert_to-IsTalk w c (some chat_id) (some count) = ((tt, tt), refl)

refused-IsSound :
    (g : Config) (w : World) (c : Client) (before : List Effect)
    → IsTalk w c before
    → IsSound w c (refused g w c before)
unfolding record_unauthorized_access
refused-IsSound g w c before b =
    let chat_id = parse_telegram_user_id g.telegram_allowed_user_id in
    let count = (record_failure c.unauthorized_alerts w.now).1 in
    let (silent, none_after) = alert_to-IsTalk w c chat_id count in
    (
      All-append (IsJustified w c) before (alert_to chat_id count) b.0 silent,
      omega (arith, operations-append before (alert_to chat_id count), b.1, none_after),
    )

press_parsed-IsSound :
    (g : Config) (w : World) (c : Client) (q : CallbackQuery) (parsed : Option Callback)
    → IsSound w c (press_parsed g w c q parsed)
unfolding IsJustified operations asks
press_parsed-IsSound g w c q none = ((tt, tt), omega arith)
press_parsed-IsSound g w c q (some parsed) =
    elim (Bool-cases (c.is_locked && not (is_unlock parsed))) [
      | inl e ↦ rw e ((tt, tt), omega arith)
      | inr e ↦ rw e (press-IsSound g w c q parsed (λ h. ground arith))
    ]

handle_callback_query-IsSound :
    (g : Config) (w : World) (c : Client) (q : CallbackQuery)
    → IsSound w c (handle_callback_query g w c q)
unfolding handle_callback_query IsJustified operations asks
handle_callback_query-IsSound g w c q =
    elim (Bool-cases (telegram_user_id_matches g.telegram_allowed_user_id q.from_id)) [
      | inl e ↦ rw e (press_parsed-IsSound g w c q (parse_callback_data q.data_text))
      | inr e ↦ rw e (refused-IsSound g w c (answer q.id ∷ []) ((tt, tt), refl))
    ]

-- The client without its wait for an input; no effect rests on it.
abbrev forget : Client → Client
forget c = record c { pending_input = none }

forget-IsJustified :
    (w : World) (c : Client) (e : Effect) → IsJustified w (forget c) e → IsJustified w c e
unfolding IsJustified
forget-IsJustified w c (answer id) h = h
forget-IsJustified w c (send chat_id) h = h
forget-IsJustified w c (ask chat_id nonce) h = h
forget-IsJustified w c (alert chat_id count) h = h
forget-IsJustified w c (Effect.wake port) h = h
forget-IsJustified w c (power_command action ip) h = h
forget-IsJustified w c (write_settings change) h = h
forget-IsJustified w c (update_firmware m) h = h

forget-IsSound :
    (w : World) (c : Client) (r : Client × List Effect) → IsSound w (forget c) r → IsSound w c r
forget-IsSound w c (c', effects) (a, b) =
    (All-map (IsJustified w (forget c)) (IsJustified w c) (forget-IsJustified w c) effects a, b)

given_input-IsSound :
    (g : Config) (w : World) (c : Client) (chat_id : ℤ) (raw : Text) (kind : Option SettingKind)
    → IsSound w c (given_input g w (forget c) chat_id raw kind)
unfolding IsJustified operations asks
given_input-IsSound g w c chat_id raw none = (tt, omega arith)
given_input-IsSound g w c chat_id raw (some kind) = elim (Bool-cases c.is_locked) [
  | inl e ↦ rw e ((tt, tt), omega arith)
  | inr e ↦ rw e (
      let c₁ : Client = record c { is_locked = false } in
      forget-IsSound w c₁ (handle_setting_input g w (forget c₁) chat_id kind raw)
        (handle_setting_input-IsSound g w (forget c₁) chat_id kind raw refl))
]

handle_text-IsSound :
    (g : Config) (w : World) (c : Client) (chat_id : ℤ) (s : Text)
    → IsSound w c (handle_text g w c chat_id s)
unfolding handle_text operations asks
handle_text-IsSound g w c chat_id [] = (tt, omega arith)
handle_text-IsSound g w c chat_id (x ∷ s) =
    let (command, arguments) = command_and_args (x ∷ s) (split_once b' ' (x ∷ s)) in
    elim (Bool-cases (x == b'/')) [
      | inl e ↦ rw e (
          dispatch_command-IsSound g w c chat_id (before_at (split b'@' command) command) arguments)
      | inr e ↦ rw e (given_input-IsSound g w c chat_id (x ∷ s) (input_kind w.now c.pending_input))
    ]

handle_message-IsSound :
    (g : Config) (w : World) (c : Client) (m : Message) → IsSound w c (handle_message g w c m)
unfolding handle_message operations
handle_message-IsSound g w c m =
    elim (Bool-cases (telegram_user_id_matches g.telegram_allowed_user_id m.from_id)) [
      | inl e ↦ rw e (handle_text-IsSound g w c m.chat_id (trim m.text_field))
      | inr e ↦ rw e (refused-IsSound g w c [] (tt, refl))
    ]

handle_parts-IsSound :
    (g : Config) (w : World) (c : Client) (q : Option CallbackQuery) (m : Option Message)
    → IsSound w c (handle_parts g w c q m)
unfolding operations asks
handle_parts-IsSound g w c (some q) m = handle_callback_query-IsSound g w c q
handle_parts-IsSound g w c none (some m) = handle_message-IsSound g w c m
handle_parts-IsSound g w c none none = (tt, omega arith)

-- Whatever an update holds, the client wakes the PC or asks for a confirmation only while it is
-- not locked, and it sends a power command, writes the settings or updates the firmware only while
-- it is not locked and holds a confirmation of exactly that action, change or version that has not
-- expired; the manifest of an update is the one just fetched; and every such operation uses up the
-- confirmation held before or one asked for in the same update.
pub handle_update-IsSound :
    (g : Config) (w : World) (c : Client) (u : Update) → IsSound w c (handle_update g w c u)
unfolding handle_update
handle_update-IsSound g w c u = handle_parts-IsSound g w c u.callback_query u.message

-- Over any sequence of updates there are at most as many operations that need a confirmation as
-- confirmations asked for, and the one held at the start.
pub operations-le-asks :
    (g : Config) (c : Client) (updates : List (World × Update))
    → let (c', effects) = handle_updates g c updates in
      operations effects + held c'.pending ≤ held c.pending + asks effects
unfolding handle_updates operations asks
operations-le-asks g c [] = omega arith
operations-le-asks g c ((w, u) ∷ updates) =
    let (c', effects) = handle_update g w c u in
    let (_, rest) = handle_updates g c' updates in
    omega (
      arith,
      (handle_update-IsSound g w c u).1,
      operations-le-asks g c' updates,
      operations-append effects rest,
      asks-append effects rest,
    )
