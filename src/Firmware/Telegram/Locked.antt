-- ===== src/Firmware/Telegram/Locked.antt =====
-- What the Telegram client does while it is locked.
use m5stack_pc_remote.Base.{
  ◌≡◌, refl, sym, ap, ◌∙◌, ◌⊎◌, inl, inr, Bool, true, false, not, ◌&&◌, ◌==◌, Option, none, some,
  List, [], ◌∷◌, if◌then◌else◌, Bool-cases, All, All-map,
}
use m5stack_pc_remote.Base.Int.{ℤ}
use m5stack_pc_remote.Base.Text.{Text, text, eqb, eqb_iff, trim, split, split_once}
use m5stack_pc_remote.Firmware.Validation.{telegram_user_id_matches}
use m5stack_pc_remote.Firmware.Telegram.{
  SettingKind, Config, Client, World, Effect, answer, send, ask, alert, wake, power_command,
  write_settings, update_firmware,
}
use m5stack_pc_remote.Firmware.Telegram.Callback.{
  Callback, decision, edit_setting, set_lock, status, parse_callback_data,
}
use m5stack_pc_remote.Firmware.Telegram.Operations.{set_operation_lock, handle_setting_input}
use m5stack_pc_remote.Firmware.Telegram.Dispatch
use m5stack_pc_remote.Firmware.Telegram.Dispatch.{
  Command, show_status, show_settings, lock, unlock, ask_power, confirm_power, update,
  confirm_update, confirm_set, set_value, literal, all_commands, find_command, allowed_while_locked,
  contains, run_command, dispatch_command,
}
use m5stack_pc_remote.Firmware.Telegram.Commands.{
  is_harmless, allowed-IsHarmless, contains-IsHarmless,
}
use m5stack_pc_remote.Firmware.Telegram.Updates.{
  CallbackQuery, Message, record_unauthorized_access, refused, is_unlock, press, press_parsed,
  handle_callback_query, input_kind, given_input, command_and_args, before_at, handle_text,
  handle_message, Update, handle_parts, handle_update,
}
use m5stack_pc_remote.Firmware.Telegram.Confirmed.{IsJustified}
use m5stack_pc_remote.Firmware.Telegram.Access.{handle_update-IsSound}
use mathlib.Core.Bool.{false≢true}

-- A message without a confirmation, an answer, or an alert.
pub IsMessage : Effect → Type 0
IsMessage (answer id) = Unit
IsMessage (send chat_id) = Unit
IsMessage (alert chat_id count) = Unit
IsMessage (ask chat_id nonce) = ⊥
IsMessage (wake port) = ⊥
IsMessage (power_command action ip) = ⊥
IsMessage (write_settings change) = ⊥
IsMessage (update_firmware m) = ⊥

locked-IsMessage :
    (w : World) (c : Client) → c.is_locked ≡ true → (e : Effect) → IsJustified w c e → IsMessage e
unfolding IsJustified IsMessage
locked-IsMessage w c h (answer id) j = tt
locked-IsMessage w c h (send chat_id) j = tt
locked-IsMessage w c h (alert chat_id count) j = tt
locked-IsMessage w c h (ask chat_id nonce) j = false≢true (sym j ∙ h)
locked-IsMessage w c h (wake port) j = false≢true (sym j.0 ∙ h)
locked-IsMessage w c h (power_command action ip) j = false≢true (sym j.0 ∙ h)
locked-IsMessage w c h (write_settings change) j = false≢true (sym j.0 ∙ h)
locked-IsMessage w c h (update_firmware m) j = false≢true (sym j.0 ∙ h)

-- The settings and the two watches are as before.
abbrev Keeps : Client → Client → Type 0
Keeps c c' =
    (c'.settings ≡ c.settings) × (c'.wake_watch ≡ c.wake_watch) × (c'.sleep_watch ≡ c.sleep_watch)

-- And the client is still locked, or `asked` holds.
abbrev IsKept : Type 0 → Client → Client × List Effect → Type 0
IsKept asked c r = Keeps c r.0 × ((r.0.is_locked ≡ true) ⊎ asked)

asked-IsKept :
    (asked asked' : Type 0) (c : Client) (r : Client × List Effect)
    → (asked → asked')
    → IsKept asked c r
    → IsKept asked' c r
asked-IsKept asked asked' c r f (k, inl h) = (k, inl h)
asked-IsKept asked asked' c r f (k, inr a) = (k, inr (f a))

if-IsKept :
    (asked : Type 0) (c : Client) (b : Bool) (r r' : Client × List Effect)
    → (b ≡ true → IsKept asked c r)
    → (b ≡ false → IsKept asked c r')
    → IsKept asked c (if b then r else r')
if-IsKept asked c true r r' f f' = f refl
if-IsKept asked c false r r' f f' = f' refl

allowed_of : (l b : Bool) → l ≡ true → l && not b ≡ false → b ≡ true
allowed_of true true h k = refl
allowed_of true false h k = sym k
allowed_of false b h k = absurd (false≢true h)

not-false : (b : Bool) → not b ≡ false → b ≡ true
not-false true h = refl
not-false false h = sym h

literal-find_command :
    (s : Text) (l : List Command) (command : Command)
    → find_command s l ≡ some command
    → literal command ≡ s
unfolding find_command
literal-find_command s [] command h = absurd (cc)
literal-find_command s (first ∷ l) command h = elim (Bool-cases (eqb (literal first) s)) [
  | inl e ↦
      let found : some first ≡ some command = rw e at h in
      let same_command : first ≡ command = cc in
      rw (← same_command) ((eqb_iff (literal first) s).0 e)
  | inr e ↦ literal-find_command s l command (rw e at h)
]

run_command-IsKept :
    (asked : Type 0) (g : Config) (w : World) (c : Client) (chat_id : ℤ) (arguments : Text)
    (command : Option Command)
    → c.is_locked ≡ true
    → is_harmless command ≡ true
    → (command ≡ some unlock → asked)
    → IsKept asked c (run_command g w c chat_id arguments command)
unfolding run_command set_operation_lock
run_command-IsKept asked g w c chat_id arguments none h i k = ((refl, refl, refl), inl h)
run_command-IsKept asked g w c chat_id arguments (some show_status) h i k =
    ((refl, refl, refl), inl h)
run_command-IsKept asked g w c chat_id arguments (some show_settings) h i k =
    ((refl, refl, refl), inl h)
run_command-IsKept asked g w c chat_id arguments (some lock) h i k = ((refl, refl, refl), inl refl)
run_command-IsKept asked g w c chat_id arguments (some unlock) h i k =
    ((refl, refl, refl), inr (k refl))
run_command-IsKept asked g w c chat_id arguments (some Dispatch.wake) h i k = absurd (false≢true i)
run_command-IsKept asked g w c chat_id arguments (some (ask_power action)) h i k =
    absurd (false≢true i)
run_command-IsKept asked g w c chat_id arguments (some (confirm_power action)) h i k =
    absurd (false≢true i)
run_command-IsKept asked g w c chat_id arguments (some update) h i k = absurd (false≢true i)
run_command-IsKept asked g w c chat_id arguments (some confirm_update) h i k = absurd (false≢true i)
run_command-IsKept asked g w c chat_id arguments (some confirm_set) h i k = absurd (false≢true i)
run_command-IsKept asked g w c chat_id arguments (some (set_value kind)) h i k =
    absurd (false≢true i)

dispatch_command-IsKept :
    (g : Config) (w : World) (c : Client) (chat_id : ℤ) (command arguments : Text)
    → c.is_locked ≡ true
    → IsKept (command ≡ text "/unlock") c (dispatch_command g w c chat_id command arguments)
unfolding dispatch_command literal
dispatch_command-IsKept g w c chat_id command arguments h =
    let found = find_command command all_commands in
    let allowed = contains allowed_while_locked command in
    if-IsKept (command ≡ text "/unlock") c (c.is_locked && not allowed) (c, send chat_id ∷ [])
      (run_command g w c chat_id arguments found) (λ e. ((refl, refl, refl), inl h))
      (λ e.
        run_command-IsKept (command ≡ text "/unlock") g w c chat_id arguments found h
          (contains-IsHarmless allowed_while_locked command allowed-IsHarmless
            (allowed_of c.is_locked allowed h e))
          (λ k. sym (literal-find_command command all_commands unlock k)))

given_input-IsKept :
    (asked : Type 0) (g : Config) (w : World) (c : Client) (chat_id : ℤ) (raw : Text)
    (kind : Option SettingKind)
    → c.is_locked ≡ true
    → IsKept asked c (given_input g w (record c { pending_input = none }) chat_id raw kind)
given_input-IsKept asked g w c chat_id raw none h = ((refl, refl, refl), inl h)
given_input-IsKept asked g w c chat_id raw (some kind) h =
    let c' : Client = record c { pending_input = none } in
    if-IsKept asked c c.is_locked (c', send chat_id ∷ [])
      (handle_setting_input g w c' chat_id kind raw) (λ e. ((refl, refl, refl), inl h))
      (λ e. absurd (false≢true (sym e ∙ h)))

-- The command of a text: what stands before its first blank, and there before the first `@`.
abbrev pub command_of : Text → Text
command_of s =
    let command = (command_and_args s (split_once b' ' s)).0 in
    before_at (split b'@' command) command

handle_text-IsKept :
    (g : Config) (w : World) (c : Client) (chat_id : ℤ) (s : Text)
    → c.is_locked ≡ true
    → IsKept (command_of s ≡ text "/unlock") c (handle_text g w c chat_id s)
unfolding handle_text
handle_text-IsKept g w c chat_id [] h = ((refl, refl, refl), inl h)
handle_text-IsKept g w c chat_id (x ∷ s) h = elim (Bool-cases (x == b'/')) [
  | inl e ↦ rw e (dispatch_command-IsKept g w c chat_id _ _ h)
  | inr e ↦ rw e (given_input-IsKept _ g w c chat_id (x ∷ s) (input_kind w.now c.pending_input) h)
]

press-IsKept :
    (g : Config) (w : World) (c : Client) (q : CallbackQuery) (parsed : Callback)
    → is_unlock parsed ≡ true
    → IsKept (parsed ≡ set_lock false) c (press g w c q parsed)
unfolding set_operation_lock press
press-IsKept g w c q (decision confirm target nonce) h = absurd (false≢true h)
press-IsKept g w c q (edit_setting kind) h = absurd (false≢true h)
press-IsKept g w c q (set_lock true) h = absurd (false≢true h)
press-IsKept g w c q (set_lock false) h = ((refl, refl, refl), inr refl)
press-IsKept g w c q (status action) h = absurd (false≢true h)

press_parsed-IsKept :
    (g : Config) (w : World) (c : Client) (q : CallbackQuery) (parsed : Option Callback)
    → c.is_locked ≡ true
    → IsKept (parsed ≡ some (set_lock false)) c (press_parsed g w c q parsed)
press_parsed-IsKept g w c q none h = ((refl, refl, refl), inl h)
press_parsed-IsKept g w c q (some parsed) h =
    if-IsKept (some parsed ≡ some (set_lock false)) c (c.is_locked && not (is_unlock parsed))
      (c, answer q.id ∷ []) (press g w c q parsed) (λ e. ((refl, refl, refl), inl h))
      (λ e.
        asked-IsKept (parsed ≡ set_lock false) (some parsed ≡ some (set_lock false)) c
          (press g w c q parsed) (λ a. ap some a)
          (press-IsKept g w c q parsed (allowed_of c.is_locked (is_unlock parsed) h e)))

-- The update is from the configured user and asks to unlock, by the button or by the command.
abbrev pub IsUnlock : Config → Option CallbackQuery → Option Message → Type 0
IsUnlock g (some q) m =
    (telegram_user_id_matches g.telegram_allowed_user_id q.from_id ≡ true)
    × (parse_callback_data q.data_text ≡ some (set_lock false))
IsUnlock g none (some m) =
    (telegram_user_id_matches g.telegram_allowed_user_id m.from_id ≡ true)
    × (command_of (trim m.text_field) ≡ text "/unlock")
IsUnlock g none none = ⊥

handle_parts-IsKept :
    (g : Config) (w : World) (c : Client) (q : Option CallbackQuery) (m : Option Message)
    → c.is_locked ≡ true
    → IsKept (IsUnlock g q m) c (handle_parts g w c q m)
unfolding handle_callback_query handle_message record_unauthorized_access
handle_parts-IsKept g w c (some q) m h =
    let matched = telegram_user_id_matches g.telegram_allowed_user_id q.from_id in
    if-IsKept (IsUnlock g (some q) m) c (not matched) (refused g w c (answer q.id ∷ []))
      (press_parsed g w c q (parse_callback_data q.data_text)) (λ e. ((refl, refl, refl), inl h))
      (λ e.
        asked-IsKept (parse_callback_data q.data_text ≡ some (set_lock false))
          (IsUnlock g (some q) m) c (press_parsed g w c q (parse_callback_data q.data_text))
          (λ a. (not-false matched e, a))
          (press_parsed-IsKept g w c q (parse_callback_data q.data_text) h))
handle_parts-IsKept g w c none (some m) h =
    let matched = telegram_user_id_matches g.telegram_allowed_user_id m.from_id in
    let s = trim m.text_field in
    if-IsKept (IsUnlock g none (some m)) c (not matched) (refused g w c [])
      (handle_text g w c m.chat_id s) (λ e. ((refl, refl, refl), inl h))
      (λ e.
        asked-IsKept (command_of s ≡ text "/unlock") (IsUnlock g none (some m)) c
          (handle_text g w c m.chat_id s) (λ a. (not-false matched e, a))
          (handle_text-IsKept g w c m.chat_id s h))
handle_parts-IsKept g w c none none h = ((refl, refl, refl), inl h)

-- Whatever an update holds, a locked client only answers and sends messages, keeps its settings and
-- its two watches, and stays locked unless the update is from the configured user and asks to unlock
-- with the button or the command.
pub handle_update-locked :
    (g : Config) (w : World) (c : Client) (u : Update)
    → c.is_locked ≡ true
    → let (c', effects) = handle_update g w c u in
      All IsMessage effects
      × (c'.settings ≡ c.settings)
      × (c'.wake_watch ≡ c.wake_watch)
      × (c'.sleep_watch ≡ c.sleep_watch)
      × ((c'.is_locked ≡ true) ⊎ IsUnlock g u.callback_query u.message)
unfolding handle_update
handle_update-locked g w c u h =
    let messages =
      All-map (IsJustified w c) IsMessage (locked-IsMessage w c h) (handle_update g w c u).1
        (handle_update-IsSound g w c u).0 in
    let (kept, still_locked) = handle_parts-IsKept g w c u.callback_query u.message h in
    (messages, kept.0, kept.1, kept.2, still_locked)
