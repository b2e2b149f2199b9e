-- ===== src/Firmware/Telegram/Invariant.antt =====
-- The handlers of updates keep the Telegram client well formed.
use m5stack_pc_remote.Base.{
  ◌≡◌, refl, inl, inr, Bool, true, false, not, ◌&&◌, Option, none, some, List, [], ◌∷◌, arith, ◌==◌,
  if◌then◌else◌, Bool-cases,
}
use m5stack_pc_remote.Base.Int.{ℤ}
use m5stack_pc_remote.Base.Text.{Text, trim, split, split_once}
use m5stack_pc_remote.Wire.PowerAction.{reboot, shutdown}
use m5stack_pc_remote.Firmware.Validation.{telegram_user_id_matches}
use m5stack_pc_remote.Firmware.Telegram.{
  PendingKind, power, config, firmware_update, SettingKind, Config, Client, World, Effect, send,
  is_chat,
}
use m5stack_pc_remote.Firmware.Telegram.Callback.{
  CallbackTarget, matches, StatusAction, refresh, wake_pc, reboot_pc, shutdown_pc, Callback,
  decision, edit_setting, set_lock, status, parse_callback_data,
}
use m5stack_pc_remote.Firmware.Telegram.Operations.{consume_pending, handle_setting_input}
use m5stack_pc_remote.Firmware.Telegram.Updates.{
  CallbackQuery, Message, press_status, filter_target, press_confirmed, press_decision, press,
  is_unlock, press_parsed, record_unauthorized_access, handle_callback_query, input_kind,
  given_input, command_and_args, before_at, handle_text, handle_message, Update, handle_parts,
  handle_update, handle_updates,
}
use m5stack_pc_remote.Firmware.Telegram.Confirmed.Sound.{consumed}
use m5stack_pc_remote.Firmware.Telegram.WellFormed.{
  IsValidKind, IsWell, request-IsWell, start_setting_input-IsWell, handle_setting_input-IsWell,
  set_operation_lock-IsWell,
}
use m5stack_pc_remote.Firmware.Telegram.Kept.{
  IsValidTaken, accepted_kind-IsValidTaken, consumed-IsWell, run_power_action-IsWell,
  do_wake-IsWell, apply_config_change-IsWell, dispatch_command-IsWell,
}

press_status-IsWell :
    (g : Config) (w : World) (c : Client) (q : CallbackQuery) (action : StatusAction)
    → c.is_locked ≡ false
    → IsWell c
    → IsWell (press_status g w c q action).0
unfolding press_status IsValidKind
press_status-IsWell g w c q refresh h i = i
press_status-IsWell g w c q wake_pc h i = elim (Bool-cases (is_chat q.chat_id)) [
  | inl e ↦ rw e (do_wake-IsWell w c q.chat_id i)
  | inr e ↦ rw e i
]
press_status-IsWell g w c q reboot_pc h i = elim (Bool-cases (is_chat q.chat_id)) [
  | inl e ↦ rw e (request-IsWell g w c q.chat_id (power reboot) h tt i)
  | inr e ↦ rw e i
]
press_status-IsWell g w c q shutdown_pc h i = elim (Bool-cases (is_chat q.chat_id)) [
  | inl e ↦ rw e (request-IsWell g w c q.chat_id (power shutdown) h tt i)
  | inr e ↦ rw e i
]

press_confirmed-IsWell :
    (w : World) (c : Client) (q : CallbackQuery) (valid : Option PendingKind)
    → IsValidTaken valid
    → IsWell c
    → IsWell (press_confirmed w c q valid).0
unfolding press_confirmed IsValidKind
press_confirmed-IsWell w c q none v i = i
press_confirmed-IsWell w c q (some (power action)) v i = run_power_action-IsWell w c action i
press_confirmed-IsWell w c q (some (config change)) v i = apply_config_change-IsWell w c change v i
press_confirmed-IsWell w c q (some (firmware_update version)) v i = i

filter_target-IsValidTaken :
    (target : CallbackTarget) (taken : Option PendingKind)
    → IsValidTaken taken
    → IsValidTaken (filter_target target taken)
filter_target-IsValidTaken target none v = tt
filter_target-IsValidTaken target (some kind) v = elim (Bool-cases (matches target kind)) [
  | inl e ↦ rw e v
  | inr e ↦ rw e tt
]

press-IsWell :
    (g : Config) (w : World) (c : Client) (q : CallbackQuery) (parsed : Callback)
    → (is_unlock parsed ≡ false → c.is_locked ≡ false)
    → IsWell c
    → IsWell (press g w c q parsed).0
unfolding press press_decision consume_pending
press-IsWell g w c q (decision true target nonce) h i =
    press_confirmed-IsWell w (consumed c) q _
      (filter_target-IsValidTaken target _ (accepted_kind-IsValidTaken w c nonce i))
      (consumed-IsWell c i)
press-IsWell g w c q (decision false target nonce) h i = consumed-IsWell c i
press-IsWell g w c q (edit_setting kind) h i = elim (Bool-cases (is_chat q.chat_id)) [
  | inl e ↦ rw e (start_setting_input-IsWell g w c q.chat_id kind (h refl) i)
  | inr e ↦ rw e i
]
press-IsWell g w c q (set_lock locked) h i = set_operation_lock-IsWell c locked i
press-IsWell g w c q (status action) h i = press_status-IsWell g w c q action (h refl) i

press_parsed-IsWell :
    (g : Config) (w : World) (c : Client) (q : CallbackQuery) (parsed : Option Callback)
    → IsWell c
    → IsWell (press_parsed g w c q parsed).0
press_parsed-IsWell g w c q none i = i
press_parsed-IsWell g w c q (some parsed) i =
    elim (Bool-cases (c.is_locked && not (is_unlock parsed))) [
      | inl e ↦ rw e i
      | inr e ↦ rw e (press-IsWell g w c q parsed (λ h. ground arith) i)
    ]

forgotten-IsWell : (c : Client) → IsWell c → IsWell (record c { pending_input = none })
forgotten-IsWell c (s, p, inl l) = (s, p, inl l)
forgotten-IsWell c (s, p, inr l) = (s, p, inr (l.0, refl))

if_else-IsWell :
    (b : Bool) (x y : Client × List Effect)
    → IsWell x.0
    → (b ≡ false → IsWell y.0)
    → IsWell (if b then x else y).0
if_else-IsWell true x y h k = h
if_else-IsWell false x y h k = k refl

given_input-IsWell :
    (g : Config) (w : World) (c : Client) (chat_id : ℤ) (raw : Text) (kind : Option SettingKind)
    → IsWell c
    → IsWell (given_input g w c chat_id raw kind).0
given_input-IsWell g w c chat_id raw none i = i
given_input-IsWell g w c chat_id raw (some kind) i =
    if_else-IsWell c.is_locked (c, send chat_id ∷ []) (handle_setting_input g w c chat_id kind raw)
      i (λ e. handle_setting_input-IsWell g w c chat_id kind raw e i)

handle_text-IsWell :
    (g : Config) (w : World) (c : Client) (chat_id : ℤ) (s : Text)
    → IsWell c
    → IsWell (handle_text g w c chat_id s).0
unfolding handle_text
handle_text-IsWell g w c chat_id [] i = i
handle_text-IsWell g w c chat_id (x ∷ s) i =
    let (command, arguments) = command_and_args (x ∷ s) (split_once b' ' (x ∷ s)) in
    elim (Bool-cases (x == b'/')) [
      | inl e ↦ rw e (
          dispatch_command-IsWell g w c chat_id (before_at (split b'@' command) command) arguments
            i)
      | inr e ↦ rw e (
          given_input-IsWell g w (record c { pending_input = none }) chat_id (x ∷ s)
            (input_kind w.now c.pending_input) (forgotten-IsWell c i))
    ]

handle_parts-IsWell :
    (g : Config) (w : World) (c : Client) (q : Option CallbackQuery) (m : Option Message)
    → IsWell c
    → IsWell (handle_parts g w c q m).0
unfolding handle_callback_query handle_message record_unauthorized_access
handle_parts-IsWell g w c (some q) m i =
    elim (Bool-cases (telegram_user_id_matches g.telegram_allowed_user_id q.from_id)) [
      | inl e ↦ rw e (press_parsed-IsWell g w c q (parse_callback_data q.data_text) i)
      | inr e ↦ rw e i
    ]
handle_parts-IsWell g w c none (some m) i =
    elim (Bool-cases (telegram_user_id_matches g.telegram_allowed_user_id m.from_id)) [
      | inl e ↦ rw e (handle_text-IsWell g w c m.chat_id (trim m.text_field) i)
      | inr e ↦ rw e i
    ]
handle_parts-IsWell g w c none none i = i

-- Over any sequence of updates, if it is so at the start, the settings and a change that waits for
-- its confirmation stay within their validated ranges, and a locked client holds no confirmation
-- and waits for no input.
pub handle_updates-IsWell :
    (g : Config) (c : Client) (updates : List (World × Update))
    → IsWell c
    → IsWell (handle_updates g c updates).0
unfolding handle_updates handle_update
handle_updates-IsWell g c [] i = i
handle_updates-IsWell g c ((w, u) ∷ updates) i =
    handle_updates-IsWell g (handle_update g w c u).0 updates
      (handle_parts-IsWell g w c u.callback_query u.message i)
