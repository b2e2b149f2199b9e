-- ===== src/Firmware/Telegram/Buttons.antt =====
-- The buttons of `handle_callback_query` (firmware/src/telegram.rs) are sound.
use m5stack_pc_remote.Base.{
  ◌≤◌, ◌≡◌, refl, inl, inr, true, false, ◌&&◌, Option, none, some, List, [], ◌∷◌, arith, Bool-cases,
}
use m5stack_pc_remote.Wire.PowerAction.{reboot, shutdown}
use m5stack_pc_remote.Firmware.Telegram.{
  PendingKind, power, config, firmware_update, Config, Client, World, Effect, answer, is_chat,
}
use m5stack_pc_remote.Firmware.Telegram.Callback.{
  CallbackTarget, matches, StatusAction, refresh, wake_pc, reboot_pc, shutdown_pc, Callback,
  decision, edit_setting, set_lock, status,
}
use m5stack_pc_remote.Firmware.Telegram.Operations.{consume_pending, set_operation_lock}
use m5stack_pc_remote.Firmware.Telegram.Updates.{
  CallbackQuery, press_status, filter_target, answer_and_send, press_confirmed, press_decision,
  press, is_unlock,
}
use m5stack_pc_remote.Firmware.Telegram.Confirmed.{IsJustified, operations, asks, held, IsSound}
use m5stack_pc_remote.Firmware.Telegram.Confirmed.Sound.{
  consumed, IsTaken, IsTalk, accepted_kind-IsTaken, request-IsSound, do_wake-IsSound,
  start_setting_input-IsSound, then_power-IsSound, then_config-IsSound, confirmed_update-IsSound,
}

press_status-IsSound :
    (g : Config) (w : World) (c : Client) (q : CallbackQuery) (action : StatusAction)
    → c.is_locked ≡ false
    → IsSound w c (press_status g w c q action)
unfolding press_status IsJustified operations asks
press_status-IsSound g w c q refresh h =
    elim (Bool-cases (is_chat q.chat_id && is_chat q.message_id)) [
      | inl e ↦ rw e ((tt, (tt, tt)), omega arith)
      | inr e ↦ rw e ((tt, tt), omega arith)
    ]
press_status-IsSound g w c q wake_pc h = elim (Bool-cases (is_chat q.chat_id)) [
  | inl e ↦ rw e (let (a, b) = do_wake-IsSound w c q.chat_id h in ((tt, a), b))
  | inr e ↦ rw e ((tt, tt), omega arith)
]
press_status-IsSound g w c q reboot_pc h = elim (Bool-cases (is_chat q.chat_id)) [
  | inl e ↦ rw e (let (a, b) = request-IsSound g w c q.chat_id (power reboot) h in ((tt, a), b))
  | inr e ↦ rw e ((tt, tt), omega arith)
]
press_status-IsSound g w c q shutdown_pc h = elim (Bool-cases (is_chat q.chat_id)) [
  | inl e ↦ rw e (let (a, b) = request-IsSound g w c q.chat_id (power shutdown) h in ((tt, a), b))
  | inr e ↦ rw e ((tt, tt), omega arith)
]

answered-IsTalk : (w : World) (c : Client) (q : CallbackQuery) → IsTalk w c (answer_and_send q)
unfolding IsJustified operations
answered-IsTalk w c q = elim (Bool-cases (is_chat q.chat_id)) [
  | inl e ↦ rw e ((tt, (tt, tt)), refl)
  | inr e ↦ rw e ((tt, tt), refl)
]

-- Messages alone, with a client that holds no more confirmations than before, are sound.
talk-IsSound :
    (w : World) (c c' : Client) (effects : List Effect)
    → held c'.pending ≤ held c.pending
    → IsTalk w c effects
    → IsSound w c (c', effects)
talk-IsSound w c c' effects h (a, z) = (a, omega (arith, z))

press_confirmed-IsSound :
    (w : World) (c : Client) (q : CallbackQuery) (valid : Option PendingKind)
    → c.is_locked ≡ false
    → IsTaken w c valid
    → IsSound w c (press_confirmed w (consumed c) q valid)
unfolding press_confirmed IsJustified operations
press_confirmed-IsSound w c q none h t =
    talk-IsSound w c (consumed c) (answer_and_send q) (omega arith) (answered-IsTalk w c q)
press_confirmed-IsSound w c q (some (power action)) h t =
    then_power-IsSound w c action (answer_and_send q) h t (answered-IsTalk w c q)
press_confirmed-IsSound w c q (some (config change)) h t =
    then_config-IsSound w c change (answer_and_send q) h t (answered-IsTalk w c q)
press_confirmed-IsSound w c q (some (firmware_update version)) h t =
    confirmed_update-IsSound w c q.chat_id version (answer q.id ∷ []) h t ((tt, tt), refl)

filter_target-IsTaken :
    (w : World) (c : Client) (target : CallbackTarget) (taken : Option PendingKind)
    → IsTaken w c taken
    → IsTaken w c (filter_target target taken)
filter_target-IsTaken w c target none t = tt
filter_target-IsTaken w c target (some kind) t = elim (Bool-cases (matches target kind)) [
  | inl e ↦ rw e t
  | inr e ↦ rw e tt
]

pub press-IsSound :
    (g : Config) (w : World) (c : Client) (q : CallbackQuery) (parsed : Callback)
    → (is_unlock parsed ≡ false → c.is_locked ≡ false)
    → IsSound w c (press g w c q parsed)
unfolding press press_decision consume_pending set_operation_lock IsJustified operations asks
press-IsSound g w c q (decision true target nonce) h =
    press_confirmed-IsSound w c q _ (h refl)
      (filter_target-IsTaken w c target _ (accepted_kind-IsTaken w c nonce))
press-IsSound g w c q (decision false target nonce) h =
    talk-IsSound w c (consumed c) (answer_and_send q) (omega arith) (answered-IsTalk w c q)
press-IsSound g w c q (edit_setting kind) h = elim (Bool-cases (is_chat q.chat_id)) [
  | inl e ↦ rw e (let (a, b) = start_setting_input-IsSound g w c q.chat_id kind in ((tt, a), b))
  | inr e ↦ rw e ((tt, tt), omega arith)
]
press-IsSound g w c q (set_lock true) h =
    talk-IsSound w c (set_operation_lock c true) (answer_and_send q) (omega arith)
      (answered-IsTalk w c q)
press-IsSound g w c q (set_lock false) h =
    talk-IsSound w c (set_operation_lock c false) (answer_and_send q) (omega arith)
      (answered-IsTalk w c q)
press-IsSound g w c q (status action) h = press_status-IsSound g w c q action (h refl)
