-- ===== src/Firmware/Telegram/Confirmed/Confirmations.antt =====
-- The commands that confirm an operation are sound.
use m5stack_pc_remote.Base.{
  ◌≡◌, refl, ap, ◌∙◌, inl, inr, false, Option, none, some, [], ◌∷◌, Bool-cases,
}
use m5stack_pc_remote.Base.Int.{ℤ}
use m5stack_pc_remote.Base.Text.{Text}
use m5stack_pc_remote.Wire.PowerAction.{PowerAction, eq_action, eq_action_iff}
use m5stack_pc_remote.Firmware.Telegram.{
  PendingKind, power, config, firmware_update, Client, World, send,
}
use m5stack_pc_remote.Firmware.Telegram.Operations.{
  consume_pending, confirmed_power, confirmed_config, confirmed_firmware, handle_confirmation,
  handle_config_confirmation, handle_update_confirmation,
}
use m5stack_pc_remote.Firmware.Telegram.Confirmed.{IsJustified, operations, IsSound}
use m5stack_pc_remote.Firmware.Telegram.Confirmed.Sound.{
  consumed, IsTaken, accepted_kind-IsTaken, sent-IsSound, then_power-IsSound, then_config-IsSound,
  confirmed_update-IsSound,
}

confirmed_power-IsSound :
    (w : World) (c : Client) (chat_id : ℤ) (action : PowerAction) (taken : Option PendingKind)
    → c.is_locked ≡ false
    → IsTaken w c taken
    → IsSound w c (confirmed_power w chat_id action (consumed c, taken))
unfolding IsJustified operations
confirmed_power-IsSound w c chat_id action none h t = sent-IsSound w c chat_id
confirmed_power-IsSound w c chat_id action (some (config change)) h t = sent-IsSound w c chat_id
confirmed_power-IsSound w c chat_id action (some (firmware_update version)) h t =
    sent-IsSound w c chat_id
confirmed_power-IsSound w c chat_id action (some (power held_action)) h (p, e₁, e₂, in_time) =
    elim (Bool-cases (eq_action held_action action)) [
      | inl e ↦
          let matching = e₂ ∙ ap power ((eq_action_iff held_action action).0 e) in
          rw e (
            then_power-IsSound w c action (send chat_id ∷ []) h (p, e₁, matching, in_time)
              ((tt, tt), refl))
      | inr e ↦ rw e (sent-IsSound w c chat_id)
    ]

pub handle_confirmation-IsSound :
    (w : World) (c : Client) (chat_id : ℤ) (action : PowerAction) (supplied : Text)
    → c.is_locked ≡ false
    → IsSound w c (handle_confirmation w c chat_id action supplied)
unfolding handle_confirmation consume_pending
handle_confirmation-IsSound w c chat_id action supplied h =
    confirmed_power-IsSound w c chat_id action _ h (accepted_kind-IsTaken w c supplied)

confirmed_config-IsSound :
    (w : World) (c : Client) (chat_id : ℤ) (taken : Option PendingKind)
    → c.is_locked ≡ false
    → IsTaken w c taken
    → IsSound w c (confirmed_config w chat_id (consumed c, taken))
unfolding IsJustified operations
confirmed_config-IsSound w c chat_id none h t = sent-IsSound w c chat_id
confirmed_config-IsSound w c chat_id (some (power action)) h t = sent-IsSound w c chat_id
confirmed_config-IsSound w c chat_id (some (firmware_update version)) h t = sent-IsSound w c chat_id
confirmed_config-IsSound w c chat_id (some (config change)) h t =
    then_config-IsSound w c change (send chat_id ∷ []) h t ((tt, tt), refl)

pub handle_config_confirmation-IsSound :
    (w : World) (c : Client) (chat_id : ℤ) (supplied : Text)
    → c.is_locked ≡ false
    → IsSound w c (handle_config_confirmation w c chat_id supplied)
unfolding handle_config_confirmation consume_pending
handle_config_confirmation-IsSound w c chat_id supplied h =
    confirmed_config-IsSound w c chat_id _ h (accepted_kind-IsTaken w c supplied)

confirmed_firmware-IsSound :
    (w : World) (c : Client) (chat_id : ℤ) (taken : Option PendingKind)
    → c.is_locked ≡ false
    → IsTaken w c taken
    → IsSound w c (confirmed_firmware w chat_id (consumed c, taken))
unfolding operations
confirmed_firmware-IsSound w c chat_id none h t = sent-IsSound w c chat_id
confirmed_firmware-IsSound w c chat_id (some (power action)) h t = sent-IsSound w c chat_id
confirmed_firmware-IsSound w c chat_id (some (config change)) h t = sent-IsSound w c chat_id
confirmed_firmware-IsSound w c chat_id (some (firmware_update version)) h t =
    confirmed_update-IsSound w c chat_id version [] h t (tt, refl)

pub handle_update_confirmation-IsSound :
    (w : World) (c : Client) (chat_id : ℤ) (supplied : Text)
    → c.is_locked ≡ false
    → IsSound w c (handle_update_confirmation w c chat_id supplied)
unfolding handle_update_confirmation consume_pending
handle_update_confirmation-IsSound w c chat_id supplied h =
    confirmed_firmware-IsSound w c chat_id _ h (accepted_kind-IsTaken w c supplied)
