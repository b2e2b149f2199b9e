-- ===== src/Firmware/Telegram/Confirmed/Sound.antt =====
-- The operations that commands and buttons share are sound.
use m5stack_pc_remote.Base.{
  ◌≤◌, ◌≡◌, refl, sym, ap, ◌∙◌, inl, inr, false, Option, none, some, List, [], ◌∷◌, ◌++◌, arith,
  Bool-cases, Option-cases, All, All-append,
}
use m5stack_pc_remote.Base.Int.{ℤ}
use m5stack_pc_remote.Base.Result.{Result, ok, err}
use m5stack_pc_remote.Base.Text.{Text, eqb, eqb_iff}
use m5stack_pc_remote.Wire.PowerAction.{PowerAction}
use m5stack_pc_remote.Wire.Manifest.{OtaManifest}
use m5stack_pc_remote.Wire.Version.{compare_versions, shows_confirm_button}
use m5stack_pc_remote.Firmware.Ota.{OtaError}
use m5stack_pc_remote.Firmware.Settings.{ConfigChange}
use m5stack_pc_remote.Firmware.Telegram.{
  PendingKind, power, config, firmware_update, SettingKind, Config, Client, World, Effect, send,
  update_firmware, is_chat,
}
use m5stack_pc_remote.Firmware.Telegram.Operations.{
  run_power_action, do_wake, accepted_kind, request, apply_config_change, start_setting_input,
  parsed_input, handle_setting_input, handle_set_command, confirmed_update,
  execute_confirmed_ota_update, offered_update, handle_update_command, if_chat, parse,
}
use m5stack_pc_remote.Firmware.Telegram.Confirmed.{
  IsConfirmed, IsJustified, operations, asks, held, IsSound, accepted_kind_lem, operations-append,
}

pub request-IsSound :
    (g : Config) (w : World) (c : Client) (chat_id : ℤ) (kind : PendingKind)
    → c.is_locked ≡ false
    → IsSound w c (request g w c chat_id kind)
unfolding request IsJustified operations asks
request-IsSound g w c chat_id kind h = ((h, tt), omega arith)

pub do_wake-IsSound :
    (w : World) (c : Client) (chat_id : ℤ) → c.is_locked ≡ false → IsSound w c (do_wake w c chat_id)
unfolding do_wake IsJustified operations asks
do_wake-IsSound w c chat_id h = elim (Bool-cases w.wake_sent) [
  | inl e ↦ (((h, refl), (tt, tt)), rw e (omega arith))
  | inr e ↦ (((h, refl), (tt, tt)), rw e (omega arith))
]

pub start_setting_input-IsSound :
    (g : Config) (w : World) (c : Client) (chat_id : ℤ) (kind : SettingKind)
    → IsSound w c (start_setting_input g w c chat_id kind)
unfolding start_setting_input IsJustified operations asks
start_setting_input-IsSound g w c chat_id kind = ((tt, tt), omega arith)

parsed_input-IsSound :
    (g : Config) (w : World) (c : Client) (chat_id : ℤ) (kind : SettingKind)
    (parsed : Result Text ConfigChange)
    → c.is_locked ≡ false
    → IsSound w c (parsed_input g w c chat_id kind parsed)
parsed_input-IsSound g w c chat_id kind (ok change) h =
    request-IsSound g w c chat_id (config change) h
parsed_input-IsSound g w c chat_id kind (err message) h =
    start_setting_input-IsSound g w c chat_id kind

pub handle_setting_input-IsSound :
    (g : Config) (w : World) (c : Client) (chat_id : ℤ) (kind : SettingKind) (raw : Text)
    → c.is_locked ≡ false
    → IsSound w c (handle_setting_input g w c chat_id kind raw)
unfolding handle_setting_input
handle_setting_input-IsSound g w c chat_id kind raw h =
    parsed_input-IsSound g w c chat_id kind (parse kind raw) h

pub handle_set_command-IsSound :
    (g : Config) (w : World) (c : Client) (chat_id : ℤ) (kind : SettingKind) (arguments : Text)
    → c.is_locked ≡ false
    → IsSound w c (handle_set_command g w c chat_id kind arguments)
unfolding handle_set_command
handle_set_command-IsSound g w c chat_id kind [] h = start_setting_input-IsSound g w c chat_id kind
handle_set_command-IsSound g w c chat_id kind (x ∷ arguments) h =
    handle_setting_input-IsSound g w c chat_id kind (x ∷ arguments) h

offered_update-IsSound :
    (g : Config) (w : World) (c : Client) (chat_id : ℤ) (offered : Result OtaError OtaManifest)
    → c.is_locked ≡ false
    → IsSound w c (offered_update g w c chat_id offered)
unfolding IsJustified operations asks
offered_update-IsSound g w c chat_id (err e) h = ((tt, tt), omega arith)
offered_update-IsSound g w c chat_id (ok m) h =
    elim (Bool-cases (shows_confirm_button (compare_versions g.firmware_version m.version))) [
      | inl e ↦ rw e (request-IsSound g w c chat_id (firmware_update m.version) h)
      | inr e ↦ rw e ((tt, tt), omega arith)
    ]

pub handle_update_command-IsSound :
    (g : Config) (w : World) (c : Client) (chat_id : ℤ)
    → c.is_locked ≡ false
    → IsSound w c (handle_update_command g w c chat_id)
unfolding handle_update_command
handle_update_command-IsSound g w c chat_id h = offered_update-IsSound g w c chat_id w.manifest h

-- The client after `consume_pending`.
abbrev pub consumed : Client → Client
consumed c = record c { pending = none }

-- What `consume_pending` took is a confirmation that was held.
abbrev pub IsTaken : World → Client → Option PendingKind → Type 0
IsTaken w c none = Unit
IsTaken w c (some kind) = IsConfirmed w c kind

pub accepted_kind-IsTaken :
    (w : World) (c : Client) (supplied : Text)
    → IsTaken w c (accepted_kind w.now supplied c.pending)
accepted_kind-IsTaken w c supplied = elim (Option-cases (accepted_kind w.now supplied c.pending)) [
  | inl e ↦ rw e tt
  | inr (kind, e) ↦
      let (p, held_before, k, _, in_time) = accepted_kind_lem w.now supplied c.pending kind e in
      rw e (p, held_before, k, in_time)
]

-- A command or a button that only answers leaves nothing to justify.
pub sent-IsSound :
    (w : World) (c : Client) (chat_id : ℤ) → IsSound w c (consumed c, send chat_id ∷ [])
unfolding IsJustified operations asks
sent-IsSound w c chat_id = ((tt, tt), omega arith)

confirmed-held :
    (w : World) (c : Client) (kind : PendingKind) → IsConfirmed w c kind → held c.pending ≡ 1
confirmed-held w c kind (p, e, _, _) = rw e refl

run_power_action_lem :
    (w : World) (c : Client) (action : PowerAction)
    → held (run_power_action w c action).0.pending ≡ held c.pending
unfolding run_power_action
run_power_action_lem w c action = ground arith

-- What follows a confirmed operation: messages only.
abbrev pub IsTalk : World → Client → List Effect → Type 0
IsTalk w c after = All (IsJustified w c) after × (operations after ≡ 0)

pub then_power-IsSound :
    (w : World) (c : Client) (action : PowerAction) (after : List Effect)
    → c.is_locked ≡ false
    → IsConfirmed w c (power action)
    → IsTalk w c after
    → let (c', effects) = run_power_action w (consumed c) action in
      IsSound w c (c', effects ++ after)
unfolding run_power_action IsJustified operations asks
then_power-IsSound w c action after h k (a, z) = (
  ((h, refl, k), a),
  omega (arith, confirmed-held w c (power action) k, run_power_action_lem w (consumed c) action, z),
)

pub then_config-IsSound :
    (w : World) (c : Client) (change : ConfigChange) (after : List Effect)
    → c.is_locked ≡ false
    → IsConfirmed w c (config change)
    → IsTalk w c after
    → let (c', effects) = apply_config_change w (consumed c) change in
      IsSound w c (c', effects ++ after)
unfolding apply_config_change IsJustified operations asks
then_config-IsSound w c change after h k (a, z) =
    (((h, k), a), omega (arith, confirmed-held w c (config change) k, z))

if_chat-IsTalk :
    (w : World) (c : Client) (chat_id : ℤ) → IsTalk w c (if_chat chat_id (send chat_id ∷ []))
unfolding IsJustified operations
if_chat-IsTalk w c chat_id = elim (Bool-cases (is_chat chat_id)) [
  | inl e ↦ rw e ((tt, tt), refl)
  | inr e ↦ rw e (tt, refl)
]

-- What a confirmed update does: at most one operation.
update_lem :
    (w : World) (c : Client) (chat_id : ℤ) (version : Text) (offered : Result OtaError OtaManifest)
    → c.is_locked ≡ false
    → IsConfirmed w c (firmware_update version)
    → w.manifest ≡ offered
    → All (IsJustified w c) (confirmed_update chat_id version offered)
      × (operations (confirmed_update chat_id version offered) ≤ 1)
unfolding IsJustified operations
update_lem w c chat_id version (err e) h k o = ((tt, tt), omega arith)
update_lem w c chat_id version (ok m) h (p, e₁, e₂, in_time) o =
    elim (Bool-cases (eqb m.version version)) [
      | inr e ↦ rw e ((tt, tt), omega arith)
      | inl e ↦
          let agreed = e₂ ∙ ap firmware_update (sym ((eqb_iff m.version version).0 e)) in
          let talk = if_chat chat_id (send chat_id ∷ []) in
          let (silent, none_after) = if_chat-IsTalk w c chat_id in
          rw e (
            All-append (IsJustified w c) talk (update_firmware m ∷ talk) silent
                ((h, o, (p, e₁, agreed, in_time)), silent),
            omega (arith, operations-append talk (update_firmware m ∷ talk), none_after),
          )
    ]

pub confirmed_update-IsSound :
    (w : World) (c : Client) (chat_id : ℤ) (version : Text) (before : List Effect)
    → c.is_locked ≡ false
    → IsConfirmed w c (firmware_update version)
    → IsTalk w c before
    → IsSound w c (consumed c, before ++ execute_confirmed_ota_update w chat_id version)
unfolding execute_confirmed_ota_update
confirmed_update-IsSound w c chat_id version before h k b =
    let effects = execute_confirmed_ota_update w chat_id version in
    let (justified, one) = update_lem w c chat_id version w.manifest h k refl in
    (
      All-append (IsJustified w c) before effects b.0 justified,
      omega (
        arith,
        operations-append before effects,
        b.1,
        one,
        confirmed-held w c (firmware_update version) k,
      ),
    )
