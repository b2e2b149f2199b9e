-- ===== src/Firmware/Telegram/WellFormed.antt =====
-- The well-formedness of the Telegram client, and the operations that keep it.
use m5stack_pc_remote.Base.{
  ◌≡◌, refl, ◌⊎◌, inl, inr, Bool, true, false, Option, none, some, [], ◌∷◌, Bool-cases,
}
use m5stack_pc_remote.Base.Int.{ℤ}
use m5stack_pc_remote.Base.Result.{Result, ok, err}
use m5stack_pc_remote.Base.Text.{Text}
use mathlib.Core.Path.{subst}
use m5stack_pc_remote.Wire.Manifest.{OtaManifest}
use m5stack_pc_remote.Wire.Version.{compare_versions, shows_confirm_button}
use m5stack_pc_remote.Firmware.Ota.{OtaError}
use m5stack_pc_remote.Firmware.Validation.{
  validate_ipv4, validate_wol_port, validate_brightness_percent, validate_ipv4_lem,
  validate_wol_port_lem, validate_brightness_percent_lem,
}
use m5stack_pc_remote.Firmware.Settings.{ConfigChange, IsValidChange, IsValidSettings}
use m5stack_pc_remote.Firmware.Telegram.{
  PendingKind, power, config, firmware_update, SettingKind, pc_ip, wol_port, brightness, Pending,
  PendingInput, Config, Client, World,
}
use m5stack_pc_remote.Firmware.Telegram.Operations.{
  request, start_setting_input, as_change, parse, parsed_input, handle_setting_input,
  handle_set_command, set_operation_lock, offered_update, handle_update_command,
}

-- A change that is validated; the other confirmations hold no value.
unfoldable pub IsValidKind : PendingKind → Type 0
IsValidKind (config change) = IsValidChange change
IsValidKind (power action) = Unit
IsValidKind (firmware_update version) = Unit

abbrev pub IsValidPending : Option Pending → Type 0
IsValidPending none = Unit
IsValidPending (some p) = IsValidKind p.kind

-- A locked client holds no confirmation and waits for no input.
abbrev IsLockClean : Bool → Option Pending → Option PendingInput → Type 0
IsLockClean locked pending pending_input =
    (locked ≡ false) ⊎ ((pending ≡ none) × (pending_input ≡ none))

abbrev pub IsWell : Client → Type 0
IsWell c =
    IsValidSettings c.settings
    × IsValidPending c.pending
    × IsLockClean c.is_locked c.pending c.pending_input

pub request-IsWell :
    (g : Config) (w : World) (c : Client) (chat_id : ℤ) (kind : PendingKind)
    → c.is_locked ≡ false
    → IsValidKind kind
    → IsWell c
    → IsWell (request g w c chat_id kind).0
unfolding request
request-IsWell g w c chat_id kind h v (s, p, l) = (s, v, inl h)

pub start_setting_input-IsWell :
    (g : Config) (w : World) (c : Client) (chat_id : ℤ) (kind : SettingKind)
    → c.is_locked ≡ false
    → IsWell c
    → IsWell (start_setting_input g w c chat_id kind).0
unfolding start_setting_input
start_setting_input-IsWell g w c chat_id kind h (s, p, l) = (s, p, inl h)

as_change-IsValidChange :
    {A : Type 0} (f : A → ConfigChange) (r : Result Text A) (change : ConfigChange)
    → ((a : A) → r ≡ ok a → IsValidChange (f a))
    → as_change f r ≡ ok change
    → IsValidChange change
as_change-IsValidChange f (ok a) change v h =
    (let same_change : f a ≡ change = cc in subst IsValidChange same_change (v a refl))
as_change-IsValidChange f (err e) change v h = absurd (cc)

parse-IsValidChange :
    (kind : SettingKind) (raw : Text) (change : ConfigChange)
    → parse kind raw ≡ ok change
    → IsValidChange change
unfolding parse IsValidChange
parse-IsValidChange pc_ip raw change h =
    as_change-IsValidChange ConfigChange.pc_ip_address (validate_ipv4 raw) change
      (validate_ipv4_lem raw) h
parse-IsValidChange wol_port raw change h =
    as_change-IsValidChange ConfigChange.wol_port (validate_wol_port raw) change
      (validate_wol_port_lem raw) h
parse-IsValidChange brightness raw change h =
    as_change-IsValidChange ConfigChange.brightness (validate_brightness_percent raw) change
      (validate_brightness_percent_lem raw) h

parsed_input-IsWell :
    (g : Config) (w : World) (c : Client) (chat_id : ℤ) (kind : SettingKind)
    (parsed : Result Text ConfigChange)
    → c.is_locked ≡ false
    → ((change : ConfigChange) → parsed ≡ ok change → IsValidChange change)
    → IsWell c
    → IsWell (parsed_input g w c chat_id kind parsed).0
unfolding IsValidKind
parsed_input-IsWell g w c chat_id kind (ok change) h v i =
    request-IsWell g w c chat_id (config change) h (v change refl) i
parsed_input-IsWell g w c chat_id kind (err message) h v i =
    start_setting_input-IsWell g w c chat_id kind h i

pub handle_setting_input-IsWell :
    (g : Config) (w : World) (c : Client) (chat_id : ℤ) (kind : SettingKind) (raw : Text)
    → c.is_locked ≡ false
    → IsWell c
    → IsWell (handle_setting_input g w c chat_id kind raw).0
unfolding handle_setting_input
handle_setting_input-IsWell g w c chat_id kind raw h i =
    parsed_input-IsWell g w c chat_id kind (parse kind raw) h (parse-IsValidChange kind raw) i

pub handle_set_command-IsWell :
    (g : Config) (w : World) (c : Client) (chat_id : ℤ) (kind : SettingKind) (arguments : Text)
    → c.is_locked ≡ false
    → IsWell c
    → IsWell (handle_set_command g w c chat_id kind arguments).0
unfolding handle_set_command
handle_set_command-IsWell g w c chat_id kind [] h i =
    start_setting_input-IsWell g w c chat_id kind h i
handle_set_command-IsWell g w c chat_id kind (x ∷ arguments) h i =
    handle_setting_input-IsWell g w c chat_id kind (x ∷ arguments) h i

offered_update-IsWell :
    (g : Config) (w : World) (c : Client) (chat_id : ℤ) (offered : Result OtaError OtaManifest)
    → c.is_locked ≡ false
    → IsWell c
    → IsWell (offered_update g w c chat_id offered).0
unfolding IsValidKind
offered_update-IsWell g w c chat_id (err e) h i = i
offered_update-IsWell g w c chat_id (ok m) h i =
    elim (Bool-cases (shows_confirm_button (compare_versions g.firmware_version m.version))) [
      | inl e ↦ rw e (request-IsWell g w c chat_id (firmware_update m.version) h tt i)
      | inr e ↦ rw e i
    ]

pub handle_update_command-IsWell :
    (g : Config) (w : World) (c : Client) (chat_id : ℤ)
    → c.is_locked ≡ false
    → IsWell c
    → IsWell (handle_update_command g w c chat_id).0
unfolding handle_update_command
handle_update_command-IsWell g w c chat_id h i = offered_update-IsWell g w c chat_id w.manifest h i

pub set_operation_lock-IsWell :
    (c : Client) (locked : Bool) → IsWell c → IsWell (set_operation_lock c locked)
unfolding set_operation_lock
set_operation_lock-IsWell c true (s, p, l) = (s, tt, inr (refl, refl))
set_operation_lock-IsWell c false (s, p, l) = (s, p, inl refl)
