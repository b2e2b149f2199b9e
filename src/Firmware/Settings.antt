-- ===== src/Firmware/Settings.antt =====
-- `RuntimeSettings` of firmware/src/settings.rs, used by one thread at a time.
use m5stack_pc_remote.Base.{ℕ, ◌≤◌, ◌≡◌, Bool, true, false, Option, some, if◌then◌else◌}
use m5stack_pc_remote.Base.Decimal.{show_ℕ}
use m5stack_pc_remote.Base.Text.{Text, text, eqb}
use m5stack_pc_remote.Firmware.Validation.{is_ipv4, compose_status_addr}

-- The namespace of the non-volatile storage, which is not part of the repository, as the text
-- under each key.
abbrev Nvs : Type 0
Nvs = Text → Option Text

abbrev set_str : Nvs → Text → Text → Nvs
set_str nvs key value k = if eqb key k then some value else nvs k

abbrev nvs_key_pc_ip : Text
nvs_key_pc_ip = text "pc_ip"

abbrev nvs_key_wol_port : Text
nvs_key_wol_port = text "wol_port"

abbrev nvs_key_brightness : Text
nvs_key_brightness = text "brightness"

pub record Settings : Type 0 where
  pub pc_ip_address : Text
  pub pc_status_port : ℕ
  pub wol_port : ℕ
  pub brightness_percent : ℕ
  pub nvs : Nvs

unfoldable pc_status_addr : Settings → Text
pc_status_addr s = compose_status_addr s.pc_ip_address s.pc_status_port

-- The setters; the second argument is the outcome of the write, which leaves the storage as it was
-- when it fails.
set_pc_ip_address : Settings → Bool → Text → Settings × Bool
set_pc_ip_address s false value = (s, false)
set_pc_ip_address s true value =
    (record s { nvs = set_str s.nvs nvs_key_pc_ip value; pc_ip_address = value }, true)

set_wol_port : Settings → Bool → ℕ → Settings × Bool
set_wol_port s false value = (s, false)
set_wol_port s true value =
    (record s { nvs = set_str s.nvs nvs_key_wol_port (show_ℕ value); wol_port = value }, true)

set_brightness_percent : Settings → Bool → ℕ → Settings × Bool
set_brightness_percent s false value = (s, false)
set_brightness_percent s true value = (
  record s { nvs = set_str s.nvs nvs_key_brightness (show_ℕ value); brightness_percent = value },
  true,
)

-- The change of a setting that waits for its confirmation (firmware/src/telegram.rs).
pub data ConfigChange : Type 0 where
  pc_ip_address : Text → ConfigChange
  wol_port : ℕ → ConfigChange
  brightness : ℕ → ConfigChange

-- `ConfigChange::apply`.
pub apply : ConfigChange → Settings → Bool → Settings × Bool
unfolding set_pc_ip_address set_wol_port set_brightness_percent
apply (pc_ip_address value) s written = set_pc_ip_address s written value
apply (wol_port value) s written = set_wol_port s written value
apply (brightness value) s written = set_brightness_percent s written value

-- A value that its validation lets through.
unfoldable pub IsValidChange : ConfigChange → Type 0
IsValidChange (pc_ip_address value) = is_ipv4 value ≡ true
IsValidChange (wol_port value) = (1 ≤ value) × (value ≤ 65535)
IsValidChange (brightness value) = value ≤ 100

unfoldable pub IsValidSettings : Settings → Type 0
IsValidSettings s =
    (is_ipv4 s.pc_ip_address ≡ true)
    × ((1 ≤ s.wol_port) × (s.wol_port ≤ 65535))
    × (s.brightness_percent ≤ 100)

-- A validated change keeps the settings valid, whether or not its write succeeds.
pub apply-IsValidSettings :
    (change : ConfigChange) (s : Settings) (written : Bool)
    → IsValidChange change
    → IsValidSettings s
    → IsValidSettings (apply change s written).0
unfolding apply IsValidChange IsValidSettings set_pc_ip_address set_wol_port set_brightness_percent
apply-IsValidSettings (pc_ip_address value) s false h k = k
apply-IsValidSettings (wol_port value) s false h k = k
apply-IsValidSettings (brightness value) s false h k = k
apply-IsValidSettings (pc_ip_address value) s true h k = (h, k.1, k.2)
apply-IsValidSettings (wol_port value) s true h k = (k.0, h, k.2)
apply-IsValidSettings (brightness value) s true h k = (k.0, k.1, h)
