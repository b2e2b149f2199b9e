-- ===== src/Firmware/Telegram.antt =====
-- The Telegram client of firmware/src/telegram.rs: what it keeps, and what it does to the world.
-- The texts of messages and the connection to the Bot API are not modelled.
pub mod Callback
pub mod Operations
pub mod Dispatch
pub mod Updates
pub mod Confirmed
pub mod Commands
pub mod Buttons
pub mod Access
pub mod Refusal
pub mod Locked
pub mod WellFormed
pub mod Kept
pub mod Invariant
pub mod StatusMenu
pub mod Poll
use m5stack_pc_remote.Base.{ℕ, Bool, not, Option}
use m5stack_pc_remote.Base.Int.{ℤ, eqb_ℤ, pos}
use m5stack_pc_remote.Base.Result.{Result}
use m5stack_pc_remote.Base.Text.{Text}
use m5stack_pc_remote.Wire.PowerAction.{PowerAction}
use m5stack_pc_remote.Wire.Manifest.{OtaManifest}
use m5stack_pc_remote.Watch.AlertThrottle.{AlertThrottle}
use m5stack_pc_remote.Watch.SleepWatch.{SleepWatch}
use m5stack_pc_remote.Firmware.Ota.{OtaError}
use m5stack_pc_remote.Firmware.Settings.{Settings, ConfigChange}

-- What a confirmation is asked for.
pub data PendingKind : Type 0 where
  power : PowerAction → PendingKind
  config : ConfigChange → PendingKind
  firmware_update : Text → PendingKind

pub data SettingKind : Type 0 where
  pc_ip wol_port brightness : SettingKind

-- An `Instant` is the number of nanoseconds from a fixed origin.
pub record Pending : Type 0 where
  pub kind : PendingKind
  pub nonce : Text
  pub expires_at : ℕ

pub record PendingInput : Type 0 where
  pub kind : SettingKind
  pub expires_at : ℕ

-- The part of `AppConfig` that the client reads; `confirm_ttl` is `telegram_confirm_ttl_secs` in
-- nanoseconds.
pub record Config : Type 0 where
  pub telegram_allowed_user_id : Text
  pub confirm_ttl : ℕ
  pub firmware_version : Text

-- `Client` without its cursor, its connection, and the battery, which it only reads. The lock, the
-- settings and the two watches are shared with the UI loop; they are read and written as the
-- client leaves them.
pub record Client : Type 0 where
  pub pending : Option Pending
  pub pending_input : Option PendingInput
  pub is_locked : Bool
  pub settings : Settings
  pub wake_watch : Option ℕ
  pub sleep_watch : SleepWatch
  pub unauthorized_alerts : AlertThrottle

-- What the calls of one handler give: the clock, which is read once here, the random nonce, the
-- manifest, the status of the bridge's response, whether the wake packet was sent, whether the PC
-- answers, whether the settings were written, and the outcome of an update.
pub record World : Type 0 where
  pub now : ℕ
  pub fresh_nonce : Text
  pub manifest : Result OtaError OtaManifest
  pub bridge : Result Text ℕ
  pub wake_sent : Bool
  pub pc_online : Bool
  pub settings_written : Bool

-- What the client does: an answer to a button, a message to a chat, a message that asks for a
-- confirmation and carries its nonce, the alert about refused users, a wake packet to a port, a
-- power command to an address, a write of the settings, and an over-the-air update.
pub data Effect : Type 0 where
  answer : Text → Effect
  send : ℤ → Effect
  ask : ℤ → Text → Effect
  alert : ℤ → ℕ → Effect
  wake : ℕ → Effect
  power_command : PowerAction → Text → Effect
  write_settings : ConfigChange → Effect
  update_firmware : OtaManifest → Effect

-- `send` to `chat_id` unless it is missing, which reads as zero.
abbrev pub is_chat : ℤ → Bool
is_chat chat_id = not (eqb_ℤ chat_id (pos 0))
