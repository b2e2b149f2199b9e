-- ===== src/Tests/Devices.antt =====
-- Runs of the modules under Firmware.
use m5stack_pc_remote.Base.Decimal.{show_ℕ, show_ℤ, read_digits, read_number, parse_unsigned}
use m5stack_pc_remote.Base.{
  ◌+◌, ◌%◌, ◌≤◌, ◌<◌, ◌≡◌, refl, ◌≢◌, ◌↔◌, ◌⊎◌, inl, Bool, true, false, none, some, [], ◌∷◌, arith,
  All,
}
use m5stack_pc_remote.Base.Int.{ℤ, pos}
use m5stack_pc_remote.Base.Result.{ok}
use m5stack_pc_remote.Base.Text.{text, eqb, trim_start, trim, split}
use m5stack_pc_remote.Tests.Instances.{toy_crypto}
use m5stack_pc_remote.Wire.PowerAction.{shutdown}
use m5stack_pc_remote.Wire.Manifest.{OtaManifest}
use m5stack_pc_remote.Watch.AlertThrottle.{new}
use m5stack_pc_remote.Watch.SleepWatch.{idle_watch}
use m5stack_pc_remote.Firmware.Ota.{Reply, Chunk, download_and_flash}
use m5stack_pc_remote.Firmware.Ota.Switch.{IsSafe, download_and_flash-IsSafe}
use m5stack_pc_remote.Firmware.Validation.{
  telegram_user_id_matches, brightness_percent_to_dcdc3_mv, dcdc3_lem,
}
use m5stack_pc_remote.Firmware.Settings.{Settings, IsValidSettings}
use m5stack_pc_remote.Firmware.Telegram.{Config, Client, World, Pending, power}
use m5stack_pc_remote.Firmware.Telegram.Updates.{Update, handle_update, handle_updates}
use m5stack_pc_remote.Firmware.Telegram.Confirmed.{
  consume_pending_iff, IsSound, operations, asks, held,
}
use m5stack_pc_remote.Firmware.Telegram.Operations.{consume_pending}
use m5stack_pc_remote.Firmware.Telegram.Access.{handle_update-IsSound, operations-le-asks}
use m5stack_pc_remote.Firmware.Telegram.Locked.{IsMessage, IsUnlock, handle_update-locked}
use m5stack_pc_remote.Firmware.Telegram.Refusal.{counted, IsForOwner, handle_update-refused}
use m5stack_pc_remote.Firmware.Telegram.WellFormed.{IsWell, IsValidKind}
use m5stack_pc_remote.Firmware.Telegram.Invariant.{handle_updates-IsWell}

-- An image of three bytes that arrives in two chunks.
abbrev manifest : OtaManifest
manifest = record {
  version = text "1.2.3";
  size = 3;
  sha256 = toy_crypto.sha256 (1 ∷ 2 ∷ 3 ∷ []);
  created_at = text "now";
  signature = text "s";
}

abbrev reply : Reply Chunk
reply = record {
  status = 200;
  reads =
      ok (record { bytes = 1 ∷ 2 ∷ []; write = ok tt })
      ∷ ok (record { bytes = 3 ∷ []; write = ok tt })
      ∷ [];
}

download_and_flash-IsSafe_example :
    IsSafe toy_crypto manifest (download_and_flash toy_crypto manifest (ok tt) (ok tt) (ok reply))
download_and_flash-IsSafe_example =
    download_and_flash-IsSafe toy_crypto manifest (ok tt) (ok tt) (ok reply)

dcdc3_lem_example :
    let low = brightness_percent_to_dcdc3_mv 30 in
    let high = brightness_percent_to_dcdc3_mv 200 in
    (low % 25 ≡ 0) × (low ≤ 2590) × (2590 < low + 25) × (2500 ≤ low) × (low ≤ high) × (high ≤ 2800)
dcdc3_lem_example = dcdc3_lem 30 200 (omega arith)

abbrev settings : Settings
settings = record {
  pc_ip_address = text "192.168.1.50";
  pc_status_port = 80;
  wol_port = 9;
  brightness_percent = 100;
  nvs = λ key. none;
}

settings-IsValid : IsValidSettings settings
unfolding IsValidSettings split parse_unsigned read_number read_digits
settings-IsValid = (refl, (omega arith, omega arith), omega arith)

abbrev pub config : Config
config = record {
  telegram_allowed_user_id = text "42";
  confirm_ttl = 60_000_000_000;
  firmware_version = text "1.0.0";
}

abbrev pub world : World
world = record {
  now = 1_000;
  fresh_nonce = text "K7P2QX";
  manifest = ok manifest;
  bridge = ok 200;
  wake_sent = true;
  pc_online = false;
  settings_written = true;
}

-- A client that holds a confirmation of a shutdown.
abbrev pub client : Bool → Client
client locked = record {
  pending = some (record { kind = power shutdown; nonce = text "ABCDEF"; expires_at = 2_000 });
  pending_input = none;
  is_locked = locked;
  settings = settings;
  wake_watch = none;
  sleep_watch = idle_watch;
  unauthorized_alerts = new 3 100;
}

-- The button that confirms the shutdown.
abbrev pub pressed : ℤ → Update
pressed from_id = record {
  update_id = pos 1;
  callback_query = some (record {
    id = text "q";
    from_id = from_id;
    data_text = text "confirm:shutdown:ABCDEF";
    chat_id = pos 42;
    message_id = pos 5;
  });
  message = none;
}

handle_update-IsSound_example :
    IsSound world (client false) (handle_update config world (client false) (pressed (pos 42)))
handle_update-IsSound_example = handle_update-IsSound config world (client false) (pressed (pos 42))

operations-le-asks_example :
    let (c', effects) =
      handle_updates config
        (client false)
        ((world, pressed (pos 42)) ∷ (world, pressed (pos 42)) ∷ []) in
    operations effects + held c'.pending ≤ 1 + asks effects
operations-le-asks_example =
    operations-le-asks config (client false)
      ((world, pressed (pos 42)) ∷ (world, pressed (pos 42)) ∷ [])

handle_update-locked_example :
    let (c', effects) = handle_update config world (client true) (pressed (pos 42)) in
    All IsMessage effects
    × (c'.settings ≡ settings)
    × (c'.wake_watch ≡ none)
    × (c'.sleep_watch ≡ idle_watch)
    × ((c'.is_locked ≡ true) ⊎ IsUnlock config (pressed (pos 42)).callback_query none)
handle_update-locked_example =
    handle_update-locked config world (client true) (pressed (pos 42)) refl

handle_update-refused_example :
    ((handle_update config world (client false) (pressed (pos 43))).0
      ≡ counted world (client false))
    × All (IsForOwner config) (handle_update config world (client false) (pressed (pos 43))).1
unfolding telegram_user_id_matches show_ℤ show_ℕ trim trim_start eqb
handle_update-refused_example =
    handle_update-refused config world (client false) (pressed (pos 43)) (pos 43) refl refl

client-IsWell : IsWell (client false)
unfolding IsValidKind
client-IsWell = (settings-IsValid, tt, inl refl)

handle_updates-IsWell_example :
    IsWell
      (handle_updates config
        (client false)
        ((world, pressed (pos 42)) ∷ (world, pressed (pos 43)) ∷ [])).0
handle_updates-IsWell_example =
    handle_updates-IsWell config (client false)
      ((world, pressed (pos 42)) ∷ (world, pressed (pos 43)) ∷ []) client-IsWell

consume_pending_iff_example :
    ((consume_pending world (client false) (text "ABCDEF")).0.pending ≡ none)
    × (((consume_pending world (client false) (text "ABCDEF")).1 ≡ some (power shutdown)) ↔ (
        (p : Pending) × ((client false).pending ≡ some p)
        × (p.kind ≡ power shutdown)
        × (p.nonce ≡ text "ABCDEF")
        × (text "ABCDEF" ≢ [])
        × (1_000 < p.expires_at)))
consume_pending_iff_example =
    consume_pending_iff world (client false) (text "ABCDEF") (power shutdown)
