-- ===== src/Tests/Senders.antt =====
-- Runs of the senders of the firmware.
use m5stack_pc_remote.Wire.Notice.{default_notice}
use m5stack_pc_remote.Watch.Timers.{default_schedule}
use m5stack_pc_remote.Wire.Request.{sign_request}
use m5stack_pc_remote.Bridge.NonceStore.{sweep}
use m5stack_pc_remote.Firmware.BridgeClient.Accepted.{
  verify_headers-signed_command, IsDelivered, HasWords,
}
use m5stack_pc_remote.Bridge.Server.{verify_headers, HttpRequest}
use m5stack_pc_remote.Firmware.BridgeClient.{
  command_body, signed_command, request_nonce, HttpCommand, Device,
}
use m5stack_pc_remote.Base.Decimal.{show_ℕ}
use m5stack_pc_remote.Base.{
  ℕ, ◌≡◌, refl, ◌↔◌, Bool, true, false, Option, none, some, List, [], ◌∷◌, arith, if◌then◌else◌,
  length, replicate, ◌++◌,
}
use m5stack_pc_remote.Base.Int.{pos}
use m5stack_pc_remote.Base.Result.{Result, ok, err}
use m5stack_pc_remote.Base.Text.{Text, text, eqb, utf8, to_ascii_lowercase, split}
use m5stack_pc_remote.Tests.Instances.{toy_map, toy_crypto}
use m5stack_pc_remote.Wire.PowerAction.{path, shutdown}
use m5stack_pc_remote.Firmware.MagicPacket.{
  send_wake_on_lan, AreBytes, flatten, send_wake_on_lan_ok_iff,
}
use m5stack_pc_remote.Firmware.Notifier
use m5stack_pc_remote.Firmware.Notifier.{ReportConfig, local_now}
use m5stack_pc_remote.Firmware.Notifier.Days.{sent_days}
use m5stack_pc_remote.Firmware.Notifier.Once.{Rising, sent_days-Rising}

-- A device whose command is delivered to the bridge.
abbrev device : Device
device = record { unix_seconds = 1_700_000_100; random = 0xBEEF; uptime = 123_456 }

abbrev sent_command : HttpCommand
sent_command =
    signed_command toy_crypto (text "secret") 8_443 shutdown device (text "192.168.1.2")
      1_700_000_100

abbrev arriving : Text → Option Text
arriving name =
    if eqb name (text "content-type")
    then some (text "application/json")
    else if eqb name (text "content-length")
    then some (show_ℕ 16)
    else if eqb name (text "x-timestamp")
    then some (show_ℕ 1_700_000_100)
    else if eqb name (text "x-nonce")
    then some (request_nonce device)
    else if eqb name (text "x-signature")
    then some (
        sign_request toy_crypto (utf8 (text "secret")) (text "POST") (text "/shutdown")
          (pos 1_700_000_100) (request_nonce device) (utf8 command_body))
    else none

abbrev arrived : HttpRequest
arrived = record {
  method = text "POST";
  path = text "/shutdown";
  headers = arriving;
  body = utf8 command_body;
}

arrived-IsDelivered : IsDelivered sent_command arrived
unfolding signed_command path to_ascii_lowercase eqb show_ℕ utf8
arrived-IsDelivered = record {
  method_kept = refl;
  path_kept = refl;
  body_kept = refl;
  headers_kept = (refl, (refl, (refl, (refl, (refl, tt)))));
}

letter_words : HasWords toy_crypto
letter_words key message = (ground arith, cc)

verify_headers-signed_command_example :
    (verify_headers toy_crypto toy_map
      (record { secret = utf8 (text "secret"); allowed_skew_seconds = pos 30 })
      toy_map.empty
      arrived
      (pos 1_700_000_110)).1
    ≡ ok tt
unfolding sweep
verify_headers-signed_command_example =
    verify_headers-signed_command toy_crypto letter_words (text "secret") 8_443 shutdown device
      (text "192.168.1.2") 1_700_000_100 arrived (pos 1_700_000_110) arrived-IsDelivered
      (omega arith) toy_map
      (record { secret = utf8 (text "secret"); allowed_skew_seconds = pos 30 }) toy_map.empty refl
      (omega arith) (omega arith) (omega arith) refl (omega arith)

-- Two mornings at nine o'clock in Japan; the first message of the second day fails.
abbrev report_config : ReportConfig
report_config = record {
  timezone_offset_hours = pos 9;
  daily_report_hour = pos 9;
  firmware_version = text "1.0.0";
}

abbrev report_turn : ℕ → Bool → Notifier.Turn
report_turn unix report_sent = record {
  queued = none;
  elapsed = 60;
  offered = none;
  root_ca = true;
  unix = some unix;
  pc_online = true;
  queued_sent = true;
  report_sent = report_sent;
}

abbrev mornings : List Notifier.Turn
mornings =
    report_turn 1_700_006_400 true
    ∷ report_turn 1_700_092_800 false
    ∷ report_turn 1_700_092_860 true
    ∷ []

abbrev started : Notifier.Notifier
started = record {
  last_sent_day = none;
  firmware_schedule = default_schedule;
  firmware_notice = default_notice;
}

sent_days-Rising_example : Rising none (sent_days (Notifier.outputs report_config started mornings))
unfolding local_now
sent_days-Rising_example =
    sent_days-Rising report_config started mornings (tt, (omega arith, (omega arith, tt)))

-- Both reports are sent.
two_reports :
    sent_days (Notifier.outputs report_config started mornings) ≡ pos 19_676 ∷ pos 19_677 ∷ []
unfolding Notifier.outputs
two_reports = refl

-- A socket that sends every byte.
abbrev whole_socket : List ℕ → ℕ → Result Text ℕ
whole_socket packet port = ok (length packet)

send_wake_on_lan_ok_iff_example :
    (send_wake_on_lan whole_socket (text "0a:1B:2c:3d:4e:ff") 9 ≡ ok tt) ↔ (
      (mac : List ℕ) × (length mac ≡ 6)
      × AreBytes (split b':' (text "0a:1B:2c:3d:4e:ff")) mac
      × (whole_socket (replicate 6 255 ++ flatten (replicate 16 mac)) 9 ≡ ok 102))
send_wake_on_lan_ok_iff_example = send_wake_on_lan_ok_iff whole_socket (text "0a:1B:2c:3d:4e:ff") 9

-- That address is sent to, and a short one is not.
woken : send_wake_on_lan whole_socket (text "0a:1B:2c:3d:4e:ff") 9 ≡ ok tt
unfolding send_wake_on_lan split
woken = refl

too_short : send_wake_on_lan whole_socket (text "0a:1B:2c") 9 ≡ err (text "invalid PC_MAC_ADDRESS")
unfolding send_wake_on_lan split
too_short = refl
