-- ===== src/Firmware/BridgeClient.antt =====
-- The signed power commands of firmware/src/bridge_client.rs: the texts, and the request that is
-- sent. The clock, the random number and the time since the start are inputs; the HTTP client is a
-- parameter.
pub mod Accepted
use m5stack_pc_remote.Wire.Request.{sign_request}
use m5stack_pc_remote.Wire.Crypto.{Crypto}
use m5stack_pc_remote.Base.Hex.{show_hex}
use m5stack_pc_remote.Base.Int.{ℤ, leb_ℤ, pos}
use m5stack_pc_remote.Base.Result.{Result, ok, err}
use m5stack_pc_remote.Base.{ℕ, Bool, List, [], ◌∷◌, ◌++◌, if◌then◌else◌, length}
use m5stack_pc_remote.Base.Decimal.{show_ℕ}
use m5stack_pc_remote.Base.Text.{Text, text, utf8}
use m5stack_pc_remote.Wire.PowerAction.{path, PowerAction, reboot, shutdown, sleep}

-- `BODY`.
abbrev pub command_body : Text
command_body = text "{\"confirm\":true}"

unfoldable pub label_ja : PowerAction → Text
label_ja reboot = text "再起動"
label_ja shutdown = text "シャットダウン"
label_ja sleep = text "スリープ"

unfoldable pub subject_label_ja : PowerAction → Text
subject_label_ja reboot = text "PCの再起動"
subject_label_ja shutdown = text "PCのシャットダウン"
subject_label_ja sleep = text "PCのスリープ"

unfoldable pub accepted_text : PowerAction → Text
accepted_text action = subject_label_ja action ++ text "を受け付けました。"

unfoldable pub rejected_text : PowerAction → ℕ → Text
rejected_text action code =
    subject_label_ja action ++ (text "が拒否されました。(" ++ (show_ℕ code ++ text ")"))

unfoldable pub failed_text : PowerAction → Text
failed_text action = subject_label_ja action ++ text "に失敗しました。"

-- `net::is_ntp_synced` of firmware/src/net.rs.
unfoldable pub is_ntp_synced : ℤ → Bool
is_ntp_synced unix_seconds = leb_ℤ (pos 1_700_000_000) unix_seconds

-- What the device is asked when a command is sent; the seconds fit into an `i64`.
pub record Device : Type 0 where
  pub unix_seconds : ℕ
  pub random : ℕ
  pub uptime : ℕ

unfoldable pub unix_now : Device → Result Text ℕ
unfolding is_ntp_synced
unix_now d =
    if is_ntp_synced (pos d.unix_seconds)
    then ok d.unix_seconds
    else err (text "system clock is not NTP-synced yet")

unfoldable pub request_nonce : Device → Text
request_nonce d = show_hex d.random ++ b'-' ∷ show_hex d.uptime

-- A request as it is given to the HTTP client.
pub record HttpCommand : Type 0 where
  pub method : Text
  pub path : Text
  pub url : Text
  pub headers : List (Text × Text)
  pub body : Text

abbrev pub command_headers : ℕ → Text → Text → List (Text × Text)
command_headers timestamp nonce signature =
    (text "Content-Type", text "application/json")
    ∷ (text "Content-Length", show_ℕ (length (utf8 command_body)))
    ∷ (text "X-Timestamp", show_ℕ timestamp)
    ∷ (text "X-Nonce", nonce)
    ∷ (text "X-Signature", signature)
    ∷ []

unfoldable pub signed_command : Crypto → Text → ℕ → PowerAction → Device → Text → ℕ → HttpCommand
signed_command c bridge_shared_secret bridge_port action d pc_ip_address timestamp = record {
  method = text "POST";
  path = path action;
  url = text "http://" ++ (pc_ip_address ++ (text ":" ++ (show_ℕ bridge_port ++ path action)));
  headers = command_headers timestamp (request_nonce d) (
      sign_request c (utf8 bridge_shared_secret) (text "POST") (path action) (pos timestamp)
        (request_nonce d) (utf8 command_body));
  body = command_body;
}

abbrev pub after_clock {ℓ} : {A : Type ℓ} → Result Text ℕ → (ℕ → Result Text A) → Result Text A
after_clock (err e) f = err e
after_clock (ok timestamp) f = f timestamp

-- `submit` is the HTTP client: the status of the response.
unfoldable pub send_command :
    Crypto → (HttpCommand → Result Text ℕ) → Text → ℕ → PowerAction → Device → Text → Result Text ℕ
unfolding unix_now signed_command
send_command c submit bridge_shared_secret bridge_port action d pc_ip_address =
    after_clock (unix_now d) λ timestamp.
      submit (signed_command c bridge_shared_secret bridge_port action d pc_ip_address timestamp)
