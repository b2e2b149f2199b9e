-- ===== src/Lib.antt =====
-- Verification of m5stack-pc-remote: an M5Stack that wakes, restarts, shuts down and suspends a PC on
-- commands from Telegram, and a bridge on the PC that carries the power commands out.
--
-- The program has three parts. The crates under shared/ hold the protocol and the decisions that both
-- sides use: signed requests and manifests, versions, and small state machines. The bridge
-- (m5stack-pc-bridge/src) verifies a signed request and acts on the power of the PC. The firmware
-- (firmware/src) reads updates from Telegram, asks for confirmations, sends signed requests to the
-- bridge, and updates itself over the air.
--
-- - Base: shared names; `str` methods on a text as a list of code points (Base.Text), decimal numbers
--   (Base.Decimal), signed integers (Base.Int), `Result` (Base.Result). A `u64` or `i64` is a number
--   with its wrap-around written out where the code can reach it.
-- - Wire: shared/pc-remote-signing. Wire.Crypto is the interface of sha2, hmac and hex, with their
--   documented laws; Wire.Request signs and verifies requests, and Wire.Request.Binding shows what a
--   signature covers; Wire.PowerAction, Wire.Manifest, Wire.Version, Wire.Notice and Wire.Status
--   follow the source item by item.
-- - Watch: the state machines of shared/notify-stable, battery, wake-check, online-state,
--   telegram-cursor, backlight, toast-expiry and battery-read, and `AlertThrottle`, each as a record
--   with its operations, run over arbitrary sequences of observations.
-- - Bridge: Bridge.NonceStore and Bridge.Auth are src/auth.rs, with the DashMap as an interface;
--   Bridge.NonceStore.Workers is `insert_once` on several threads, as a step relation;
--   Bridge.Power is src/power.rs; Bridge.Server is `command`, `sleep_accepted` and `verify_headers` of
--   src/server.rs. A handler returns the list of its effects on the machine in order; the outcomes of
--   the calls that it makes (`World`) are inputs.
-- - Firmware: Firmware.Ota is src/ota.rs from the response to the switch of the boot slot;
--   Firmware.Validation is shared/config-validation; Firmware.Settings is src/settings.rs;
--   Firmware.Telegram is the client of src/telegram.rs: its state and effects, the data of buttons
--   (Callback), the operations (Operations), the commands (Dispatch) and the handlers of updates
--   (Updates), and the polling loop (Poll). Firmware.Telegram.Confirmed, Commands, Buttons,
--   WellFormed, Kept, Invariant, Access, Locked and Refusal say what an effect rests on and what stays true
--   of the client.
--   Firmware.BridgeClient is src/bridge_client.rs, and Firmware.BridgeClient.Accepted joins it to the
--   bridge; Firmware.Notifier is the notifier thread of src/telegram.rs, turn by turn;
--   Firmware.MagicPacket is the wake request of src/net.rs.
-- - Calendar: the dates of firmware/src/ui.rs. Calendar.Years and Calendar.Months are tables of an era
--   of 400 years and of a year that starts in March, evaluated once;
--   Calendar.Succession builds on them. Calendar.View is the clock and the grid of a month, and
--   Calendar.Grid is about it.
-- - Panel: the touch panel, which firmware/src/main.rs runs in its loop. Panel.Layout has the buttons
--   and screens, Panel.Touch what a tap does, Panel.Turns a turn of the loop; a turn is given its
--   inputs (`Turn`) and returns what it sends and draws (`Output`). Panel.Shown, Panel.Taps,
--   Panel.Backlight and Panel.Command follow sequences of turns.
-- - Rounds: the periodic rounds of the same loop. Rounds.Status is the STATUS round, which composes
--   the machines of Watch with the address of the PC (Rounds.Target) and the boot self-test;
--   Rounds.Events puts the requests of the panel and of Telegram between the turns. Rounds.Notices,
--   Announced, Counts and Bounds are about it. Rounds.Battery is the battery round, with
--   shared/battery, and Rounds.Sources is about it.
-- - Tests: concrete instances of the interfaces, and a run for each result.
--
-- All loops of the source that are modelled run over a finite input, so that no fuel is needed, but
-- for the digits of a number, where one unit per digit is enough.
--
-- Not modelled: most texts for people, HTTP and TLS, JSON parsing (a parameter), threads and locks (calls
-- come one after the other, but in Bridge.NonceStore.Workers), floating point, drawing and
-- registers, the Windows service, scripts.
pub mod Base
pub mod Watch
pub mod Wire
pub mod Bridge
pub mod Firmware
pub mod Calendar
pub mod Panel
pub mod Rounds
pub mod Tests
