-- ===== src/Firmware/Telegram/Poll.antt =====
-- `poll_once` and the loop of `run` of firmware/src/telegram.rs: the updates are fetched, parsed and
-- handled, and after an error the wait doubles. The response and the parser of JSON are inputs.
pub mod Delivery
use m5stack_pc_remote.Base.{
  ℕ, suc, ◌+◌, ◌*◌, Bool, not, Option, none, some, List, [], ◌∷◌, ◌++◌, ltb, ◌==◌, if◌then◌else◌,
  length,
}
use m5stack_pc_remote.Base.Result.{Result, ok, err}
use m5stack_pc_remote.Base.Text.{Text, text}
use m5stack_pc_remote.Wire.Crypto.{Bytes}
use m5stack_pc_remote.Watch.UpdateCursor.{UpdateCursor}
use m5stack_pc_remote.Firmware.Ota.{Reply}
use m5stack_pc_remote.Firmware.Telegram.{Config, Client, World, Effect}
use m5stack_pc_remote.Firmware.Telegram.Updates.{Update, process_updates}

abbrev pub get_updates_max_bytes : ℕ
get_updates_max_bytes = 32 * 1024

-- The waits in milliseconds.
abbrev pub backoff_min : ℕ
backoff_min = 5_000

abbrev pub backoff_max : ℕ
backoff_max = 60_000

abbrev pub between_polls : ℕ
between_polls = 50

pub data State : Type 0 where
  polling : State
  error : State

-- The loop that collects the response.
unfoldable pub read_updates : Bytes → List (Result Text Bytes) → Result Text Bytes
read_updates body [] = ok body
read_updates body (err e ∷ l) = err e
read_updates body (ok chunk ∷ l) =
    let rest = read_updates (body ++ chunk) l in
    if length chunk == 0
    then ok body
    else if ltb get_updates_max_bytes (length body + length chunk)
    then err (text "getUpdates response exceeds the limit")
    else rest

-- `serde_json::from_slice` and the field `result`: an error, not an array, or the updates.
abbrev pub Parse : Type 0
Parse = Bytes → Result Text (Option (List Update))

-- A poll: the response, or the error of the connection, and what the calls made for each update
-- give.
pub record Poll : Type 0 where
  pub reply : Result Text (Reply Bytes)
  pub worlds : ℕ → World

abbrev pub updates_body : Result Text (Reply Bytes) → Result Text Bytes
updates_body (err e) = err e
updates_body (ok reply) =
    if not (reply.status == 200)
    then err (text "getUpdates failed")
    else read_updates [] reply.reads

abbrev pub with_worlds : (ℕ → World) → List Update → List (World × Update)
with_worlds worlds [] = []
with_worlds worlds (u ∷ updates) = (worlds 0, u) ∷ with_worlds (λ i. worlds (suc i)) updates

abbrev pub result_array :
    (ℕ → World) → Result Text (Option (List Update)) → Result Text (List (World × Update))
result_array worlds (err e) = err e
result_array worlds (ok none) = err (text "getUpdates response has no result array")
result_array worlds (ok (some updates)) = ok (with_worlds worlds updates)

abbrev pub then_parsed :
    Parse → (ℕ → World) → Result Text Bytes → Result Text (List (World × Update))
then_parsed parse worlds (err e) = err e
then_parsed parse worlds (ok body) = result_array worlds (parse body)

-- `poll_once` up to `process_updates`.
unfoldable pub fetch : Parse → Poll → Result Text (List (World × Update))
fetch parse poll = then_parsed parse poll.worlds (updates_body poll.reply)

-- What the thread of `run` keeps.
pub record Poller : Type 0 where
  pub cursor : UpdateCursor
  pub client : Client
  pub backoff : ℕ
  pub state : State

-- A turn of the loop, given the rest of `poll_once`: the effects, and the wait at the end.
abbrev pub after_fetch :
    Config → Poller → Result Text (List (World × Update)) → Poller × (List Effect × ℕ)
after_fetch g p (ok updates) =
    let handled = process_updates g p.cursor p.client updates in
    (
      record { cursor = handled.0; client = handled.1.0; backoff = backoff_min; state = polling },
      (handled.1.1, between_polls),
    )
after_fetch g p (err e) = (
  record p {
    backoff = if ltb backoff_max (p.backoff * 2) then backoff_max else p.backoff * 2;
    state = error;
  },
  ([], p.backoff),
)

unfoldable pub turn : Parse → Config → Poller → Poll → Poller × (List Effect × ℕ)
turn parse g p poll = after_fetch g p (fetch parse poll)

-- The turns of the loop, their effects in order, and the waits.
unfoldable pub run : Parse → Config → Poller → List Poll → Poller × (List Effect × List ℕ)
run parse g p [] = (p, ([], []))
run parse g p (poll ∷ polls) =
    let now = turn parse g p poll in
    let later = run parse g now.0 polls in (later.0, (now.1.0 ++ later.1.0, now.1.1 ∷ later.1.1))
