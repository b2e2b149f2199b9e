-- ===== src/Bridge/Server.antt =====
-- The power handlers of m5stack-pc-bridge/src/server.rs.
pub mod FailClosed
use m5stack_pc_remote.Base.{
  ℕ, zero, suc, Bool, true, false, not, Option, none, some, List, [], ◌∷◌, ◌++◌, if◌then◌else◌,
}
use m5stack_pc_remote.Base.Decimal.{parse_i64}
use m5stack_pc_remote.Base.Int.{ℤ}
use m5stack_pc_remote.Base.Result.{Result, ◌>>=◌, ok, err}
use m5stack_pc_remote.Base.Text.{Text, text, trim}
use m5stack_pc_remote.Wire.Crypto.{Bytes, Crypto}
use m5stack_pc_remote.Wire.PowerAction.{PowerAction, sleep, slug, eq_action}
use m5stack_pc_remote.Bridge.NonceStore.{NonceMap}
use m5stack_pc_remote.Bridge.Auth.{AuthConfig, AuthError, missing_header, Request, verify_request}
use m5stack_pc_remote.Bridge.Power.{
  Effect, audit, PowerResult, accepted_sleep_result, run_power_action,
}

-- The headers of a request as `HeaderMap::get` and `HeaderValue::to_str` give them: the text under
-- a name, if there is one and it is visible ASCII.
abbrev pub Headers : Type 0
Headers = Text → Option Text

-- A request as the router hands it to a handler.
pub record HttpRequest : Type 0 where
  pub method : Text
  pub path : Text
  pub headers : Headers
  pub body : Bytes

-- What `header_str` keeps of a header: the trimmed text, unless it is empty.
nonempty : Text → Result AuthError Text
nonempty [] = err missing_header
nonempty (c ∷ s) = ok (c ∷ s)

trimmed : Option Text → Result AuthError Text
unfolding nonempty
trimmed none = err missing_header
trimmed (some value) = nonempty (trim value)

unfoldable pub header_str : Headers → Text → Result AuthError Text
unfolding trimmed
header_str headers name = trimmed (headers name)

abbrev pub or_missing {ℓ} : {A : Type ℓ} → Option A → Result AuthError A
or_missing none = err missing_header
or_missing (some a) = ok a

-- The arguments that `verify_headers` passes to `verify_request`.
unfoldable pub auth_request : HttpRequest → ℤ → Result AuthError Request
auth_request r now = do
  timestamp_text ← header_str r.headers (text "x-timestamp")
  timestamp ← or_missing (parse_i64 timestamp_text)
  nonce ← header_str r.headers (text "x-nonce")
  signature ← header_str r.headers (text "x-signature")
  ok (record {
    method = r.method;
    path = r.path;
    timestamp = timestamp;
    nonce = nonce;
    body = r.body;
    signature_hex = signature;
    now = now;
  })

-- The outcomes of what a handler calls: appending to the audit log, first and after the action,
-- the executor of the action, and, if the blocking task panics, the number of its effects that
-- happened before.
pub record World : Type 0 where
  pub first_append_ok : Bool
  pub executor : Result Text (Unit {0})
  pub panics_after : Option ℕ

pub data Body : Type 0 where
  plain : Text → Body
  power : PowerResult → Body

pub record Response : Type 0 where
  pub status : ℕ
  pub body : Body

abbrev pub reply : ℕ → Text → Response
reply status message = record { status = status; body = plain message }

pub data CommandFailure : Type 0 where
  audit_failed : CommandFailure
  power_failed : Text → CommandFailure

abbrev pub label_of {ℓ} : {A : Type ℓ} → Result Text A → Text
label_of (ok a) = text "ok"
label_of (err e) = text "failed"

abbrev pub map_failure {ℓ} : {A : Type ℓ} → Result Text A → Result CommandFailure A
map_failure (ok a) = ok a
map_failure (err e) = err (power_failed e)

-- The closure that `command` runs on a blocking thread. A failed append after the action is only
-- logged.
unfoldable pub command_task :
    PowerAction → Bool → World → List Effect × Result CommandFailure PowerResult
command_task action dry_run w =
    if not w.first_append_ok
    then ([], err audit_failed)
    else (let (effects, result) = run_power_action action dry_run w.executor in
        (
          audit (slug action) dry_run (text "accepted") ∷ effects
              ++ audit (slug action) dry_run (label_of result) ∷ [],
          map_failure result,
        ))

abbrev pub take : ℕ → List Effect → List Effect
take zero l = []
take (suc n) [] = []
take (suc n) (e ∷ l) = e ∷ take n l

unfoldable pub task_response : Result CommandFailure PowerResult → Response
task_response (ok result) = record { status = 200; body = power result }
task_response (err audit_failed) = reply 500 (text "failed to write audit log")
task_response (err (power_failed e)) = reply 500 (text "power command failed: " ++ e)

-- What `spawn_blocking` and the `match` on its outcome make of the closure.
pub join : Option ℕ → List Effect × Result CommandFailure PowerResult → List Effect × Response
join none (effects, result) = (effects, task_response result)
join (some n) (effects, result) = (take n effects, reply 500 (text "power command task failed"))

-- The thread that suspends the machine after the response; nothing waits for it.
unfoldable pub sleep_thread : World → List Effect
sleep_thread w =
    let (effects, result) = run_power_action sleep false w.executor in
    effects ++ audit (text "sleep") false (label_of result) ∷ []

-- What `sleep_accepted` does after the outcome of its append.
unfoldable pub sleep_appended : Bool → World → Bool → List Effect × Response
sleep_appended dry_run w false = ([], reply 500 (text "failed to write audit log"))
sleep_appended dry_run w true = (
  audit (text "sleep") dry_run (text "accepted") ∷ (if dry_run then [] else sleep_thread w),
  record { status = 200; body = power (accepted_sleep_result dry_run) },
)

-- What `sleep_accepted` makes of the task that appends.
unfoldable pub sleep_joined : Bool → World → Option ℕ → List Effect × Response
sleep_joined dry_run w none = sleep_appended dry_run w w.first_append_ok
sleep_joined dry_run w (some n) = (
  take n (if w.first_append_ok then audit (text "sleep") dry_run (text "accepted") ∷ [] else []),
  reply 500 (text "power command task failed"),
)

unfoldable pub sleep_accepted : Bool → World → List Effect × Response
sleep_accepted dry_run w = sleep_joined dry_run w w.panics_after

-- What `command` does once the request is authenticated; `confirm` is the body as
-- `serde_json::from_slice::<CommandRequest>` reads it.
unfoldable pub authenticated : PowerAction → Bool → Option Bool → World → List Effect × Response
unfolding join
authenticated action dry_run none w = ([], reply 400 (text "request body must be valid JSON"))
authenticated action dry_run (some false) w = ([], reply 400 (text "confirm must be true"))
authenticated action dry_run (some true) w =
    if eq_action action sleep
    then sleep_accepted dry_run w
    else join w.panics_after (command_task action dry_run w)

-- The outcome of a handler: the store, the effects, whether the failure was given to the alert
-- notifier, and the response.
pub record Handled (Map : Type 0) : Type 0 where
  pub nonces : Map
  pub effects : List Effect
  pub auth_failure : Bool
  pub response : Response

module _ (c : Crypto) (M : NonceMap) (config : AuthConfig) where
  open M use {Map}

  unfoldable pub verify_headers : Map → HttpRequest → ℤ → Map × Result AuthError (Unit {0})
  verify_headers nonces r now = elim (auth_request r now) [
    | err e ↦ (nonces, err e)
    | ok request ↦ verify_request c M config nonces request
  ]

  pub finish :
      PowerAction → Bool → Option Bool → World → Map × Result AuthError (Unit {0}) → Handled Map
  finish action dry_run confirm w (nonces, ok done) =
      let (effects, response) = authenticated action dry_run confirm w in
      record { nonces = nonces; effects = effects; auth_failure = false; response = response }
  finish action dry_run confirm w (nonces, err e) = record {
    nonces = nonces;
    effects = [];
    auth_failure = true;
    response = reply 401 (text "unauthorized");
  }

  -- `command`; `read_confirm` is the JSON reader.
  unfoldable pub command :
      (Bytes → Option Bool) → PowerAction → Bool → Map → HttpRequest → ℤ → World → Handled Map
  unfolding finish
  command read_confirm action dry_run nonces r now w =
      finish action dry_run (read_confirm r.body) w (verify_headers nonces r now)
