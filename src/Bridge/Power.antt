-- ===== src/Bridge/Power.antt =====
-- m5stack-pc-bridge/src/power.rs, with the effects that it has on the machine as a list.
use m5stack_pc_remote.Base.{Bool, true, false, List, [], ◌∷◌}
use m5stack_pc_remote.Base.Result.{Result, ok, err}
use m5stack_pc_remote.Base.Text.{Text, text}
use m5stack_pc_remote.Wire.PowerAction.{PowerAction, reboot, shutdown, sleep, slug}

-- What the bridge does to the world, in order: a line for the audit log, a run of `shutdown.exe`
-- with its arguments, and a call of `SetSuspendState`.
pub data Effect : Type 0 where
  audit : Text → Bool → Text → Effect
  run_shutdown : List Text → Effect
  suspend : Effect

pub record PowerResult : Type 0 where
  pub action : Text
  pub dry_run : Bool
  pub command : List Text
  pub outcome : Text

-- The flag for `shutdown.exe`; the branch is taken for the other two actions only.
abbrev shutdown_flag : PowerAction → Text
shutdown_flag reboot = text "/r"
shutdown_flag shutdown = text "/s"
shutdown_flag sleep = text "/s"

abbrev shutdown_args : PowerAction → List Text
shutdown_args action = shutdown_flag action ∷ text "/t" ∷ text "0" ∷ []

unfoldable pub accepted_sleep_result : Bool → PowerResult
accepted_sleep_result dry_run = record {
  action = slug sleep;
  dry_run = dry_run;
  command = text "SetSuspendState" ∷ text "false" ∷ text "false" ∷ text "false" ∷ [];
  outcome = text "accepted";
}

-- An executor that is called leaves its effect and succeeds or fails with a message; under
-- `dry_run` it is not called.
abbrev call_executor : Bool → Effect → Result Text (Unit {0}) → List Effect × Result Text (Unit {0})
call_executor true effect outcome = ([], ok tt)
call_executor false effect outcome = (effect ∷ [], outcome)

abbrev with_result {ℓ} :
    {A : Type ℓ} → List Effect × Result Text (Unit {0}) → A → List Effect × Result Text A
with_result (effects, ok done) a = (effects, ok a)
with_result (effects, err e) a = (effects, err e)

-- `run_power_action_with_executors`; the last argument is the outcome of the executor.
unfoldable pub run_power_action :
    PowerAction → Bool → Result Text (Unit {0}) → List Effect × Result Text PowerResult
run_power_action sleep dry_run outcome =
    with_result (call_executor dry_run suspend outcome) (accepted_sleep_result dry_run)
run_power_action action dry_run outcome =
    with_result (call_executor dry_run (run_shutdown (shutdown_args action)) outcome) (record {
      action = slug action;
      dry_run = dry_run;
      command = text "shutdown.exe" ∷ shutdown_args action;
      outcome = text "ok";
    })
