-- ===== src/Bridge/Server/FailClosed.antt =====
-- What m5stack-pc-bridge/src/server.rs does before it acts on the power of the machine.
use m5stack_pc_remote.Base.Int.{ℤ}
use m5stack_pc_remote.Base.Result.{Result, ok, err}
use m5stack_pc_remote.Base.Text.{Text, text}
use m5stack_pc_remote.Base.{
  ℕ, zero, suc, ◌+◌, ◌≤◌, ◌≡◌, refl, ◌⊎◌, inl, inr, Bool, true, false, Option, none, some, List, [],
  ◌∷◌, ◌++◌, arith, Bool-cases,
}
use m5stack_pc_remote.Wire.Crypto.{Bytes, Crypto}
use m5stack_pc_remote.Wire.PowerAction.{PowerAction, reboot, shutdown, sleep, slug}
use m5stack_pc_remote.Bridge.NonceStore.{NonceMap}
use m5stack_pc_remote.Bridge.Auth.{AuthConfig, AuthError}
use m5stack_pc_remote.Bridge.Power.{
  PowerResult, Effect, audit, run_shutdown, suspend, run_power_action,
}
use m5stack_pc_remote.Bridge.Server.{
  CommandFailure, HttpRequest, World, authenticated, command, command_task, sleep_accepted,
  sleep_appended, sleep_joined, sleep_thread, verify_headers, take, label_of, join, finish,
}

-- The number of effects that act on the power of the machine.
powers : List Effect → ℕ
powers [] = 0
powers (audit action dry_run outcome ∷ l) = powers l
powers (run_shutdown arguments ∷ l) = 1 + powers l
powers (suspend ∷ l) = 1 + powers l

-- At most one power effect, only without `dry_run`, only if the audit log took a line, and only
-- after that line.
pub IsFailClosed : PowerAction → Bool → Bool → List Effect → Type 0
IsFailClosed action dry_run appended effects =
    (powers effects ≡ 0)
    ⊎ ((powers effects ≡ 1)
        × (dry_run ≡ false)
        × (appended ≡ true)
        × (rest : List Effect) × (effects ≡ audit (slug action) false (text "accepted") ∷ rest))

powers_cases : (l : List Effect) → powers l ≤ 1 → (powers l ≡ 0) ⊎ (powers l ≡ 1)
powers_cases l h = ground arith

powers-take : (n : ℕ) (l : List Effect) → powers (take n l) ≤ powers l
unfolding powers
powers-take zero l = omega arith
powers-take (suc n) [] = omega arith
powers-take (suc n) (audit action dry_run outcome ∷ l) = powers-take n l
powers-take (suc n) (run_shutdown arguments ∷ l) = omega (arith, powers-take n l)
powers-take (suc n) (suspend ∷ l) = omega (arith, powers-take n l)

-- A task that stops half-way is as safe as the whole task.
take-IsFailClosed :
    (action : PowerAction) (dry_run appended : Bool) (n : ℕ) (l : List Effect)
    → IsFailClosed action dry_run appended l
    → IsFailClosed action dry_run appended (take n l)
unfolding IsFailClosed powers
take-IsFailClosed action dry_run appended n l (inl e) = inl (omega (arith, powers-take n l))
take-IsFailClosed action dry_run appended zero l (inr e) = inl refl
take-IsFailClosed action dry_run appended (suc n) l (inr (one, dry, logged, rest, e)) =
    elim (powers_cases (take (suc n) l) (omega (arith, powers-take (suc n) l))) [
      | inl h ↦ inl h
      | inr h ↦ inr (h, dry, logged, take n rest, rw e refl)
    ]

-- What runs after a first line in the log.
logged-IsFailClosed :
    (action : PowerAction) (dry_run : Bool) (outcome : Result Text (Unit {0})) (label : Text)
    → IsFailClosed action dry_run true (
        audit (slug action) dry_run (text "accepted") ∷ (run_power_action action dry_run outcome).0
        ++ audit (slug action) dry_run label ∷ [])
unfolding IsFailClosed powers run_power_action
logged-IsFailClosed reboot true outcome label = inl refl
logged-IsFailClosed shutdown true outcome label = inl refl
logged-IsFailClosed sleep true outcome label = inl refl
logged-IsFailClosed reboot false (ok done) label = inr (refl, refl, refl, _, refl)
logged-IsFailClosed reboot false (err e) label = inr (refl, refl, refl, _, refl)
logged-IsFailClosed shutdown false (ok done) label = inr (refl, refl, refl, _, refl)
logged-IsFailClosed shutdown false (err e) label = inr (refl, refl, refl, _, refl)
logged-IsFailClosed sleep false (ok done) label = inr (refl, refl, refl, _, refl)
logged-IsFailClosed sleep false (err e) label = inr (refl, refl, refl, _, refl)

task-IsFailClosed :
    (action : PowerAction) (dry_run : Bool) (w : World)
    → IsFailClosed action dry_run w.first_append_ok (command_task action dry_run w).0
unfolding command_task IsFailClosed powers
task-IsFailClosed action dry_run w = elim (Bool-cases w.first_append_ok) [
  | inl e ↦ rw e (
      logged-IsFailClosed action dry_run w.executor
        (label_of (run_power_action action dry_run w.executor).1))
  | inr e ↦ rw e (inl refl)
]

appended-IsFailClosed :
    (dry_run : Bool) (w : World) (appended : Bool)
    → IsFailClosed sleep dry_run appended (sleep_appended dry_run w appended).0
unfolding sleep_appended IsFailClosed powers sleep_thread slug
appended-IsFailClosed dry_run w false = inl refl
appended-IsFailClosed true w true = inl refl
appended-IsFailClosed false w true =
    logged-IsFailClosed sleep false w.executor
      (label_of (run_power_action sleep false w.executor).1)

joined-IsFailClosed :
    (dry_run : Bool) (w : World) (panics_after : Option ℕ)
    → IsFailClosed sleep dry_run w.first_append_ok (sleep_joined dry_run w panics_after).0
unfolding sleep_joined IsFailClosed powers
joined-IsFailClosed dry_run w none = appended-IsFailClosed dry_run w w.first_append_ok
joined-IsFailClosed dry_run w (some n) = elim (Bool-cases w.first_append_ok) [
  | inl e ↦
      rw e
        (inl (omega (arith, powers-take n (audit (text "sleep") dry_run (text "accepted") ∷ []))))
  | inr e ↦ rw e (inl (omega (arith, powers-take n [])))
]

join-IsFailClosed :
    (action : PowerAction) (dry_run appended : Bool) (panics_after : Option ℕ)
    (effects : List Effect) (result : Result CommandFailure PowerResult)
    → IsFailClosed action dry_run appended effects
    → IsFailClosed action dry_run appended (join panics_after (effects, result)).0
unfolding join
join-IsFailClosed action dry_run appended none effects result h = h
join-IsFailClosed action dry_run appended (some n) effects result h =
    take-IsFailClosed action dry_run appended n effects h

authenticated-IsFailClosed :
    (action : PowerAction) (dry_run : Bool) (w : World)
    → IsFailClosed action dry_run w.first_append_ok (authenticated action dry_run (some true) w).0
unfolding authenticated sleep_accepted
authenticated-IsFailClosed sleep dry_run w = joined-IsFailClosed dry_run w w.panics_after
authenticated-IsFailClosed reboot dry_run w =
    let (effects, result) = command_task reboot dry_run w in
    join-IsFailClosed reboot dry_run w.first_append_ok w.panics_after effects result
      (task-IsFailClosed reboot dry_run w)
authenticated-IsFailClosed shutdown dry_run w =
    let (effects, result) = command_task shutdown dry_run w in
    join-IsFailClosed shutdown dry_run w.first_append_ok w.panics_after effects result
      (task-IsFailClosed shutdown dry_run w)

module _ (c : Crypto) (M : NonceMap) (config : AuthConfig) where
  open M use {Map}

  finish-IsFailClosed :
      (action : PowerAction) (dry_run : Bool) (confirm : Option Bool) (w : World)
      (verified : Map × Result AuthError (Unit {0}))
      → let effects = (finish c M config action dry_run confirm w verified).effects in
        (effects ≡ [])
        ⊎ ((verified.1 ≡ ok tt)
            × (confirm ≡ some true)
            × IsFailClosed action dry_run w.first_append_ok effects)
  unfolding finish authenticated
  finish-IsFailClosed action dry_run confirm w (nonces, err e) = inl refl
  finish-IsFailClosed action dry_run none w (nonces, ok done) = inl refl
  finish-IsFailClosed action dry_run (some false) w (nonces, ok done) = inl refl
  finish-IsFailClosed action dry_run (some true) w (nonces, ok done) =
      inr (refl, refl, authenticated-IsFailClosed action dry_run w)

  -- Whatever the request, the clock and the outcomes of the calls, `command` has no effect, or the
  -- request is authenticated and confirms, and then it acts on the power of the machine at most
  -- once, only without `dry_run`, only if the audit log took a line, and after that line.
  pub command-IsFailClosed :
      (read_confirm : Bytes → Option Bool) (action : PowerAction) (dry_run : Bool) (nonces : Map)
      (r : HttpRequest) (now : ℤ) (w : World)
      → let effects = (command c M config read_confirm action dry_run nonces r now w).effects in
        (effects ≡ [])
        ⊎ (((verify_headers c M config nonces r now).1 ≡ ok tt)
            × (read_confirm r.body ≡ some true)
            × IsFailClosed action dry_run w.first_append_ok effects)
  unfolding command
  command-IsFailClosed read_confirm action dry_run nonces r now w =
      finish-IsFailClosed action dry_run (read_confirm r.body) w
        (verify_headers c M config nonces r now)
