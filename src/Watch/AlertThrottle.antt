-- ===== src/Watch/AlertThrottle.antt =====
-- `AlertThrottle` of shared/pc-remote-signing/src/lib.rs. An `Instant` is the number of
-- nanoseconds from a fixed origin, and a `Duration` is one of nanoseconds; `duration_since` gives
-- zero for a later argument, as `-` does here.
use mathlib.Core.Path.{subst, subst₂}
use m5stack_pc_remote.Base.{
  ℕ, ◌+◌, ◌-◌, ◌*◌, ◌%◌, ◌^◌, ◌≤◌, ◌<◌, ◌≡◌, refl, ◌∙◌, ◌⊎◌, inl, inr, Bool, false, Option, none,
  some, List, [], ◌∷◌, arith, ltb, if◌then◌else◌, length,
}

abbrev default_threshold : ℕ
default_threshold = 3

-- 3600 seconds.
abbrev default_interval : ℕ
default_interval = 3600 * 1_000_000_000

pub record AlertThrottle : Type 0 where
  pub threshold : ℕ
  pub interval : ℕ
  pub failures : ℕ
  pub last_fired : Option ℕ

unfoldable pub new : ℕ → ℕ → AlertThrottle
new threshold interval = record {
  threshold = threshold;
  interval = interval;
  failures = 0;
  last_fired = none;
}

-- The test on `last_fired` in `record`.
unfoldable pub is_quiet : Option ℕ → ℕ → ℕ → Bool
is_quiet none interval now = false
is_quiet (some fired) interval now = ltb (now - fired) interval

-- `record`: the count is a `u32`, whose addition wraps in a release build.
pub record_failure : AlertThrottle → ℕ → AlertThrottle × Option ℕ
unfolding is_quiet
record_failure t now =
    let failures = (t.failures + 1) % 2 ^ 32 in
    let counted = record t { failures = failures } in
    if ltb failures t.threshold
    then (counted, none)
    else if is_quiet t.last_fired t.interval now
    then (counted, none)
    else (record t { failures = 0; last_fired = some now }, some failures)

abbrev push_alert : ℕ → Option ℕ → List (ℕ × ℕ) → List (ℕ × ℕ)
push_alert now none l = l
push_alert now (some n) l = (now, n) ∷ l

-- The alerts over a sequence of failures: when each was sent, and the count that it reports.
pub alerts : AlertThrottle → List ℕ → List (ℕ × ℕ)
alerts t [] = []
alerts t (now ∷ times) =
    let (t', alert) = record_failure t now in push_alert now alert (alerts t' times)

-- The failures that are counted when the sequence ends.
pub pending : AlertThrottle → List ℕ → ℕ
pending t [] = t.failures
pending t (now ∷ times) = pending (record_failure t now).0 times

abbrev pub reported : List (ℕ × ℕ) → ℕ
reported [] = 0
reported ((now, n) ∷ l) = n + reported l

-- The interval since the last alert is over, if there was one.
abbrev IsOver : Option ℕ → ℕ → ℕ → Type 0
IsOver none interval now = Unit
IsOver (some fired) interval now = interval ≤ now - fired

-- Each alert comes at least `interval` after the one before it and reports `threshold` or more.
abbrev pub Spaced : ℕ → ℕ → Option ℕ → List (ℕ × ℕ) → Type 0
Spaced threshold interval last [] = Unit
Spaced threshold interval last ((now, n) ∷ l) =
    IsOver last interval now × (threshold ≤ n) × Spaced threshold interval (some now) l

is_quiet-IsOver :
    (last : Option ℕ) (interval now : ℕ)
    → is_quiet last interval now ≡ false
    → IsOver last interval now
unfolding is_quiet
is_quiet-IsOver none interval now h = tt
is_quiet-IsOver (some fired) interval now h = ground arith

record_failure_lem :
    (t : AlertThrottle) (now : ℕ)
    → (((record_failure t now).1 ≡ none)
        × ((record_failure t now).0.last_fired ≡ t.last_fired)
        × ((record_failure t now).0.failures ≡ (t.failures + 1) % 2 ^ 32))
      ⊎ (((record_failure t now).1 ≡ some ((t.failures + 1) % 2 ^ 32))
          × ((record_failure t now).0.last_fired ≡ some now)
          × ((record_failure t now).0.failures ≡ 0)
          × IsOver t.last_fired t.interval now
          × (t.threshold ≤ (t.failures + 1) % 2 ^ 32))
unfolding record_failure
record_failure_lem t now = ground (arith, is_quiet-IsOver t.last_fired t.interval now)

record_failure_keeps :
    (t : AlertThrottle) (now : ℕ)
    → ((record_failure t now).0.threshold ≡ t.threshold)
      × ((record_failure t now).0.interval ≡ t.interval)
unfolding record_failure
record_failure_keeps t now = ground arith

alerts_from :
    (threshold interval : ℕ) (last : Option ℕ) (t : AlertThrottle) (times : List ℕ)
    → t.threshold ≡ threshold
    → t.interval ≡ interval
    → t.last_fired ≡ last
    → Spaced threshold interval last (alerts t times)
unfolding alerts
alerts_from threshold interval last t [] p q r = tt
alerts_from threshold interval last t (now ∷ times) p q r =
    let t' = (record_failure t now).0 in
    let (kept, same_interval) = record_failure_keeps t now in
    elim (record_failure_lem t now) [
      | inl e ↦
          rw e.0
            (alerts_from threshold interval last t' times (kept ∙ p) (same_interval ∙ q) (e.1 ∙ r))
      | inr e ↦ rw e.0 (
        subst₂ (λ o i. IsOver o i now) r q e.3,
        subst (λ n. n ≤ (t.failures + 1) % 2 ^ 32) p e.4,
        alerts_from threshold interval (some now) t' times (kept ∙ p) (same_interval ∙ q) e.1,
      )
    ]

-- Over any sequence of failures, each alert comes at least `interval` nanoseconds after the alert
-- before it, and after the one last sent before the sequence, and reports at least the threshold.
pub alerts-Spaced :
    (t : AlertThrottle) (times : List ℕ)
    → Spaced t.threshold t.interval t.last_fired (alerts t times)
alerts-Spaced t times = alerts_from t.threshold t.interval t.last_fired t times refl refl refl

-- No failure is lost or counted twice: the counts that the alerts report and the failures still
-- pending add up to the failures recorded, as long as the `u32` counter does not wrap.
pub reported-alerts :
    (t : AlertThrottle) (times : List ℕ)
    → t.failures + length times < 2 ^ 32
    → reported (alerts t times) + pending t times ≡ t.failures + length times
unfolding alerts pending
reported-alerts t [] h = omega arith
reported-alerts t (now ∷ times) h =
    let t' = (record_failure t now).0 in
    elim (record_failure_lem t now) [
      | inl e ↦ rw e.0 (omega (arith, e.2, reported-alerts t' times (omega (arith, e.2))))
      | inr e ↦ rw e.0 (omega (arith, e.2, reported-alerts t' times (omega (arith, e.2))))
    ]
