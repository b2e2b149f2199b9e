-- ===== src/Tests/Alerts.antt =====
-- Runs of Watch/AlertThrottle.antt.
use m5stack_pc_remote.Base.{ℕ, ◌+◌, ◌≡◌, none, List, [], ◌∷◌, arith}
use m5stack_pc_remote.Watch.AlertThrottle.{
  AlertThrottle, alerts, pending, Spaced, reported, alerts-Spaced, reported-alerts,
}

abbrev throttle : AlertThrottle
throttle = record { threshold = 2; interval = 100; failures = 0; last_fired = none }

abbrev times : List ℕ
times = 1 ∷ 2 ∷ 3 ∷ 4 ∷ 150 ∷ []

alerts-Spaced_example : Spaced 2 100 none (alerts throttle times)
alerts-Spaced_example = alerts-Spaced throttle times

reported-alerts_example : reported (alerts throttle times) + pending throttle times ≡ 5
reported-alerts_example = reported-alerts throttle times (omega arith)
