-- ===== src/Tests/Online.antt =====
-- Runs of Watch/OnlineState.antt.
use m5stack_pc_remote.Base.{◌+◌, ◌≡◌, true, false, List, [], ◌∷◌, bit}
use m5stack_pc_remote.Watch.OnlineState.{
  initial, wifi_connected, wifi_disconnected, Outcome, Pass, services, run, telegram_starts,
  telegram_starts_once,
}

abbrev fails : Outcome
fails = record { sntp_ok = true; notifier_ok = true; telegram_ok = false }

abbrev works : Outcome
works = record { sntp_ok = true; notifier_ok = true; telegram_ok = true }

abbrev passes : List Pass
passes =
    record { event = wifi_connected; outcome = fails }
    ∷ record { event = wifi_disconnected; outcome = works }
    ∷ record { event = wifi_connected; outcome = works }
    ∷ record { event = wifi_connected; outcome = works }
    ∷ []

telegram_starts_once_example :
    telegram_starts true initial passes + bit (services initial).telegram_started
    ≡ bit (services (run true initial passes)).telegram_started
telegram_starts_once_example = telegram_starts_once true initial passes
