-- ===== src/Tests/Loops.antt =====
-- Runs of the modules under Rounds and Calendar.
use m5stack_pc_remote.Base.{
  ℕ, ◌+◌, ◌≤◌, ◌≡◌, refl, Bool, true, false, Option, none, some, List, [], ◌∷◌, if◌then◌else◌,
}
use m5stack_pc_remote.Base.Text.{Text, text, eqb}
use m5stack_pc_remote.Base.Int.{div_euclid, pos}
use m5stack_pc_remote.Watch.SleepWatch.{idle_watch}
use m5stack_pc_remote.Watch.PowerNotify.{settled}
use m5stack_pc_remote.Rounds.Target.{Connection, connected, failed}
use m5stack_pc_remote.Rounds.Status.{Watcher, Turn}
use m5stack_pc_remote.Rounds.Events.{Event, turn, wake_request, outputs}
use m5stack_pc_remote.Rounds.Announced.{Announces, outputs-Announces}
use m5stack_pc_remote.Rounds.Counts.{lookups, marks, changes}
use m5stack_pc_remote.Rounds.Bounds.{lookups-le-changes, marks-le-one}
use m5stack_pc_remote.Rounds.Battery
use m5stack_pc_remote.Rounds.Battery.{DisplayState, Gauge, Tick}
use m5stack_pc_remote.Rounds.Sources.{notices, notices-steady}
use m5stack_pc_remote.Calendar.View.{CalendarView, calendar_view, calendar_date, local_time}
use m5stack_pc_remote.Calendar.Grid.{Shows, calendar_view-Shows}
use m5stack_pc_remote.Calendar.Civil.{civil_from_days, next_day}
use m5stack_pc_remote.Calendar.Succession.{civil_from_days_suc}

-- Addresses are numbers, and only this one is an address.
abbrev parse_toy : Text → Option ℕ
parse_toy s = if eqb s (text "10.0.0.2:80") then some 7 else none

abbrev answer : Bool → ℕ → Connection
answer true a = connected
answer false a = failed

abbrev turn_at : ℕ → Bool → Turn ℕ
turn_at now pc_answers = record {
  now = now;
  wifi_connected = true;
  addr_text = text "pc.local:80";
  hosts = λ name. 7 ∷ [];
  connect = answer pc_answers;
  marked = true;
}

-- A PC that was announced as off, and a target that was not looked up yet.
abbrev watcher : Watcher ℕ
watcher = record {
  status_at = 0;
  pc_online = false;
  status_target_text = text "pc.local:80";
  status_targets = [];
  status_dns_tried = false;
  stable_notify = record { notified_online = some false; notify_streak = 0 };
  wake_watch = none;
  sleep_watch = idle_watch;
  ota_validated = false;
}

-- A wake request, after which the PC answers from the second round on.
abbrev woken : List (Event ℕ)
woken =
    wake_request 5_000 false
    ∷ turn (turn_at 10_000 false)
    ∷ turn (turn_at 20_000 true)
    ∷ turn (turn_at 30_000 true)
    ∷ turn (turn_at 40_000 true)
    ∷ []

outputs-Announces_example : Announces (some false) (outputs parse_toy watcher woken)
outputs-Announces_example =
    outputs-Announces parse_toy watcher woken refl (tt, (tt, (tt, (tt, (tt, tt)))))

lookups-le-changes_example :
    lookups (outputs parse_toy watcher woken) ≤ 1 + changes (text "pc.local:80") woken
lookups-le-changes_example = lookups-le-changes parse_toy watcher woken

marks-le-one_example : marks (outputs parse_toy watcher woken) + 0 ≤ 1
marks-le-one_example = marks-le-one parse_toy watcher woken

abbrev charged : DisplayState
charged = record { percent = 100; is_powered = true; is_charging = false }

abbrev gauge : Gauge
gauge = record {
  battery_fast_at = 0;
  battery_at = 0;
  battery = some charged;
  shared = some charged;
  power_notify = settled true;
}

-- A reading that fails, and one that succeeds.
abbrev ticks : List Tick
ticks =
    record { now = 1_000; latches = none; reading = none }
    ∷ record { now = 2_000; latches = some (0x40, 0); reading = some charged }
    ∷ []

notices-steady_example : notices (Battery.outputs gauge ticks) ≡ []
notices-steady_example =
    notices-steady true gauge ticks (record { displays = refl; is_settled = refl }) (tt, (refl, tt))

civil_from_days_suc_example :
    (civil_from_days (pos 0) ≡ record { year = pos 1970; month = 1; day = 1 })
    × (civil_from_days (pos 20_513) ≡ next_day (civil_from_days (pos 20_512)))
civil_from_days_suc_example = civil_from_days_suc 20_512

calendar_view-Shows_example :
    (view : CalendarView) × (calendar_view (pos 1_792_000_000) (pos 9) ≡ some view)
    × Shows
        (div_euclid (local_time (pos 1_792_000_000) (pos 9)) 86_400)
        (calendar_date (pos 1_792_000_000) (pos 9))
        view
calendar_view-Shows_example = calendar_view-Shows (pos 1_792_000_000) (pos 9)
