-- ===== src/Watch/Timers.antt =====
-- The small timed decisions: shared/backlight, shared/toast-expiry, shared/battery-read, and
-- `FirmwareCheckSchedule` of shared/pc-remote-signing. A `Duration` is a number of milliseconds
-- here: every bound in the code is a whole number of them.
use m5stack_pc_remote.Base.{
  ℕ, ◌+◌, ◌-◌, ◌*◌, ◌^◌, ◌≤◌, min, ◌≡◌, ◌↔◌, inl, inr, Bool, true, false, ◌&&◌, ◌||◌, List, [], ◌∷◌,
  arith, ltb, leb, if◌then◌else◌, Bool-cases,
}

-- shared/backlight/src/lib.rs
-- `SLEEP_TIMEOUT`, 60 seconds.
abbrev sleep_timeout : ℕ
sleep_timeout = 60_000

pub data Action : Type 0 where
  no_action reset_idle turn_off wake : Action

unfoldable pub decide : Bool → Bool → ℕ → Action
decide backlight_on touch_rising_edge idle_elapsed =
    if backlight_on
    then (if touch_rising_edge
        then reset_idle
        else if leb sleep_timeout idle_elapsed
        then turn_off
        else no_action)
    else if touch_rising_edge
    then wake
    else no_action

-- shared/toast-expiry/src/lib.rs
-- `TOAST_TTL`, 3 seconds.
abbrev toast_ttl : ℕ
toast_ttl = 3_000

unfoldable pub is_expired : Bool → ℕ → Bool
is_expired has_toast elapsed = has_toast && leb toast_ttl elapsed

-- shared/battery-read/src/lib.rs
-- `FULL_READ_INTERVAL`, 10 seconds.
abbrev full_read_interval : ℕ
full_read_interval = 10_000

unfoldable pub should_read : Bool → ℕ → Bool
should_read pending elapsed_since_read = pending || leb full_read_interval elapsed_since_read

-- `FirmwareCheckSchedule` of shared/pc-remote-signing/src/firmware_notice.rs
pub record FirmwareCheckSchedule : Type 0 where
  pub next_check_secs : ℕ

abbrev pub default_schedule : FirmwareCheckSchedule
default_schedule = record { next_check_secs = 180 }

-- The largest `u64`.
abbrev u64_max : ℕ
u64_max = 2 ^ 64 - 1

unfoldable pub poll : FirmwareCheckSchedule → ℕ → FirmwareCheckSchedule × Bool
poll s elapsed_secs =
    if ltb elapsed_secs s.next_check_secs
    then (s, false)
    else (record { next_check_secs = min (elapsed_secs + 6 * 60 * 60) u64_max }, true)

-- The times of the checks over a sequence of polls.
pub checks : FirmwareCheckSchedule → List ℕ → List ℕ
checks s [] = []
checks s (now ∷ times) =
    let (s', due) = poll s now in let rest = checks s' times in if due then now ∷ rest else rest

-- Each time is at least the bound, and six hours after the time before it.
abbrev pub SixHoursApart : ℕ → List ℕ → Type 0
SixHoursApart bound [] = Unit
SixHoursApart bound (t ∷ l) = (bound ≤ t) × SixHoursApart (min (t + 21600) u64_max) l

-- Over any sequence of polls the checks are at least six hours apart (up to the end of `u64`), and
-- the first one is not before the schedule's time; from a fresh start that is 180 seconds.
pub checks-SixHoursApart :
    (s : FirmwareCheckSchedule) (times : List ℕ) → SixHoursApart s.next_check_secs (checks s times)
unfolding checks poll
checks-SixHoursApart s [] = tt
checks-SixHoursApart s (now ∷ times) = elim (Bool-cases (ltb now s.next_check_secs)) [
  | inl early ↦ rw early (checks-SixHoursApart s times)
  | inr due ↦ rw due (
    ground arith,
    checks-SixHoursApart (record { next_check_secs = min (now + 21600) u64_max }) times,
  )
]

-- The backlight turns off only when it is on, untouched, and idle for 60 seconds; a touch of a
-- dark screen only wakes it, and a touch of a lit one only restarts the idle time.
decide_lem :
    (on touch : Bool) (idle : ℕ)
    → ((decide on touch idle ≡ turn_off) ↔ ((on ≡ true) × (touch ≡ false) × (sleep_timeout ≤ idle)))
      × ((decide on touch idle ≡ wake) ↔ ((on ≡ false) × (touch ≡ true)))
      × ((decide on touch idle ≡ reset_idle) ↔ ((on ≡ true) × (touch ≡ true)))
unfolding decide
decide_lem on touch idle = (
  (λ h. ground arith, λ h. ground arith),
  (λ h. ground arith, λ h. ground arith),
  (λ h. ground arith, λ h. ground arith),
)
