-- ===== src/Calendar/View.antt =====
-- The clock and the month of firmware/src/ui.rs: the texts and the grid. A write outside of the
-- grid, which would end the program, is `none`.
use mathlib.Core.Option
use m5stack_pc_remote.Base.{
  ℕ, zero, suc, ◌+◌, ◌-◌, ◌/◌, ◌%◌, Bool, true, false, not, Option, none, some, List, [], ◌∷◌, ◌++◌,
  if◌then◌else◌, length, replicate,
}
use m5stack_pc_remote.Base.Decimal.{show_ℕ}
use m5stack_pc_remote.Base.Text.{Text, text}
use m5stack_pc_remote.Base.Int.{
  ℤ, pos_part, neg_part, sub_ℕ, ◌+ℤ◌, div_euclid, rem_euclid, scale, pos, negsuc,
}
use m5stack_pc_remote.Calendar.Civil.{CalendarDay, civil_from_days, days_in_month}
use m5stack_pc_remote.Firmware.BridgeClient.{is_ntp_synced}

-- `{:0w}`.
unfoldable pub pad : ℕ → Text → Text
pad width s = replicate (width - length s) b'0' ++ s

unfoldable pub pad_ℤ : ℕ → ℤ → Text
unfolding pad
pad_ℤ width (pos n) = pad width (show_ℕ n)
pad_ℤ width (negsuc n) = b'-' ∷ pad (width - 1) (show_ℕ (suc n))

abbrev pub weekday_names : List Text
weekday_names =
    text "SUN" ∷ text "MON" ∷ text "TUE" ∷ text "WED" ∷ text "THU" ∷ text "FRI" ∷ text "SAT" ∷ []

-- The name at an index, which is below 7.
unfoldable pub name_at : List Text → ℕ → Text
name_at [] i = []
name_at (name ∷ names) zero = name
name_at (name ∷ names) (suc i) = name_at names i

abbrev pub clock_time_unsynced : Text
clock_time_unsynced = text "--:--"

abbrev pub clock_date_unsynced : Text
clock_date_unsynced = text "--/-- ---"

pub record ClockStrings : Type 0 where
  pub time : Text
  pub date : Text

-- The seconds of local time.
abbrev pub local_time : ℤ → ℤ → ℤ
local_time unix_secs tz_offset_hours = unix_secs +ℤ scale 3_600 tz_offset_hours

unfoldable pub clock_strings : ℤ → ℤ → ClockStrings
unfolding is_ntp_synced ◌+ℤ◌ scale div_euclid rem_euclid civil_from_days pad name_at
clock_strings unix_secs tz_offset_hours =
    if not (is_ntp_synced unix_secs)
    then record { time = clock_time_unsynced; date = clock_date_unsynced }
    else (let days = div_euclid (local_time unix_secs tz_offset_hours) 86_400 in
        let secs_of_day = rem_euclid (local_time unix_secs tz_offset_hours) 86_400 in
        let date = civil_from_days days in
        record {
          time =
              pad 2 (show_ℕ (secs_of_day / 3_600))
              ++ b':' ∷ pad 2 (show_ℕ (secs_of_day % 3_600 / 60));
          date =
              pad 2 (show_ℕ date.month)
              ++ b'/' ∷ pad 2 (show_ℕ date.day)
              ++ b' ' ∷ name_at weekday_names (rem_euclid (days +ℤ pos 4) 7);
        })

unfoldable pub calendar_date : ℤ → ℤ → Option CalendarDay
unfolding is_ntp_synced ◌+ℤ◌ scale div_euclid civil_from_days
calendar_date unix_secs tz_offset_hours =
    if not (is_ntp_synced unix_secs)
    then none
    else some (civil_from_days (div_euclid (local_time unix_secs tz_offset_hours) 86_400))

abbrev pub Weeks : Type 0
Weeks = List (List (Option ℕ))

abbrev pub empty_weeks : Weeks
empty_weeks = replicate 6 (replicate 7 none)

-- `list[i] = a`.
unfoldable pub write {ℓ} : {A : Type ℓ} → List A → ℕ → A → Option (List A)
write [] i a = none
write (x ∷ xs) zero a = some (a ∷ xs)
write (x ∷ xs) (suc i) a = Option.map (λ ys. x ∷ ys) (write xs i a)

unfoldable pub row_at : Weeks → ℕ → Option (List (Option ℕ))
row_at [] i = none
row_at (r ∷ rs) zero = some r
row_at (r ∷ rs) (suc i) = row_at rs i

-- `weeks[row][column] = Some(day)`.
unfoldable pub place : Weeks → ℕ → ℕ → ℕ → Option Weeks
unfolding write row_at
place weeks row column day = elim (row_at weeks row) [
  | none ↦ none
  | some cells ↦ elim (write cells column (some day)) [
    | none ↦ none
    | some cells' ↦ write weeks row cells'
  ]
]

-- The rounds that are left of the loop over the days of the month.
unfoldable pub fill : ℕ → ℕ → ℕ → Weeks → Option Weeks
unfolding place
fill zero first_weekday day weeks = some weeks
fill (suc rounds) first_weekday day weeks =
    let idx = first_weekday + (day - 1) in
    elim (place weeks (idx / 7) (idx % 7) day) [
      | none ↦ none
      | some weeks' ↦ fill rounds first_weekday (day + 1) weeks'
    ]

pub record CalendarView : Type 0 where
  pub title : Text
  pub synced : Bool
  pub weeks : Weeks
  pub today : Option ℕ

-- The weekday of the first day of the month, 0 for Sunday.
unfoldable pub first_weekday_of : ℤ → CalendarDay → ℕ
unfolding ◌+ℤ◌ rem_euclid
first_weekday_of days today =
    let first_days = sub_ℕ (pos_part days) (neg_part days + (today.day - 1)) in
    rem_euclid (first_days +ℤ pos 4) 7

abbrev pub view_of : ℤ → Option CalendarDay → Option CalendarView
view_of local none =
    some (record { title = text "----/--"; synced = false; weeks = empty_weeks; today = none })
view_of local (some today) =
    Option.map
      (λ weeks. record {
        title = pad_ℤ 4 today.year ++ b'-' ∷ pad 2 (show_ℕ today.month);
        synced = true;
        weeks = weeks;
        today = some today.day;
      })
      (fill (days_in_month today.year today.month)
        (first_weekday_of (div_euclid local 86_400) today) 1 empty_weeks)

unfoldable pub calendar_view : ℤ → ℤ → Option CalendarView
unfolding calendar_date
calendar_view unix_secs tz_offset_hours =
    view_of (local_time unix_secs tz_offset_hours) (calendar_date unix_secs tz_offset_hours)
