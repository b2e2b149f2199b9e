-- ===== src/Calendar/Civil.antt =====
-- Dates of firmware/src/ui.rs: the civil date of a day counted from 1970-01-01, leap years and the
-- lengths of months. Machine integers are unbounded here: the days of an `i64` of seconds are far
-- from the ends of the range.
use m5stack_pc_remote.Base.{
  ℕ, ◌+◌, ◌-◌, ◌*◌, ◌/◌, Bool, not, ◌&&◌, ◌||◌, ltb, leb, ◌==◌, if◌then◌else◌,
}
use m5stack_pc_remote.Base.Int.{ℤ, ◌+ℤ◌, div_euclid, rem_euclid, scale, divides, pos}

-- `CalendarDay` of shared/calendar-update/src/lib.rs.
pub record CalendarDay : Type 0 where
  pub year : ℤ
  pub month : ℕ
  pub day : ℕ

-- The parts of `civil_from_days`: from the day of the era to the year of the era, the day of the
-- year from March on, the number of the month from March on, and the date.
unfoldable pub year_of_era : ℕ → ℕ
year_of_era doe = (doe - doe / 1_460 + doe / 36_524 - doe / 146_096) / 365

unfoldable pub day_of_year : ℕ → ℕ → ℕ
day_of_year doe yoe = doe - (365 * yoe + yoe / 4 - yoe / 100)

unfoldable pub shifted_month : ℕ → ℕ
shifted_month doy = (5 * doy + 2) / 153

unfoldable pub day_of_month : ℕ → ℕ
unfolding shifted_month
day_of_month doy = doy - (153 * shifted_month doy + 2) / 5 + 1

unfoldable pub month_of_year : ℕ → ℕ
unfolding shifted_month
month_of_year doy = let mp = shifted_month doy in if ltb mp 10 then mp + 3 else mp - 9

-- The day of the era is `z - era * 146_097`, the remainder.
unfoldable pub civil_from_days : ℤ → CalendarDay
unfolding year_of_era day_of_year month_of_year day_of_month div_euclid rem_euclid scale ◌+ℤ◌
civil_from_days z0 =
    let z = z0 +ℤ pos 719_468 in
    let doe = rem_euclid z 146_097 in
    let yoe = year_of_era doe in
    let y = pos yoe +ℤ scale 400 (div_euclid z 146_097) in
    let doy = day_of_year doe yoe in
    let m = month_of_year doy in
    record { year = if leb m 2 then y +ℤ pos 1 else y; month = m; day = day_of_month doy }

unfoldable pub is_leap_year : ℤ → Bool
unfolding divides
is_leap_year year = divides 4 year && not (divides 100 year) || divides 400 year

unfoldable pub days_in_month : ℤ → ℕ → ℕ
unfolding is_leap_year
days_in_month year month =
    if month == 4 || month == 6 || month == 9 || month == 11
    then 30
    else if month == 2
    then (if is_leap_year year then 29 else 28)
    else if month == 0 || ltb 12 month
    then 30
    else 31

-- The day after, by the lengths of the months.
unfoldable pub next_day : CalendarDay → CalendarDay
unfolding days_in_month ◌+ℤ◌
next_day c =
    if ltb c.day (days_in_month c.year c.month)
    then record c { day = c.day + 1 }
    else if ltb c.month 12
    then record c { month = c.month + 1; day = 1 }
    else record { year = c.year +ℤ pos 1; month = 1; day = 1 }
