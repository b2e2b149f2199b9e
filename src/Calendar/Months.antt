-- ===== src/Calendar/Months.antt =====
-- The months of a year that is counted from March on: a table of its days.
use m5stack_pc_remote.Base.{
  ℕ, ◌+◌, ◌≡◌, refl, Bool, true, ◌&&◌, ◌||◌, ltb, leb, ◌==◌, if◌then◌else◌,
}
use m5stack_pc_remote.Calendar.Civil.{month_of_year, day_of_month}
use m5stack_pc_remote.Calendar.Years.{passes}

-- The length of a month, in a year whose February has 29 days.
abbrev pub long_length : ℕ → ℕ
long_length month =
    if month == 4 || month == 6 || month == 9 || month == 11
    then 30
    else if month == 2
    then 29
    else 31

-- The day after a day, which is not the last of the counted year.
abbrev pub follows : ℕ → Bool
follows doy =
    leb 1 (month_of_year doy)
    && leb (month_of_year doy) 12
    && leb 1 (day_of_month doy)
    && leb (day_of_month doy) (long_length (month_of_year doy))
    && (if month_of_year doy == 2 then day_of_month doy + 336 == doy else true)
    && (if ltb (day_of_month doy) (long_length (month_of_year doy))
        then month_of_year (doy + 1) == month_of_year doy
          && day_of_month (doy + 1) == day_of_month doy + 1
        else if ltb (month_of_year doy) 12
        then month_of_year (doy + 1) == month_of_year doy + 1 && day_of_month (doy + 1) == 1
        else month_of_year (doy + 1) == 1 && day_of_month (doy + 1) == 1)

pub table : passes follows 365 ≡ true
unfolding passes month_of_year day_of_month
table = refl
