-- ===== src/Calendar/Grid.antt =====
-- The grid of a month holds each of its days once, in order, and is never written outside.
use m5stack_pc_remote.Base.{
  ℕ, zero, suc, ◌+◌, ◌-◌, ◌*◌, ◌/◌, ◌%◌, ◌≤◌, ◌<◌, ◌≡◌, refl, sym, ap, ◌∙◌, Bool, true, false, ◌&&◌,
  Option, none, some, List, [], ◌∷◌, arith, ltb, leb, ◌==◌, if◌then◌else◌, ==_iff, length,
}
use mathlib.Core.Option
use m5stack_pc_remote.Base.Int.{ℤ, ◌+ℤ◌, div_euclid, rem_euclid, pos, negsuc}
use m5stack_pc_remote.Calendar.Civil.{CalendarDay, days_in_month}
use m5stack_pc_remote.Calendar.Years.{passes, passes_at}
use m5stack_pc_remote.Calendar.View.{
  Weeks, empty_weeks, row_at, fill, CalendarView, view_of, calendar_date, calendar_view,
  first_weekday_of, local_time,
}

cell_of : List (Option ℕ) → ℕ → Option ℕ
cell_of [] i = none
cell_of (a ∷ l) zero = a
cell_of (a ∷ l) (suc i) = cell_of l i

row_cell : Option (List (Option ℕ)) → ℕ → Option ℕ
unfolding cell_of
row_cell none i = none
row_cell (some l) i = cell_of l i

-- What stands in the cell with an index, counted row by row.
pub cell : Weeks → ℕ → Option ℕ
unfolding row_cell row_at
cell weeks idx = row_cell (row_at weeks (idx / 7)) (idx % 7)

-- The day of a cell in a month of the given length that starts in the given column.
abbrev pub day_in : ℕ → ℕ → ℕ → Option ℕ
day_in first length idx =
    if leb first idx && ltb idx (first + length) then some (idx - first + 1) else none

abbrev eq_cell : Option ℕ → Option ℕ → Bool
eq_cell none none = true
eq_cell (some a) (some b) = a == b
eq_cell _ _ = false

eq_cell_sound : (a b : Option ℕ) → eq_cell a b ≡ true → a ≡ b
eq_cell_sound none none h = refl
eq_cell_sound none (some b) h = cc
eq_cell_sound (some a) none h = cc
eq_cell_sound (some a) (some b) h = ap some ((==_iff a b).0 h)

abbrev holds_days : ℕ → ℕ → Option Weeks → Bool
holds_days first length none = false
holds_days first length (some weeks) =
    passes (λ idx. eq_cell (cell weeks idx) (day_in first length idx)) 42

-- The lengths from 28 to 31, for each first weekday.
abbrev fills : ℕ → Bool
fills i = holds_days (i / 4) (28 + i % 4) (fill (28 + i % 4) (i / 4) 1 empty_weeks)

table : passes fills 28 ≡ true
unfolding passes fill cell
table = refl

-- The filled grid of a month.
abbrev pub IsMonth : ℕ → ℕ → Weeks → Type 0
IsMonth first length weeks = (idx : ℕ) → idx < 42 → cell weeks idx ≡ day_in first length idx

filled :
    (first length : ℕ) (o : Option Weeks)
    → holds_days first length o ≡ true
    → (weeks : Weeks) × (o ≡ some weeks) × IsMonth first length weeks
filled first length none h = cc
filled first length (some weeks) h =
    (weeks, refl, λ idx lt. eq_cell_sound _ _ (passes_at _ 42 h idx lt))

fills_at :
    (first length i : ℕ)
    → i / 4 ≡ first
    → 28 + i % 4 ≡ length
    → fills i ≡ true
    → holds_days first length (fill length first 1 empty_weeks) ≡ true
fills_at first length i p q h =
    ap (λ f. holds_days f length (fill length f 1 empty_weeks)) (sym p)
    ∙ ap (λ n. holds_days (i / 4) n (fill n (i / 4) 1 empty_weeks)) (sym q)
    ∙ h

fill_lem :
    (first length : ℕ)
    → first < 7
    → (28 ≤ length) × (length ≤ 31)
    → (weeks : Weeks) × (fill length first 1 empty_weeks ≡ some weeks) × IsMonth first length weeks
fill_lem first length small (lo, hi) =
    let i = first * 4 + (length - 28) in
    filled first length (fill length first 1 empty_weeks) (
      fills_at first length i (omega arith) (omega arith)
        (passes_at fills 28 table i (omega arith)))

days_in_month_bounds : (y : ℤ) (m : ℕ) → (28 ≤ days_in_month y m) × (days_in_month y m ≤ 31)
unfolding days_in_month
days_in_month_bounds y m = ground arith

rem_euclid-lt : (a : ℤ) → rem_euclid a 7 < 7
unfolding rem_euclid
rem_euclid-lt (pos n) = omega arith
rem_euclid-lt (negsuc n) = omega arith

first_weekday_of-lt : (days : ℤ) (c : CalendarDay) → first_weekday_of days c < 7
unfolding first_weekday_of
first_weekday_of-lt days c = rem_euclid-lt _

weekday_column :
    (days : ℤ) (c : CalendarDay)
    → (first_weekday_of days c + (c.day - 1)) % 7 ≡ rem_euclid (days +ℤ pos 4) 7
unfolding first_weekday_of
weekday_column (pos n) c = ground arith
weekday_column (negsuc n) c = ground arith

-- What a view shows of a date.
abbrev pub Shows : ℤ → Option CalendarDay → CalendarView → Type 0
Shows days none view = view.synced ≡ false
Shows days (some today) view =
    (view.synced ≡ true)
    × (view.today ≡ some today.day)
    × IsMonth (first_weekday_of days today) (days_in_month today.year today.month) view.weeks
    × ((first_weekday_of days today + (today.day - 1)) % 7 ≡ rem_euclid (days +ℤ pos 4) 7)

view_of-Shows :
    (local : ℤ) (date : Option CalendarDay)
    → (view : CalendarView) × (view_of local date ≡ some view)
      × Shows (div_euclid local 86_400) date view
view_of-Shows local none = (_, refl, refl)
view_of-Shows local (some today) =
    let days = div_euclid local 86_400 in
    let (weeks, e, month) =
      fill_lem (first_weekday_of days today) (days_in_month today.year today.month)
        (first_weekday_of-lt days today) (days_in_month_bounds today.year today.month) in
    (_, ap (Option.map _) e, (refl, refl, month, weekday_column days today))

-- At every time and offset the view of the month is built without a write outside of its grid. If
-- the clock is not set it says so; otherwise the cell of each index holds the day that the column
-- of the first of the month and the length of the month give, or none, and the column of today is
-- its weekday.
pub calendar_view-Shows :
    (unix_secs tz_offset_hours : ℤ)
    → (view : CalendarView) × (calendar_view unix_secs tz_offset_hours ≡ some view)
      × Shows
          (div_euclid (local_time unix_secs tz_offset_hours) 86_400)
          (calendar_date unix_secs tz_offset_hours)
          view
unfolding calendar_view
calendar_view-Shows unix_secs tz_offset_hours =
    view_of-Shows (local_time unix_secs tz_offset_hours) (calendar_date unix_secs tz_offset_hours)
