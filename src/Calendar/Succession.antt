-- ===== src/Calendar/Succession.antt =====
-- Each day has the date after that of the day before it.
use m5stack_pc_remote.Base.{
  ℕ, ◌+◌, ◌*◌, ◌≤◌, ◌<◌, ◌≡◌, refl, sym, ap, ◌∙◌, ◌≢◌, ◌⊎◌, inl, inr, Bool, true, false, ◌&&◌, ◌||◌,
  arith, ltb, leb, ◌==◌, if◌then◌else◌, ==_iff, Bool-cases, bit, length,
}
use native.Mathlib.Decide.{dec_lt}
use m5stack_pc_remote.Base.Int.{◌+ℤ◌, pos}
use m5stack_pc_remote.Calendar.Civil.{
  CalendarDay, month_of_year, day_of_month, civil_from_days, is_leap_year, days_in_month, next_day,
}
use m5stack_pc_remote.Calendar.Years.{year_start, passes_at}
use m5stack_pc_remote.Calendar.Months.{follows, long_length, table}
use m5stack_pc_remote.Calendar.Days.{date_of, add_pos, civil_at, located, year_length, IsAt}

-- `days_in_month` and `next_day` on a decided year.
abbrev length_in : Bool → ℕ → ℕ
length_in b month =
    if month == 4 || month == 6 || month == 9 || month == 11
    then 30
    else if month == 2
    then (if b then 29 else 28)
    else if month == 0 || ltb 12 month
    then 30
    else 31

abbrev next_by : ℕ → CalendarDay → CalendarDay
next_by length c =
    if ltb c.day length
    then record c { day = c.day + 1 }
    else if ltb c.month 12
    then record c { month = c.month + 1; day = 1 }
    else record { year = c.year +ℤ pos 1; month = 1; day = 1 }

next_day_lem : (c : CalendarDay) → next_day c ≡ next_by (length_in (is_leap_year c.year) c.month) c
unfolding next_day days_in_month
next_day_lem c = refl

-- A date by its year from March on, its month and its day.
abbrev dated : ℕ → ℕ → ℕ → CalendarDay
dated y month day = record {
  year = pos (if leb month 2 then y + 1 else y);
  month = month;
  day = day;
}

date_of-dated :
    (e y doy : ℕ) → date_of e y doy ≡ dated (400 * e + y) (month_of_year doy) (day_of_month doy)
unfolding date_of
date_of-dated e y doy = refl

-- What the table says of one day.
abbrev Follows : ℕ → ℕ → ℕ → ℕ → ℕ → Type 0
Follows doy m d m' d' =
    (leb 1 m
      && leb m 12
      && leb 1 d
      && leb d (long_length m)
      && (if m == 2 then d + 336 == doy else true)
      && (if ltb d (long_length m)
          then m' == m && d' == d + 1
          else if ltb m 12
          then m' == m + 1 && d' == 1
          else m' == 1 && d' == 1))
    ≡ true

dated-next :
    (y doy m d m' d' : ℕ) (b : Bool)
    → Follows doy m d m' d'
    → (m ≢ 2) ⊎ (d < 28 + bit b)
    → pos (y + 1) ≡ pos y +ℤ pos 1
    → dated y m' d' ≡ next_by (length_in b m) (dated y m d)
dated-next y doy m d m' d' b f g h = ground arith

regroup : (a y : ℕ) → a + (y + 1) ≡ a + y + 1
regroup a y = omega arith

bit-le : (b : Bool) → bit b ≤ 1
bit-le true = omega arith
bit-le false = omega arith

epoch : civil_from_days (pos 0) ≡ record { year = pos 1970; month = 1; day = 1 }
unfolding civil_from_days
epoch = refl

february : (doy m d l m' d' : ℕ) → Follows doy m d m' d' → (m ≢ 2) ⊎ (d + 336 ≡ doy)
february doy m d l m' d' f = ground arith

-- The length of the year, by the leap test of a date in its February.
length_bit :
    (e y : ℕ)
    → y < 400
    → year_start (y + 1) ≡ year_start y + 365 + bit (is_leap_year (pos (400 * e + (y + 1))))
length_bit e y h = ground (arith, year_length e y h)

before_march :
    (e y doy m d : ℕ)
    → (m ≢ 2) ⊎ (d + 336 ≡ doy)
    → doy + 1 < 365 + bit (is_leap_year (pos (400 * e + (y + 1))))
    → (m ≢ 2)
      ⊎ (d < 28 + bit (is_leap_year (pos (if leb m 2 then 400 * e + y + 1 else 400 * e + y))))
before_march e y doy m d (inl ne) h = inl ne
before_march e y doy m d (inr eq) h = elim (Bool-cases (m == 2)) [
  | inl two ↦ inr (
      rw ((==_iff m 2).0 two)
        (omega (arith, h, eq, ap (λ k. bit (is_leap_year (pos k))) (regroup (400 * e) y))))
  | inr other ↦ inl (ground arith)
]

next_in_year :
    (n e y doy : ℕ)
    → IsAt n e y doy
    → IsAt (n + 1) e y (doy + 1)
    → date_of e y (doy + 1) ≡ next_day (date_of e y doy)
next_in_year n e y doy i j =
    let m = month_of_year doy in
    let d = day_of_month doy in
    let long = length_bit e y i.in_era in
    let f =
      passes_at follows 365 table doy
        (omega (arith, long, j.in_year, bit-le (is_leap_year (pos (400 * e + (y + 1)))))) in
    date_of-dated e y (doy + 1)
    ∙ dated-next (400 * e + y) doy m d (month_of_year (doy + 1)) (day_of_month (doy + 1)) _ f
        (before_march e y doy m d
          (february doy m d (long_length m) (month_of_year (doy + 1)) (day_of_month (doy + 1)) f)
          (omega (arith, long, j.in_year)))
        (sym (add_pos (400 * e + y) 1))
    ∙ sym (next_day_lem (dated (400 * e + y) m d))
    ∙ ap next_day (sym (date_of-dated e y doy))

-- The last day of a counted year is the last of its February.
last_february :
    (b : Bool) (y : ℕ)
    → is_leap_year (pos (y + 1)) ≡ b
    → next_by (length_in (is_leap_year (pos (y + 1))) 2) (dated y 2 (28 + bit b))
      ≡ dated (y + 1) 3 1
last_february true y h = rw h refl
last_february false y h = rw h refl

last_date :
    (b : Bool) (y doy : ℕ)
    → doy ≡ 364 + bit b
    → dated y (month_of_year doy) (day_of_month doy) ≡ dated y 2 (28 + bit b)
unfolding month_of_year day_of_month
last_date true y doy h = ap (λ k. dated y (month_of_year k) (day_of_month k)) h
last_date false y doy h = ap (λ k. dated y (month_of_year k) (day_of_month k)) h

-- The day after the last of a counted year is a 1 March.
next_year :
    (n e y doy e' y' : ℕ)
    → IsAt n e y doy
    → year_start y + doy + 1 ≡ year_start (y + 1)
    → 400 * e' + y' ≡ 400 * e + y + 1
    → date_of e' y' 0 ≡ next_day (date_of e y doy)
unfolding date_of month_of_year day_of_month
next_year n e y doy e' y' i last h =
    let b = is_leap_year (pos (400 * e + y + 1)) in
    ap (λ k. dated k 3 1) h
    ∙ sym (last_february b (400 * e + y) refl)
    ∙ sym (next_day_lem (dated (400 * e + y) 2 (28 + bit b)))
    ∙ ap next_day (
        sym (
          last_date b (400 * e + y) doy (
            omega (
              arith,
              last,
              length_bit e y i.in_era,
              ap (λ k. bit (is_leap_year (pos k))) (regroup (400 * e) y),
            ))))

next_date :
    (n e y doy : ℕ) → IsAt n e y doy → civil_from_days (pos (n + 1)) ≡ next_day (date_of e y doy)
next_date n e y doy i = elim (dec_lt (year_start y + doy + 1) (year_start (y + 1))) [
  | yes p ↦
      let j : IsAt (n + 1) e y (doy + 1) = record {
        counted = omega (arith, i.counted);
        in_era = i.in_era;
        in_year = omega arith;
      } in
      civil_at (n + 1) e y (doy + 1) j ∙ next_in_year n e y doy i j
  | no p ↦ elim (dec_lt y 399) [
    | yes q ↦
        civil_at (n + 1) e (y + 1) 0 (record {
          counted = omega (arith, i.counted, i.in_year);
          in_era = omega arith;
          in_year = omega arith;
        })
        ∙ next_year n e y doy e (y + 1) i (omega (arith, i.in_year)) (omega arith)
    | no q ↦
        civil_at (n + 1) (e + 1) 0 0 (record {
          counted = omega (arith, i.counted, i.in_year, i.in_era);
          in_era = omega arith;
          in_year = omega arith;
        })
        ∙ next_year n e y doy (e + 1) 0 i (omega (arith, i.in_year)) (omega (arith, i.in_era))
  ]
]

-- The days from 1970-01-01 on have the dates of the Gregorian calendar: the first one is that day,
-- and the date of each following day is the day after by the lengths of the months.
pub civil_from_days_suc :
    (n : ℕ)
    → (civil_from_days (pos 0) ≡ record { year = pos 1970; month = 1; day = 1 })
      × (civil_from_days (pos (n + 1)) ≡ next_day (civil_from_days (pos n)))
civil_from_days_suc n =
    let (e, y, doy, i) = located n in
    (epoch, next_date n e y doy i ∙ ap next_day (sym (civil_at n e y doy i)))
