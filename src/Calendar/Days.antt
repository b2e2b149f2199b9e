-- ===== src/Calendar/Days.antt =====
-- The date of each day, by its era, its year and its day of the year.
use m5stack_pc_remote.Base.{
  ℕ, ◌+◌, ◌-◌, ◌*◌, ◌/◌, ◌%◌, ◌<◌, ◌≡◌, refl, sym, ap, ◌∙◌, Bool, true, false, not, ◌&&◌, ◌||◌,
  arith, leb, ◌==◌, if◌then◌else◌, ==_iff,
}
use m5stack_pc_remote.Base.Int.{ℤ, ◌+ℤ◌, div_euclid, rem_euclid, scale, divides, pos}
use m5stack_pc_remote.Calendar.Civil.{
  CalendarDay, year_of_era, day_of_year, month_of_year, day_of_month, civil_from_days, is_leap_year,
}
use m5stack_pc_remote.Calendar.Years.{passes, year_start, locate, year_of_era_lem, passes_at}

-- The date of a day of the year `y` of the era `e`, both counted from March on.
abbrev pub year_number : ℕ → ℕ → ℕ → ℕ
year_number e y doy = if leb (month_of_year doy) 2 then 400 * e + y + 1 else 400 * e + y

unfoldable pub date_of : ℕ → ℕ → ℕ → CalendarDay
date_of e y doy = record {
  year = pos (year_number e y doy);
  month = month_of_year doy;
  day = day_of_month doy;
}

pub add_pos : (a b : ℕ) → pos a +ℤ pos b ≡ pos (a + b)
unfolding ◌+ℤ◌
add_pos a b = ground arith

-- The date from its parts.
abbrev assemble : ℤ → ℕ → ℕ → CalendarDay
assemble era yoe doy = record {
  year =
      if leb (month_of_year doy) 2
      then pos yoe +ℤ scale 400 era +ℤ pos 1
      else pos yoe +ℤ scale 400 era;
  month = month_of_year doy;
  day = day_of_month doy;
}

year_eq :
    (b : Bool) (e y : ℕ)
    → (if b then pos y +ℤ scale 400 (pos e) +ℤ pos 1 else pos y +ℤ scale 400 (pos e))
      ≡ pos (if b then 400 * e + y + 1 else 400 * e + y)
unfolding scale
year_eq true e y =
    ap (λ z. z +ℤ pos 1) (add_pos y (400 * e)) ∙ add_pos (y + 400 * e) 1 ∙ ap pos (omega arith)
year_eq false e y = add_pos y (400 * e) ∙ ap pos (omega arith)

assemble_lem : (e y doy : ℕ) → assemble (pos e) y doy ≡ date_of e y doy
unfolding date_of
assemble_lem e y doy =
    ap
      (λ v.
        let c : CalendarDay = record {
          year = v;
          month = month_of_year doy;
          day = day_of_month doy;
        } in
        c)
      (year_eq (leb (month_of_year doy) 2) e y)

abbrev of_era_day : ℤ → ℕ → CalendarDay
of_era_day era doe = assemble era (year_of_era doe) (day_of_year doe (year_of_era doe))

civil_from_days_lem :
    (z : ℤ)
    → civil_from_days z
      ≡ of_era_day (div_euclid (z +ℤ pos 719_468) 146_097) (rem_euclid (z +ℤ pos 719_468) 146_097)
unfolding civil_from_days
civil_from_days_lem z = refl

civil_parts :
    (n e doe yoe doy : ℕ)
    → n + 719_468 ≡ 146_097 * e + doe
    → doe < 146_097
    → year_of_era doe ≡ yoe
    → day_of_year doe yoe ≡ doy
    → civil_from_days (pos n) ≡ date_of e yoe doy
unfolding div_euclid rem_euclid
civil_parts n e doe yoe doy h lt p q =
    civil_from_days_lem (pos n)
    ∙ ap (λ z. of_era_day (div_euclid z 146_097) (rem_euclid z 146_097)) (add_pos n 719_468)
    ∙ ap (λ a. of_era_day (pos a) ((n + 719_468) % 146_097)) (omega arith)
    ∙ ap (of_era_day (pos e)) (omega arith)
    ∙ ap (λ y. assemble (pos e) y (day_of_year doe y)) p
    ∙ ap (assemble (pos e) yoe) q
    ∙ assemble_lem e yoe doy

-- A day as an era, a year and a day of the year.
pub record IsAt (n e y doy : ℕ) : Type 0 where
  pub counted : n + 719_468 ≡ 146_097 * e + (year_start y + doy)
  pub in_era : y < 400
  pub in_year : year_start y + doy < year_start (y + 1)

pub civil_at : (n e y doy : ℕ) → IsAt n e y doy → civil_from_days (pos n) ≡ date_of e y doy
unfolding day_of_year
civil_at n e y doy i =
    civil_parts n e (year_start y + doy) y doy i.counted (omega (arith, i.in_year, i.in_era))
      (year_of_era_lem y (year_start y + doy) i.in_era (omega arith) i.in_year) (omega arith)

pub located : (n : ℕ) → (e : ℕ) × (y : ℕ) × (doy : ℕ) × IsAt n e y doy
located n =
    let doe = (n + 719_468) % 146_097 in
    let (y, lt, lo, hi) = locate 400 doe (omega arith) in
    (
      (n + 719_468) / 146_097,
      y,
      doe - year_start y,
      record { counted = omega (arith, lo); in_era = lt; in_year = omega (arith, lo, hi) },
    )

abbrev leap_test : ℕ → Bool
leap_test k = k % 4 == 0 && not (k % 100 == 0) || k % 400 == 0

is_leap_year_lem : (e k : ℕ) → is_leap_year (pos (400 * e + k)) ≡ leap_test k
unfolding is_leap_year divides
is_leap_year_lem e k =
    ap (λ r. r == 0 && not ((400 * e + k) % 100 == 0) || (400 * e + k) % 400 == 0) (omega arith)
    ∙ ap (λ r. k % 4 == 0 && not (r == 0) || (400 * e + k) % 400 == 0) (omega arith)
    ∙ ap (λ r. k % 4 == 0 && not (k % 100 == 0) || r == 0) (omega arith)

-- A year that ends in the February of a leap year has 366 days.
abbrev has_length : ℕ → Bool
has_length y =
    year_start (y + 1) == (if leap_test (y + 1) then year_start y + 366 else year_start y + 365)

lengths : passes has_length 400 ≡ true
unfolding passes
lengths = refl

pub year_length :
    (e y : ℕ)
    → y < 400
    → year_start (y + 1)
      ≡ (if is_leap_year (pos (400 * e + (y + 1))) then year_start y + 366 else year_start y + 365)
year_length e y h =
    (==_iff _ _).0 (passes_at has_length 400 lengths y h)
    ∙ ap (λ b. if b then year_start y + 366 else year_start y + 365)
        (sym (is_leap_year_lem e (y + 1)))
