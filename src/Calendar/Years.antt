-- ===== src/Calendar/Years.antt =====
-- The years of an era of 400, counted from March on.
use native.Mathlib.Decide.{dec_lt}
use native.Mathlib.Nat.{add-zero}
use m5stack_pc_remote.Base.{
  ℕ, zero, suc, ◌+◌, ◌-◌, ◌*◌, ◌/◌, ◌≤◌, ◌<◌, ◌≡◌, refl, ap, Bool, true, ◌&&◌, arith, ◌==◌,
}
use m5stack_pc_remote.Calendar.Civil.{year_of_era}

-- The day of the era on which a year starts; 400 is the end of the era.
abbrev pub year_start : ℕ → ℕ
year_start y = 365 * y + y / 4 - y / 100 + y / 400

year_of_era_step : (a : ℕ) → year_of_era a ≤ year_of_era (a + 1)
unfolding year_of_era
year_of_era_step a = omega arith

add_suc_one : (a k : ℕ) → a + suc k ≡ a + k + 1
add_suc_one a k = omega arith

year_of_era_mono : (a k : ℕ) → year_of_era a ≤ year_of_era (a + k)
year_of_era_mono a zero = omega (arith, ap year_of_era (add-zero a))
year_of_era_mono a (suc k) =
    omega (arith, year_of_era_mono a k, year_of_era_step (a + k), ap year_of_era (add_suc_one a k))

add_sub : (a b : ℕ) → a ≤ b → a + (b - a) ≡ b
add_sub a b h = omega arith

-- Whether a test passes on the first `count` numbers, and what that says of one of them.
unfoldable pub passes : (ℕ → Bool) → ℕ → Bool
passes test zero = true
passes test (suc count) = passes test count && test count

pub passes_at :
    (test : ℕ → Bool) (count : ℕ) → passes test count ≡ true → (i : ℕ) → i < count → test i ≡ true
unfolding passes
passes_at test zero whole i small = elim small [ ]
passes_at test (suc count) whole i small =
    ground (arith, λ (p : passes test count ≡ true). passes_at test count p i)

abbrev is_exact : ℕ → Bool
is_exact y = year_of_era (year_start y) == y && year_of_era (year_start (y + 1) - 1) == y

table : passes is_exact 400 ≡ true
unfolding passes year_of_era
table = refl

-- The year that a day of the era lies in.
pub locate :
    (k d : ℕ) → d < year_start k → (y : ℕ) × (y < k) × (year_start y ≤ d) × (d < year_start (y + 1))
locate zero d h = absurd (omega arith)
locate (suc k) d h = elim (dec_lt d (year_start k)) [
  | yes p ↦ let (y, lt, lo, hi) = locate k d p in (y, omega arith, lo, hi)
  | no p ↦ (k, omega arith, omega arith, omega arith)
]

monotone : (a b : ℕ) → a ≤ b → year_of_era a ≤ year_of_era b
monotone a b h = omega (arith, year_of_era_mono a (b - a), ap year_of_era (add_sub a b h))

pub year_of_era_lem :
    (y d : ℕ) → y < 400 → year_start y ≤ d → d < year_start (y + 1) → year_of_era d ≡ y
year_of_era_lem y d h a b = ground (
  arith,
  passes_at is_exact 400 table y h,
  monotone (year_start y) d a,
  monotone d (year_start (y + 1) - 1) (omega arith),
)
