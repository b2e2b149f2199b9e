-- ===== src/Base/Int.antt =====
-- Signed integers (`i64`) over the native numbers, and `i64::abs_diff`.
use m5stack_pc_remote.Base.{
  ℕ, zero, suc, ◌+◌, ◌-◌, ◌*◌, ◌/◌, ◌%◌, ◌^◌, ◌≤◌, ◌≡◌, refl, ◌↔◌, Bool, true, arith, leb, ◌==◌,
  if◌then◌else◌,
}

-- `negsuc n` is -(n + 1).
pub data ℤ : Type 0 where
  pos : ℕ → ℤ
  negsuc : ℕ → ℤ

abbrev pub pos_part : ℤ → ℕ
pos_part (pos n) = n
pos_part (negsuc n) = 0

abbrev pub neg_part : ℤ → ℕ
neg_part (pos n) = 0
neg_part (negsuc n) = suc n

abbrev pub sub_ℕ : ℕ → ℕ → ℤ
sub_ℕ a b = if leb b a then pos (a - b) else negsuc (b - a - 1)

infixl 65 ◌+ℤ◌
infix 50 ◌≤ℤ◌
unfoldable pub ◌+ℤ◌ : ℤ → ℤ → ℤ
a +ℤ b = sub_ℕ (pos_part a + pos_part b) (neg_part a + neg_part b)

abbrev pub ◌≤ℤ◌ : ℤ → ℤ → Type 0
a ≤ℤ b = pos_part a + neg_part b ≤ pos_part b + neg_part a

abbrev pub leb_ℤ : ℤ → ℤ → Bool
leb_ℤ a b = leb (pos_part a + neg_part b) (pos_part b + neg_part a)

abbrev pub eqb_ℤ : ℤ → ℤ → Bool
eqb_ℤ (pos a) (pos b) = a == b
eqb_ℤ (negsuc a) (negsuc b) = a == b
eqb_ℤ _ _ = Bool.false

-- `a.abs_diff(b)`: the distance, a `u64`, which cannot overflow.
abbrev pub abs_diff : ℤ → ℤ → ℕ
abs_diff a b =
    let x = pos_part a + neg_part b in
    let y = pos_part b + neg_part a in if leb x y then y - x else x - y

-- `x.max(0) as u64`.
abbrev pub max_zero : ℤ → ℕ
max_zero = pos_part

pub eqb_ℤ_iff : (a b : ℤ) → (eqb_ℤ a b ≡ true) ↔ (a ≡ b)
eqb_ℤ_iff a b = ground arith

abbrev pub i64_max : ℕ
i64_max = 2 ^ 63 - 1

-- `x + 1` on `i64`, with the wrap-around of a release build.
abbrev pub i64_suc : ℤ → ℤ
i64_suc (pos n) = if n == i64_max then negsuc i64_max else pos (n + 1)
i64_suc (negsuc zero) = pos 0
i64_suc (negsuc (suc n)) = negsuc n

pub i64_suc-lt : (x : ℤ) → suc (pos_part x) ≤ i64_max → i64_suc x ≡ x +ℤ pos 1
unfolding ◌+ℤ◌
i64_suc-lt (pos n) h = ground arith
i64_suc-lt (negsuc zero) h = refl
i64_suc-lt (negsuc (suc n)) h = ground arith

pub leb_ℤ-le : (a b : ℤ) → a ≤ℤ b → leb_ℤ a b ≡ true
leb_ℤ-le a b h = ground arith

pub +ℤ_parts :
    (a b : ℤ)
    → pos_part (a +ℤ b) + neg_part a + neg_part b ≡ neg_part (a +ℤ b) + pos_part a + pos_part b
unfolding ◌+ℤ◌
+ℤ_parts a b = ground arith

-- `i64::div_euclid` and `i64::rem_euclid` by a positive divisor.
unfoldable pub div_euclid : ℤ → ℕ → ℤ
div_euclid (pos n) k = pos (n / k)
div_euclid (negsuc n) k = negsuc (n / k)

unfoldable pub rem_euclid : ℤ → ℕ → ℕ
rem_euclid (pos n) k = n % k
rem_euclid (negsuc n) k = k - 1 - n % k

-- `k * a`.
unfoldable pub scale : ℕ → ℤ → ℤ
scale k (pos n) = pos (k * n)
scale zero (negsuc n) = pos 0
scale (suc k) (negsuc n) = negsuc (suc k * suc n - 1)

-- `a % k == 0`.
unfoldable pub divides : ℕ → ℤ → Bool
divides k (pos n) = n % k == 0
divides k (negsuc n) = suc n % k == 0
