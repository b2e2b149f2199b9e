-- ===== src/Base/Decimal.antt =====
-- Numbers in decimal: `Display`, and `str::parse` into unsigned and signed integers.
pub mod Words
use m5stack_pc_remote.Base.{
  ℕ, zero, suc, ◌+◌, ◌-◌, ◌*◌, ◌/◌, ◌%◌, ◌≤◌, ◌<◌, ◌≡◌, refl, sym, ap, ◌∙◌, ◌≢◌, inl, inr, true,
  false, Option, none, some, [], ◌∷◌, ◌++◌, arith, ltb, leb, ◌==◌, if◌then◌else◌, le→leb,
  Bool-cases,
}
use m5stack_pc_remote.Base.Int.{ℤ, pos_part, neg_part, i64_max, pos, negsuc}
use m5stack_pc_remote.Base.Text.{Text, is_ascii_digit, Lacks}

-- The digits of `n`, with one unit of fuel for each; `n + 1` is enough.
show_fuel : ℕ → ℕ → Text
show_fuel zero n = []
show_fuel (suc f) n =
    let rest = show_fuel f (n / 10) in
    if ltb n 10 then (48 + n) ∷ [] else rest ++ (48 + n % 10) ∷ []

unfoldable pub show_ℕ : ℕ → Text
unfolding show_fuel
show_ℕ n = show_fuel (n + 1) n

unfoldable pub show_ℤ : ℤ → Text
unfolding show_ℕ
show_ℤ (pos n) = show_ℕ n
show_ℤ (negsuc n) = b'-' ∷ show_ℕ (suc n)

-- The value of a text of digits, after a value that is already read.
unfoldable pub read_digits : ℕ → Text → Option ℕ
read_digits v [] = some v
read_digits v (c ∷ s) =
    let rest = read_digits (v * 10 + (c - 48)) s in if is_ascii_digit c then rest else none

abbrev pub at_most : ℕ → Option ℕ → Option ℕ
at_most limit none = none
at_most limit (some n) = if leb n limit then some n else none

-- One digit or more, and no overflow.
unfoldable pub read_number : ℕ → Text → Option ℕ
unfolding read_digits
read_number limit [] = none
read_number limit (c ∷ s) = at_most limit (read_digits 0 (c ∷ s))

-- `parse` into an unsigned type with the given largest value; a `+` may stand in front.
unfoldable pub parse_unsigned : ℕ → Text → Option ℕ
unfolding read_number
parse_unsigned limit [] = none
parse_unsigned limit (c ∷ s) = if c == b'+' then read_number limit s else read_number limit (c ∷ s)

abbrev pub negated : Option ℕ → Option ℤ
negated none = none
negated (some zero) = some (pos 0)
negated (some (suc n)) = some (negsuc n)

abbrev pub positive : Option ℕ → Option ℤ
positive none = none
positive (some n) = some (pos n)

-- `parse::<i64>()`.
unfoldable pub parse_i64 : Text → Option ℤ
unfolding read_number
parse_i64 [] = none
parse_i64 (c ∷ s) =
    if c == b'-'
    then negated (read_number (i64_max + 1) s)
    else if c == b'+'
    then positive (read_number i64_max s)
    else positive (read_number i64_max (c ∷ s))

read_digits-refuses :
    (v x : ℕ) (s : Text) {n : ℕ} → is_ascii_digit x ≡ false → read_digits v (x ∷ s) ≡ some n → ⊥
unfolding read_digits
read_digits-refuses v x s e h = ground arith

read_digits-append :
    (v : ℕ) (s : Text) (c : ℕ) {n : ℕ}
    → read_digits v s ≡ some n
    → is_ascii_digit c ≡ true
    → read_digits v (s ++ c ∷ []) ≡ some (n * 10 + (c - 48))
unfolding read_digits
read_digits-append v [] c h d = ground arith
read_digits-append v (x ∷ s) c {n} h d = elim (Bool-cases (is_ascii_digit x)) [
  | inl e ↦ rw e (read_digits-append (v * 10 + (x - 48)) s c {n = n} (rw e at h) d)
  | inr e ↦ absurd (read_digits-refuses v x s e h)
]

read_digits-show_fuel : (f n : ℕ) → n < f → read_digits 0 (show_fuel f n) ≡ some n
unfolding show_fuel read_digits
read_digits-show_fuel zero n h = elim h [ ]
read_digits-show_fuel (suc f) n h = elim (Bool-cases (ltb n 10)) [
  | inl small ↦ rw small (ground arith)
  | inr large ↦ rw large (
      read_digits-append 0 (show_fuel f (n / 10)) (48 + n % 10)
        (read_digits-show_fuel f (n / 10) (ground arith)) (ground arith)
      ∙ ap some (omega arith))
]

-- What a decimal number starts with.
abbrev StartsWithDigit : Text → Type 0
StartsWithDigit [] = ⊥
StartsWithDigit (c ∷ s) = is_ascii_digit c ≡ true

StartsWithDigit-append : (s t : Text) → StartsWithDigit s → StartsWithDigit (s ++ t)
StartsWithDigit-append [] t h = absurd h
StartsWithDigit-append (c ∷ s) t h = h

show_fuel-StartsWithDigit : (f n : ℕ) → n < f → StartsWithDigit (show_fuel f n)
unfolding show_fuel
show_fuel-StartsWithDigit zero n h = elim h [ ]
show_fuel-StartsWithDigit (suc f) n h = elim (Bool-cases (ltb n 10)) [
  | inl small ↦ rw small (ground arith)
  | inr large ↦ rw large (
      StartsWithDigit-append (show_fuel f (n / 10)) ((48 + n % 10) ∷ [])
        (show_fuel-StartsWithDigit f (n / 10) (ground arith)))
]

read_number-digits :
    (limit n : ℕ) (s : Text)
    → StartsWithDigit s
    → read_digits 0 s ≡ some n
    → n ≤ limit
    → read_number limit s ≡ some n
unfolding read_number
read_number-digits limit n [] d h l = absurd d
read_number-digits limit n (c ∷ s) d h l = rw (h, le→leb n limit l) refl

parse_i64-digit :
    (c : ℕ) (s : Text)
    → is_ascii_digit c ≡ true
    → parse_i64 (c ∷ s) ≡ positive (read_number i64_max (c ∷ s))
unfolding parse_i64
parse_i64-digit c s h = ground arith

parse_i64-StartsWithDigit :
    (s : Text) → StartsWithDigit s → parse_i64 s ≡ positive (read_number i64_max s)
parse_i64-StartsWithDigit [] d = absurd d
parse_i64-StartsWithDigit (c ∷ s) d = parse_i64-digit c s d

parse_unsigned-StartsWithDigit :
    (limit : ℕ) (s : Text) → StartsWithDigit s → parse_unsigned limit s ≡ read_number limit s
unfolding parse_unsigned
parse_unsigned-StartsWithDigit limit [] d = absurd d
parse_unsigned-StartsWithDigit limit (c ∷ s) d = ground arith

read_number-show_ℕ : (limit n : ℕ) → n ≤ limit → read_number limit (show_ℕ n) ≡ some n
unfolding show_ℕ
read_number-show_ℕ limit n h =
    read_number-digits limit n (show_fuel (n + 1) n)
      (show_fuel-StartsWithDigit (n + 1) n (omega arith))
      (read_digits-show_fuel (n + 1) n (omega arith)) h

show_ℕ-StartsWithDigit : (n : ℕ) → StartsWithDigit (show_ℕ n)
unfolding show_ℕ
show_ℕ-StartsWithDigit n = show_fuel-StartsWithDigit (n + 1) n (omega arith)

pub parse_unsigned-show_ℕ : (limit n : ℕ) → n ≤ limit → parse_unsigned limit (show_ℕ n) ≡ some n
parse_unsigned-show_ℕ limit n h =
    parse_unsigned-StartsWithDigit limit (show_ℕ n) (show_ℕ-StartsWithDigit n)
    ∙ read_number-show_ℕ limit n h

-- The range of `i64`.
abbrev pub IsI64 : ℤ → Type 0
IsI64 x = (pos_part x ≤ i64_max) × (neg_part x ≤ i64_max + 1)

parse_i64-minus : (s : Text) → parse_i64 (b'-' ∷ s) ≡ negated (read_number (i64_max + 1) s)
unfolding parse_i64
parse_i64-minus s = refl

-- Every `i64` survives printing and parsing.
pub parse_i64-show_ℤ : (x : ℤ) → IsI64 x → parse_i64 (show_ℤ x) ≡ some x
unfolding show_ℤ
parse_i64-show_ℤ (pos n) h =
    parse_i64-StartsWithDigit (show_ℕ n) (show_ℕ-StartsWithDigit n)
    ∙ ap positive (read_number-show_ℕ i64_max n h.0)
parse_i64-show_ℤ (negsuc n) h =
    parse_i64-minus (show_ℕ (suc n)) ∙ ap negated (read_number-show_ℕ (i64_max + 1) (suc n) h.1)

-- A printed number holds no `char` that is neither a digit nor a minus sign.
Lacks-append : (sep : ℕ) (s t : Text) → Lacks sep s → Lacks sep t → Lacks sep (s ++ t)
Lacks-append sep [] t h k = k
Lacks-append sep (c ∷ s) t h k = (h.0, Lacks-append sep s t h.1 k)

show_fuel-Lacks : (sep f n : ℕ) → is_ascii_digit sep ≡ false → Lacks sep (show_fuel f n)
unfolding show_fuel
show_fuel-Lacks sep zero n h = tt
show_fuel-Lacks sep (suc f) n h = elim (Bool-cases (ltb n 10)) [
  | inl small ↦ rw small (λ e. ground arith, tt)
  | inr large ↦ rw large (
      Lacks-append sep (show_fuel f (n / 10)) ((48 + n % 10) ∷ [])
        (show_fuel-Lacks sep f (n / 10) h) (λ e. ground arith, tt))
]

pub show_ℤ-Lacks :
    (sep : ℕ) (x : ℤ) → is_ascii_digit sep ≡ false → sep ≢ b'-' → Lacks sep (show_ℤ x)
unfolding show_ℤ show_ℕ
show_ℤ-Lacks sep (pos n) h k = show_fuel-Lacks sep (n + 1) n h
show_ℤ-Lacks sep (negsuc n) h k = (λ e. k (sym e), show_fuel-Lacks sep (suc n + 1) (suc n) h)

pub show_ℕ-Lacks : (sep n : ℕ) → is_ascii_digit sep ≡ false → Lacks sep (show_ℕ n)
unfolding show_ℕ
show_ℕ-Lacks sep n h = show_fuel-Lacks sep (n + 1) n h

-- Printing an integer is injective.
pub show_ℤ-injective : (x y : ℤ) → IsI64 x → IsI64 y → show_ℤ x ≡ show_ℤ y → x ≡ y
show_ℤ-injective x y hx hy e = cc (parse_i64-show_ℤ x hx, parse_i64-show_ℤ y hy, ap parse_i64 e)

at_most_lem : (limit : ℕ) (o : Option ℕ) {n : ℕ} → at_most limit o ≡ some n → n ≤ limit
at_most_lem limit none h = cc
at_most_lem limit (some m) h = ground arith

read_number-le : (limit : ℕ) (s : Text) {n : ℕ} → read_number limit s ≡ some n → n ≤ limit
unfolding read_number
read_number-le limit [] h = cc
read_number-le limit (c ∷ s) h = at_most_lem limit (read_digits 0 (c ∷ s)) h

-- A number that is read is within the limit of its type.
pub parse_unsigned-le : (limit : ℕ) (s : Text) {n : ℕ} → parse_unsigned limit s ≡ some n → n ≤ limit
unfolding parse_unsigned
parse_unsigned-le limit [] h = cc
parse_unsigned-le limit (c ∷ s) h = elim (Bool-cases (c == b'+')) [
  | inl e ↦ read_number-le limit s (rw e at h)
  | inr e ↦ read_number-le limit (c ∷ s) (rw e at h)
]
