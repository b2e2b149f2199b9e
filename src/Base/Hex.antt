-- ===== src/Base/Hex.antt =====
-- `{:x}`: numbers in lower-case hexadecimal.
use mathlib.Core.Path.{subst}
use native.Mathlib.Nat.{pow-succ'}
use m5stack_pc_remote.Base.{
  ℕ, zero, suc, ◌+◌, ◌*◌, ◌/◌, ◌%◌, ◌^◌, ◌≤◌, ◌<◌, ◌≡◌, ◌≢◌, inl, inr, true, [], ◌∷◌, ◌++◌, arith,
  ltb, if◌then◌else◌, lt→ltb, Bool-cases, length, length-append, All-append,
}
use m5stack_pc_remote.Base.Text.{Text}
use m5stack_pc_remote.Base.Token.{is_word, IsWord}

abbrev hex_digit : ℕ → ℕ
hex_digit d = if ltb d 10 then 48 + d else 87 + d

-- The digits of `n`, with one unit of fuel for each; `n + 1` is enough.
show_hex_fuel : ℕ → ℕ → Text
show_hex_fuel zero n = []
show_hex_fuel (suc f) n =
    let rest = show_hex_fuel f (n / 16) in
    if ltb n 16 then hex_digit n ∷ [] else rest ++ hex_digit (n % 16) ∷ []

unfoldable pub show_hex : ℕ → Text
unfolding show_hex_fuel
show_hex n = show_hex_fuel (n + 1) n

hex_digit-is_word : (d : ℕ) → d < 16 → is_word (hex_digit d) ≡ true
hex_digit-is_word d h = ground arith

show_hex_fuel-IsWord : (f n : ℕ) → IsWord (show_hex_fuel f n)
unfolding show_hex_fuel
show_hex_fuel-IsWord zero n = tt
show_hex_fuel-IsWord (suc f) n = elim (Bool-cases (ltb n 16)) [
  | inl low ↦ rw low (hex_digit-is_word n (ground arith), tt)
  | inr high ↦ rw high (
      All-append (λ b. is_word b ≡ true) (show_hex_fuel f (n / 16)) (hex_digit (n % 16) ∷ [])
        (show_hex_fuel-IsWord f (n / 16)) (hex_digit-is_word (n % 16) (omega arith), tt))
]

pub show_hex-IsWord : (n : ℕ) → IsWord (show_hex n)
unfolding show_hex
show_hex-IsWord n = show_hex_fuel-IsWord (n + 1) n

sixteenth : (n p : ℕ) → n < 16 * (16 * p) → n / 16 < 16 * p
sixteenth n p h = omega arith

power : (k : ℕ) → 16 ^ suc k ≡ 16 * 16 ^ k
power k = pow-succ' 16 k

snoc-ne : (s : Text) (b : ℕ) → s ++ b ∷ [] ≢ []
snoc-ne [] b = cc
snoc-ne (c ∷ s) b = cc

show_hex_fuel-ne : (f n : ℕ) → show_hex_fuel (suc f) n ≢ []
unfolding show_hex_fuel
show_hex_fuel-ne f n = elim (Bool-cases (ltb n 16)) [
  | inl low ↦ rw low (cc)
  | inr high ↦ rw high (snoc-ne (show_hex_fuel f (n / 16)) (hex_digit (n % 16)))
]

suc_one : (n : ℕ) → suc n ≡ n + 1
suc_one n = omega arith

-- A number below `16 ^ (k + 1)` has at most `k + 1` digits.
length-show_hex_fuel : (k f n : ℕ) → n < 16 * 16 ^ k → length (show_hex_fuel f n) ≤ k + 1
unfolding show_hex_fuel
length-show_hex_fuel k zero n h = omega arith
length-show_hex_fuel zero (suc f) n h = rw (lt→ltb n 16 (omega arith)) (omega arith)
length-show_hex_fuel (suc k) (suc f) n h = elim (Bool-cases (ltb n 16)) [
  | inl low ↦ rw low (omega arith)
  | inr high ↦ rw high (
      omega (
        arith,
        length-append (show_hex_fuel f (n / 16)) (hex_digit (n % 16) ∷ []),
        length-show_hex_fuel k f (n / 16)
            (sixteenth n (16 ^ k) (subst (λ p. n < 16 * p) (power k) h)),
      ))
]

pub length-show_hex : (k n : ℕ) → n < 16 * 16 ^ k → length (show_hex n) ≤ k + 1
unfolding show_hex
length-show_hex k n h = length-show_hex_fuel k (n + 1) n h

pub show_hex-ne : (n : ℕ) → show_hex n ≢ []
unfolding show_hex
show_hex-ne n = subst (λ f. show_hex_fuel f n ≢ []) (suc_one n) (show_hex_fuel-ne n n)
