-- ===== src/Base/Decimal/Words.antt =====
-- Decimal numbers are texts of digits, without white space.
use m5stack_pc_remote.Base.{
  ℕ, zero, suc, ◌+◌, ◌/◌, ◌%◌, ◌<◌, ◌≡◌, inl, inr, true, [], ◌∷◌, arith, ltb, Bool-cases,
  All-append,
}
use m5stack_pc_remote.Base.Token.{is_word, IsWord}
use m5stack_pc_remote.Base.Decimal.{show_fuel, show_ℕ}

digit-is_word : (d : ℕ) → d < 10 → is_word (48 + d) ≡ true
digit-is_word d h = ground arith

show_fuel-IsWord : (f n : ℕ) → IsWord (show_fuel f n)
unfolding show_fuel
show_fuel-IsWord zero n = tt
show_fuel-IsWord (suc f) n = elim (Bool-cases (ltb n 10)) [
  | inl low ↦ rw low (digit-is_word n (ground arith), tt)
  | inr high ↦ rw high (
      All-append (λ b. is_word b ≡ true) (show_fuel f (n / 10)) ((48 + n % 10) ∷ [])
        (show_fuel-IsWord f (n / 10)) (digit-is_word (n % 10) (omega arith), tt))
]

pub show_ℕ-IsWord : (n : ℕ) → IsWord (show_ℕ n)
unfolding show_ℕ
show_ℕ-IsWord n = show_fuel-IsWord (n + 1) n
