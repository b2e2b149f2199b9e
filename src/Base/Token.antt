-- ===== src/Base/Token.antt =====
-- Texts without white space: what `str::trim` and the UTF-8 encoding leave as they are.
use mathlib.Core.List.{reverse, reverse-append, reverse-reverse}
use m5stack_pc_remote.Base.{
  ℕ, ◌≡◌, refl, ap, ◌∙◌, Bool, true, false, ◌||◌, [], ◌∷◌, arith, ltb, ◌==◌, all, All, All-append,
}
use mathlib.Core.Path.{subst, sym}
use m5stack_pc_remote.Base.Text.{Text, utf8, is_ascii_alphanumeric, is_whitespace, trim_start, trim}

-- A letter or digit of ASCII, or one of `-`, `_` and `.`.
abbrev pub is_word : ℕ → Bool
is_word b = is_ascii_alphanumeric b || b == b'-' || b == b'_' || b == b'.'

abbrev pub IsWord : Text → Type 0
IsWord s = All (λ b. is_word b ≡ true) s

is_word_lem : (b : ℕ) → is_word b ≡ true → (is_whitespace b ≡ false) × (ltb b 0x80 ≡ true)
is_word_lem b h = ground arith

trim_start-IsWord : (s : Text) → IsWord s → trim_start s ≡ s
unfolding trim_start
trim_start-IsWord [] w = refl
trim_start-IsWord (b ∷ s) (h, w) = rw (is_word_lem b h).0 refl

IsWord-reverse : (s : Text) → IsWord s → IsWord (reverse s)
IsWord-reverse [] w = tt
IsWord-reverse (b ∷ s) (h, w) =
    subst IsWord (sym (reverse-append (b ∷ []) s))
      (All-append (λ x. is_word x ≡ true) (reverse s) (b ∷ []) (IsWord-reverse s w) (h, tt))

pub trim-IsWord : (s : Text) → IsWord s → trim s ≡ s
unfolding trim
trim-IsWord s w =
    ap (λ r. reverse (trim_start (reverse r))) (trim_start-IsWord s w)
    ∙ ap reverse (trim_start-IsWord (reverse s) (IsWord-reverse s w))
    ∙ reverse-reverse s

pub utf8-IsWord : (s : Text) → IsWord s → utf8 s ≡ s
unfolding utf8
utf8-IsWord [] w = refl
utf8-IsWord (b ∷ s) (h, w) = rw ((is_word_lem b h).1, utf8-IsWord s w) refl

pub all-IsWord : (s : Text) → IsWord s → all is_word s ≡ true
all-IsWord [] w = refl
all-IsWord (b ∷ s) (h, w) = rw h (all-IsWord s w)
