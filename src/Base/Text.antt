-- ===== src/Base/Text.antt =====
-- Text as the list of its `char`s, with the `str` methods that the program calls.
use Prim.Native.Char.{code}
use Prim.Native.String.{String}
use mathlib.Core.List.{reverse}
use m5stack_pc_remote.Base.{
  ℕ, ◌+◌, ◌-◌, ◌/◌, ◌%◌, ◌≡◌, refl, ◌≢◌, ◌↔◌, Bool, true, false, ◌&&◌, ◌||◌, Option, none, some,
  List, [], ◌∷◌, ◌++◌, arith, ltb, leb, ◌==◌, if◌then◌else◌, ==_iff,
}

abbrev pub Text : Type 0
Text = List ℕ

-- The text of a literal.
abbrev pub text : String → Text
text String.[] = []
text (String.◌∷◌ c s) = code c ∷ text s

-- `==` on `str`.
unfoldable pub eqb : Text → Text → Bool
eqb [] [] = true
eqb (a ∷ s) (b ∷ t) = a == b && eqb s t
eqb _ _ = false

pub eqb_iff : (s t : Text) → (eqb s t ≡ true) ↔ (s ≡ t)
unfolding eqb
eqb_iff [] [] = (λ h. refl, λ h. refl)
eqb_iff [] (b ∷ t) = (λ h. cc, λ h. cc)
eqb_iff (a ∷ s) [] = (λ h. cc, λ h. cc)
eqb_iff (a ∷ s) (b ∷ t) =
    (λ h. ground (arith, eqb_iff s t, ==_iff a b), λ h. ground (arith, eqb_iff s t, ==_iff a b))

pub eqb_refl : (s : Text) → eqb s s ≡ true
eqb_refl s = (eqb_iff s s).1 refl

pub eqb_comm : (s t : Text) → eqb s t ≡ eqb t s
unfolding eqb
eqb_comm [] [] = refl
eqb_comm [] (b ∷ t) = refl
eqb_comm (a ∷ s) [] = refl
eqb_comm (a ∷ s) (b ∷ t) = ground (arith, eqb_comm s t)

-- The UTF-8 bytes of a `char`, and of a text: `str::as_bytes`.
abbrev pub utf8_char : ℕ → List ℕ
utf8_char c =
    if ltb c 0x80
    then c ∷ []
    else if ltb c 0x800
    then (0xC0 + c / 64) ∷ (0x80 + c % 64) ∷ []
    else if ltb c 0x10000
    then (0xE0 + c / 4096) ∷ (0x80 + c / 64 % 64) ∷ (0x80 + c % 64) ∷ []
    else (0xF0 + c / 262144) ∷ (0x80 + c / 4096 % 64) ∷ (0x80 + c / 64 % 64) ∷ (0x80 + c % 64) ∷ []

unfoldable pub utf8 : Text → List ℕ
utf8 [] = []
utf8 (c ∷ s) = utf8_char c ++ utf8 s

abbrev pub is_ascii_digit : ℕ → Bool
is_ascii_digit c = leb 48 c && leb c 57

abbrev pub is_ascii_alphanumeric : ℕ → Bool
is_ascii_alphanumeric c = is_ascii_digit c || leb 65 c && leb c 90 || leb 97 c && leb c 122

unfoldable pub to_ascii_uppercase : Text → Text
to_ascii_uppercase [] = []
to_ascii_uppercase (c ∷ s) = (if leb 97 c && leb c 122 then c - 32 else c) ∷ to_ascii_uppercase s

unfoldable pub to_ascii_lowercase : Text → Text
to_ascii_lowercase [] = []
to_ascii_lowercase (c ∷ s) = (if leb 65 c && leb c 90 then c + 32 else c) ∷ to_ascii_lowercase s

-- `char::is_whitespace`: the Unicode property White_Space.
abbrev pub is_whitespace : ℕ → Bool
is_whitespace c =
    leb 9 c && leb c 13
    || c == 0x20
    || c == 0x85
    || c == 0xA0
    || c == 0x1680
    || leb 0x2000 c && leb c 0x200A
    || c == 0x2028
    || c == 0x2029
    || c == 0x202F
    || c == 0x205F
    || c == 0x3000

unfoldable pub trim_start : Text → Text
trim_start [] = []
trim_start (c ∷ s) = let rest = trim_start s in if is_whitespace c then rest else c ∷ s

unfoldable pub trim : Text → Text
unfolding trim_start
trim s = reverse (trim_start (reverse (trim_start s)))

cons_first : ℕ → List Text → List Text
cons_first c [] = (c ∷ []) ∷ []
cons_first c (p ∷ ps) = (c ∷ p) ∷ ps

-- `s.split(sep)` on a `char`: at least one part.
unfoldable pub split : ℕ → Text → List Text
unfolding cons_first
split sep [] = [] ∷ []
split sep (c ∷ s) = let rest = split sep s in if c == sep then [] ∷ rest else cons_first c rest

abbrev push_first : ℕ → Option (Text × Text) → Option (Text × Text)
push_first c none = none
push_first c (some (a, b)) = some (c ∷ a, b)

unfoldable pub split_once : ℕ → Text → Option (Text × Text)
split_once sep [] = none
split_once sep (c ∷ s) =
    let rest = split_once sep s in if c == sep then some ([], s) else push_first c rest

-- No `char` of the text is `sep`.
abbrev pub Lacks : ℕ → Text → Type 0
Lacks sep [] = Unit
Lacks sep (c ∷ s) = (c ≢ sep) × Lacks sep s
