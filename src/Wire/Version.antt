-- ===== src/Wire/Version.antt =====
-- The versions of shared/pc-remote-signing/src/lib.rs: `split_version` and `compare_versions`.
pub mod Order
use Prim.Native.Nat.{compare, Ordering}
use m5stack_pc_remote.Base.{
  ℕ, ◌-◌, ◌^◌, Bool, true, false, ◌||◌, Option, none, some, List, [], ◌∷◌, ◌==◌, if◌then◌else◌, all,
}
use m5stack_pc_remote.Base.Text.{Text, eqb, is_ascii_digit, split}
use m5stack_pc_remote.Base.Decimal.{parse_unsigned}

pub data VersionOrder : Type 0 where
  newer same_version older unknown : VersionOrder

unfoldable pub shows_confirm_button : VersionOrder → Bool
shows_confirm_button same_version = false
shows_confirm_button newer = true
shows_confirm_button older = true
shows_confirm_button unknown = true

-- The three numbers of a version.
pub record Parts : Type 0 where
  pub major : ℕ
  pub minor : ℕ
  pub patch : ℕ

-- `version.split_at(version.find(['-', '+']).unwrap_or(version.len()))`.
unfoldable pub split_suffix : Text → Text × Text
split_suffix [] = ([], [])
split_suffix (c ∷ s) =
    let (numeric, suffix) = split_suffix s in
    if c == b'-' || c == b'+' then ([], c ∷ s) else (c ∷ numeric, suffix)

-- The largest `u64`.
abbrev u64_max : ℕ
u64_max = 2 ^ 64 - 1

-- One part: not empty, digits only, and within `u64`.
unfoldable pub part_value : Text → Option ℕ
part_value [] = none
part_value (c ∷ s) = if all is_ascii_digit (c ∷ s) then parse_unsigned u64_max (c ∷ s) else none

infixl 5 ◌>>=◌
abbrev ◌>>=◌ {ℓ κ} : {A : Type ℓ} {B : Type κ} → Option A → (A → Option B) → Option B
none >>= f = none
some a >>= f = f a

-- The `for` loop over the three slots, and the test that no part is left.
unfoldable pub three_parts : List Text → Option Parts
unfolding part_value
three_parts (a ∷ b ∷ c ∷ []) = do
  x ← part_value a
  y ← part_value b
  z ← part_value c
  some (record { major = x; minor = y; patch = z })
three_parts _ = none

unfoldable pub split_version : Text → Option (Parts × Text)
unfolding split_suffix three_parts
split_version version = do
  let parts = split_suffix version
  numbers ← three_parts (split b'.' parts.0)
  some (numbers, parts.1)

-- `[u64; 3]::cmp`, which is lexicographic.
unfoldable pub compare_parts : Parts → Parts → Ordering
compare_parts a b = elim (compare a.major b.major) [
  | Ordering.eq ↦ elim (compare a.minor b.minor) [ Ordering.eq ↦ compare a.patch b.patch | o ↦ o ]
  | o ↦ o
]

order_of : Option (Parts × Text) → Option (Parts × Text) → VersionOrder
order_of (some (cur, cur_suffix)) (some (off, off_suffix)) = elim (compare_parts cur off) [
  | Ordering.lt ↦ newer
  | Ordering.gt ↦ older
  | Ordering.eq ↦ if eqb cur_suffix off_suffix then same_version else unknown
]
order_of _ _ = unknown

unfoldable pub compare_versions : Text → Text → VersionOrder
unfolding order_of
compare_versions current offered = order_of (split_version current) (split_version offered)
