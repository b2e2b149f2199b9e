-- ===== src/Firmware/Validation.antt =====
-- shared/config-validation/src/lib.rs. `Ipv4Addr::from_str`, of Rust's standard library, is
-- written out: four decimal octets without leading zeros.
use m5stack_pc_remote.Base.{
  ℕ, ◌+◌, ◌-◌, ◌*◌, ◌/◌, ◌%◌, ◌^◌, ◌≤◌, ◌<◌, min, ◌≡◌, sym, ap, ◌∙◌, inl, inr, Bool, true, false,
  not, ◌&&◌, Option, none, some, List, [], ◌∷◌, ◌++◌, arith, leb, ◌==◌, if◌then◌else◌, Bool-cases,
  Option-cases, length, all,
}
use m5stack_pc_remote.Base.Decimal.{
  show_ℕ, show_ℤ, parse_unsigned, parse_i64, IsI64, parse_i64-show_ℤ, parse_unsigned-le,
}
use m5stack_pc_remote.Base.Int.{ℤ, leb_ℤ, pos, negsuc}
use m5stack_pc_remote.Base.Result.{Result, ok, err}
use m5stack_pc_remote.Base.Text.{Text, eqb, eqb_iff, is_ascii_digit, trim, split}

-- One octet.
abbrev is_octet : Text → Bool
is_octet [] = false
is_octet (c ∷ []) = is_ascii_digit c
is_octet (c ∷ s) =
    not (c == b'0')
    && leb (length s) 2
    && elim (parse_unsigned 255 (c ∷ s)) [ none ↦ false | some n ↦ all is_ascii_digit (c ∷ s) ]

abbrev are_octets : List Text → Bool
are_octets (a ∷ b ∷ c ∷ d ∷ []) = is_octet a && is_octet b && is_octet c && is_octet d
are_octets parts = false

abbrev pub is_ipv4 : Text → Bool
is_ipv4 s = are_octets (split b'.' s)

-- An error carries the input that its message quotes.
pub validate_ipv4 : Text → Result Text Text
validate_ipv4 input = if is_ipv4 (trim input) then ok (trim input) else err (trim input)

abbrev nonzero_port : Text → Option ℕ → Result Text ℕ
nonzero_port input none = err input
nonzero_port input (some port) = if port == 0 then err input else ok port

validate_port : Text → Result Text ℕ
validate_port input = nonzero_port input (parse_unsigned 65535 input)

pub validate_wol_port : Text → Result Text ℕ
unfolding validate_port
validate_wol_port input = validate_port (trim input)

abbrev default_status_port : ℕ
default_status_port = 80

unfoldable normalize_status_port : ℕ → ℕ
normalize_status_port port = if port == 0 then default_status_port else port

unfoldable pub compose_status_addr : Text → ℕ → Text
compose_status_addr pc_ip_address status_port = trim pc_ip_address ++ b':' ∷ show_ℕ status_port

unfoldable is_valid_timezone_offset_hours : ℤ → Bool
is_valid_timezone_offset_hours hours = leb_ℤ (negsuc 11) hours && leb_ℤ hours (pos 14)

unfoldable is_valid_daily_report_hour : ℤ → Bool
is_valid_daily_report_hour hour = leb_ℤ (negsuc 0) hour && leb_ℤ hour (pos 23)

abbrev brightness_max_percent : ℕ
brightness_max_percent = 100

abbrev is_valid_brightness_percent : ℕ → Bool
is_valid_brightness_percent percent = leb percent brightness_max_percent

abbrev valid_brightness : Text → Option ℕ → Result Text ℕ
valid_brightness input none = err input
valid_brightness input (some percent) =
    if not (is_valid_brightness_percent percent) then err input else ok percent

pub validate_brightness_percent : Text → Result Text ℕ
validate_brightness_percent input = valid_brightness (trim input) (parse_unsigned 255 (trim input))

abbrev pub brightness_dcdc3_max_mv : ℕ
brightness_dcdc3_max_mv = 2800

abbrev pub brightness_dcdc3_min_mv : ℕ
brightness_dcdc3_min_mv = 2500

-- The arithmetic of `u16`, which wraps in a release build.
pub brightness_percent_to_dcdc3_mv : ℕ → ℕ
brightness_percent_to_dcdc3_mv percent =
    let clamped = min percent brightness_max_percent in
    let range = brightness_dcdc3_max_mv - brightness_dcdc3_min_mv in
    let mv =
      (brightness_dcdc3_min_mv + range * clamped % 2 ^ 16 / brightness_max_percent) % 2 ^ 16 in
    mv - mv % 25

abbrev normalize_telegram_user_id : Text → Text
normalize_telegram_user_id input = trim input

unfoldable pub telegram_user_id_matches : Text → ℤ → Bool
telegram_user_id_matches config_value from_id =
    eqb (show_ℤ from_id) (normalize_telegram_user_id config_value)

pub parse_telegram_user_id : Text → Option ℤ
parse_telegram_user_id config_value = parse_i64 (normalize_telegram_user_id config_value)

-- The user who may command the device is the one whom it alerts.
pub matches-parse :
    (config_value : Text) (from_id : ℤ)
    → IsI64 from_id
    → telegram_user_id_matches config_value from_id ≡ true
    → parse_telegram_user_id config_value ≡ some from_id
unfolding telegram_user_id_matches parse_telegram_user_id
matches-parse config_value from_id h e =
    ap parse_i64 (sym ((eqb_iff _ _).0 e)) ∙ parse_i64-show_ℤ from_id h

-- The voltage is the largest multiple of 25 mV that is not above 2500 mV and 3 mV for each percent,
-- where more than 100 percent count as 100; it lies between 2500 mV and 2800 mV and does not sink
-- when the percentage grows.
pub dcdc3_lem :
    (p q : ℕ)
    → p ≤ q
    → let low = brightness_percent_to_dcdc3_mv p in
      let high = brightness_percent_to_dcdc3_mv q in
      (low % 25 ≡ 0)
      × (low ≤ 2500 + 3 * min p 100)
      × (2500 + 3 * min p 100 < low + 25)
      × (2500 ≤ low)
      × (low ≤ high)
      × (high ≤ 2800)
unfolding brightness_percent_to_dcdc3_mv
dcdc3_lem p q h = (omega arith, omega arith, omega arith, omega arith, omega arith, omega arith)

pub validate_wol_port_lem :
    (input : Text) (p : ℕ) → validate_wol_port input ≡ ok p → (1 ≤ p) × (p ≤ 65535)
unfolding validate_wol_port validate_port
validate_wol_port_lem input p h = elim (Option-cases (parse_unsigned 65535 (trim input))) [
  | inl e ↦ let bad : err (trim input) ≡ ok p = rw e at h in cc
  | inr (n, e) ↦
      let bound = parse_unsigned-le 65535 (trim input) e in
      let h' : nonzero_port (trim input) (some n) ≡ ok p = rw e at h in ground arith
]

pub validate_brightness_percent_lem :
    (input : Text) (p : ℕ) → validate_brightness_percent input ≡ ok p → p ≤ 100
unfolding validate_brightness_percent
validate_brightness_percent_lem input p h = ground arith

pub validate_ipv4_lem : (input ip : Text) → validate_ipv4 input ≡ ok ip → is_ipv4 ip ≡ true
unfolding validate_ipv4
validate_ipv4_lem input ip h = elim (Bool-cases (is_ipv4 (trim input))) [
  | inl e ↦ let kept : ok (trim input) ≡ ok ip = rw e at h in cc
  | inr e ↦ let bad : err (trim input) ≡ ok ip = rw e at h in cc
]
