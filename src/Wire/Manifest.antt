-- ===== src/Wire/Manifest.antt =====
-- The firmware manifest of shared/pc-remote-signing/src/lib.rs: its signature, its parsing and the
-- check of an image against it.
pub mod Separation
use m5stack_pc_remote.Base.{
  ℕ, ◌*◌, ◌/◌, ◌%◌, ◌≤◌, ◌<◌, min, ◌≡◌, ◌↔◌, inl, inr, Bool, true, false, not, ◌||◌, Option, none,
  some, [], ◌∷◌, arith, ◌==◌, if◌then◌else◌, Bool-cases, length,
}
use m5stack_pc_remote.Base.Decimal.{show_ℕ, positive}
use m5stack_pc_remote.Base.Result.{Result, ok, err}
use m5stack_pc_remote.Base.Text.{Text, text, eqb, eqb_iff, utf8}
use m5stack_pc_remote.Wire.Crypto.{Bytes, Crypto}
use m5stack_pc_remote.Wire.Request.{join_lines, verify_tag, verify_tag_iff}
use native.Mathlib.Nat.{div-lt_iff_lt-mul, le-div_iff_mul-le}

-- The first line of every manifest's canonical string.
abbrev pub domain : Text
domain = text "FIRMWARE-MANIFEST-v1"

unfoldable pub manifest_canonical_string : Text → ℕ → Text → Text → Text
manifest_canonical_string version size sha256_hex created_at =
    join_lines domain version (show_ℕ size) sha256_hex created_at

unfoldable pub sign_manifest : Crypto → Bytes → Text → ℕ → Text → Text → Text
sign_manifest c secret version size sha256_hex created_at =
    c.hex_encode
      (c.hmac secret (utf8 (manifest_canonical_string version size sha256_hex created_at)))

unfoldable pub verify_manifest_signature : Crypto → Bytes → Text → ℕ → Text → Text → Text → Bool
verify_manifest_signature c secret version size sha256_hex created_at signature_hex =
    verify_tag c secret (manifest_canonical_string version size sha256_hex created_at) signature_hex

pub record OtaManifest : Type 0 where
  pub version : Text
  pub size : ℕ
  pub sha256 : Text
  pub created_at : Text
  pub signature : Text

pub data OtaManifestError : Type 0 where
  invalid_json : Text → OtaManifestError
  invalid_field : Text → OtaManifestError
  signature_mismatch : OtaManifestError

pub data OtaImageError : Type 0 where
  size_mismatch : (expected actual : ℕ) → OtaImageError
  sha_mismatch : OtaImageError

abbrev pub is_empty : Text → Bool
is_empty [] = true
is_empty (c ∷ s) = false

abbrev pub is_some : Option Bytes → Bool
is_some none = false
is_some (some b) = true

-- The first field that cannot belong to an image, by name.
unfoldable pub check_manifest_fields : Crypto → OtaManifest → Result OtaManifestError (Unit {0})
check_manifest_fields c m =
    if is_empty m.version
    then err (invalid_field (text "version"))
    else if m.size == 0
    then err (invalid_field (text "size"))
    else if not (length (utf8 m.sha256) == 64) || not (is_some (c.hex_decode m.sha256))
    then err (invalid_field (text "sha256"))
    else if is_empty m.created_at
    then err (invalid_field (text "created_at"))
    else if is_empty m.signature
    then err (invalid_field (text "signature"))
    else ok tt

-- `serde_json::from_slice`, which is not part of the repository, with the position of an error as
-- `short_json_error` prints it.
abbrev pub Decode : Type 0
Decode = Bytes → Result Text OtaManifest

abbrev pub with_checked :
    OtaManifest → Result OtaManifestError (Unit {0}) → Result OtaManifestError OtaManifest
with_checked m (ok done) = ok m
with_checked m (err e) = err e

unfoldable pub parsed : Crypto → Result Text OtaManifest → Result OtaManifestError OtaManifest
parsed c (err reason) = err (invalid_json reason)
parsed c (ok m) = with_checked m (check_manifest_fields c m)

unfoldable pub parse_manifest_json : Crypto → Decode → Bytes → Result OtaManifestError OtaManifest
parse_manifest_json c decode bytes = parsed c (decode bytes)

unfoldable pub verify_manifest : Crypto → OtaManifest → Bytes → Result OtaManifestError (Unit {0})
verify_manifest c m secret =
    if verify_manifest_signature c secret m.version m.size m.sha256 m.created_at m.signature
    then ok tt
    else err signature_mismatch

unfoldable pub verify_ota_image : OtaManifest → ℕ → Text → Result OtaImageError (Unit {0})
verify_ota_image m actual_size actual_sha256_hex =
    if not (actual_size == m.size)
    then err (size_mismatch m.size actual_size)
    else if not (eqb actual_sha256_hex m.sha256)
    then err sha_mismatch
    else ok tt

unfoldable pub ota_progress_percent : ℕ → ℕ → ℕ
ota_progress_percent received total =
    if total == 0 then 0 else (min received total * 100 / total) % 256

-- `verify_manifest` accepts exactly a signature that decodes to the HMAC of the manifest's fields.
pub verify_manifest_iff :
    (c : Crypto) (m : OtaManifest) (secret : Bytes)
    → (verify_manifest c m secret ≡ ok tt) ↔ (
        c.hex_decode m.signature
        ≡ some (
            c.hmac secret
              (utf8 (manifest_canonical_string m.version m.size m.sha256 m.created_at))))
unfolding verify_manifest verify_manifest_signature
verify_manifest_iff c m secret =
    let canonical = manifest_canonical_string m.version m.size m.sha256 m.created_at in
    let (sound, complete) = verify_tag_iff c secret canonical m.signature in
    (λ h. ground (arith, sound), λ h. ground (arith, complete h))

-- `verify_ota_image` accepts exactly an image of the manifest's size and digest.
pub verify_ota_image_iff :
    (m : OtaManifest) (actual_size : ℕ) (sha : Text)
    → (verify_ota_image m actual_size sha ≡ ok tt) ↔ ((actual_size ≡ m.size) × (sha ≡ m.sha256))
unfolding verify_ota_image
verify_ota_image_iff m actual_size sha =
    let (sound, complete) = eqb_iff sha m.sha256 in
    (λ h. ground (arith, sound), λ h. ground (arith, complete h.1))

quotient_lem :
    (part total : ℕ)
    → 1 ≤ total
    → part ≤ total
    → (part * 100 / total ≤ 100) × ((100 ≤ part * 100 / total) ↔ (total ≤ part))
quotient_lem part total h k =
    let below = div-lt_iff_lt-mul {k = total} {x = part * 100} {y = 101} (omega arith) in
    let above = le-div_iff_mul-le {k = total} {x = 100} {y = part * 100} (omega arith) in
    let small : part * 100 / total < 101 = below.1 (omega arith) in
    (
      omega arith,
      (
        (λ q. let r : 100 * total ≤ part * 100 = above.0 q in omega arith),
        (λ r. above.1 (omega arith)),
      ),
    )

-- The percentage is at most 100, and 100 exactly when a non-empty image has fully arrived; the
-- conversion to `u8` never cuts it.
pub ota_progress_percent_lem :
    (received total : ℕ)
    → (ota_progress_percent received total ≤ 100)
      × ((ota_progress_percent received total ≡ 100) ↔ ((1 ≤ total) × (total ≤ received)))
unfolding ota_progress_percent
ota_progress_percent_lem received total = elim (Bool-cases (total == 0)) [
  | inl e ↦ ground arith
  | inr e ↦
      let positive : 1 ≤ total = ground arith in
      let (q, (full, fills)) = quotient_lem (min received total) total positive (omega arith) in
      rw e (
        omega (arith, q),
        (
          (λ h. (positive, omega (arith, full (omega (arith, q))))),
          (λ h. let r = fills (omega arith) in omega (arith, q, r)),
        ),
      )
]
