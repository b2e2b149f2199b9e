-- ===== src/Tests/Fetches.antt =====
-- A run of Firmware/Ota/Fetch.antt.
use m5stack_pc_remote.Base.Decimal.{show_ℕ}
use m5stack_pc_remote.Base.{◌≤◌, ◌≡◌, refl, [], ◌∷◌, ◌==◌, if◌then◌else◌, length}
use m5stack_pc_remote.Base.Result.{Result, ok, err}
use m5stack_pc_remote.Base.Text.{Text, text, eqb, utf8}
use m5stack_pc_remote.Tests.Instances.{toy_crypto}
use m5stack_pc_remote.Wire.Crypto.{Bytes}
use m5stack_pc_remote.Wire.Request.{verify_tag}
use m5stack_pc_remote.Wire.Manifest.{
  OtaManifest, Decode, sign_manifest, parse_manifest_json, parsed, check_manifest_fields,
  verify_manifest, verify_manifest_signature, manifest_canonical_string,
}
use m5stack_pc_remote.Firmware.Ota.{
  OtaError, Reply, read_body, manifest_body, fetch_verified_manifest, manifest_max_bytes,
}
use m5stack_pc_remote.Firmware.Ota.Fetch.{IsBody, IsVerified, fetch_verified_manifest_lem}

abbrev secret : Bytes
secret = utf8 (text "secret")

abbrev digest : Text
digest = text "0123456789abcdef0123456789abcdef0123456789abcdef0123456789abcdef"

abbrev signed_manifest : OtaManifest
signed_manifest = record {
  version = text "1.2.3";
  size = 3;
  sha256 = digest;
  created_at = text "now";
  signature = sign_manifest toy_crypto secret (text "1.2.3") 3 digest (text "now");
}

-- The reader of one manifest.
abbrev decode : Decode
decode body = if length body == 3 then ok signed_manifest else err (text "line 1 column 1")

abbrev response : Result OtaError (Reply Bytes)
response = ok (record { status = 200; reads = ok (1 ∷ 2 ∷ []) ∷ ok (3 ∷ []) ∷ ok [] ∷ [] })

fetched : fetch_verified_manifest toy_crypto decode secret response ≡ ok signed_manifest
unfolding fetch_verified_manifest manifest_body read_body parse_manifest_json parsed
    check_manifest_fields verify_manifest verify_manifest_signature verify_tag sign_manifest eqb
    utf8 manifest_canonical_string show_ℕ
fetched = refl

fetch_verified_manifest_lem_example :
    (body : Bytes) × (reply : Reply Bytes) × (response ≡ ok reply)
    × (reply.status ≡ 200)
    × IsBody reply.reads body
    × (length body ≤ manifest_max_bytes)
    × IsVerified toy_crypto decode secret signed_manifest body
fetch_verified_manifest_lem_example =
    fetch_verified_manifest_lem toy_crypto decode secret response signed_manifest fetched
