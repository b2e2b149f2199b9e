-- ===== src/Wire/Request.antt =====
-- The signed requests of shared/pc-remote-signing/src/lib.rs.
pub mod Binding
use m5stack_pc_remote.Base.{
  ℕ, ◌≡◌, sym, ap, ◌↔◌, Bool, true, false, not, Option, none, some, ◌∷◌, ◌++◌, if◌then◌else◌,
}
use m5stack_pc_remote.Base.Int.{ℤ}
use m5stack_pc_remote.Base.Text.{Text, utf8, to_ascii_uppercase}
use m5stack_pc_remote.Base.Decimal.{show_ℤ}
use m5stack_pc_remote.Wire.Crypto.{Bytes, Crypto}

abbrev pub newline : ℕ
newline = 10

unfoldable pub body_sha256_hex : Crypto → Bytes → Text
body_sha256_hex c body = c.hex_encode (c.sha256 body)

-- The lines of the canonical string, joined.
abbrev pub join_lines : Text → Text → Text → Text → Text → Text
join_lines a b c d e = a ++ (newline ∷ b ++ (newline ∷ c ++ (newline ∷ d ++ (newline ∷ e))))

unfoldable pub canonical_string : Crypto → Text → Text → ℤ → Text → Bytes → Text
canonical_string c method path timestamp nonce body =
    join_lines (to_ascii_uppercase method) path (show_ℤ timestamp) nonce (body_sha256_hex c body)

unfoldable pub sign_request : Crypto → Bytes → Text → Text → ℤ → Text → Bytes → Text
sign_request c secret method path timestamp nonce body =
    c.hex_encode (c.hmac secret (utf8 (canonical_string c method path timestamp nonce body)))

-- The check of a hexadecimal tag that requests and manifests share.
verify_decoded : Crypto → Bytes → Text → Option Bytes → Bool
verify_decoded c secret canonical none = false
verify_decoded c secret canonical (some expected) =
    if not (c.accepts_key secret) then false else c.verify_slice secret (utf8 canonical) expected

unfoldable pub verify_tag : Crypto → Bytes → Text → Text → Bool
unfolding verify_decoded
verify_tag c secret canonical signature_hex =
    verify_decoded c secret canonical (c.hex_decode signature_hex)

unfoldable pub verify_signature : Crypto → Bytes → Text → Text → ℤ → Text → Bytes → Text → Bool
verify_signature c secret method path timestamp nonce body signature_hex =
    verify_tag c secret (canonical_string c method path timestamp nonce body) signature_hex

verify_decoded_iff :
    (c : Crypto) (secret : Bytes) (canonical : Text) (tag : Option Bytes)
    → (verify_decoded c secret canonical tag ≡ true) ↔ (tag ≡ some (c.hmac secret (utf8 canonical)))
unfolding verify_decoded
verify_decoded_iff c secret canonical none = (λ h. cc, λ h. cc)
verify_decoded_iff c secret canonical (some t) =
    let (sound, complete) = c.verify_slice_iff secret (utf8 canonical) t in
    rw (c.accepts_all secret) (λ h. ap some (sym (sound h)), λ h. complete (cc))

-- A tag is accepted exactly if it decodes to the HMAC of the canonical string.
pub verify_tag_iff :
    (c : Crypto) (secret : Bytes) (canonical signature : Text)
    → (verify_tag c secret canonical signature ≡ true)
      ↔ (c.hex_decode signature ≡ some (c.hmac secret (utf8 canonical)))
unfolding verify_tag
verify_tag_iff c secret canonical signature =
    verify_decoded_iff c secret canonical (c.hex_decode signature)

-- A request signed by one side is accepted by the other, with the same secret and fields.
pub verify_signature-sign_request :
    (c : Crypto) (secret : Bytes) (method path : Text) (timestamp : ℤ) (nonce : Text) (body : Bytes)
    → verify_signature c secret method path timestamp nonce body
        (sign_request c secret method path timestamp nonce body)
      ≡ true
unfolding verify_signature sign_request
verify_signature-sign_request c secret method path timestamp nonce body =
    (verify_tag_iff c secret (canonical_string c method path timestamp nonce body) _).1
      (c.decode_encode _ (c.hmac_bytes secret _))
