-- ===== src/Wire/Manifest/Separation.antt =====
-- The signatures of requests and of manifests are over different texts.
use m5stack_pc_remote.Base.{
  ℕ, ◌≡◌, refl, ◌≢◌, Bool, true, false, ◌&&◌, [], ◌∷◌, ◌++◌, arith, leb, ◌==◌, if◌then◌else◌,
}
use m5stack_pc_remote.Base.Int.{ℤ}
use m5stack_pc_remote.Base.Text.{Text, to_ascii_uppercase}
use m5stack_pc_remote.Wire.Crypto.{Bytes, Crypto}
use m5stack_pc_remote.Wire.Request.{canonical_string, newline}
use m5stack_pc_remote.Wire.Manifest.{manifest_canonical_string, domain}
use mathlib.Core.Bool.{false≢true}

-- A text that reaches a small letter before it reaches a line break.
abbrev starts_lower : Text → Bool
starts_lower [] = false
starts_lower (c ∷ s) =
    if c == newline then false else if leb 97 c && leb c 122 then true else starts_lower s

uppercase_differs :
    (method r p s : Text)
    → starts_lower p ≡ true
    → to_ascii_uppercase method ++ (newline ∷ r) ≢ p ++ s
unfolding to_ascii_uppercase
uppercase_differs method r [] s h e = absurd (false≢true h)
uppercase_differs [] r (c ∷ p) s h e = ground arith
uppercase_differs (x ∷ method) r (c ∷ p) s h e =
    uppercase_differs method r p s (ground arith) (ground arith)

-- No request has the canonical string of a manifest.
pub canonical_string_separate :
    (c : Crypto) (method path : Text) (timestamp : ℤ) (nonce : Text) (body : Bytes) (version : Text)
    (size : ℕ) (sha256_hex created_at : Text)
    → canonical_string c method path timestamp nonce body
      ≢ manifest_canonical_string version size sha256_hex created_at
unfolding canonical_string manifest_canonical_string
canonical_string_separate c method path timestamp nonce body version size sha created_at =
    uppercase_differs method _ domain _ refl
