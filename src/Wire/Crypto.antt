-- ===== src/Wire/Crypto.antt =====
-- The interface of the crates `sha2`, `hmac` and `hex`, which are not part of the repository.
use m5stack_pc_remote.Base.{ℕ, ◌≡◌, ◌↔◌, Bool, true, Option, some, List, ltb, all}
use m5stack_pc_remote.Base.Text.{Text}

abbrev pub Bytes : Type 0
Bytes = List ℕ

-- A list of `u8`.
abbrev is_bytes : List ℕ → Bool
is_bytes = all (λ b. ltb b 256)

-- `hmac key message` is the tag that `Hmac::<Sha256>` finalises to, and `verify_slice` its
-- comparison of a tag. The laws are documented: hexadecimal text decodes to what was encoded, a
-- tag is a list of bytes, every key length is accepted, and `verify_slice` accepts the tag alone.
pub record Crypto : Type 0 where
  pub sha256 : Bytes → Bytes
  pub hmac : Bytes → Bytes → Bytes
  pub accepts_key : Bytes → Bool
  pub verify_slice : Bytes → Bytes → Bytes → Bool
  pub hex_encode : Bytes → Text
  pub hex_decode : Text → Option Bytes
  pub decode_encode : (b : Bytes) → is_bytes b ≡ true → hex_decode (hex_encode b) ≡ some b
  pub hmac_bytes : (k m : Bytes) → is_bytes (hmac k m) ≡ true
  pub accepts_all : (k : Bytes) → accepts_key k ≡ true
  pub verify_slice_iff : (k m t : Bytes) → (verify_slice k m t ≡ true) ↔ (hmac k m ≡ t)
