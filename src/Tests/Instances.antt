-- ===== src/Tests/Instances.antt =====
-- Concrete instances of the interfaces for code that is not part of the repository.
use m5stack_pc_remote.Base.{
  ℕ, ◌+◌, ◌*◌, ◌%◌, ◌≡◌, refl, ap, Bool, true, Option, none, some, [], ◌∷◌, ◌++◌, arith, ltb,
  if◌then◌else◌, all,
}
use m5stack_pc_remote.Base.Int.{ℤ}
use m5stack_pc_remote.Base.Text.{Text, eqb, eqb_iff}
use m5stack_pc_remote.Wire.Crypto.{Bytes, Crypto}
use m5stack_pc_remote.Bridge.NonceStore.{NonceMap}

abbrev sum : Bytes → ℕ
sum [] = 0
sum (b ∷ bs) = b + 2 * sum bs

abbrev checksum : Bytes → Bytes → Bytes
checksum key message = (65 + sum (key ++ message) % 26) ∷ []

pub checksum_bytes : (key message : Bytes) → all (λ b. ltb b 256) (checksum key message) ≡ true
checksum_bytes key message = ground arith

-- A checksum for the tag, and a text with a `char` per byte for the hexadecimal form.
abbrev pub toy_crypto : Crypto
toy_crypto = record {
  sha256 = λ b. sum b % 256 ∷ [];
  hmac = checksum;
  accepts_key = λ k. true;
  verify_slice = λ k m t. eqb (checksum k m) t;
  hex_encode = λ b. b;
  hex_decode = λ s. some s;
  decode_encode = λ b h. refl;
  hmac_bytes = checksum_bytes;
  accepts_all = λ k. refl;
  verify_slice_iff = λ k m t. eqb_iff (checksum k m) t;
}

abbrev kept : (Text → ℤ → Bool) → Text → Option ℤ → Option ℤ
kept p k none = none
kept p k (some v) = if p k v then some v else none

-- A map as a function, with a count that every insertion raises.
abbrev pub toy_map : NonceMap
toy_map = record {
  Map = (Text → Option ℤ) × ℕ;
  empty = (λ k. none, 0);
  get = λ m. m.0;
  len = λ m. m.1;
  insert = λ m k v. (((λ j. if eqb k j then some v else m.0 j), m.1 + 1), m.0 k);
  retain = λ p m. ((λ k. kept p k (m.0 k)), m.1);
  get-empty = λ k. refl;
  len-empty = refl;
  get-insert = λ m k j v. refl;
  insert_previous = λ m k v. refl;
  len-insert = λ m k v. omega arith;
  get-retain-none = λ p m k h. ap (kept p k) h;
  get-retain-some = λ p m k v h. ap (kept p k) h;
  len-retain = λ p m. omega arith;
}
