-- ===== src/Bridge/Auth.antt =====
-- `verify_request` of m5stack-pc-bridge/src/auth.rs.
pub mod Replay
use m5stack_pc_remote.Base.{
  ◌≤◌, ◌≡◌, ◌↔◌, ◌⊎◌, Bool, true, false, not, none, some, List, [], ◌∷◌, arith, ltb, if◌then◌else◌,
}
use m5stack_pc_remote.Base.Int.{ℤ, abs_diff, max_zero}
use m5stack_pc_remote.Base.Text.{Text, utf8}
use m5stack_pc_remote.Base.Result.{Result, ok, err}
use m5stack_pc_remote.Wire.Crypto.{Bytes, Crypto}
use m5stack_pc_remote.Wire.Request.{verify_signature, verify_tag_iff, canonical_string}
use m5stack_pc_remote.Bridge.NonceStore.{NonceMap, insert_once, sweep, refuses}

pub record AuthConfig : Type 0 where
  pub secret : Bytes
  pub allowed_skew_seconds : ℤ

pub data AuthError : Type 0 where
  timestamp_skew replay bad_signature missing_header : AuthError

-- The arguments of `verify_request` that differ from request to request; `now` is the clock.
pub record Request : Type 0 where
  pub method : Text
  pub path : Text
  pub timestamp : ℤ
  pub nonce : Text
  pub body : Bytes
  pub signature_hex : Text
  pub now : ℤ

module _ (c : Crypto) (M : NonceMap) (config : AuthConfig) where
  open M use {Map}

  pub skewed : Request → Bool
  skewed r = ltb (max_zero config.allowed_skew_seconds) (abs_diff r.now r.timestamp)

  unfoldable pub signed : Request → Bool
  signed r =
      verify_signature c config.secret r.method r.path r.timestamp r.nonce r.body r.signature_hex

  pub verify_request : Map → Request → Map × Result AuthError (Unit {0})
  verify_request nonces r =
      if skewed r
      then (nonces, err timestamp_skew)
      else if not (signed r)
      then (nonces, err bad_signature)
      else (let (nonces', inserted) =
            insert_once M nonces r.nonce r.timestamp r.now config.allowed_skew_seconds in
          if not inserted then (nonces', err replay) else (nonces', ok tt))

  -- The store after a sequence of requests.
  pub serve_all : Map → List Request → Map
  serve_all nonces [] = nonces
  serve_all nonces (r ∷ rs) = serve_all (verify_request nonces r).0 rs

  -- A rejected request with a wrong timestamp or signature leaves the store as it was, and the
  -- other requests insert: what is accepted is in time, signed, and has a fresh nonce.
  pub verify_request_lem :
      (nonces : Map) (r : Request)
      → let inserted = insert_once M nonces r.nonce r.timestamp r.now config.allowed_skew_seconds in
        ((skewed r ≡ true) × (verify_request nonces r ≡ (nonces, err timestamp_skew)))
        ⊎ ((skewed r ≡ false)
            × (signed r ≡ false)
            × (verify_request nonces r ≡ (nonces, err bad_signature)))
        ⊎ ((skewed r ≡ false)
            × (signed r ≡ true)
            × (verify_request nonces r ≡ (inserted.0, if inserted.1 then ok tt else err replay)))
  unfolding verify_request
  verify_request_lem nonces r = ground arith

  -- A request is accepted exactly if its timestamp is within the allowed skew of the clock, its
  -- signature decodes to the HMAC of its canonical string, and, after the sweep, its nonce is well
  -- formed and not in the store, and the store has room.
  pub verify_request_ok_iff :
      (nonces : Map) (r : Request)
      → let swept = sweep M nonces r.now config.allowed_skew_seconds in
        ((verify_request nonces r).1 ≡ ok tt) ↔ (
          (abs_diff r.now r.timestamp ≤ max_zero config.allowed_skew_seconds)
          × (c.hex_decode r.signature_hex
              ≡ some (
                  c.hmac config.secret
                    (utf8 (canonical_string c r.method r.path r.timestamp r.nonce r.body))))
          × (refuses M swept r.nonce ≡ false)
          × (M.get swept r.nonce ≡ none))
  unfolding verify_request skewed signed insert_once verify_signature
  verify_request_ok_iff nonces r =
      let swept = sweep M nonces r.now config.allowed_skew_seconds in
      let canonical = canonical_string c r.method r.path r.timestamp r.nonce r.body in
      let (sound, complete) = verify_tag_iff c config.secret canonical r.signature_hex in
      let previous = M.insert_previous swept r.nonce r.timestamp in
      (λ h. ground (arith, sound, previous), λ h. ground (arith, complete h.1, previous))

  -- What an accepted request went through.
  pub accepted_lem :
      (nonces : Map) (r : Request)
      → let inserted = insert_once M nonces r.nonce r.timestamp r.now config.allowed_skew_seconds in
        (verify_request nonces r).1 ≡ ok tt
        → (skewed r ≡ false) × (inserted.1 ≡ true) × ((verify_request nonces r).0 ≡ inserted.0)
  unfolding verify_request
  accepted_lem nonces r h = ground arith
