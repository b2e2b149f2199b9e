-- ===== src/Firmware/BridgeClient/Accepted.antt =====
-- The bridge accepts what the firmware sends.
use m5stack_pc_remote.Base.Decimal.Words.{show_ℕ-IsWord}
use m5stack_pc_remote.Base.{
  ℕ, ◌^◌, ◌≤◌, ◌<◌, ◌≡◌, refl, sym, ap, ◌∙◌, ◌≢◌, true, false, none, some, [], ◌∷◌, ◌++◌, arith,
  length, All, length-append, All-append,
}
use m5stack_pc_remote.Base.Decimal.{show_ℕ, show_ℤ, parse_i64, parse_i64-show_ℤ}
use m5stack_pc_remote.Base.Hex.{show_hex, show_hex-IsWord, length-show_hex}
use m5stack_pc_remote.Base.Result.{Result, ok, err}
use m5stack_pc_remote.Base.Text.{Text, text, utf8, to_ascii_lowercase}
use m5stack_pc_remote.Base.Token.{is_word, IsWord, trim-IsWord, utf8-IsWord, all-IsWord}
use mathlib.Core.Path.{subst}
use m5stack_pc_remote.Base.Int.{ℤ, abs_diff, max_zero, i64_max, pos}
use m5stack_pc_remote.Wire.Crypto.{Bytes, Crypto}
use m5stack_pc_remote.Wire.PowerAction.{PowerAction, path}
use m5stack_pc_remote.Wire.Request.{canonical_string, sign_request}
use m5stack_pc_remote.Bridge.NonceStore.{NonceMap, sweep, refuses, max_entries}
use m5stack_pc_remote.Bridge.Auth.{
  verify_request_ok_iff, AuthConfig, AuthError, Request, verify_request,
}
use m5stack_pc_remote.Bridge.Server.{HttpRequest, Headers, header_str, auth_request, verify_headers}
use m5stack_pc_remote.Firmware.BridgeClient.{
  HttpCommand, Device, request_nonce, signed_command, command_body,
}

-- The request that the bridge receives for a command: the same method, path and body, and each
-- header under its name, which is not case sensitive.
pub record IsDelivered (out : HttpCommand) (r : HttpRequest) : Type 0 where
  pub method_kept : r.method ≡ out.method
  pub path_kept : r.path ≡ out.path
  pub body_kept : r.body ≡ utf8 out.body
  pub headers_kept : All (λ h. r.headers (to_ascii_lowercase h.0) ≡ some h.1) out.headers

header_str_word :
    (headers : Headers) (name value : Text)
    → headers name ≡ some value
    → IsWord value
    → value ≢ []
    → header_str headers name ≡ ok value
unfolding header_str
header_str_word headers name [] h w ne = absurd (ne refl)
header_str_word headers name (b ∷ value) h w ne = rw (h, trim-IsWord (b ∷ value) w) refl

request_nonce-IsWord : (d : Device) → IsWord (request_nonce d)
unfolding request_nonce
request_nonce-IsWord d =
    All-append (λ b. is_word b ≡ true) (show_hex d.random) (b'-' ∷ show_hex d.uptime)
      (show_hex-IsWord d.random) (refl, show_hex-IsWord d.uptime)

append-ne : (s t : Text) (b : ℕ) → s ++ b ∷ t ≢ []
append-ne [] t b = cc
append-ne (c ∷ s) t b = cc

request_nonce-ne : (d : Device) → request_nonce d ≢ []
unfolding request_nonce
request_nonce-ne d = append-ne (show_hex d.random) (show_hex d.uptime) b'-'

length-request_nonce :
    (d : Device) → d.random < 2 ^ 32 → d.uptime < 2 ^ 63 → length (request_nonce d) ≤ 25
unfolding request_nonce
length-request_nonce d h k = omega (
  arith,
  length-append (show_hex d.random) (b'-' ∷ show_hex d.uptime),
  length-show_hex 7 d.random (omega arith),
  length-show_hex 15 d.uptime (omega arith),
)

show_ℕ-ne : (n : ℕ) → n ≤ i64_max → show_ℕ n ≢ []
unfolding parse_i64 show_ℤ
show_ℕ-ne n h = λ e. cc (ap parse_i64 e, parse_i64-show_ℤ (pos n) (h, omega arith))

-- The request that `verify_headers` reads from a delivered command.
received : Crypto → Text → PowerAction → Device → ℕ → ℤ → Request
received c secret action d timestamp now = record {
  method = text "POST";
  path = path action;
  timestamp = pos timestamp;
  nonce = request_nonce d;
  body = utf8 command_body;
  signature_hex =
      sign_request c (utf8 secret) (text "POST") (path action) (pos timestamp) (request_nonce d)
        (utf8 command_body);
  now = now;
}

-- The tags of the crate `hex` are words, and no tag is empty.
abbrev pub HasWords : Crypto → Type 0
HasWords c = (k m : Bytes) → IsWord (c.hex_encode (c.hmac k m)) × (c.hex_encode (c.hmac k m) ≢ [])

-- What `verify_headers` reads of three good headers.
auth_request_lem :
    (r : HttpRequest) (now : ℤ) (timestamp : ℕ) (nonce signature : Text)
    → header_str r.headers (text "x-timestamp") ≡ ok (show_ℕ timestamp)
    → header_str r.headers (text "x-nonce") ≡ ok nonce
    → header_str r.headers (text "x-signature") ≡ ok signature
    → timestamp ≤ i64_max
    → auth_request r now
      ≡ ok (record {
        method = r.method;
        path = r.path;
        timestamp = pos timestamp;
        nonce = nonce;
        body = r.body;
        signature_hex = signature;
        now = now;
      })
unfolding auth_request show_ℤ
auth_request_lem r now timestamp nonce signature h1 h2 h3 small =
    rw (h1, parse_i64-show_ℤ (pos timestamp) (small, omega arith), h2, h3) refl

module _ (c : Crypto) (words : HasWords c) (secret : Text) (port : ℕ) (action : PowerAction)
    (d : Device) (ip : Text) (timestamp : ℕ) (r : HttpRequest) (now : ℤ)
    (delivered : IsDelivered (signed_command c secret port action d ip timestamp) r)
    (small : timestamp ≤ i64_max) where
  auth_request_received : auth_request r now ≡ ok (received c secret action d timestamp now)
  unfolding received signed_command sign_request to_ascii_lowercase
  auth_request_received =
      let (h1, (h2, (h3, (h4, (h5, done))))) = delivered.headers_kept in
      let sent = received c secret action d timestamp now in
      let (word, full) = words (utf8 secret) _ in
      auth_request_lem r now timestamp (request_nonce d) sent.signature_hex
        (header_str_word r.headers (text "x-timestamp") (show_ℕ timestamp) h3
          (show_ℕ-IsWord timestamp) (show_ℕ-ne timestamp small))
        (header_str_word r.headers (text "x-nonce") (request_nonce d) h4 (request_nonce-IsWord d)
          (request_nonce-ne d))
        (header_str_word r.headers (text "x-signature") sent.signature_hex h5 word full) small
      ∙ ap (λ m. let q : Request = record sent { method = m; path = r.path; body = r.body } in ok q)
          delivered.method_kept
      ∙ ap (λ p. let q : Request = record sent { path = p; body = r.body } in ok q)
          delivered.path_kept
      ∙ ap (λ b. let q : Request = record sent { body = b } in ok q) delivered.body_kept

  refuses_no_nonce :
      (M : NonceMap) (m : M.Map)
      → d.random < 2 ^ 32
      → d.uptime < 2 ^ 63
      → M.len m < max_entries
      → refuses M m (request_nonce d) ≡ false
  unfolding refuses
  refuses_no_nonce M m low high room =
      let w = request_nonce-IsWord d in
      rw (utf8-IsWord (request_nonce d) w, all-IsWord (request_nonce d) w)
        (ground (arith, length-request_nonce d low high, room))

  accepted :
      (M : NonceMap) (config : AuthConfig) (nonces : M.Map)
      → config.secret ≡ utf8 secret
      → abs_diff now (pos timestamp) ≤ max_zero config.allowed_skew_seconds
      → d.random < 2 ^ 32
      → d.uptime < 2 ^ 63
      → M.get (sweep M nonces now config.allowed_skew_seconds) (request_nonce d) ≡ none
      → M.len (sweep M nonces now config.allowed_skew_seconds) < max_entries
      → (verify_request c M config nonces (received c secret action d timestamp now)).1 ≡ ok tt
  unfolding received sign_request
  accepted M config nonces same_secret near low high fresh room =
      let sent = received c secret action d timestamp now in
      let canonical =
        utf8 (canonical_string c sent.method sent.path sent.timestamp sent.nonce sent.body) in
      (verify_request_ok_iff c M config nonces sent).1 (
        near,
        c.decode_encode (c.hmac (utf8 secret) canonical) (c.hmac_bytes (utf8 secret) canonical)
            ∙ ap (λ k. some (c.hmac k canonical)) (sym same_secret),
        refuses_no_nonce M _ low high room,
        fresh,
      )

  -- The bridge accepts a command that the firmware signed with the secret of the bridge at a time
  -- within the allowed skew of the bridge's clock, if it is delivered, its nonce is not in the
  -- store after the sweep, and the store has room. The tags of `hex` are taken to be texts of
  -- letters and digits, the random number to be a `u32` and the two times to be `i64`s.
  pub verify_headers-signed_command :
      (M : NonceMap) (config : AuthConfig) (nonces : M.Map)
      → config.secret ≡ utf8 secret
      → abs_diff now (pos timestamp) ≤ max_zero config.allowed_skew_seconds
      → d.random < 2 ^ 32
      → d.uptime < 2 ^ 63
      → M.get (sweep M nonces now config.allowed_skew_seconds) (request_nonce d) ≡ none
      → M.len (sweep M nonces now config.allowed_skew_seconds) < max_entries
      → (verify_headers c M config nonces r now).1 ≡ ok tt
  unfolding verify_headers
  verify_headers-signed_command M config nonces same_secret near low high fresh room =
      let read : Result AuthError Request → M.Map × Result AuthError (Unit {0}) = λ q. elim q [
        | err e ↦ (nonces, err e)
        | ok request ↦ verify_request c M config nonces request
      ] in
      subst (λ q. (read q).1 ≡ ok tt) (sym auth_request_received)
        (accepted M config nonces same_secret near low high fresh room)
