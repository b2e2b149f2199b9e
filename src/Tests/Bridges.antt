-- ===== src/Tests/Bridges.antt =====
-- Runs of the modules under Bridge.
use m5stack_pc_remote.Base.{
  ◌+◌, ◌≤◌, ◌<◌, ◌≡◌, refl, ◌≢◌, ◌↔◌, ◌⊎◌, inr, true, false, none, some, List, [], ◌∷◌, arith,
  if◌then◌else◌,
}
use m5stack_pc_remote.Base.Int.{ℤ, abs_diff, max_zero, pos}
use m5stack_pc_remote.Base.Result.{ok}
use m5stack_pc_remote.Base.Text.{Text, text, eqb, utf8}
use m5stack_pc_remote.Tests.Instances.{toy_crypto, toy_map}
use m5stack_pc_remote.Wire.Crypto.{Bytes}
use m5stack_pc_remote.Wire.PowerAction.{shutdown}
use m5stack_pc_remote.Wire.Request.{canonical_string, sign_request}
use m5stack_pc_remote.Bridge.NonceStore.{sweep, refuses, max_entries}
use m5stack_pc_remote.Bridge.NonceStore.Workers.{
  Workers, idle, pass, insert, Reach, here, next, len-Reach,
}
use m5stack_pc_remote.Bridge.Auth.{
  AuthConfig, Request, verify_request, serve_all, verify_request_ok_iff,
}
use m5stack_pc_remote.Bridge.Auth.Replay.{replay_rejected}
use m5stack_pc_remote.Bridge.Server.{HttpRequest, Headers, World, command, verify_headers}
use m5stack_pc_remote.Bridge.Server.FailClosed.{IsFailClosed, command-IsFailClosed}

abbrev config : AuthConfig
config = record { secret = utf8 (text "secret"); allowed_skew_seconds = pos 60 }

abbrev body : Bytes
body = utf8 (text "{\"confirm\":true}")

abbrev signature : Text → ℤ → Text → Text
signature path timestamp nonce =
    sign_request toy_crypto config.secret (text "POST") path timestamp nonce body

-- A request that is signed and in time.
abbrev request : Text → ℤ → Text → ℤ → Request
request path timestamp nonce now = record {
  method = text "POST";
  path = path;
  timestamp = timestamp;
  nonce = nonce;
  body = body;
  signature_hex = signature path timestamp nonce;
  now = now;
}

abbrev first : Request
first = request (text "/shutdown") (pos 1000) (text "n1") (pos 1010)

abbrev others : List Request
others =
    request (text "/sleep") (pos 1020) (text "n2") (pos 1021)
    ∷ request (text "/reboot") (pos 1040) (text "n1") (pos 1041)
    ∷ []

-- The first request again, for another path.
abbrev again : Request
again = request (text "/sleep") (pos 1000) (text "n1") (pos 1055)

verify_request_ok_iff_example :
    let swept = sweep toy_map toy_map.empty (pos 1010) (pos 60) in
    ((verify_request toy_crypto toy_map config toy_map.empty first).1 ≡ ok tt) ↔ (
      (abs_diff (pos 1010) (pos 1000) ≤ max_zero (pos 60))
      × (toy_crypto.hex_decode first.signature_hex
          ≡ some (
              toy_crypto.hmac config.secret (
                utf8 (
                  canonical_string toy_crypto first.method first.path first.timestamp first.nonce
                    first.body))))
      × (refuses toy_map swept (text "n1") ≡ false)
      × (toy_map.get swept (text "n1") ≡ none))
verify_request_ok_iff_example = verify_request_ok_iff toy_crypto toy_map config toy_map.empty first

first_accepted : (verify_request toy_crypto toy_map config toy_map.empty first).1 ≡ ok tt
unfolding sweep refuses sign_request utf8
first_accepted =
    (verify_request_ok_iff toy_crypto toy_map config toy_map.empty first).1
      (omega arith, refl, refl, refl)

replay_rejected_example :
    (verify_request toy_crypto toy_map config
      (serve_all toy_crypto toy_map config
        (verify_request toy_crypto toy_map config toy_map.empty first).0
        others)
      again).1
    ≢ ok tt
replay_rejected_example =
    replay_rejected toy_crypto toy_map config toy_map.empty first others again first_accepted
      (omega arith, (omega arith, tt)) (inr (inr (omega arith)), (inr (inr (omega arith)), tt))
      (omega arith) refl refl

-- Two threads test before either of them inserts.
abbrev raced : Workers toy_map 2
raced = record {
  seen =
      (toy_map.insert (toy_map.insert toy_map.empty (text "n1") (pos 1)).0 (text "n2") (pos 2)).0;
  passed = [];
}

race : Reach toy_map 2 (idle toy_map 2) raced
unfolding refuses utf8
race =
    let start = idle toy_map 2 in
    let first = pass start (text "n1") (pos 1) (omega arith) refl in
    let second = pass _ (text "n2") (pos 2) (omega arith) refl in
    next
      (next (next (next here first) second)
        (insert toy_map.empty ((text "n2", pos 2) ∷ []) [] (text "n1") (pos 1)))
      (insert _ [] [] (text "n2") (pos 2))

len-Reach_example : toy_map.len raced.seen < max_entries + 2
len-Reach_example = len-Reach toy_map 2 raced race

abbrev headers : Headers
headers name =
    if eqb name (text "x-timestamp")
    then some (text "1000")
    else if eqb name (text "x-nonce")
    then some (text "n1")
    else if eqb name (text "x-signature")
    then some (signature (text "/shutdown") (pos 1000) (text "n1"))
    else none

abbrev http : HttpRequest
http = record { method = text "POST"; path = text "/shutdown"; headers = headers; body = body }

abbrev world : World
world = record { first_append_ok = true; executor = ok tt; panics_after = none }

command-IsFailClosed_example :
    let effects =
      (command toy_crypto toy_map config
        (λ b. some true)
        shutdown
        false
        toy_map.empty
        http
        (pos 1010)
        world).effects in
    (effects ≡ [])
    ⊎ (((verify_headers toy_crypto toy_map config toy_map.empty http (pos 1010)).1 ≡ ok tt)
        × (some true ≡ some true)
        × IsFailClosed shutdown false true effects)
command-IsFailClosed_example =
    command-IsFailClosed toy_crypto toy_map config (λ b. some true) shutdown false toy_map.empty
      http (pos 1010) world
