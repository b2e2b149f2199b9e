-- ===== src/Firmware/Ota/Fetch.antt =====
-- What a manifest that `fetch_verified_manifest` returns went through.
use m5stack_pc_remote.Base.{
  ◌+◌, ◌≤◌, ◌≡◌, refl, sym, ap, ◌∙◌, inl, inr, suc, false, some, List, [], ◌∷◌, ◌++◌, arith, ltb,
  ◌==◌, Bool-cases, length, length-append,
}
use m5stack_pc_remote.Base.Result.{Result, ok, err}
use m5stack_pc_remote.Base.Text.{Text, utf8}
use mathlib.Core.Path.{subst}
use mathlib.Core.List.{append-nil, append_assoc}
use m5stack_pc_remote.Wire.Crypto.{Bytes, Crypto}
use m5stack_pc_remote.Wire.Manifest.{
  OtaManifest, OtaManifestError, Decode, parsed, parse_manifest_json, with_checked,
  check_manifest_fields, verify_manifest, verify_manifest_iff, manifest_canonical_string,
}
use m5stack_pc_remote.Firmware.Ota.{
  OtaError, Reply, read_body, manifest_body, with_verified, then_verify, then_parse,
  fetch_verified_manifest, manifest_max_bytes, manifest_path, unexpected_status, response_too_large,
}

-- The body of a response: its chunks in order up to the first empty one or to the end, none of them
-- an error.
abbrev pub IsBody : List (Result Text Bytes) → Bytes → Type 0
IsBody [] body = body ≡ []
IsBody (err e ∷ l) body = ⊥
IsBody (ok [] ∷ l) body = body ≡ []
IsBody (ok (x ∷ chunk) ∷ l) body = (later : Bytes) × (body ≡ x ∷ chunk ++ later) × IsBody l later

read_body-IsBody :
    (before : Bytes) (l : List (Result Text Bytes)) (out : Bytes)
    → read_body before l ≡ ok out
    → (body : Bytes) × (out ≡ before ++ body) × IsBody l body
unfolding read_body
read_body-IsBody before [] out e =
    ([], (let same_bytes : before ≡ out = cc in sym (append-nil before ∙ same_bytes)), refl)
read_body-IsBody before (err x ∷ l) out e = absurd (cc)
read_body-IsBody before (ok [] ∷ l) out e =
    ([], (let same_bytes : before ≡ out = cc in sym (append-nil before ∙ same_bytes)), refl)
read_body-IsBody before (ok (x ∷ chunk) ∷ l) out e =
    let nonzero : (suc (length chunk) == 0) ≡ false = ground arith in
    elim (Bool-cases (ltb manifest_max_bytes (length before + length (x ∷ chunk)))) [
      | inl large ↦
          let stop : err response_too_large ≡ ok out = rw (nonzero, large) at e in absurd (cc)
      | inr fits ↦
          let (later, is_out, is_body) =
            read_body-IsBody (before ++ (x ∷ chunk)) l out (rw (nonzero, fits) at e) in
          (
            x ∷ chunk ++ later,
            is_out ∙ append_assoc before (x ∷ chunk) later,
            (later, refl, is_body),
          )
    ]

read_body-le :
    (body : Bytes) (l : List (Result Text Bytes)) (out : Bytes)
    → length body ≤ manifest_max_bytes
    → read_body body l ≡ ok out
    → length out ≤ manifest_max_bytes
unfolding read_body
read_body-le body [] out h e = let same_bytes : body ≡ out = cc in rw (← same_bytes) h
read_body-le body (err x ∷ l) out h e = absurd (cc)
read_body-le body (ok chunk ∷ l) out h e = elim (Bool-cases (length chunk == 0)) [
  | inl z ↦
      let stop : ok body ≡ ok out = rw z at e in
      let same_bytes : body ≡ out = cc in rw (← same_bytes) h
  | inr z ↦ elim (Bool-cases (ltb manifest_max_bytes (length body + length chunk))) [
    | inl large ↦ let stop : err response_too_large ≡ ok out = rw (z, large) at e in absurd (cc)
    | inr fits ↦
        read_body-le (body ++ chunk) l out (ground (arith, length-append body chunk))
          (rw (z, fits) at e)
  ]
]

-- The checks that a manifest of these bytes passed.
abbrev pub IsVerified : Crypto → Decode → Bytes → OtaManifest → Bytes → Type 0
IsVerified c decode secret m body =
    (decode body ≡ ok m)
    × (check_manifest_fields c m ≡ ok tt)
    × (c.hex_decode m.signature
        ≡ some (
            c.hmac secret
              (utf8 (manifest_canonical_string m.version m.size m.sha256 m.created_at))))

with_verified_lem :
    (m n : OtaManifest) (r : Result OtaManifestError (Unit {0}))
    → with_verified m r ≡ ok n
    → (r ≡ ok tt) × (m ≡ n)
with_verified_lem m n (ok done) h = (refl, cc)
with_verified_lem m n (err e) h = absurd (cc)

with_checked_lem :
    (m n : OtaManifest) (r : Result OtaManifestError (Unit {0}))
    → with_checked m r ≡ ok n
    → (r ≡ ok tt) × (m ≡ n)
with_checked_lem m n (ok done) h = (refl, cc)
with_checked_lem m n (err e) h = absurd (cc)

then_verify_lem :
    (c : Crypto) (secret : Bytes) (r : Result OtaManifestError OtaManifest) (m : OtaManifest)
    → then_verify c secret r ≡ ok m
    → (r ≡ ok m) × (verify_manifest c m secret ≡ ok tt)
then_verify_lem c secret (err e) m h = absurd (cc)
then_verify_lem c secret (ok n) m h =
    let (v, e) = with_verified_lem n m (verify_manifest c n secret) h in
    (ap ok e, subst (λ x. verify_manifest c x secret ≡ ok tt) e v)

parsed_lem :
    (c : Crypto) (r : Result Text OtaManifest) (m : OtaManifest)
    → parsed c r ≡ ok m
    → (r ≡ ok m) × (check_manifest_fields c m ≡ ok tt)
unfolding parsed
parsed_lem c (err e) m h = absurd (cc)
parsed_lem c (ok n) m h =
    let (v, e) = with_checked_lem n m (check_manifest_fields c n) h in
    (ap ok e, subst (λ x. check_manifest_fields c x ≡ ok tt) e v)

then_parse_lem :
    (c : Crypto) (decode : Decode) (secret : Bytes) (r : Result OtaError Bytes) (m : OtaManifest)
    → then_parse c decode secret r ≡ ok m
    → (body : Bytes) × (r ≡ ok body) × IsVerified c decode secret m body
unfolding parse_manifest_json
then_parse_lem c decode secret (err e) m h = absurd (cc)
then_parse_lem c decode secret (ok body) m h =
    let (p, v) = then_verify_lem c secret (parse_manifest_json c decode body) m h in
    let (d, f) = parsed_lem c (decode body) m p in
    (body, refl, (d, f, (verify_manifest_iff c m secret).0 v))

manifest_body_lem :
    (r : Result OtaError (Reply Bytes)) (body : Bytes)
    → manifest_body r ≡ ok body
    → (reply : Reply Bytes) × (r ≡ ok reply)
      × (reply.status ≡ 200)
      × IsBody reply.reads body
      × (length body ≤ manifest_max_bytes)
unfolding manifest_body
manifest_body_lem (err e) body h = absurd (cc)
manifest_body_lem (ok reply) body h = elim (Bool-cases (reply.status == 200)) [
  | inl e ↦
      let read : read_body [] reply.reads ≡ ok body = rw e at h in
      let (bytes, is_bytes, is_body) = read_body-IsBody [] reply.reads body read in
      let is_body' : IsBody reply.reads body = subst (IsBody reply.reads) (sym is_bytes) is_body in
      (reply, refl, ground arith, is_body', read_body-le [] reply.reads body (omega arith) read)
  | inr e ↦
      let stop : err (unexpected_status manifest_path reply.status) ≡ ok body = rw e at h in
      absurd (cc)
]

-- A manifest is returned only for a response of status 200 whose chunks were read up to the first
-- empty one or to the end without an error, if all their bytes, at most 4096, decode to it, if all
-- its fields could belong to an image, and if its signature decodes to the HMAC of its fields.
pub fetch_verified_manifest_lem :
    (c : Crypto) (decode : Decode) (secret : Bytes) (response : Result OtaError (Reply Bytes))
    (m : OtaManifest)
    → fetch_verified_manifest c decode secret response ≡ ok m
    → (body : Bytes) × (reply : Reply Bytes) × (response ≡ ok reply)
      × (reply.status ≡ 200)
      × IsBody reply.reads body
      × (length body ≤ manifest_max_bytes)
      × IsVerified c decode secret m body
unfolding fetch_verified_manifest
fetch_verified_manifest_lem c decode secret response m h =
    let (body, b, v) = then_parse_lem c decode secret (manifest_body response) m h in
    let (reply, r, s, i, l) = manifest_body_lem response body b in (body, reply, r, s, i, l, v)
