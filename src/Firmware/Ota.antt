-- ===== src/Firmware/Ota.antt =====
-- firmware/src/ota.rs: the manifest that is fetched, and the image that is written and verified.
pub mod Switch
pub mod Fetch
use m5stack_pc_remote.Base.{
  ℕ, ◌+◌, min, Bool, true, false, not, List, [], ◌∷◌, ◌++◌, ltb, leb, ◌==◌, if◌then◌else◌, length,
}
use m5stack_pc_remote.Base.Result.{Result, ok, err}
use m5stack_pc_remote.Base.Text.{Text, text}
use m5stack_pc_remote.Wire.Crypto.{Bytes, Crypto}
use m5stack_pc_remote.Wire.Manifest.{
  OtaManifest, OtaManifestError, OtaImageError, size_mismatch, Decode, parse_manifest_json,
  verify_manifest, verify_ota_image, ota_progress_percent,
}

pub data OtaError : Type 0 where
  clock_not_synced : OtaError
  transport : Text → OtaError
  unexpected_status : Text → ℕ → OtaError
  response_too_large : OtaError
  manifest : OtaManifestError → OtaError
  image : OtaImageError → OtaError
  ota : Text → OtaError

abbrev pub manifest_path : Text
manifest_path = text "/firmware/manifest"

abbrev firmware_path : Text
firmware_path = text "/firmware"

abbrev pub manifest_max_bytes : ℕ
manifest_max_bytes = 4096

-- What `with_signed_get` meets: a failure before the response, or its status and what the calls of
-- `read` give, in order. The end of the list and an empty chunk are the end of the response.
pub record Reply (A : Type 0) : Type 0 where
  pub status : ℕ
  pub reads : List (Result Text A)

-- The loop that collects the manifest's bytes.
unfoldable pub read_body : Bytes → List (Result Text Bytes) → Result OtaError Bytes
read_body body [] = ok body
read_body body (err e ∷ l) = err (transport e)
read_body body (ok chunk ∷ l) =
    let rest = read_body (body ++ chunk) l in
    if length chunk == 0
    then ok body
    else if ltb manifest_max_bytes (length body + length chunk)
    then err response_too_large
    else rest

unfoldable pub manifest_body : Result OtaError (Reply Bytes) → Result OtaError Bytes
manifest_body (err e) = err e
manifest_body (ok reply) =
    if not (reply.status == 200)
    then err (unexpected_status manifest_path reply.status)
    else read_body [] reply.reads

abbrev pub with_verified :
    OtaManifest → Result OtaManifestError (Unit {0}) → Result OtaError OtaManifest
with_verified m (ok done) = ok m
with_verified m (err e) = err (manifest e)

abbrev pub then_verify :
    Crypto → Bytes → Result OtaManifestError OtaManifest → Result OtaError OtaManifest
then_verify c secret (err e) = err (manifest e)
then_verify c secret (ok m) = with_verified m (verify_manifest c m secret)

abbrev pub then_parse :
    Crypto → Decode → Bytes → Result OtaError Bytes → Result OtaError OtaManifest
then_parse c decode secret (err e) = err e
then_parse c decode secret (ok body) = then_verify c secret (parse_manifest_json c decode body)

unfoldable pub fetch_verified_manifest :
    Crypto → Decode → Bytes → Result OtaError (Reply Bytes) → Result OtaError OtaManifest
fetch_verified_manifest c decode secret reply = then_parse c decode secret (manifest_body reply)

-- A chunk of the image and the outcome of its write.
pub record Chunk : Type 0 where
  pub bytes : Bytes
  pub write : Result Text (Unit {0})

-- The slot that is written, what was hashed, and the calls of `on_progress`.
pub record Flash : Type 0 where
  pub written : Bytes
  pub hashed : Bytes
  pub received : ℕ
  pub reported_percent : ℕ
  pub progress : List ℕ

abbrev pub empty_flash : Flash
empty_flash = record {
  written = [];
  hashed = [];
  received = 0;
  reported_percent = 0;
  progress = [];
}

pub ota_received_too_large : ℕ → ℕ → Bool
ota_received_too_large received manifest_size = ltb manifest_size received

-- The end of the loop's body: progress is reported in steps of five percent.
pub report : OtaManifest → Flash → Flash
report m f =
    let percent = ota_progress_percent f.received m.size in
    if leb (min 255 (f.reported_percent + 5)) percent
    then record f { reported_percent = percent; progress = f.progress ++ f.received ∷ [] }
    else f

pub write_chunk : OtaManifest → Flash → Bytes → Flash
write_chunk m f chunk = report m (record f {
  written = f.written ++ chunk;
  hashed = f.hashed ++ chunk;
  received = f.received + length chunk;
})

abbrev pub after_write :
    Flash
    → Bytes
    → Result Text (Unit {0})
    → Flash × Result OtaError (Unit {0})
    → Flash × Result OtaError (Unit {0})
after_write f chunk (ok done) rest = rest
after_write f chunk (err e) rest = (record f { hashed = f.hashed ++ chunk }, err (ota e))

-- The loop of `download_and_flash`.
pub flash_loop : OtaManifest → Flash → List (Result Text Chunk) → Flash × Result OtaError (Unit {0})
flash_loop m f [] = (f, ok tt)
flash_loop m f (err e ∷ l) = (f, err (transport e))
flash_loop m f (ok chunk ∷ l) =
    let rest = flash_loop m (write_chunk m f chunk.bytes) l in
    let incoming = f.received + length chunk.bytes in
    if length chunk.bytes == 0
    then (f, ok tt)
    else if ota_received_too_large incoming m.size
    then (f, err (image (size_mismatch m.size incoming)))
    else after_write f chunk.bytes chunk.write rest

-- The outcome of an update; `switched` is that `complete` made the slot the one to boot, and
-- `applying` that `on_applying` was called. A slot that is not completed is aborted by `Drop`.
pub record Update : Type 0 where
  pub flash : Flash
  pub switched : Bool
  pub applying : Bool
  pub result : Result OtaError (Unit {0})

abbrev pub aborted : Flash → OtaError → Update
aborted f e = record { flash = f; switched = false; applying = false; result = err e }

abbrev completed : Flash → Result Text (Unit {0}) → Update
completed f (err e) = aborted f (ota e)
completed f (ok done) = record { flash = f; switched = true; applying = true; result = ok tt }

abbrev pub activated : Flash → Result Text (Unit {0}) → Result OtaImageError (Unit {0}) → Update
activated f complete (err e) = aborted f (image e)
activated f complete (ok done) = completed f complete

abbrev pub notify_end : Flash → Flash
notify_end f = record f { progress = f.progress ++ f.received ∷ [] }

pub verified :
    Crypto → OtaManifest → Result Text (Unit {0}) → Flash × Result OtaError (Unit {0}) → Update
verified c m complete (f, err e) = aborted f e
verified c m complete (f, ok done) =
    activated (notify_end f) complete
      (verify_ota_image m f.received (c.hex_encode (c.sha256 f.hashed)))

pub downloaded :
    Crypto → OtaManifest → Result Text (Unit {0}) → Result OtaError (Reply Chunk) → Update
downloaded c m complete (err e) = aborted empty_flash e
downloaded c m complete (ok reply) =
    if not (reply.status == 200)
    then aborted empty_flash (unexpected_status firmware_path reply.status)
    else verified c m complete (flash_loop m empty_flash reply.reads)

-- `initiate` is the outcome of `EspOta::new` and `initiate_update`, `complete` that of `complete`.
pub download_and_flash :
    Crypto
    → OtaManifest
    → (initiate complete : Result Text (Unit {0})) → Result OtaError (Reply Chunk)
    → Update
download_and_flash c m (err e) complete reply = aborted empty_flash (ota e)
download_and_flash c m (ok done) complete reply = downloaded c m complete reply
