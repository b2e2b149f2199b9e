-- ===== src/Firmware/Ota/Switch.antt =====
-- When an update switches the boot slot, and what it may write before.
use m5stack_pc_remote.Base.{
  ◌+◌, ◌≤◌, ◌≡◌, refl, sym, ap, ◌∙◌, ◌≢◌, ◌⊎◌, inl, inr, true, false, List, [], ◌∷◌, ◌++◌, arith,
  ltb, ◌==◌, Bool-cases, length, length-append,
}
use m5stack_pc_remote.Base.Result.{Result, ok, err}
use m5stack_pc_remote.Base.Text.{Text}
use m5stack_pc_remote.Wire.Crypto.{Bytes, Crypto}
use m5stack_pc_remote.Wire.Manifest.{OtaManifest, OtaImageError, verify_ota_image_iff}
use m5stack_pc_remote.Firmware.Ota.{
  OtaError, Reply, Chunk, Flash, empty_flash, report, write_chunk, flash_loop, Update, aborted,
  activated, notify_end, verified, downloaded, after_write, image, ota, download_and_flash,
  ota_received_too_large,
}

-- What was received was written, and it fits the announced size.
abbrev IsBounded : OtaManifest → Flash → Type 0
IsBounded m f = (length f.written ≡ f.received) × (f.received ≤ m.size)

report_lem :
    (m : OtaManifest) (f : Flash)
    → ((report m f).written ≡ f.written)
      × ((report m f).hashed ≡ f.hashed)
      × ((report m f).received ≡ f.received)
unfolding report
report_lem m f = ground arith

write_chunk_lem :
    (m : OtaManifest) (f : Flash) (chunk : Bytes)
    → ((write_chunk m f chunk).written ≡ f.written ++ chunk)
      × ((write_chunk m f chunk).hashed ≡ f.hashed ++ chunk)
      × ((write_chunk m f chunk).received ≡ f.received + length chunk)
unfolding write_chunk
write_chunk_lem m f chunk = report_lem m _

write_chunk-IsBounded :
    (m : OtaManifest) (f : Flash) (chunk : Bytes)
    → IsBounded m f
    → f.received + length chunk ≤ m.size
    → IsBounded m (write_chunk m f chunk)
write_chunk-IsBounded m f chunk h fits =
    let (w, _, r) = write_chunk_lem m f chunk in
    (
      ap length w ∙ length-append f.written chunk ∙ ap (λ n. n + length chunk) h.0 ∙ sym r,
      omega (arith, r),
    )

-- The bound holds, and a loop that ended well has hashed what it wrote.
abbrev EndsWell : OtaManifest → Flash × Result OtaError (Unit {0}) → Type 0
EndsWell m (f, result) = IsBounded m f × ((result ≢ ok tt) ⊎ (f.hashed ≡ f.written))

after_write-EndsWell :
    (m : OtaManifest) (f : Flash) (chunk : Bytes) (write : Result Text (Unit {0}))
    (rest : Flash × Result OtaError (Unit {0}))
    → IsBounded m f
    → EndsWell m rest
    → EndsWell m (after_write f chunk write rest)
after_write-EndsWell m f chunk (ok done) rest h k = k
after_write-EndsWell m f chunk (err e) rest h k = (h, inl (λ q. cc))

-- Whatever arrives and whichever write fails, the loop keeps the bound.
flash_loop-EndsWell :
    (m : OtaManifest) (f : Flash) (l : List (Result Text Chunk))
    → IsBounded m f
    → f.hashed ≡ f.written
    → EndsWell m (flash_loop m f l)
unfolding flash_loop ota_received_too_large
flash_loop-EndsWell m f [] h eq_bytes = (h, inr eq_bytes)
flash_loop-EndsWell m f (err e ∷ l) h eq_bytes = (h, inr eq_bytes)
flash_loop-EndsWell m f (ok chunk ∷ l) h eq_bytes = elim (Bool-cases (length chunk.bytes == 0)) [
  | inl e ↦ rw e (h, inr eq_bytes)
  | inr e ↦ elim (Bool-cases (ltb m.size (f.received + length chunk.bytes))) [
    | inl large ↦ rw (e, large) (h, inr eq_bytes)
    | inr fits ↦
        let (w, d, r) = write_chunk_lem m f chunk.bytes in
        let kept = write_chunk-IsBounded m f chunk.bytes h (ground arith) in
        let written = d ∙ ap (λ x. x ++ chunk.bytes) eq_bytes ∙ sym w in
        rw (e, fits)
          (after_write-EndsWell m f chunk.bytes chunk.write _ h
            (flash_loop-EndsWell m (write_chunk m f chunk.bytes) l kept written))
  ]
]

-- What holds of every outcome of an update.
abbrev pub IsSafe : Crypto → OtaManifest → Update → Type 0
IsSafe c m u =
    (length u.flash.written ≤ m.size)
    × (u.applying ≡ u.switched)
    × (((u.switched ≡ false) × (u.result ≢ ok tt))
        ⊎ ((u.switched ≡ true)
            × (u.result ≡ ok tt)
            × (length u.flash.written ≡ m.size)
            × (c.hex_encode (c.sha256 u.flash.written) ≡ m.sha256)))

aborted-IsSafe :
    (c : Crypto) (m : OtaManifest) (f : Flash) (e : OtaError)
    → length f.written ≤ m.size
    → IsSafe c m (aborted f e)
aborted-IsSafe c m f e h = (h, refl, inl (refl, (λ q. cc)))

activated-IsSafe :
    (c : Crypto) (m : OtaManifest) (f : Flash) (complete : Result Text (Unit {0}))
    (check : Result OtaImageError (Unit {0}))
    → length f.written ≤ m.size
    → (check ≡ ok tt → (length f.written ≡ m.size) × (c.hex_encode (c.sha256 f.written) ≡ m.sha256))
    → IsSafe c m (activated f complete check)
activated-IsSafe c m f complete (err e) h k = aborted-IsSafe c m f (image e) h
activated-IsSafe c m f (err e) (ok done) h k = aborted-IsSafe c m f (ota e) h
activated-IsSafe c m f (ok done) (ok done') h k =
    (h, refl, inr (refl, refl, (k refl).0, (k refl).1))

verified-IsSafe :
    (c : Crypto) (m : OtaManifest) (complete : Result Text (Unit {0}))
    (ended : Flash × Result OtaError (Unit {0}))
    → EndsWell m ended
    → IsSafe c m (verified c m complete ended)
unfolding verified
verified-IsSafe c m complete (f, err e) (h, _) = aborted-IsSafe c m f e (omega (arith, h.0, h.1))
verified-IsSafe c m complete (f, ok done) (h, inl failed) = absurd (failed refl)
verified-IsSafe c m complete (f, ok done) (h, inr hashed) =
    activated-IsSafe c m (notify_end f) complete _ (omega (arith, h.0, h.1)) (λ q.
      let (size, sha) = (verify_ota_image_iff m f.received _).0 q in
      (h.0 ∙ size, ap (λ b. c.hex_encode (c.sha256 b)) (sym hashed) ∙ sha))

-- Whatever the bridge sends and whichever call fails, an update writes at most as many bytes as the
-- manifest announces, it switches the boot slot exactly if it reports success, and then the bytes
-- written have the manifest's size and digest.
pub download_and_flash-IsSafe :
    (c : Crypto) (m : OtaManifest) (initiate complete : Result Text (Unit {0}))
    (reply : Result OtaError (Reply Chunk))
    → IsSafe c m (download_and_flash c m initiate complete reply)
unfolding download_and_flash downloaded
download_and_flash-IsSafe c m (err e) complete reply =
    aborted-IsSafe c m empty_flash (ota e) (omega arith)
download_and_flash-IsSafe c m (ok done) complete (err e) =
    aborted-IsSafe c m empty_flash e (omega arith)
download_and_flash-IsSafe c m (ok done) complete (ok reply) =
    elim (Bool-cases (reply.status == 200)) [
      | inl e ↦ rw e (
          verified-IsSafe c m complete _
            (flash_loop-EndsWell m empty_flash reply.reads (refl, omega arith) refl))
      | inr e ↦ rw e (aborted-IsSafe c m empty_flash _ (omega arith))
    ]
