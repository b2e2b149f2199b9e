-- ===== src/Tests/Wires.antt =====
-- Runs of the modules under Wire.
use m5stack_pc_remote.Base.{◌≡◌, refl, ◌≢◌, ◌↔◌, none, some, [], ◌∷◌, arith}
use m5stack_pc_remote.Base.Int.{pos}
use m5stack_pc_remote.Base.Text.{text, utf8, to_ascii_uppercase, Lacks}
use m5stack_pc_remote.Tests.Instances.{toy_crypto}
use m5stack_pc_remote.Wire.Crypto.{Bytes}
use m5stack_pc_remote.Wire.Request.{canonical_string, newline, body_sha256_hex}
use m5stack_pc_remote.Wire.Request.Binding.{canonical_string-injective}
use m5stack_pc_remote.Wire.Manifest.{manifest_canonical_string}
use m5stack_pc_remote.Wire.Manifest.Separation.{canonical_string_separate}
use m5stack_pc_remote.Wire.Version.{compare_versions, newer}
use m5stack_pc_remote.Wire.Version.Order.{IsNewer, compare_versions_newer_iff}
use m5stack_pc_remote.Wire.Notice.{
  default_notice, announced, NewerThan, Ascending, announced-Ascending,
}

abbrev secret : Bytes
secret = utf8 (text "secret")

abbrev body : Bytes
body = utf8 (text "{}")

post-Lacks : Lacks newline (text "post")
post-Lacks =
    ((λ e. omega arith), ((λ e. omega arith), ((λ e. omega arith), ((λ e. omega arith), tt))))

upper-Lacks : Lacks newline (text "POST")
upper-Lacks =
    ((λ e. omega arith), ((λ e. omega arith), ((λ e. omega arith), ((λ e. omega arith), tt))))

sleep-Lacks : Lacks newline (text "/sleep")
sleep-Lacks = (
  (λ e. omega arith),
  (
    (λ e. omega arith),
    ((λ e. omega arith), ((λ e. omega arith), ((λ e. omega arith), ((λ e. omega arith), tt)))),
  ),
)

n1-Lacks : Lacks newline (text "n1")
n1-Lacks = ((λ e. omega arith), ((λ e. omega arith), tt))

canonical_string-injective_example :
    (to_ascii_uppercase (text "post") ≡ to_ascii_uppercase (text "POST"))
    × (text "/sleep" ≡ text "/sleep")
    × (pos 5 ≡ pos 5)
    × (text "n1" ≡ text "n1")
    × (body_sha256_hex toy_crypto body ≡ body_sha256_hex toy_crypto body)
unfolding canonical_string to_ascii_uppercase
canonical_string-injective_example =
    canonical_string-injective toy_crypto (text "post") (text "/sleep") (text "n1") (text "POST")
      (text "/sleep") (text "n1") (pos 5) (pos 5) body body post-Lacks sleep-Lacks n1-Lacks
      upper-Lacks sleep-Lacks n1-Lacks (omega arith) (omega arith) refl

canonical_string_separate_example :
    canonical_string toy_crypto (text "GET") (text "/firmware") (pos 1) (text "n") []
    ≢ manifest_canonical_string (text "1.2.3") 10 (text "ab") (text "now")
canonical_string_separate_example =
    canonical_string_separate toy_crypto (text "GET") (text "/firmware") (pos 1) (text "n") []
      (text "1.2.3") 10 (text "ab") (text "now")

compare_versions_newer_iff_example :
    (compare_versions (text "1.2.0") (text "1.10.0") ≡ newer)
    ↔ IsNewer (text "1.2.0") (text "1.10.0")
compare_versions_newer_iff_example = compare_versions_newer_iff (text "1.2.0") (text "1.10.0")

announced-Ascending_example :
    NewerThan (text "1.0.0") (
      announced default_notice
        (text "1.0.0")
        (some (text "1.1.0") ∷ none ∷ some (text "1.2.0") ∷ []))
    × Ascending (
        announced default_notice
          (text "1.0.0")
          (some (text "1.1.0") ∷ none ∷ some (text "1.2.0") ∷ []))
announced-Ascending_example =
    announced-Ascending default_notice (text "1.0.0")
      (some (text "1.1.0") ∷ none ∷ some (text "1.2.0") ∷ [])
