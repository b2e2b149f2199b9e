-- ===== src/Wire/Request/Binding.antt =====
-- The canonical string determines the request that it was built from.
use m5stack_pc_remote.Base.{ℕ, ◌≡◌, refl, [], ◌∷◌, ◌++◌, arith}
use m5stack_pc_remote.Base.Int.{ℤ}
use m5stack_pc_remote.Base.Text.{Text, to_ascii_uppercase, Lacks}
use m5stack_pc_remote.Base.Decimal.{show_ℤ, IsI64, show_ℤ-Lacks, show_ℤ-injective}
use m5stack_pc_remote.Wire.Crypto.{Bytes, Crypto}
use m5stack_pc_remote.Wire.Request.{newline, canonical_string, body_sha256_hex}

-- A line that lacks the separator ends at the first one.
line_unique :
    (sep : ℕ) (a a' b b' : Text)
    → Lacks sep a
    → Lacks sep a'
    → a ++ (sep ∷ b) ≡ a' ++ (sep ∷ b')
    → (a ≡ a') × (b ≡ b')
line_unique sep [] [] b b' h h' e = (refl, cc)
line_unique sep [] (x ∷ a') b b' h h' e = absurd (h'.0 (cc))
line_unique sep (x ∷ a) [] b b' h h' e = absurd (h.0 (cc))
line_unique sep (x ∷ a) (y ∷ a') b b' h h' e =
    let (p, q) = line_unique sep a a' b b' h.1 h'.1 (cc) in (cc, q)

uppercase-Lacks : (s : Text) → Lacks newline s → Lacks newline (to_ascii_uppercase s)
unfolding to_ascii_uppercase
uppercase-Lacks [] h = tt
uppercase-Lacks (c ∷ s) h = ((λ e. h.0 (ground arith)), uppercase-Lacks s h.1)

-- Two requests whose methods, paths and nonces hold no line break and whose timestamps are in the
-- range of `i64` have the same canonical string only if they agree in the method (up to the case
-- of ASCII letters), the path, the timestamp, the nonce and the digest of the body.
pub canonical_string-injective :
    (c : Crypto) (m p n m' p' n' : Text) (t t' : ℤ) (b b' : Bytes)
    → Lacks newline m
    → Lacks newline p
    → Lacks newline n
    → Lacks newline m'
    → Lacks newline p'
    → Lacks newline n'
    → IsI64 t
    → IsI64 t'
    → canonical_string c m p t n b ≡ canonical_string c m' p' t' n' b'
    → (to_ascii_uppercase m ≡ to_ascii_uppercase m')
      × (p ≡ p')
      × (t ≡ t')
      × (n ≡ n')
      × (body_sha256_hex c b ≡ body_sha256_hex c b')
unfolding canonical_string
canonical_string-injective c m p n m' p' n' t t' b b' hm hp hn hm' hp' hn' ht ht' e =
    let (em, e₁) =
      line_unique newline (to_ascii_uppercase m) (to_ascii_uppercase m') _ _ (uppercase-Lacks m hm)
        (uppercase-Lacks m' hm') e in
    let (ep, e₂) = line_unique newline p p' _ _ hp hp' e₁ in
    let (et, e₃) =
      line_unique newline (show_ℤ t) (show_ℤ t') _ _ (show_ℤ-Lacks newline t refl (omega arith))
        (show_ℤ-Lacks newline t' refl (omega arith)) e₂ in
    let (en, eb) = line_unique newline n n' _ _ hn hn' e₃ in
    (em, ep, show_ℤ-injective t t' ht ht' et, en, eb)
