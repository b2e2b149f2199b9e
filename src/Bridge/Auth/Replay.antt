-- ===== src/Bridge/Auth/Replay.antt =====
-- An accepted request is not accepted again.
use m5stack_pc_remote.Base.Result.{ok}
use m5stack_pc_remote.Base.{
  ℕ, ◌+◌, ◌≤◌, ◌<◌, ◌≡◌, sym, ap, ◌∙◌, ◌≢◌, ◌⊎◌, inl, inr, Bool, true, false, some, List, [], ◌∷◌,
  arith, ltb, Bool-cases, All,
}
use m5stack_pc_remote.Base.Int.{ℤ, pos_part, neg_part, ◌≤ℤ◌, abs_diff, max_zero}
use m5stack_pc_remote.Base.Text.{Text, eqb, eqb_iff, eqb_refl}
use mathlib.Core.Path.{subst}
use mathlib.Core.Bool.{false≢true}
use m5stack_pc_remote.Wire.Crypto.{Crypto}
use m5stack_pc_remote.Bridge.NonceStore.{
  NonceMap, insert_once, insert_once_lem, sweep, get-sweep, is_none,
}
use m5stack_pc_remote.Bridge.Auth.{
  AuthConfig, Request, skewed, signed, verify_request, verify_request_lem, accepted_lem, serve_all,
}

-- `v` lies at most `ttl` after the clock.
abbrev InTime : ℕ → ℤ → ℤ → Type 0
InTime ttl clock v = pos_part v + neg_part clock ≤ pos_part clock + neg_part v + ttl

-- The clock is more than `ttl` past `ts`.
abbrev Expired : ℕ → ℤ → ℤ → Type 0
Expired ttl clock ts = pos_part ts + neg_part clock + ttl < pos_part clock + neg_part ts

-- Each request is handled at a time that is no earlier than the one before it.
abbrev ClockAdvances : ℤ → List Request → Type 0
ClockAdvances clock [] = Unit
ClockAdvances clock (r ∷ rs) = (clock ≤ℤ r.now) × ClockAdvances r.now rs

abbrev last_time : ℤ → List Request → ℤ
last_time clock [] = clock
last_time clock (r ∷ rs) = last_time r.now rs

Expired-or_InTime :
    (ttl : ℕ) (now v ts : ℤ)
    → ttl < abs_diff now v
    → InTime ttl now v
    → ts ≤ℤ v
    → Expired ttl now ts
Expired-or_InTime ttl now v ts h k l = ground arith

InTime-of_skew : (ttl : ℕ) (now v : ℤ) → ltb ttl (abs_diff now v) ≡ false → InTime ttl now v
InTime-of_skew ttl now v h = ground arith

skewed_of_Expired : (ttl : ℕ) (now ts : ℤ) → Expired ttl now ts → ltb ttl (abs_diff now ts) ≡ true
skewed_of_Expired ttl now ts h = ground arith

module _ (c : Crypto) (M : NonceMap) (config : AuthConfig) (nonce : Text) (ts : ℤ) where
  open M use {Map, get}

  abbrev ttl : ℕ
  ttl = max_zero config.allowed_skew_seconds

  -- The request is not signed, or has another nonce or a timestamp that is no earlier.
  abbrev NoEarlier : Request → Type 0
  NoEarlier r = (signed c M config r ≡ false) ⊎ (r.nonce ≢ nonce) ⊎ (ts ≤ℤ r.timestamp)

  -- The store remembers the nonce with a timestamp that is no earlier than `ts`, or `ts` is out of
  -- the window for good.
  abbrev Guarded : Map → ℤ → Type 0
  Guarded m clock =
      ((v : ℤ) × (get m nonce ≡ some v) × (ts ≤ℤ v) × InTime ttl clock v) ⊎ Expired ttl clock ts

  Guarded-later : (m : Map) (a b : ℤ) → a ≤ℤ b → Guarded m a → Guarded m b
  Guarded-later m a b h (inl (v, g, l, t)) = inl (v, g, l, omega arith)
  Guarded-later m a b h (inr e) = inr (omega arith)

  Guarded-sweep :
      (m : Map) (now : ℤ) → Guarded m now → Guarded (sweep M m now config.allowed_skew_seconds) now
  Guarded-sweep m now (inr e) = inr e
  Guarded-sweep m now (inl (v, g, l, t)) =
      elim (get-sweep M m now config.allowed_skew_seconds nonce v g) [
        | inl kept ↦ inl (v, kept, l, t)
        | inr old ↦ inr (Expired-or_InTime ttl now v ts old t l)
      ]

  Guarded-insert :
      (m : Map) (now : ℤ) (k : Text) (v : ℤ)
      → (k ≡ nonce → ts ≤ℤ v)
      → InTime ttl now v
      → Guarded m now
      → Guarded (M.insert m k v).0 now
  Guarded-insert m now k v h t (inr e) = inr e
  Guarded-insert m now k v h t (inl (w, g, l, u)) = elim (Bool-cases (eqb k nonce)) [
    | inl same_key ↦
        inl (v, M.get-insert m k nonce v ∙ rw same_key, h ((eqb_iff k nonce).0 same_key), t)
    | inr other ↦ inl (w, M.get-insert m k nonce v ∙ rw other g, l, u)
  ]

  Guarded-insert_once :
      (m : Map) (now : ℤ) (k : Text) (v : ℤ)
      → (k ≡ nonce → ts ≤ℤ v)
      → InTime ttl now v
      → Guarded m now
      → Guarded (insert_once M m k v now config.allowed_skew_seconds).0 now
  Guarded-insert_once m now k v h t g =
      let swept = Guarded-sweep m now g in
      elim (insert_once_lem M m k v now config.allowed_skew_seconds) [
        | inl e ↦ rw e.1 swept
        | inr e ↦ rw e.1 (Guarded-insert _ now k v h t swept)
      ]

  Guarded-verify_request :
      (m : Map) (clock : ℤ) (r : Request)
      → clock ≤ℤ r.now
      → NoEarlier r
      → Guarded m clock
      → Guarded (verify_request c M config m r).0 r.now
  unfolding skewed
  Guarded-verify_request m clock r h k g =
      let later = Guarded-later m clock r.now h g in
      elim (verify_request_lem c M config m r) [
        | inl e ↦ rw e.1 later
        | inr (inl e) ↦ rw e.2 later
        | inr (inr e) ↦
            let signed_too = e.1 in
            rw e.2 (
              Guarded-insert_once m r.now r.nonce r.timestamp
                (λ e. elim k [
                  | inl unsigned ↦ absurd (false≢true (sym unsigned ∙ signed_too))
                  | inr (inl other) ↦ absurd (other e)
                  | inr (inr l) ↦ l
                ])
                (InTime-of_skew ttl r.now r.timestamp e.0) later)
      ]

  Guarded-serve_all :
      (m : Map) (clock : ℤ) (rs : List Request)
      → ClockAdvances clock rs
      → All NoEarlier rs
      → Guarded m clock
      → Guarded (serve_all c M config m rs) (last_time clock rs)
  unfolding serve_all
  Guarded-serve_all m clock [] h k g = g
  Guarded-serve_all m clock (r ∷ rs) h k g =
      Guarded-serve_all (verify_request c M config m r).0 r.now rs h.1 k.1
        (Guarded-verify_request m clock r h.0 k.0 g)

  known_nonce :
      (m : Map) (r : Request) (v : ℤ)
      → get (sweep M m r.now config.allowed_skew_seconds) r.nonce ≡ some v
      → (insert_once M m r.nonce r.timestamp r.now config.allowed_skew_seconds).1 ≡ false
  known_nonce m r v h =
      elim (insert_once_lem M m r.nonce r.timestamp r.now config.allowed_skew_seconds) [
        | inl e ↦ ap (λ (p : Map × Bool). p.1) e.1
        | inr e ↦ e.2 ∙ ap (is_none M) h
      ]

  Guarded-rejects :
      (m : Map) (clock : ℤ) (r : Request)
      → clock ≤ℤ r.now
      → r.nonce ≡ nonce
      → r.timestamp ≡ ts
      → Guarded m clock
      → (verify_request c M config m r).1 ≢ ok tt
  unfolding skewed
  Guarded-rejects m clock r h en et g accepted =
      let (in_time, inserted, stored) = accepted_lem c M config m r accepted in
      elim (Guarded-sweep m r.now (Guarded-later m clock r.now h g)) [
        | inl (v, kept, l, t) ↦
            let swept = sweep M m r.now config.allowed_skew_seconds in
            let known = known_nonce m r v (subst (λ k. get swept k ≡ some v) (sym en) kept) in
            false≢true (sym known ∙ inserted)
        | inr e ↦ cc (
          in_time,
          skewed_of_Expired ttl r.now r.timestamp (subst (Expired ttl r.now) (sym et) e),
        )
      ]

module _ (c : Crypto) (M : NonceMap) (config : AuthConfig) where
  open M use {Map, get}

  fresh_insert :
      (m : Map) (r : Request)
      → (insert_once M m r.nonce r.timestamp r.now config.allowed_skew_seconds).1 ≡ true
      → get (insert_once M m r.nonce r.timestamp r.now config.allowed_skew_seconds).0 r.nonce
        ≡ some r.timestamp
  fresh_insert m r h =
      elim (insert_once_lem M m r.nonce r.timestamp r.now config.allowed_skew_seconds) [
        | inl e ↦ cc (h, ap (λ (p : Map × Bool). p.1) e.1)
        | inr e ↦ rw e.1 (M.get-insert _ r.nonce r.nonce r.timestamp ∙ rw (eqb_refl r.nonce))
      ]

  Guarded-accepted :
      (m : Map) (r : Request)
      → (verify_request c M config m r).1 ≡ ok tt
      → Guarded c M config r.nonce r.timestamp (verify_request c M config m r).0 r.now
  unfolding skewed
  Guarded-accepted m r h =
      let (in_time, inserted, stored) = accepted_lem c M config m r h in
      inl (
        r.timestamp,
        rw stored (fresh_insert m r inserted),
        omega arith,
        InTime-of_skew (max_zero config.allowed_skew_seconds) r.now r.timestamp in_time,
      )

  -- Once a request was accepted, no request with its nonce and its timestamp is accepted, whatever
  -- its method, path, body and signature, at no later time and after any sequence of requests in
  -- between, if the clock does not run backwards and no correctly signed request in between has the
  -- nonce with an earlier timestamp.
  pub replay_rejected :
      (m : Map) (r : Request) (rs : List Request) (again : Request)
      → (verify_request c M config m r).1 ≡ ok tt
      → ClockAdvances r.now rs
      → All (NoEarlier c M config r.nonce r.timestamp) rs
      → last_time r.now rs ≤ℤ again.now
      → again.nonce ≡ r.nonce
      → again.timestamp ≡ r.timestamp
      → (verify_request c M config
          (serve_all c M config (verify_request c M config m r).0 rs)
          again).1
        ≢ ok tt
  replay_rejected m r rs again accepted clock no_earlier later same_nonce same_time =
      Guarded-rejects c M config r.nonce r.timestamp _ (last_time r.now rs) again later same_nonce
        same_time
        (Guarded-serve_all c M config r.nonce r.timestamp _ r.now rs clock no_earlier
          (Guarded-accepted m r accepted))
