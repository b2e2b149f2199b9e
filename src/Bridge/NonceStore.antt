-- ===== src/Bridge/NonceStore.antt =====
-- `NonceStore` of m5stack-pc-bridge/src/auth.rs. Requests are handled one after the other here,
-- and in steps of several threads in Workers.
pub mod Workers
use m5stack_pc_remote.Base.{
  ℕ, ◌+◌, ◌%◌, ◌≤◌, ◌<◌, ◌≡◌, ◌⊎◌, inl, inr, Bool, true, false, not, ◌||◌, Option, none, some,
  arith, ltb, leb, ◌==◌, if◌then◌else◌, Bool-cases, length, all,
}
use m5stack_pc_remote.Base.Int.{ℤ, abs_diff, max_zero}
use m5stack_pc_remote.Base.Text.{Text, eqb, utf8, is_ascii_alphanumeric}

-- The interface of `DashMap<String, i64>`, which is not part of the repository: `insert` also
-- returns the value that was there, and `retain` keeps the entries that pass the test.
pub record NonceMap : Type 1 where
  pub Map : Type 0
  pub empty : Map
  pub get : Map → Text → Option ℤ
  pub len : Map → ℕ
  pub insert : Map → Text → ℤ → Map × Option ℤ
  pub retain : (Text → ℤ → Bool) → Map → Map
  pub get-empty : (k : Text) → get empty k ≡ none
  pub len-empty : len empty ≡ 0
  pub get-insert :
      (m : Map) (k j : Text) (v : ℤ)
      → get (insert m k v).0 j ≡ (if eqb k j then some v else get m j)
  pub insert_previous : (m : Map) (k : Text) (v : ℤ) → (insert m k v).1 ≡ get m k
  pub len-insert : (m : Map) (k : Text) (v : ℤ) → len (insert m k v).0 ≤ len m + 1
  pub get-retain-none :
      (p : Text → ℤ → Bool) (m : Map) (k : Text) → get m k ≡ none → get (retain p m) k ≡ none
  pub get-retain-some :
      (p : Text → ℤ → Bool) (m : Map) (k : Text) (v : ℤ)
      → get m k ≡ some v
      → get (retain p m) k ≡ (if p k v then some v else none)
  pub len-retain : (p : Text → ℤ → Bool) (m : Map) → len (retain p m) ≤ len m

abbrev max_nonce_len : ℕ
max_nonce_len = 64

abbrev pub max_entries : ℕ
max_entries = 10_000

-- The bytes that a nonce may hold.
abbrev is_nonce_byte : ℕ → Bool
is_nonce_byte b = is_ascii_alphanumeric b || b == b'-' || b == b'_' || b == b'.'

module _ (M : NonceMap) where
  open M use {Map, get, len, insert, retain}

  unfoldable pub evict_expired : Map → ℤ → ℤ → Map
  evict_expired m now ttl_seconds =
      retain (λ nonce timestamp. leb (abs_diff now timestamp) (max_zero ttl_seconds)) m

  -- The sweep at the head of `insert_once`.
  unfoldable pub sweep : Map → ℤ → ℤ → Map
  unfolding evict_expired
  sweep m now ttl_seconds =
      if len m % 100 == 0 || leb max_entries (len m) then evict_expired m now ttl_seconds else m

  -- The three tests for which `insert_once` refuses.
  unfoldable pub refuses : Map → Text → Bool
  refuses m nonce =
      ltb max_nonce_len (length (utf8 nonce))
      || not (all is_nonce_byte (utf8 nonce))
      || leb max_entries (len m)

  abbrev pub is_none : Option ℤ → Bool
  is_none none = true
  is_none (some v) = false

  unfoldable pub insert_once : Map → Text → ℤ → ℤ → ℤ → Map × Bool
  insert_once m nonce timestamp now ttl_seconds =
      let swept = sweep m now ttl_seconds in
      if refuses swept nonce
      then (swept, false)
      else let (m', previous) = insert swept nonce timestamp in (m', is_none previous)

  -- An entry survives the sweep, or was too old for it.
  pub get-sweep :
      (m : Map) (now ttl : ℤ) (k : Text) (v : ℤ)
      → get m k ≡ some v
      → (get (sweep m now ttl) k ≡ some v) ⊎ (max_zero ttl < abs_diff now v)
  unfolding sweep
  get-sweep m now ttl k v h = ground (
    arith,
    M.get-retain-some (λ nonce timestamp. leb (abs_diff now timestamp) (max_zero ttl)) m k v h,
  )

  len-sweep : (m : Map) (now ttl : ℤ) → len (sweep m now ttl) ≤ len m
  unfolding sweep
  len-sweep m now ttl =
      ground
        (arith, M.len-retain (λ nonce timestamp. leb (abs_diff now timestamp) (max_zero ttl)) m)

  pub refuses-room : (m : Map) (nonce : Text) → refuses m nonce ≡ false → len m < max_entries
  unfolding refuses
  refuses-room m nonce h = ground arith

  -- The three outcomes of `insert_once`: refused, inserted, and already there.
  pub insert_once_lem :
      (m : Map) (nonce : Text) (timestamp now ttl : ℤ)
      → let swept = sweep m now ttl in
        let result = insert_once m nonce timestamp now ttl in
        ((refuses swept nonce ≡ true) × (result ≡ (swept, false)))
        ⊎ ((refuses swept nonce ≡ false)
            × (result.0 ≡ (insert swept nonce timestamp).0)
            × (result.1 ≡ is_none (get swept nonce)))
  unfolding insert_once
  insert_once_lem m nonce timestamp now ttl =
      let swept = sweep m now ttl in
      elim (Bool-cases (refuses swept nonce)) [
        | inl e ↦ inl (e, rw e)
        | inr e ↦ inr (e, rw e, rw (e, M.insert_previous swept nonce timestamp))
      ]

  -- Calls one after the other keep the store within `max_entries` entries.
  pub len-insert_once :
      (m : Map) (nonce : Text) (timestamp now ttl : ℤ)
      → len m ≤ max_entries
      → len (insert_once m nonce timestamp now ttl).0 ≤ max_entries
  len-insert_once m nonce timestamp now ttl h =
      let swept = sweep m now ttl in
      elim (insert_once_lem m nonce timestamp now ttl) [
        | inl e ↦ rw e.1 (omega (arith, len-sweep m now ttl))
        | inr e ↦
            rw e.1 (omega (arith, refuses-room swept nonce e.0, M.len-insert swept nonce timestamp))
      ]
