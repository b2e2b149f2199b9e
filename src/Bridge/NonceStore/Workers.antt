-- ===== src/Bridge/NonceStore/Workers.antt =====
-- `insert_once` of m5stack-pc-bridge/src/auth.rs on several threads, which share the map: between
-- the tests of a call and its insertion other threads may take steps.
use m5stack_pc_remote.Base.{
  ℕ, ◌+◌, ◌%◌, ◌<◌, ◌≡◌, sym, ap, inl, inr, Bool, true, false, ◌||◌, List, [], ◌∷◌, ◌++◌, arith,
  leb, ◌==◌, if◌then◌else◌, length, length-append,
}
use m5stack_pc_remote.Base.Int.{ℤ}
use m5stack_pc_remote.Base.Text.{Text}
use mathlib.Core.Path.{subst}
use m5stack_pc_remote.Bridge.NonceStore.{
  NonceMap, max_entries, evict_expired, sweep, refuses, refuses-room, insert_once, insert_once_lem,
}

module _ (M : NonceMap) (threads : ℕ) where
  open M use {Map, len}

  -- The map, and the entries of the calls that passed the tests and have not inserted yet.
  pub record Workers : Type 0 where
    pub seen : Map
    pub passed : List (Text × ℤ)

  abbrev pub idle : Workers
  idle = record { seen = M.empty; passed = [] }

  -- A call that is refused takes no step. An eviction may come at any time, since the count that
  -- asks for it may be out of date.
  pub data Step : Workers → Workers → Type 0 where
    evict :
        (s : Workers) (now ttl_seconds : ℤ)
        → Step s (record s { seen = evict_expired M s.seen now ttl_seconds })
    pass :
        (s : Workers) (nonce : Text) (timestamp : ℤ)
        → length s.passed < threads
        → refuses M s.seen nonce ≡ false
        → Step s (record s { passed = (nonce, timestamp) ∷ s.passed })
    insert :
        (seen : Map) (before after : List (Text × ℤ)) (nonce : Text) (timestamp : ℤ)
        → Step
            (record { seen = seen; passed = before ++ ((nonce, timestamp) ∷ after) })
            (record { seen = (M.insert seen nonce timestamp).0; passed = before ++ after })

  pub data Reach (s : Workers) : Workers → Type 0 where
    here : Reach s s
    next : {t u : Workers} → Reach s t → Step t u → Reach s u

  -- Every call that passed will add one entry at most.
  abbrev HasRoom : Workers → Type 0
  HasRoom s = len s.seen + length s.passed < max_entries + threads

  Step-HasRoom : {s t : Workers} → Step s t → HasRoom s → HasRoom t
  unfolding evict_expired
  Step-HasRoom (evict s now ttl_seconds) h = omega (arith, M.len-retain _ s.seen, h)
  Step-HasRoom (pass s nonce timestamp free accepted) h =
      omega (arith, refuses-room M s.seen nonce accepted, free)
  Step-HasRoom (insert seen before after nonce timestamp) h = omega (
    arith,
    h,
    M.len-insert seen nonce timestamp,
    length-append before ((nonce, timestamp) ∷ after),
    length-append before after,
  )

  Reach-HasRoom : {s t : Workers} → HasRoom s → Reach s t → HasRoom t
  Reach-HasRoom h here = h
  Reach-HasRoom h (next r st) = Step-HasRoom st (Reach-HasRoom h r)

  -- With `threads` threads that insert at the same time, whatever they are given and in whatever
  -- order their evictions, tests and insertions come, a store that was empty at the start has fewer
  -- than `max_entries + threads` entries, if each operation of the map is one step.
  pub len-Reach : (s : Workers) → Reach idle s → len s.seen < max_entries + threads
  len-Reach s r = omega (arith, Reach-HasRoom (omega (arith, M.len-empty)) r)

  evicted_if :
      (b : Bool) (s : Workers) (now ttl : ℤ)
      → Reach s (record s { seen = if b then evict_expired M s.seen now ttl else s.seen })
  evicted_if true s now ttl = next here (evict s now ttl)
  evicted_if false s now ttl = here

  evicted : (s : Workers) (now ttl : ℤ) → Reach s (record s { seen = sweep M s.seen now ttl })
  unfolding sweep
  evicted s now ttl = evicted_if (len s.seen % 100 == 0 || leb max_entries (len s.seen)) s now ttl

  -- A call without other steps in between.
  pub insert_once-Reach :
      (s : Workers) (nonce : Text) (timestamp now ttl : ℤ)
      → length s.passed < threads
      → Reach s (record s { seen = (insert_once M s.seen nonce timestamp now ttl).0 })
  insert_once-Reach s nonce timestamp now ttl free =
      let swept = sweep M s.seen now ttl in
      let reaches = λ (m : Map). Reach s (record s { seen = m }) in
      elim (insert_once_lem M s.seen nonce timestamp now ttl) [
        | inl e ↦ subst reaches (sym (ap (λ (p : Map × Bool). p.0) e.1)) (evicted s now ttl)
        | inr e ↦
            let tested = pass (record s { seen = swept }) nonce timestamp free e.0 in
            subst reaches (sym e.1)
              (next (next (evicted s now ttl) tested) (insert swept [] s.passed nonce timestamp))
      ]
