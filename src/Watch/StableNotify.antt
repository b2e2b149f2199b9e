-- ===== src/Watch/StableNotify.antt =====
-- shared/notify-stable/src/lib.rs
use mathlib.Core.Path.{subst}
use m5stack_pc_remote.Base.{
  ℕ, ◌+◌, ◌*◌, ◌≤◌, ◌≡◌, sym, ◌≢◌, ◌↔◌, ◌⊎◌, inl, inr, Bool, true, false, not, Option, none, some,
  List, [], ◌∷◌, arith, leb, same, if◌then◌else◌, u8_saturating_suc, length, All,
}

-- `STABLE_POLLS`.
abbrev stable_polls : ℕ
stable_polls = 2

pub record StableNotify : Type 0 where
  pub notified_online : Option Bool
  pub notify_streak : ℕ

abbrev new : StableNotify
new = record { notified_online = none; notify_streak = 0 }

-- The `match self.notified_online` of `poll`.
compare_observation : Option Bool → ℕ → Bool → StableNotify × Bool
compare_observation none streak now =
    (record { notified_online = some now; notify_streak = streak }, false)
compare_observation (some prev) streak now =
    if same prev now
    then (record { notified_online = some prev; notify_streak = 0 }, false)
    else (let streak' = u8_saturating_suc streak in
        if leb stable_polls streak'
        then (record { notified_online = some now; notify_streak = 0 }, true)
        else (record { notified_online = some prev; notify_streak = streak' }, false))

unfoldable pub poll : StableNotify → Bool → Bool → Bool → StableNotify × Bool
unfolding compare_observation
poll s now_online wake_succeeded suppress_off =
    if wake_succeeded
    then (s, false)
    else if suppress_off
    then (record { notified_online = some false; notify_streak = 0 }, false)
    else compare_observation s.notified_online s.notify_streak now_online

-- One STATUS round: the observation, and the two flags that the main loop computes first.
pub record Round : Type 0 where
  pub now_online : Bool
  pub wake_succeeded : Bool
  pub suppress_off : Bool

-- The states that are announced over a sequence of rounds, in order.
pub announced : StableNotify → List Round → List Bool
announced s [] = []
announced s (r ∷ rs) =
    let (s', notify) = poll s r.now_online r.wake_succeeded r.suppress_off in
    let rest = announced s' rs in if notify then r.now_online ∷ rest else rest

-- What holds of every state that `poll` produces from `new`.
pub record IsValid (s : StableNotify) : Type 0 where
  pub streak_low : s.notify_streak ≤ 1
  pub none_low : (s.notified_online ≢ none) ⊎ (s.notify_streak ≡ 0)

-- The validity of a state is kept by every poll, whatever the observation and the flags.
pub poll-IsValid :
    (s : StableNotify) (now wake suppress : Bool) → IsValid s → IsValid (poll s now wake suppress).0
unfolding poll
poll-IsValid s now wake suppress v = ground arith

-- In a valid state a poll notifies exactly when neither flag is set, the observation differs from
-- the state last announced, and the poll before it differed too.
pub poll_notifies_iff :
    (s : StableNotify) (now wake suppress : Bool)
    → IsValid s
    → ((poll s now wake suppress).1 ≡ true) ↔ (
        (wake ≡ false)
        × (suppress ≡ false)
        × (s.notified_online ≡ some (not now))
        × (s.notify_streak ≡ 1))
unfolding poll
poll_notifies_iff s now wake suppress v = (λ h. ground arith, λ h. ground arith)

abbrev IsPlain : Round → Type 0
IsPlain r = r.suppress_off ≡ false

-- Each announced state differs from the one before it.
abbrev pub Alternates : Option Bool → List Bool → Type 0
Alternates prev [] = Unit
Alternates prev (b ∷ l) = (prev ≢ some b) × Alternates (some b) l

Alternates-none : (p : Option Bool) (l : List Bool) → Alternates p l → Alternates none l
Alternates-none p [] h = tt
Alternates-none p (b ∷ l) h = ((λ e. cc), h.1)

-- The announced state becomes the baseline; otherwise the baseline stays, or was not yet set.
poll-baseline :
    (s : StableNotify) (now wake suppress : Bool)
    → suppress ≡ false
    → (((poll s now wake suppress).1 ≡ true)
        × (s.notified_online ≢ some now)
        × ((poll s now wake suppress).0.notified_online ≡ some now))
      ⊎ (((poll s now wake suppress).1 ≡ false)
          × (((poll s now wake suppress).0.notified_online ≡ s.notified_online)
              ⊎ (s.notified_online ≡ none)))
unfolding poll
poll-baseline s now wake suppress h = ground arith

-- While nothing is suppressed, the announcements alternate: each one differs from the one before
-- it, and the first one differs from the baseline, if there is one.
pub announced-Alternates :
    (s : StableNotify) (rs : List Round)
    → All IsPlain rs
    → Alternates s.notified_online (announced s rs)
unfolding announced
announced-Alternates s [] h = tt
announced-Alternates s (r ∷ rs) (plain, h) =
    let s' = (poll s r.now_online r.wake_succeeded r.suppress_off).0 in
    let ih = announced-Alternates s' rs h in
    elim (poll-baseline s r.now_online r.wake_succeeded r.suppress_off plain) [
      | inl e ↦ rw e.0 (e.1, rw e.2 at ih)
      | inr e ↦ rw e.0 (elim e.1 [
        | inl kept ↦ rw kept at ih
        | inr unset ↦
            subst (λ o. Alternates o (announced s' rs)) (sym unset)
              (Alternates-none s'.notified_online (announced s' rs) ih)
      ])
    ]

poll-cost :
    (s : StableNotify) (now wake suppress : Bool)
    → IsValid s
    → (if (poll s now wake suppress).1 then 2 else 0) + (poll s now wake suppress).0.notify_streak
      ≤ s.notify_streak + 1
unfolding poll
poll-cost s now wake suppress v = ground arith

-- Every announcement takes at least two rounds: there are at most half as many announcements as
-- rounds, up to the streak of the state that they start from.
pub length-announced :
    (s : StableNotify) (rs : List Round)
    → IsValid s
    → 2 * length (announced s rs) ≤ s.notify_streak + length rs
unfolding announced
length-announced s [] v = omega arith
length-announced s (r ∷ rs) v =
    let s' = (poll s r.now_online r.wake_succeeded r.suppress_off).0 in
    ground (
      arith,
      poll-cost s r.now_online r.wake_succeeded r.suppress_off v,
      length-announced s' rs (poll-IsValid s r.now_online r.wake_succeeded r.suppress_off v),
    )
