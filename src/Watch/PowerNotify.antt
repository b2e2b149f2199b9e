-- ===== src/Watch/PowerNotify.antt =====
-- The power notice of shared/battery/src/lib.rs (lines 98 to 163).
use native.Mathlib.Nat.{add-zero}
use m5stack_pc_remote.Base.{
  ℕ, zero, suc, ◌+◌, ◌≤◌, ◌<◌, ◌≡◌, ap, ◌∙◌, Bool, true, false, not, Option, none, some, List, [],
  ◌∷◌, ◌++◌, arith, leb, same, if◌then◌else◌, u8_saturating_suc, replicate,
}

-- `POWER_NOTIFY_STABLE_POLLS`.
abbrev power_notify_stable_polls : ℕ
power_notify_stable_polls = 5

pub record PowerNotify : Type 0 where
  pub notified : Option Bool
  pub streak : ℕ

abbrev new : PowerNotify
new = record { notified = none; streak = 0 }

-- The `match self.notified` of `poll`.
compare_observation : Option Bool → ℕ → Bool → PowerNotify × Bool
compare_observation none streak observed = (record { notified = some observed; streak = 0 }, false)
compare_observation (some prev) streak observed =
    if same prev observed
    then (record { notified = some prev; streak = 0 }, false)
    else (let streak' = u8_saturating_suc streak in
        if leb power_notify_stable_polls streak'
        then (record { notified = some observed; streak = 0 }, true)
        else (record { notified = some prev; streak = streak' }, false))

unfoldable pub poll : PowerNotify → Bool → PowerNotify × Bool
unfolding compare_observation
poll s observed = compare_observation s.notified s.streak observed

-- For each observation of a sequence, the power state that is announced at it, if one is.
unfoldable pub announced : PowerNotify → List Bool → List (Option Bool)
announced s [] = []
announced s (b ∷ bs) =
    let (s', notify) = poll s b in (if notify then some b else none) ∷ announced s' bs

abbrev pub settled : Bool → PowerNotify
settled b = record { notified = some b; streak = 0 }

abbrev drifting : Bool → ℕ → PowerNotify
drifting b k = record { notified = some b; streak = k }

poll_differs :
    (b : Bool) (k : ℕ) → k < 4 → poll (drifting b k) (not b) ≡ (drifting b (k + 1), false)
unfolding poll
poll_differs b k h = ground arith

poll_fifth : (b : Bool) → poll (drifting b 4) (not b) ≡ (settled (not b), true)
unfolding poll
poll_fifth b = ground arith

poll_returns : (b : Bool) (k : ℕ) → poll (drifting b k) b ≡ (settled b, false)
unfolding poll
poll_returns b k = ground arith

announced_drift :
    (b : Bool) (k n : ℕ) (bs : List Bool)
    → k + n ≤ 4
    → announced (drifting b k) (replicate n (not b) ++ bs)
      ≡ replicate n none ++ announced (drifting b (k + n)) bs
unfolding announced
announced_drift b k zero bs h = rw add-zero
announced_drift b k (suc n) bs h =
    let later : announced (drifting b (k + 1)) (replicate n (not b) ++ bs)
        ≡ replicate n none ++ announced (drifting b (k + suc n)) bs =
      announced_drift b (k + 1) n bs (omega arith)
      ∙ ap (λ j. replicate n none ++ announced (drifting b j) bs) (omega arith) in
    rw (poll_differs b k (omega arith)) (ap (λ l. none ∷ l) later)

-- From a settled state: a change that lasts five observations is announced once, at the fifth, and
-- becomes the settled state of what follows; and while a change of up to four observations goes
-- back, nothing is announced, and what follows finds the settled state as it was.
pub announced_change :
    (b : Bool) (bs : List Bool) (n : ℕ)
    → n ≤ 4
    → (announced (settled b) (replicate 5 (not b) ++ bs)
        ≡ none ∷ none ∷ none ∷ none ∷ some (not b) ∷ announced (settled (not b)) bs)
      × (announced (settled b) (replicate n (not b) ++ b ∷ bs)
          ≡ replicate n none ++ none ∷ announced (settled b) bs)
unfolding announced
announced_change b bs n h = (
  announced_drift b 0 4 (not b ∷ bs) (omega arith) ∙ rw poll_fifth,
  announced_drift b 0 n (b ∷ bs) (omega arith) ∙ rw poll_returns,
)
