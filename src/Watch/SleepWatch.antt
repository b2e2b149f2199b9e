-- ===== src/Watch/SleepWatch.antt =====
-- `SleepWatch` of shared/wake-check/src/lib.rs: the silence about a PC that was sent to sleep.
use native.Mathlib.Nat.{add-zero}
use m5stack_pc_remote.Base.{
  ℕ, zero, suc, ◌+◌, ◌<◌, ◌≡◌, refl, ap, ◌∙◌, Bool, true, false, not, List, [], ◌∷◌, ◌++◌, arith,
  leb, if◌then◌else◌, length, replicate,
}

-- `SLEEP_ARM_MAX_POLLS`.
abbrev sleep_arm_max_polls : ℕ
sleep_arm_max_polls = 6

pub data SleepPhase : Type 0 where
  idle : SleepPhase
  armed : ℕ → SleepPhase
  suppressing : SleepPhase

pub record SleepWatch : Type 0 where
  pub phase : SleepPhase

abbrev pub idle_watch : SleepWatch
idle_watch = record { phase = idle }

abbrev pub begin : SleepWatch → SleepWatch
begin w = record { phase = armed 0 }

-- The `match self.phase` of `poll`. A count of polls stays below the maximum, so its `u32`
-- addition does not wrap.
poll_phase : SleepPhase → Bool → SleepWatch × Bool
poll_phase idle pc_online = (idle_watch, false)
poll_phase (armed polls) pc_online =
    if not pc_online
    then (record { phase = suppressing }, true)
    else if leb sleep_arm_max_polls (polls + 1)
    then (idle_watch, false)
    else (record { phase = armed (polls + 1) }, false)
poll_phase suppressing pc_online =
    if pc_online then (idle_watch, false) else (record { phase = suppressing }, true)

unfoldable pub poll : SleepWatch → Bool → SleepWatch × Bool
unfolding poll_phase
poll w pc_online = poll_phase w.phase pc_online

-- Whether the off notice is suppressed in each of a sequence of observations.
pub suppressed : SleepWatch → List Bool → List Bool
suppressed w [] = []
suppressed w (b ∷ bs) = (poll w b).1 ∷ suppressed (poll w b).0 bs

suppressed-idle : (bs : List Bool) → suppressed idle_watch bs ≡ replicate (length bs) false
unfolding suppressed poll
suppressed-idle [] = refl
suppressed-idle (b ∷ bs) = ap (λ l. false ∷ l) (suppressed-idle bs)

poll-armed :
    (j : ℕ)
    → j < 5
    → poll (record { phase = armed j }) true ≡ (record { phase = armed (j + 1) }, false)
unfolding poll
poll-armed j h = ground arith

suppressed-armed :
    (j k : ℕ) (bs : List Bool)
    → j + k < 6
    → suppressed (record { phase = armed j }) (replicate k true ++ bs)
      ≡ replicate k false ++ suppressed (record { phase = armed (j + k) }) bs
unfolding suppressed
suppressed-armed j zero bs h = rw add-zero
suppressed-armed j (suc k) bs h = rw (poll-armed j (omega arith)) (
    ap (λ l. false ∷ l)
      (suppressed-armed (j + 1) k bs (omega arith)
        ∙ ap (λ i. replicate k false ++ suppressed (record { phase = armed i }) bs) (omega arith)))

suppressed-suppressing :
    (m : ℕ) (bs : List Bool)
    → suppressed (record { phase = suppressing }) (replicate m false ++ true ∷ bs)
      ≡ replicate m true ++ false ∷ replicate (length bs) false
unfolding suppressed poll
suppressed-suppressing zero bs = ap (λ l. false ∷ l) (suppressed-idle bs)
suppressed-suppressing (suc m) bs = ap (λ l. true ∷ l) (suppressed-suppressing m bs)

-- After an accepted sleep request: fewer than six rounds in which the PC still answers are not
-- suppressed and do not end the watch; every round of the outage that follows is suppressed; the
-- round in which the PC is back, and all rounds after it, are not.
pub suppressed-begin :
    (w : SleepWatch) (k m : ℕ) (bs : List Bool)
    → k < 6
    → suppressed (begin w) (replicate k true ++ (false ∷ (replicate m false ++ (true ∷ bs))))
      ≡ replicate k false ++ (true ∷ (replicate m true ++ (false ∷ replicate (length bs) false)))
unfolding suppressed poll
suppressed-begin w k m bs h =
    suppressed-armed 0 k (false ∷ (replicate m false ++ (true ∷ bs))) (omega arith)
    ∙ ap (λ l. replicate k false ++ true ∷ l) (suppressed-suppressing m bs)

-- If the PC still answers six rounds after the request, nothing is ever suppressed.
pub suppressed_expires :
    (w : SleepWatch) (bs : List Bool)
    → suppressed (begin w) (replicate 6 true ++ bs)
      ≡ replicate 6 false ++ replicate (length bs) false
unfolding suppressed poll
suppressed_expires w bs = ap (λ l. replicate 6 false ++ l) (suppressed-idle bs)
