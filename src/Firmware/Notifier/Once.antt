-- ===== src/Firmware/Notifier/Once.antt =====
-- The daily reports come once a day.
use m5stack_pc_remote.Base.{
  sym, ap, ◌∙◌, ◌≢◌, inl, inr, Option, none, some, List, [], ◌∷◌, ◌++◌, map, arith,
}
use mathlib.Core.Path.{subst}
use m5stack_pc_remote.Base.Int.{ℤ, ◌≤ℤ◌}
use m5stack_pc_remote.Firmware.Notifier.{
  ReportConfig, Notifier, Turn, Output, notifier_turn, outputs,
}
use m5stack_pc_remote.Firmware.Notifier.Days.{
  sent_days, sent_days-append, today, Reports, notifier_turn-Reports,
}

-- A day that is not before the last one.
abbrev pub NotBefore : Option ℤ → ℤ → Type 0
NotBefore none day = Unit
NotBefore (some last) day = last ≤ℤ day

-- The local days of the turns, where the clock is set, do not go back.
abbrev pub GoesOn : Option ℤ → List (Option ℤ) → Type 0
GoesOn last [] = Unit
GoesOn last (none ∷ days) = GoesOn last days
GoesOn last (some day ∷ days) = NotBefore last day × GoesOn (some day) days

-- Each day is after the one before it.
abbrev pub Rising : Option ℤ → List ℤ → Type 0
Rising last [] = Unit
Rising last (day ∷ days) = NotBefore last day × (last ≢ some day) × Rising (some day) days

GoesOn-back :
    (a : Option ℤ) (d : ℤ) (days : List (Option ℤ))
    → NotBefore a d
    → GoesOn (some d) days
    → GoesOn a days
GoesOn-back a d [] h k = tt
GoesOn-back a d (none ∷ days) h k = GoesOn-back a d days h k
GoesOn-back none d (some e ∷ days) h (k, m) = (tt, m)
GoesOn-back (some l) d (some e ∷ days) h (k, m) = (omega arith, m)

skip_day :
    (last : Option ℤ) (o : Option ℤ) (days : List (Option ℤ))
    → GoesOn last (o ∷ days)
    → GoesOn last days
skip_day last none days h = h
skip_day last (some d) days (h, k) = GoesOn-back last d days h k

Reports-GoesOn :
    (g : ReportConfig) (t : Turn) (last last' : Option ℤ) (l : List Output) (days : List (Option ℤ))
    → Reports g t last l last'
    → GoesOn last (today g t ∷ days)
    → GoesOn last' days
Reports-GoesOn g t last last' l days (inl (e, k)) h =
    subst (λ z. GoesOn z days) (sym k) (skip_day last (today g t) days h)
Reports-GoesOn g t last last' l days (inr (day, a, b, e, k)) h =
    subst (λ z. GoesOn z days) (sym k) (subst (λ o. GoesOn last (o ∷ days)) a h).1

Reports-Rising :
    (g : ReportConfig) (t : Turn) (last last' : Option ℤ) (l m : List Output)
    (days : List (Option ℤ))
    → Reports g t last l last'
    → GoesOn last (today g t ∷ days)
    → Rising last' (sent_days m)
    → Rising last (sent_days (l ++ m))
Reports-Rising g t last last' l m days (inl (e, k)) h r =
    subst (Rising last) (sym (sent_days-append l m ∙ ap (λ z. z ++ sent_days m) e))
      (subst (λ z. Rising z (sent_days m)) k r)
Reports-Rising g t last last' l m days (inr (day, a, b, e, k)) h r =
    subst (Rising last) (sym (sent_days-append l m ∙ ap (λ z. z ++ sent_days m) e))
      ((subst (λ o. GoesOn last (o ∷ days)) a h).0, b, subst (λ z. Rising z (sent_days m)) k r)

-- If the local day, wherever the clock is set, never goes back, the daily reports that are sent
-- are for days each after the one before, and after the day that counted as sent at the start: at
-- most one report a day, however often the sending fails and is tried again.
pub sent_days-Rising :
    (g : ReportConfig) (n : Notifier) (ts : List Turn)
    → GoesOn n.last_sent_day (map (today g) ts)
    → Rising n.last_sent_day (sent_days (outputs g n ts))
unfolding outputs
sent_days-Rising g n [] h = tt
sent_days-Rising g n (t ∷ ts) h =
    let r = notifier_turn-Reports g t n in
    let days = map (today g) ts in
    Reports-Rising g t n.last_sent_day _ (notifier_turn g t n).1 _ days r h (
      sent_days-Rising g (notifier_turn g t n).0 ts
        (Reports-GoesOn g t n.last_sent_day _ (notifier_turn g t n).1 days r h))
