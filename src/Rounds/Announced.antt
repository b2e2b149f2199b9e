-- ===== src/Rounds/Announced.antt =====
-- What the STATUS rounds announce over a sequence of turns.
use m5stack_pc_remote.Base.Text.{Text}
use m5stack_pc_remote.Base.{
  ◌≡◌, sym, ◌≢◌, inl, inr, Bool, true, Option, none, some, List, [], ◌∷◌, ◌++◌, All,
}
use mathlib.Core.Path.{subst}
use m5stack_pc_remote.Watch.SleepWatch.{idle_watch}
use m5stack_pc_remote.Rounds.Status.{
  Watcher, Output, lookup, wake_succeeded, wake_timed_out, pc_state, mark_valid, redraw,
  status_round,
}
use m5stack_pc_remote.Rounds.Events.{Event, turn, wake_request, sleep_request, step, outputs}
use m5stack_pc_remote.Rounds.Notices.{Tells, last_told, status_round-Told}

-- Whether an event is not a request to sleep.
abbrev pub IsAwake : {Addr : Type 0} → Event Addr → Type 0
IsAwake sleep_request = ⊥
IsAwake _ = Unit

-- From the announced state `last`, no notice of a state repeats the last announcement, where a notice
-- that a wake succeeded announces that the PC is on; such a notice may come at any time.
abbrev pub Announces : Option Bool → List Output → Type 0
Announces last [] = Unit
Announces last (pc_state b ∷ l) = (last ≢ some b) × Announces (some b) l
Announces last (wake_succeeded n ∷ l) = Announces (some true) l
Announces last (wake_timed_out n ∷ l) = Announces last l
Announces last (lookup s ∷ l) = Announces last l
Announces last (mark_valid b ∷ l) = Announces last l
Announces last (redraw ∷ l) = Announces last l

Announces-none : (a : Option Bool) (l : List Output) → Announces a l → Announces none l
Announces-none a [] h = tt
Announces-none a (pc_state c ∷ l) (n, h) = (cc, h)
Announces-none a (wake_succeeded n ∷ l) h = h
Announces-none a (wake_timed_out n ∷ l) h = Announces-none a l h
Announces-none a (lookup s ∷ l) h = Announces-none a l h
Announces-none a (mark_valid c ∷ l) h = Announces-none a l h
Announces-none a (redraw ∷ l) h = Announces-none a l h

Announces-append :
    (a b : Option Bool) (l m : List Output) → Tells a l b → Announces b m → Announces a (l ++ m)
Announces-append a b [] m (inl e) k = subst (λ z. Announces z m) e k
Announces-append a b [] m (inr e) k = subst (λ z. Announces z m) (sym e) (Announces-none b m k)
Announces-append a b (pc_state d ∷ l) m (n, h) k = (n, Announces-append (some d) b l m h k)
Announces-append a b (wake_succeeded n ∷ l) m h k = Announces-append (some true) b l m h k
Announces-append a b (wake_timed_out n ∷ l) m h k = Announces-append a b l m h k
Announces-append a b (lookup s ∷ l) m h k = Announces-append a b l m h k
Announces-append a b (mark_valid d ∷ l) m h k = Announces-append a b l m h k
Announces-append a b (redraw ∷ l) m h k = Announces-append a b l m h k

-- Over any sequence of turns and wake requests, with no sleep request pending or made: a notice that
-- the PC is on, or that it is off, never repeats the last announcement before it, including the one
-- made before the sequence. A notice that a wake succeeded counts as an announcement that the PC is
-- on, so that no notice that the PC is on follows it; the notice of the wake itself may follow any.
pub outputs-Announces :
    {Addr : Type 0} (parse : Text → Option Addr) (w : Watcher Addr) (es : List (Event Addr))
    → w.sleep_watch ≡ idle_watch
    → All IsAwake es
    → Announces w.stable_notify.notified_online (outputs parse w es)
unfolding outputs step
outputs-Announces parse w [] h awake = tt
outputs-Announces parse w (turn t ∷ es) h (a, awake) =
    let r = status_round-Told parse t w h in
    Announces-append (last_told w) (last_told (status_round parse t w).0) (status_round parse t w).1
      _ r.0 (outputs-Announces parse (status_round parse t w).0 es r.1 awake)
outputs-Announces parse w (wake_request now pc_online ∷ es) h (a, awake) =
    outputs-Announces parse _ es h awake
outputs-Announces parse w (sleep_request ∷ es) h (a, awake) = absurd a
