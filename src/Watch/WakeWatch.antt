-- ===== src/Watch/WakeWatch.antt =====
-- `WakeWatch` of shared/wake-check/src/lib.rs: the wait after a wake request.
use m5stack_pc_remote.Base.{
  ℕ, ◌≡◌, refl, Bool, true, false, not, Option, none, some, List, [], ◌∷◌, arith, leb,
  if◌then◌else◌,
}

-- `WAKE_WATCH_TIMEOUT_SECS`.
abbrev wake_watch_timeout_secs : ℕ
wake_watch_timeout_secs = 180

pub record WakeWatch : Type 0 where
  pub waiting : Bool

pub data WakeNotice : Type 0 where
  succeeded timed_out : WakeNotice

abbrev pub idle : WakeWatch
idle = record { waiting = false }

pub begin : WakeWatch → Bool → WakeWatch × Bool
begin w pc_online =
    if pc_online then (record { waiting = false }, false) else (record { waiting = true }, true)

unfoldable pub poll : WakeWatch → Bool → ℕ → WakeWatch × Option WakeNotice
poll w pc_online elapsed_secs =
    if not w.waiting
    then (w, none)
    else if pc_online
    then (record { waiting = false }, some succeeded)
    else if leb wake_watch_timeout_secs elapsed_secs
    then (record { waiting = false }, some timed_out)
    else (w, none)

-- A STATUS round: whether the PC answered, and the seconds since the request.
pub record Round : Type 0 where
  pub pc_online : Bool
  pub elapsed_secs : ℕ

pub notices : WakeWatch → List Round → List WakeNotice
notices w [] = []
notices w (r ∷ rs) =
    let (w', notice) = poll w r.pc_online r.elapsed_secs in
    let rest = notices w' rs in elim notice [ none ↦ rest | some n ↦ n ∷ rest ]

-- The notice that a round calls for while the wait goes on.
abbrev verdict : Round → Option WakeNotice
verdict r =
    if r.pc_online then some succeeded else if leb 180 r.elapsed_secs then some timed_out else none

-- The verdict of the first round that has one.
pub first_verdict : List Round → List WakeNotice
first_verdict [] = []
first_verdict (r ∷ rs) =
    let rest = first_verdict rs in elim (verdict r) [ none ↦ rest | some n ↦ n ∷ [] ]

-- An idle watch sends nothing, whatever it observes.
notices-idle : (rs : List Round) → notices idle rs ≡ []
unfolding notices poll
notices-idle [] = refl
notices-idle (r ∷ rs) = notices-idle rs

notices-waiting : (rs : List Round) → notices (record { waiting = true }) rs ≡ first_verdict rs
unfolding notices poll first_verdict
notices-waiting [] = refl
notices-waiting (r ∷ rs) = ground (arith, notices-waiting rs, notices-idle rs)

-- A wake request at a PC that is off sends exactly one notice: that of the first round in which
-- the PC answers or 180 seconds have passed, and none if there is no such round. At a PC that is
-- on it sends nothing.
pub notices-begin :
    (w : WakeWatch) (pc_online : Bool) (rs : List Round)
    → notices (begin w pc_online).0 rs ≡ (if pc_online then [] else first_verdict rs)
unfolding begin
notices-begin w true rs = notices-idle rs
notices-begin w false rs = notices-waiting rs
