-- ===== src/Rounds/Sources.antt =====
-- What the battery rounds announce.
use m5stack_pc_remote.Watch.Timers.{should_read}
use m5stack_pc_remote.Base.{
  ◌-◌, ◌≡◌, refl, ap, ◌∙◌, Bool, true, false, Option, none, some, List, [], ◌∷◌, ◌++◌, arith, leb,
  if◌then◌else◌, All,
}
use m5stack_pc_remote.Watch.PowerNotify
use m5stack_pc_remote.Watch.PowerNotify.{PowerNotify, settled}
use m5stack_pc_remote.Rounds.Battery.{
  pending, battery_poll_interval, DisplayState, Gauge, Tick, Output, read_battery, redraw_header,
  notice, read, needs_redraw, observed, then_observed, battery_round, outputs,
}

abbrev pub notices : List Output → List Bool
notices [] = []
notices (notice b percent ∷ l) = b ∷ notices l
notices (read_battery ∷ l) = notices l
notices (redraw_header ∷ l) = notices l

notices-append : (l m : List Output) → notices (l ++ m) ≡ notices l ++ notices m
notices-append [] m = refl
notices-append (notice b percent ∷ l) m = ap (λ k. b ∷ k) (notices-append l m)
notices-append (read_battery ∷ l) m = notices-append l m
notices-append (redraw_header ∷ l) m = notices-append l m

-- A reading that failed, or that finds the source `b`.
abbrev pub Finds : Bool → Option DisplayState → Type 0
Finds b none = Unit
Finds b (some known) = known.is_powered ≡ b

-- The gauge has announced the source `b` and displays no other.
pub record IsSteady (b : Bool) (g : Gauge) : Type 0 where
  pub displays : Finds b g.battery
  pub is_settled : g.power_notify ≡ settled b

-- A step that announces nothing and stays steady.
abbrev Silent : Bool → Gauge × List Output → Type 0
Silent b r = (notices r.1 ≡ []) × IsSteady b r.0

if-Silent :
    (c b : Bool) (r r' : Gauge × List Output)
    → Silent b r
    → Silent b r'
    → Silent b (if c then r else r')
if-Silent true b r r' h k = h
if-Silent false b r r' h k = k

Finds-if :
    (c b : Bool) (o o' : Option DisplayState)
    → Finds b o
    → Finds b o'
    → Finds b (if c then o else o')
Finds-if true b o o' h k = h
Finds-if false b o o' h k = k

notices-if : (c : Bool) → notices (if c then redraw_header ∷ [] else []) ≡ []
notices-if true = refl
notices-if false = refl

read-Silent :
    (b : Bool) (t : Tick) (g : Gauge) → Finds b t.reading → IsSteady b g → Silent b (read t g)
unfolding read
read-Silent b t g f s =
    if-Silent (should_read (pending t.latches) (t.now - g.battery_at)) b _ _
      (
        notices-if (needs_redraw g.battery t.reading),
        record {
          displays = Finds-if (needs_redraw g.battery t.reading) b _ _ f s.displays;
          is_settled = s.is_settled;
        },
      )
      (refl, s)

poll-settled : (b : Bool) → PowerNotify.poll (settled b) b ≡ (settled b, false)
unfolding PowerNotify.poll
poll-settled b = ground arith

observed-Silent :
    (b : Bool) (o : Option DisplayState) (g : Gauge)
    → Finds b o
    → IsSteady b g
    → Silent b (observed o g)
observed-Silent b none g f s = (refl, s)
observed-Silent b (some known) g f s =
    let e =
      ap (λ n. PowerNotify.poll n known.is_powered) s.is_settled
      ∙ ap (λ c. PowerNotify.poll (settled b) c) f
      ∙ poll-settled b in
    (
      ap (λ z. notices (if z.1 then notice known.is_powered known.percent ∷ [] else [])) e,
      record { displays = s.displays; is_settled = ap (λ z. z.0) e },
    )

then_observed-Silent :
    (b : Bool) (r : Gauge × List Output) → Silent b r → Silent b (then_observed r)
then_observed-Silent b r (n, s) =
    let o = observed-Silent b r.0.battery r.0 s.displays s in (notices-append r.1 _ ∙ rw n o.0, o.1)

battery_round-Silent :
    (b : Bool) (t : Tick) (g : Gauge)
    → Finds b t.reading
    → IsSteady b g
    → Silent b (battery_round t g)
unfolding battery_round
battery_round-Silent b t g f s =
    if-Silent (leb battery_poll_interval (t.now - g.battery_fast_at)) b _ _
      (then_observed-Silent b (read t (record g { battery_fast_at = t.now })) (
        read-Silent b t (record g { battery_fast_at = t.now }) f
          (record { displays = s.displays; is_settled = s.is_settled })))
      (refl, s)

-- As long as every reading finds the announced power source or fails, nothing is announced,
-- whatever the latches say and however the failures lie.
pub notices-steady :
    (b : Bool) (g : Gauge) (ts : List Tick)
    → IsSteady b g
    → All (λ t. Finds b t.reading) ts
    → notices (outputs g ts) ≡ []
unfolding outputs
notices-steady b g [] s f = refl
notices-steady b g (t ∷ ts) s (f, fs) =
    let k = battery_round-Silent b t g f s in
    notices-append (battery_round t g).1 _
    ∙ rw k.0 (notices-steady b (battery_round t g).0 ts k.1 fs)
