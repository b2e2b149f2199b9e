-- ===== src/Panel/Shown.antt =====
-- What the panel does is what its screen shows.
use m5stack_pc_remote.Base.{
  ℕ, ◌≡◌, refl, sym, Bool, true, false, Option, none, some, List, [], ◌∷◌, ◌++◌, arith,
  if◌then◌else◌,
}
use m5stack_pc_remote.Base.Text.{Text}
use mathlib.Core.Path.{subst}
use m5stack_pc_remote.Wire.PowerAction.{PowerAction}
use m5stack_pc_remote.Watch.Timers.{Action, no_action, reset_idle, turn_off, wake}
use m5stack_pc_remote.Panel.Layout.{Screen, main, calendar, confirm}
use m5stack_pc_remote.Panel.Touch.{
  Turn, Output, draw, wol, command, notice, Panel, refresh, tap, notify_panel_action, reject_locked,
  press_wake, press_ok, press_button, press_decision, press_screen,
}
use m5stack_pc_remote.Panel.Turns.{
  reflect, ◌|>◌, reflect_lock, reflect_brightness, expire_toast, set_down, tap_at, handle_touch,
  go_dark, light_up, act, sleep_step, turn, run,
}

-- From a display of `shown`, the outputs lead to a display of `final`, and each command is sent
-- while the display shows the confirmation of that very action.
abbrev pub Leads : Screen → List Output → Screen → Type 0
Leads shown [] final = shown ≡ final
Leads shown (draw s ∷ l) final = Leads s l final
Leads shown (command action ip ∷ l) final = (shown ≡ confirm action) × Leads shown l final
Leads shown (wol port ∷ l) final = Leads shown l final
Leads shown (notice s ∷ l) final = Leads shown l final

Leads-append : (a b c : Screen) (l m : List Output) → Leads a l b → Leads b m c → Leads a (l ++ m) c
Leads-append a b c [] m h k = subst (λ s. Leads s m c) (sym h) k
Leads-append a b c (draw s ∷ l) m h k = Leads-append s b c l m h k
Leads-append a b c (command action ip ∷ l) m (e, h) k = (e, Leads-append a b c l m h k)
Leads-append a b c (wol port ∷ l) m h k = Leads-append a b c l m h k
Leads-append a b c (notice s ∷ l) m h k = Leads-append a b c l m h k

-- A part of a turn, started on a panel whose screen is displayed.
abbrev Shows : Panel → Panel × List Output → Type 0
Shows p r = Leads p.screen r.1 r.0.screen

Shows-then :
    (p : Panel) (r : Panel × List Output) (f : Panel → Panel × List Output)
    → Shows p r
    → Shows r.0 (f r.0)
    → Shows p (r |> f)
Shows-then p r f h k = Leads-append p.screen r.0.screen (f r.0).0.screen r.1 (f r.0).1 h k

if-Shows :
    (b : Bool) (p : Panel) (r r' : Panel × List Output)
    → Shows p r
    → Shows p r'
    → Shows p (if b then r else r')
if-Shows true p r r' h k = h
if-Shows false p r r' h k = k

Leads-refresh : (s : Screen) → Leads s (refresh s) s
Leads-refresh main = refl
Leads-refresh calendar = refl
Leads-refresh (confirm action) = refl

Leads-notify :
    (t : Turn) (report : Text) (s final : Screen) (l : List Output)
    → Leads s l final
    → Leads s (notify_panel_action t report ++ l) final
unfolding notify_panel_action
Leads-notify t report s final l h = ground arith

reflect_lock-Shows : (t : Turn) (p : Panel) → Shows p (reflect_lock t p)
unfolding reflect_lock
reflect_lock-Shows t p = ground (arith, Leads-refresh p.screen)

reflect_brightness-Shows : (t : Turn) (p : Panel) → Shows p (reflect_brightness t p)
unfolding reflect_brightness
reflect_brightness-Shows t p = ground arith

expire_toast-Shows : (t : Turn) (p : Panel) → Shows p (expire_toast t p)
unfolding expire_toast
expire_toast-Shows t p = ground (arith, Leads-refresh p.screen)

press_wake-Shows : (t : Turn) (p : Panel) → Shows p (press_wake t p)
unfolding press_wake reject_locked
press_wake-Shows t p =
    if-Shows t.locked_at_run p _ _ refl
      (Leads-notify t _ p.screen p.screen (refresh p.screen) (Leads-refresh p.screen))

press_ok-Shows :
    (t : Turn) (p : Panel) (action : PowerAction)
    → p.screen ≡ confirm action
    → Shows p (press_ok t p action)
unfolding press_ok reject_locked
press_ok-Shows t p action h =
    if-Shows t.locked_at_run p _ _ refl (h, Leads-notify t _ p.screen main (draw main ∷ []) refl)

press_button-Shows : (t : Turn) (p : Panel) (x y : ℕ) → Shows p (press_button t p x y)
unfolding press_button
press_button-Shows t p x y = ground (arith, press_wake-Shows t p)

press_decision-Shows :
    (t : Turn) (p : Panel) (action : PowerAction) (x y : ℕ)
    → p.screen ≡ confirm action
    → Shows p (press_decision t p action x y)
unfolding press_decision
press_decision-Shows t p action x y h = ground (arith, press_ok-Shows t p action h)

press_screen-Shows :
    (s : Screen) (t : Turn) (p : Panel) (x y : ℕ) → p.screen ≡ s → Shows p (press_screen s t p x y)
press_screen-Shows main t p x y h = press_button-Shows t p x y
press_screen-Shows calendar t p x y h = press_button-Shows t p x y
press_screen-Shows (confirm action) t p x y h = press_decision-Shows t p action x y h

tap-Shows : (t : Turn) (p : Panel) (x y : ℕ) → Shows p (tap t p x y)
unfolding tap reject_locked
tap-Shows t p x y = ground (arith, press_screen-Shows p.screen t p x y refl)

tap_at-Shows : (touch : Option (ℕ × ℕ)) (t : Turn) (p : Panel) → Shows p (tap_at touch t p)
tap_at-Shows none t p = refl
tap_at-Shows (some (x, y)) t p = ground (arith, tap-Shows t p x y)

handle_touch-Shows : (t : Turn) (p : Panel) → Shows p (handle_touch t p)
unfolding handle_touch
handle_touch-Shows t p =
    Shows-then p (tap_at t.touch t p |> set_down t) (expire_toast t)
      (Shows-then p (tap_at t.touch t p) (set_down t) (tap_at-Shows t.touch t p) refl)
      (expire_toast-Shows t _)

dark-Shows : (b : Bool) (t : Turn) (p : Panel) → Shows p (handle_touch t (go_dark b p))
dark-Shows true t p = handle_touch-Shows t _
dark-Shows false t p = handle_touch-Shows t p

light-screen : (b : Bool) (now : ℕ) (p : Panel) → p.screen ≡ (light_up b now p).screen
light-screen true now p = refl
light-screen false now p = refl

act-Shows : (a : Action) (t : Turn) (p : Panel) → Shows p (act a t p)
unfolding act
act-Shows no_action t p = handle_touch-Shows t p
act-Shows reset_idle t p = handle_touch-Shows t _
act-Shows turn_off t p = dark-Shows t.backlight_written t p
act-Shows wake t p = light-screen t.backlight_written t.now p

reflect-Shows : (t : Turn) (p : Panel) → Shows p (reflect t p)
unfolding reflect
reflect-Shows t p =
    Shows-then p (reflect_lock t p) (reflect_brightness t) (reflect_lock-Shows t p)
      (reflect_brightness-Shows t _)

turn-Shows : (t : Turn) (p : Panel) → Shows p (turn t p)
unfolding turn sleep_step
turn-Shows t p = Shows-then p (reflect t p) (sleep_step t) (reflect-Shows t p) (act-Shows _ t _)

-- Over any sequence of turns that starts with the screen of the panel displayed: each power
-- command is sent while the display shows the confirmation of that very action, and at the end
-- the display shows the screen that the panel is in.
pub run-Leads : (p : Panel) (ts : List Turn) → Leads p.screen (run p ts).1 (run p ts).0.screen
unfolding run
run-Leads p [] = refl
run-Leads p (t ∷ ts) =
    Leads-append p.screen (turn t p).0.screen _ (turn t p).1 _ (turn-Shows t p)
      (run-Leads (turn t p).0 ts)
