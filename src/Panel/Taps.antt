-- ===== src/Panel/Taps.antt =====
-- How often the panel operates the PC.
use m5stack_pc_remote.Base.{
  ℕ, suc, ◌+◌, ◌-◌, ◌≤◌, ◌≡◌, refl, Bool, true, false, not, ◌&&◌, Option, none, some, List, [], ◌∷◌,
  ◌++◌, arith, bit,
}
use m5stack_pc_remote.Base.Text.{Text}
use mathlib.Core.Path.{subst}
use m5stack_pc_remote.Wire.PowerAction.{PowerAction}
use m5stack_pc_remote.Watch.Timers.{Action, no_action, reset_idle, turn_off, wake, decide}
use m5stack_pc_remote.Panel.Layout.{Screen, main, calendar, confirm}
use m5stack_pc_remote.Panel.Touch.{
  command_report, wake_report, Turn, Output, draw, wol, command, notice, Panel, refresh, tap,
  notify_panel_action, reject_locked, press_wake, press_ok, press_button, press_decision,
  press_screen,
}
use m5stack_pc_remote.Panel.Turns.{
  is_down, rising, reflect_lock, reflect_brightness, expire_toast, set_down, tap_at, reflect,
  handle_touch, go_dark, act, sleep_step, turn, run,
}

-- The number of power operations, wake requests included, among the outputs.
abbrev pub operations : List Output → ℕ
operations [] = 0
operations (wol port ∷ l) = suc (operations l)
operations (command action ip ∷ l) = suc (operations l)
operations (draw s ∷ l) = operations l
operations (notice s ∷ l) = operations l

-- The number of times that a finger comes down while operations are not locked.
abbrev pub unlocked_taps : Bool → List Turn → ℕ
unlocked_taps was_down [] = 0
unlocked_taps was_down (t ∷ ts) =
    bit (is_down t.touch && not was_down && not t.locked_at_run)
    + unlocked_taps (is_down t.touch) ts

operations-append : (l m : List Output) → operations (l ++ m) ≡ operations l + operations m
operations-append [] m = omega arith
operations-append (wol port ∷ l) m = omega (arith, operations-append l m)
operations-append (command action ip ∷ l) m = omega (arith, operations-append l m)
operations-append (draw s ∷ l) m = operations-append l m
operations-append (notice s ∷ l) m = operations-append l m

operations-refresh : (s : Screen) → operations (refresh s) ≡ 0
operations-refresh main = refl
operations-refresh calendar = refl
operations-refresh (confirm action) = refl

operations-notify :
    (t : Turn) (report : Text) (l : List Output)
    → operations (notify_panel_action t report ++ l) ≡ operations l
unfolding notify_panel_action
operations-notify t report l = ground arith

operations-press_wake :
    (t : Turn) (p : Panel) → operations (press_wake t p).1 ≡ bit (not t.locked_at_run)
unfolding press_wake reject_locked
operations-press_wake t p = ground (
  arith,
  operations-notify t (wake_report t.wol_sent).1 (refresh p.screen),
  operations-refresh p.screen,
)

operations-press_ok :
    (t : Turn) (p : Panel) (action : PowerAction)
    → operations (press_ok t p action).1 ≡ bit (not t.locked_at_run)
unfolding press_ok reject_locked
operations-press_ok t p action =
    ground (arith, operations-notify t (command_report action t.bridge).1 (draw main ∷ []))

operations-press_screen :
    (s : Screen) (t : Turn) (p : Panel) (x y : ℕ)
    → operations (press_screen s t p x y).1 ≤ bit (not t.locked_at_run)
unfolding press_button press_decision
operations-press_screen main t p x y = ground (arith, operations-press_wake t p)
operations-press_screen calendar t p x y = ground (arith, operations-press_wake t p)
operations-press_screen (confirm action) t p x y = ground (arith, operations-press_ok t p action)

operations-tap :
    (t : Turn) (p : Panel) (x y : ℕ) → operations (tap t p x y).1 ≤ bit (not t.locked_at_run)
unfolding tap reject_locked
operations-tap t p x y = ground (arith, operations-press_screen p.screen t p x y)

operations-tap_at :
    (touch : Option (ℕ × ℕ)) (t : Turn) (p : Panel)
    → operations (tap_at touch t p).1
      ≤ bit (is_down touch && not p.touch_was_down && not t.locked_at_run)
operations-tap_at none t p = omega arith
operations-tap_at (some (x, y)) t p = ground (arith, operations-tap t p x y)

operations-expire_toast : (t : Turn) (p : Panel) → operations (expire_toast t p).1 ≡ 0
unfolding expire_toast
operations-expire_toast t p = ground (arith, operations-refresh p.screen)

-- The bound of one turn.
abbrev operates : Turn → Panel → ℕ
operates t p = bit (is_down t.touch && not p.touch_was_down && not t.locked_at_run)

operations-handle_touch : (t : Turn) (p : Panel) → operations (handle_touch t p).1 ≤ operates t p
unfolding handle_touch
operations-handle_touch t p = omega (
  arith,
  operations-append ((tap_at t.touch t p).1 ++ []) (expire_toast t _).1,
  operations-append (tap_at t.touch t p).1 [],
  operations-tap_at t.touch t p,
  operations-expire_toast t (set_down t (tap_at t.touch t p).0).0,
)

operations-dark :
    (b : Bool) (t : Turn) (p : Panel) → operations (handle_touch t (go_dark b p)).1 ≤ operates t p
operations-dark true t p = operations-handle_touch t _
operations-dark false t p = operations-handle_touch t p

operations-act : (a : Action) (t : Turn) (p : Panel) → operations (act a t p).1 ≤ operates t p
unfolding act
operations-act no_action t p = operations-handle_touch t p
operations-act reset_idle t p = operations-handle_touch t _
operations-act turn_off t p = operations-dark t.backlight_written t p
operations-act wake t p = omega arith

operations-reflect :
    (t : Turn) (p : Panel)
    → (operations (reflect t p).1 ≡ 0) × ((reflect t p).0.touch_was_down ≡ p.touch_was_down)
unfolding reflect reflect_lock reflect_brightness
operations-reflect t p = ground (arith, operations-refresh p.screen)

operations-turn : (t : Turn) (p : Panel) → operations (turn t p).1 ≤ operates t p
unfolding turn sleep_step
operations-turn t p =
    let p' = (reflect t p).0 in
    let a = decide p'.backlight_on (rising t p') (t.now - p'.last_touch_activity_at) in
    subst (λ b. operations (turn t p).1 ≤ bit (is_down t.touch && not b && not t.locked_at_run))
      (operations-reflect t p).1
      (omega (
        arith,
        operations-append (reflect t p).1 (act a t p').1,
        operations-reflect t p,
        operations-act a t p',
      ))

handle_touch_down : (t : Turn) (p : Panel) → (handle_touch t p).0.touch_was_down ≡ is_down t.touch
unfolding handle_touch expire_toast
handle_touch_down t p = ground arith

act_down : (a : Action) (t : Turn) (p : Panel) → (act a t p).0.touch_was_down ≡ is_down t.touch
unfolding act
act_down no_action t p = handle_touch_down t p
act_down reset_idle t p = handle_touch_down t _
act_down turn_off t p = handle_touch_down t _
act_down wake t p = refl

turn_down : (t : Turn) (p : Panel) → (turn t p).0.touch_was_down ≡ is_down t.touch
unfolding turn sleep_step
turn_down t p = act_down _ t _

-- Over any sequence of turns the panel operates the PC, by a wake request or a power command, at
-- most as often as a finger comes down on it while operations are not locked; a finger that stays
-- down operates nothing more, and under the lock nothing is operated.
pub operations-le-taps :
    (p : Panel) (ts : List Turn) → operations (run p ts).1 ≤ unlocked_taps p.touch_was_down ts
unfolding run
operations-le-taps p [] = omega arith
operations-le-taps p (t ∷ ts) = omega (
  arith,
  operations-append (turn t p).1 (run (turn t p).0 ts).1,
  operations-turn t p,
  subst (λ b. operations (run (turn t p).0 ts).1 ≤ unlocked_taps b ts) (turn_down t p)
      (operations-le-taps (turn t p).0 ts),
)
