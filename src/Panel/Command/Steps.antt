-- ===== src/Panel/Command/Steps.antt =====
-- The part of a turn that looks at the touch, for the turns that lead to a command.
use m5stack_pc_remote.Base.{
  ℕ, ◌-◌, ◌<◌, ◌≡◌, refl, sym, ap, ◌∙◌, Bool, true, false, none, some, [], ◌∷◌, arith,
}
use mathlib.Core.Path.{subst}
use m5stack_pc_remote.Wire.PowerAction.{PowerAction}
use m5stack_pc_remote.Watch.Timers.{no_action, reset_idle, decide}
use m5stack_pc_remote.Panel.Layout.{Screen, main, confirm, contains, ok_button}
use m5stack_pc_remote.Panel.Touch.{Turn, Panel, tap, press_ok, notify_panel_action}
use m5stack_pc_remote.Panel.Turns.{is_down, handle_touch, act, sleep_step, tap_at, rising}
use m5stack_pc_remote.Panel.Command.{
  commands, Opens, IsAt, handle_touch-keeps, tap-Opens, tap_confirms,
}

-- A lit panel on a screen, with the finger up or down, and the time of the last touch.
pub record IsSince (s : Screen) (down : Bool) (since : ℕ) (p : Panel) : Type 0 where
  pub is_at : IsAt s down p
  pub last_touch : p.last_touch_activity_at ≡ since

abbrev pub idle_time : Turn → Panel → ℕ
idle_time t p = t.now - p.last_touch_activity_at

decide_tap :
    (t : Turn) (p : Panel) (s : Screen) (x y : ℕ)
    → IsAt s false p
    → t.touch ≡ some (x, y)
    → decide p.backlight_on (rising t p) (idle_time t p) ≡ reset_idle
unfolding decide
decide_tap t p s x y i e = ground (arith, i.is_lit, i.finger)

decide_lift :
    (t : Turn) (p : Panel) (s : Screen) (down : Bool)
    → IsAt s down p
    → t.touch ≡ none
    → idle_time t p < 60_000
    → decide p.backlight_on (rising t p) (idle_time t p) ≡ no_action
unfolding decide
decide_lift t p s down i e short = ground (arith, i.is_lit)

-- A tap on a lit panel runs, and restarts the idle time.
sleep_step_tap :
    (t : Turn) (p : Panel) (s : Screen) (x y : ℕ)
    → IsAt s false p
    → t.touch ≡ some (x, y)
    → sleep_step t p ≡ handle_touch t (record p { last_touch_activity_at = t.now })
unfolding sleep_step act
sleep_step_tap t p s x y i e = ap (λ a. act a t p) (decide_tap t p s x y i e)

sleep_step_lift :
    (t : Turn) (p : Panel) (s : Screen) (down : Bool)
    → IsAt s down p
    → t.touch ≡ none
    → idle_time t p < 60_000
    → sleep_step t p ≡ handle_touch t p
unfolding sleep_step act
sleep_step_lift t p s down i e short = ap (λ a. act a t p) (decide_lift t p s down i e short)

-- The result of a tap on a lit panel.
tapped :
    (t : Turn) (p : Panel) (x y : ℕ)
    → p.touch_was_down ≡ false
    → t.touch ≡ some (x, y)
    → tap_at t.touch t p ≡ tap t p x y
tapped t p x y up e = ap (λ o. tap_at o t p) e ∙ rw up refl

press_ok-sends :
    (t : Turn) (p : Panel) (action : PowerAction)
    → t.locked_at_run ≡ false
    → (commands (press_ok t p action).1 ≡ (action, t.pc_ip_address) ∷ [])
      × ((press_ok t p action).0.screen ≡ main)
unfolding press_ok notify_panel_action
press_ok-sends t p action free = ground arith

-- The three steps of a part of a turn after the reflection.
pub step-Opens :
    (action : PowerAction) (t : Turn) (p : Panel) (x y : ℕ)
    → IsAt main false p
    → t.touch ≡ some (x, y)
    → t.locked_at_tap ≡ false
    → Opens action x y
    → t.pc_online ≡ true
    → (commands (sleep_step t p).1 ≡ []) × IsSince (confirm action) true t.now (sleep_step t p).0
step-Opens action t p x y i e free o on =
    let p' = record p { last_touch_activity_at = t.now } in
    let k = handle_touch-keeps t p' in
    let r = tapped t p' x y i.finger e ∙ tap-Opens action t p' x y i.at_screen free o on in
    subst (λ z. (commands z.1 ≡ []) × IsSince (confirm action) true t.now z.0)
      (sym (sleep_step_tap t p main x y i e))
      (
        k.0 ∙ ap (λ z. commands z.1) r,
        record {
          is_at = record {
            at_screen = k.1 ∙ ap (λ z. z.0.screen) r;
            is_lit = k.2 ∙ ap (λ z. z.0.backlight_on) r ∙ i.is_lit;
            finger = k.3 ∙ ap is_down e;
          };
          last_touch = k.4 ∙ ap (λ z. z.0.last_touch_activity_at) r;
        },
      )

pub step_lift :
    (t : Turn) (p : Panel) (s : Screen) (down : Bool)
    → IsAt s down p
    → t.touch ≡ none
    → idle_time t p < 60_000
    → (commands (sleep_step t p).1 ≡ []) × IsAt s false (sleep_step t p).0
step_lift t p s down i e short =
    let k = handle_touch-keeps t p in
    let r = ap (λ o. tap_at o t p) e in
    subst (λ z. (commands z.1 ≡ []) × IsAt s false z.0) (sym (sleep_step_lift t p s down i e short))
      (
        k.0 ∙ ap (λ z. commands z.1) r,
        record {
          at_screen = k.1 ∙ ap (λ z. z.0.screen) r ∙ i.at_screen;
          is_lit = k.2 ∙ ap (λ z. z.0.backlight_on) r ∙ i.is_lit;
          finger = k.3 ∙ ap is_down e;
        },
      )

pub step_confirms :
    (action : PowerAction) (t : Turn) (p : Panel) (x y : ℕ)
    → IsAt (confirm action) false p
    → t.touch ≡ some (x, y)
    → t.locked_at_tap ≡ false
    → t.locked_at_run ≡ false
    → contains ok_button x y ≡ true
    → (commands (sleep_step t p).1 ≡ (action, t.pc_ip_address) ∷ [])
      × ((sleep_step t p).0.screen ≡ main)
step_confirms action t p x y i e free free' o =
    let p' = record p { last_touch_activity_at = t.now } in
    let k = handle_touch-keeps t p' in
    let r = tapped t p' x y i.finger e ∙ tap_confirms action t p' x y i.at_screen free o in
    let sent = press_ok-sends t p' action free' in
    subst (λ z. (commands z.1 ≡ (action, t.pc_ip_address) ∷ []) × (z.0.screen ≡ main))
      (sym (sleep_step_tap t p (confirm action) x y i e))
      (k.0 ∙ ap (λ z. commands z.1) r ∙ sent.0, k.1 ∙ ap (λ z. z.0.screen) r ∙ sent.1)
