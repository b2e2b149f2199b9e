-- ===== src/Panel/Command.antt =====
-- From the button on the main screen to the command: two taps with the finger lifted in between.
mod Steps
pub mod Reached
use m5stack_pc_remote.Base.{ℕ, ◌≡◌, refl, ap, Bool, true, false, List, [], ◌∷◌, ◌++◌, arith}
use m5stack_pc_remote.Base.Text.{Text}
use mathlib.Core.List.{append-nil}
use m5stack_pc_remote.Wire.PowerAction.{PowerAction, reboot, shutdown, sleep}
use m5stack_pc_remote.Panel.Layout.{
  Screen, main, calendar, confirm, contains, reboot_button, shutdown_button, ok_button,
}
use m5stack_pc_remote.Panel.Touch.{
  Turn, Output, draw, wol, command, notice, Panel, refresh, tap, press_button, press_ok,
  press_decision,
}
use m5stack_pc_remote.Panel.Turns.{
  set_down, is_down, reflect, reflect_lock, reflect_brightness, handle_touch, expire_toast, tap_at,
}

-- The power commands among the outputs.
abbrev pub commands : List Output → List (PowerAction × Text)
commands [] = []
commands (command action ip ∷ l) = (action, ip) ∷ commands l
commands (wol port ∷ l) = commands l
commands (draw s ∷ l) = commands l
commands (notice s ∷ l) = commands l

pub commands-append : (l m : List Output) → commands (l ++ m) ≡ commands l ++ commands m
commands-append [] m = refl
commands-append (command action ip ∷ l) m = ap (λ k. (action, ip) ∷ k) (commands-append l m)
commands-append (wol port ∷ l) m = commands-append l m
commands-append (draw s ∷ l) m = commands-append l m
commands-append (notice s ∷ l) m = commands-append l m

-- The button that opens the confirmation of an action; there is none for `sleep`.
abbrev pub Opens : PowerAction → ℕ → ℕ → Type 0
Opens reboot x y = contains reboot_button x y ≡ true
Opens shutdown x y = contains shutdown_button x y ≡ true
Opens sleep x y = ⊥

-- A lit panel on a screen, with the finger up or down.
pub record IsAt (s : Screen) (down : Bool) (p : Panel) : Type 0 where
  pub at_screen : p.screen ≡ s
  pub is_lit : p.backlight_on ≡ true
  pub finger : p.touch_was_down ≡ down

press-Opens :
    (action : PowerAction) (t : Turn) (p : Panel) (x y : ℕ)
    → Opens action x y
    → t.pc_online ≡ true
    → press_button t p x y ≡ (record p { screen = confirm action }, draw (confirm action) ∷ [])
unfolding press_button contains
press-Opens reboot t p x y o on = ground arith
press-Opens shutdown t p x y o on = ground arith
press-Opens sleep t p x y o on = absurd o

press_confirms :
    (action : PowerAction) (t : Turn) (p : Panel) (x y : ℕ)
    → contains ok_button x y ≡ true
    → press_decision t p action x y ≡ press_ok t p action
unfolding press_decision contains
press_confirms action t p x y o = ground arith

commands-refresh : (s : Screen) → commands (refresh s) ≡ []
commands-refresh main = refl
commands-refresh calendar = refl
commands-refresh (confirm action) = refl

pub commands-reflect :
    (t : Turn) (p : Panel) (s : Screen) (down : Bool)
    → IsAt s down p
    → (commands (reflect t p).1 ≡ [])
      × IsAt s down (reflect t p).0
      × ((reflect t p).0.last_touch_activity_at ≡ p.last_touch_activity_at)
unfolding reflect reflect_lock reflect_brightness
commands-reflect t p s down i = ground (arith, commands-refresh p.screen)

pub expire_toast-keeps :
    (t : Turn) (p : Panel)
    → (commands (expire_toast t p).1 ≡ [])
      × ((expire_toast t p).0.screen ≡ p.screen)
      × ((expire_toast t p).0.backlight_on ≡ p.backlight_on)
      × ((expire_toast t p).0.touch_was_down ≡ p.touch_was_down)
      × ((expire_toast t p).0.last_touch_activity_at ≡ p.last_touch_activity_at)
unfolding expire_toast
expire_toast-keeps t p = ground (arith, commands-refresh p.screen)

-- What the rest of a turn keeps of a tap's result `r`.
pub handle_touch-keeps :
    (t : Turn) (p : Panel)
    → (commands (handle_touch t p).1 ≡ commands (tap_at t.touch t p).1)
      × ((handle_touch t p).0.screen ≡ (tap_at t.touch t p).0.screen)
      × ((handle_touch t p).0.backlight_on ≡ (tap_at t.touch t p).0.backlight_on)
      × ((handle_touch t p).0.touch_was_down ≡ is_down t.touch)
      × ((handle_touch t p).0.last_touch_activity_at
          ≡ (tap_at t.touch t p).0.last_touch_activity_at)
unfolding handle_touch
handle_touch-keeps t p =
    let k = expire_toast-keeps t (set_down t (tap_at t.touch t p).0).0 in
    (simp (commands-append, k.0, append-nil), k.1, k.2, k.3, k.4)

pub tap-Opens :
    (action : PowerAction) (t : Turn) (p : Panel) (x y : ℕ)
    → p.screen ≡ main
    → t.locked_at_tap ≡ false
    → Opens action x y
    → t.pc_online ≡ true
    → tap t p x y ≡ (record p { screen = confirm action }, draw (confirm action) ∷ [])
unfolding tap
tap-Opens action t p x y m free o on = ground (arith, press-Opens action t p x y o on)

pub tap_confirms :
    (action : PowerAction) (t : Turn) (p : Panel) (x y : ℕ)
    → p.screen ≡ confirm action
    → t.locked_at_tap ≡ false
    → contains ok_button x y ≡ true
    → tap t p x y ≡ press_ok t p action
unfolding tap
tap_confirms action t p x y m free o = ground (arith, press_confirms action t p x y o)
