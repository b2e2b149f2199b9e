-- ===== src/Panel/Turns.antt =====
-- A turn of the loop of firmware/src/main.rs, as far as the touch panel goes: the lock and the
-- brightness are reflected, the backlight is decided, a tap is run, and an old toast is removed.
-- The redrawing of the clock band is left out.
use m5stack_pc_remote.Base.{
  ℕ, ◌-◌, Bool, true, false, not, ◌&&◌, ◌||◌, Option, none, some, List, [], ◌∷◌, ◌++◌, ◌==◌, same,
  if◌then◌else◌,
}
use m5stack_pc_remote.Watch.Timers.{
  Action, no_action, reset_idle, turn_off, wake, decide, is_expired,
}
use m5stack_pc_remote.Panel.Touch.{Turn, Output, draw, Panel, refresh, tap}

-- One part of a turn after another.
infixl 5 ◌|>◌
abbrev pub ◌|>◌ : Panel × List Output → (Panel → Panel × List Output) → Panel × List Output
(p, l) |> f = ((f p).0, l ++ (f p).1)

abbrev pub is_down : Option (ℕ × ℕ) → Bool
is_down none = false
is_down (some point) = true

-- A touch that was not there in the turn before.
abbrev pub rising : Turn → Panel → Bool
rising t p = is_down t.touch && not p.touch_was_down

unfoldable pub reflect_lock : Turn → Panel → Panel × List Output
reflect_lock t p =
    if same t.locked_at_start p.locked
    then (p, [])
    else (record p { locked = t.locked_at_start }, refresh p.screen)

-- `board::apply_brightness` also switches the supply of the backlight on.
unfoldable pub reflect_brightness : Turn → Panel → Panel × List Output
reflect_brightness t p = (
  if t.brightness == p.applied_brightness || not t.brightness_written
      then p
      else record p { applied_brightness = t.brightness; supply_on = true },
  [],
)

unfoldable pub expire_toast : Turn → Panel → Panel × List Output
unfolding is_expired
expire_toast t p =
    if is_expired (elim p.toast [ none ↦ false | some s ↦ true ]) (t.now - p.toast_at)
    then (record p { toast = none }, refresh p.screen)
    else (p, [])

abbrev pub set_down : Turn → Panel → Panel × List Output
set_down t p = (record p { touch_was_down = is_down t.touch }, [])

abbrev pub tap_at : Option (ℕ × ℕ) → Turn → Panel → Panel × List Output
tap_at none t p = (p, [])
tap_at (some (x, y)) t p = if p.touch_was_down then (p, []) else tap t p x y

-- What follows the `match` of the backlight. A refused tap skips the expiry of its toast, which is
-- new then.
unfoldable pub handle_touch : Turn → Panel → Panel × List Output
unfolding expire_toast tap
handle_touch t p = tap_at t.touch t p |> set_down t |> expire_toast t

-- The outcomes of the writes to the power controller.
abbrev pub go_dark : Bool → Panel → Panel
go_dark true p = record p { backlight_on = false; supply_on = false }
go_dark false p = p

abbrev pub light_up : Bool → ℕ → Panel → Panel
light_up true now p = record p {
  backlight_on = true;
  supply_on = true;
  last_touch_activity_at = now;
}
light_up false now p = p

-- The arms of the backlight; waking up ends the turn, so that the touch goes no further.
unfoldable pub act : Action → Turn → Panel → Panel × List Output
unfolding handle_touch
act no_action t p = handle_touch t p
act reset_idle t p = handle_touch t (record p { last_touch_activity_at = t.now })
act turn_off t p = handle_touch t (go_dark t.backlight_written p)
act wake t p = (light_up t.backlight_written t.now p, draw p.screen ∷ []) |> set_down t

unfoldable pub sleep_step : Turn → Panel → Panel × List Output
unfolding decide act
sleep_step t p = act (decide p.backlight_on (rising t p) (t.now - p.last_touch_activity_at)) t p

-- The part of a turn before the touch is looked at.
unfoldable pub reflect : Turn → Panel → Panel × List Output
unfolding reflect_lock reflect_brightness
reflect t p = reflect_lock t p |> reflect_brightness t

unfoldable pub turn : Turn → Panel → Panel × List Output
unfolding reflect sleep_step
turn t p = reflect t p |> sleep_step t

-- The panel after a sequence of turns, and what they sent and drew.
unfoldable pub run : Panel → List Turn → Panel × List Output
unfolding turn
run p [] = (p, [])
run p (t ∷ ts) = let rest = run (turn t p).0 ts in (rest.0, (turn t p).1 ++ rest.1)
