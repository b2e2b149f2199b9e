-- ===== src/Panel/Backlight.antt =====
-- The backlight over turns in which nobody touches the panel.
use m5stack_pc_remote.Base.{ℕ, ◌≡◌, sym, ◌≢◌, true, false, none, List, [], ◌∷◌, arith, All}
use mathlib.Core.Path.{subst}
use m5stack_pc_remote.Watch.Timers.{no_action, decide}
use m5stack_pc_remote.Panel.Touch.{Turn, Panel}
use m5stack_pc_remote.Panel.Turns.{
  rising, reflect, reflect_lock, reflect_brightness, handle_touch, expire_toast, act, sleep_step,
  turn, run,
}

abbrev pub IsUntouched : Turn → Type 0
IsUntouched t = t.touch ≡ none

-- The loop takes the backlight for dark, but its supply is on.
abbrev IsStray : Panel → Type 0
IsStray p = (p.backlight_on ≡ false) × (p.supply_on ≡ true)

handle_touch-IsStray :
    (t : Turn) (p : Panel) → IsUntouched t → IsStray p → IsStray (handle_touch t p).0
unfolding handle_touch expire_toast
handle_touch-IsStray t p u s = rw u (ground arith)

decide_dark :
    (t : Turn) (p : Panel) (idle : ℕ)
    → IsUntouched t
    → p.backlight_on ≡ false
    → decide p.backlight_on (rising t p) idle ≡ no_action
unfolding decide
decide_dark t p idle u dark = ground arith

sleep_step-IsStray : (t : Turn) (p : Panel) → IsUntouched t → IsStray p → IsStray (sleep_step t p).0
unfolding sleep_step act
sleep_step-IsStray t p u s =
    subst (λ a. IsStray (act a t p).0) (sym (decide_dark t p _ u s.0))
      (handle_touch-IsStray t p u s)

reflect-IsStray : (t : Turn) (p : Panel) → IsStray p → IsStray (reflect t p).0
unfolding reflect reflect_lock reflect_brightness
reflect-IsStray t p s = ground arith

reflect-turns-IsStray :
    (t : Turn) (p : Panel)
    → p.backlight_on ≡ false
    → t.brightness ≢ p.applied_brightness
    → t.brightness_written ≡ true
    → IsStray (reflect t p).0
unfolding reflect reflect_lock reflect_brightness
reflect-turns-IsStray t p dark changed written = ground arith

run-IsStray : (p : Panel) (ts : List Turn) → All IsUntouched ts → IsStray p → IsStray (run p ts).0
unfolding run turn
run-IsStray p [] u s = s
run-IsStray p (t ∷ ts) (u, us) s =
    run-IsStray (turn t p).0 ts us (sleep_step-IsStray t _ u (reflect-IsStray t p s))

-- If the brightness is changed while the backlight is dark, the write switches the supply of the
-- backlight on, and as long as nobody touches the panel the supply stays on, however long that is:
-- the loop still takes the backlight for dark and does not turn it off.
pub changed_brightness_stays_lit :
    (p : Panel) (t : Turn) (ts : List Turn)
    → p.backlight_on ≡ false
    → t.brightness ≢ p.applied_brightness
    → t.brightness_written ≡ true
    → IsUntouched t
    → All IsUntouched ts
    → ((run p (t ∷ ts)).0.supply_on ≡ true) × ((run p (t ∷ ts)).0.backlight_on ≡ false)
unfolding run turn
changed_brightness_stays_lit p t ts dark changed written u us =
    let (supplied, off) =
      run-IsStray (turn t p).0 ts us
        (sleep_step-IsStray t _ u (reflect-turns-IsStray t p dark changed written)) in
    (off, supplied)
