-- ===== src/Panel/Command/Reached.antt =====
-- A power command is reached in three turns.
use m5stack_pc_remote.Base.{
  ℕ, ◌+◌, ◌<◌, ◌≡◌, refl, sym, ap, ◌∙◌, Bool, true, false, none, some, List, [], ◌∷◌, ◌++◌, arith,
}
use mathlib.Core.Path.{subst}
use m5stack_pc_remote.Wire.PowerAction.{PowerAction}
use m5stack_pc_remote.Panel.Layout.{Screen, main, confirm, contains, ok_button}
use m5stack_pc_remote.Panel.Touch.{Turn, Panel}
use m5stack_pc_remote.Panel.Turns.{reflect, sleep_step, turn, run}
use m5stack_pc_remote.Panel.Command.{commands, commands-append, Opens, IsAt, commands-reflect}
use m5stack_pc_remote.Panel.Command.Steps.{IsSince, idle_time, step-Opens, step_lift, step_confirms}

turn_lem :
    (t : Turn) (p : Panel)
    → (commands (turn t p).1
        ≡ commands (reflect t p).1 ++ commands (sleep_step t (reflect t p).0).1)
      × ((turn t p).0 ≡ (sleep_step t (reflect t p).0).0)
unfolding turn
turn_lem t p = (commands-append (reflect t p).1 _, refl)

turn-Opens :
    (action : PowerAction) (t : Turn) (p : Panel) (x y : ℕ)
    → IsAt main false p
    → t.touch ≡ some (x, y)
    → t.locked_at_tap ≡ false
    → Opens action x y
    → t.pc_online ≡ true
    → (commands (turn t p).1 ≡ []) × IsSince (confirm action) true t.now (turn t p).0
turn-Opens action t p x y i e free o on =
    let r = commands-reflect t p main false i in
    let s = step-Opens action t (reflect t p).0 x y r.1 e free o on in
    (
      (turn_lem t p).0 ∙ rw r.0 s.0,
      subst (IsSince (confirm action) true t.now) (sym (turn_lem t p).1) s.1,
    )

turn_lift :
    (t : Turn) (p : Panel) (s : Screen) (down : Bool)
    → IsAt s down p
    → t.touch ≡ none
    → idle_time t p < 60_000
    → (commands (turn t p).1 ≡ []) × IsAt s false (turn t p).0
turn_lift t p s down i e short =
    let r = commands-reflect t p s down i in
    let l = step_lift t (reflect t p).0 s down r.1 e (omega (arith, short, r.2)) in
    ((turn_lem t p).0 ∙ rw r.0 l.0, subst (IsAt s false) (sym (turn_lem t p).1) l.1)

turn_confirms :
    (action : PowerAction) (t : Turn) (p : Panel) (x y : ℕ)
    → IsAt (confirm action) false p
    → t.touch ≡ some (x, y)
    → t.locked_at_tap ≡ false
    → t.locked_at_run ≡ false
    → contains ok_button x y ≡ true
    → (commands (turn t p).1 ≡ (action, t.pc_ip_address) ∷ []) × ((turn t p).0.screen ≡ main)
turn_confirms action t p x y i e free free' o =
    let r = commands-reflect t p (confirm action) false i in
    let s = step_confirms action t (reflect t p).0 x y r.1 e free free' o in
    ((turn_lem t p).0 ∙ rw r.0 s.0, ap (λ q. q.screen) (turn_lem t p).1 ∙ s.1)

commands-run :
    (p : Panel) (t : Turn) (ts : List Turn)
    → commands (run p (t ∷ ts)).1 ≡ commands (turn t p).1 ++ commands (run (turn t p).0 ts).1
unfolding run
commands-run p t ts = commands-append (turn t p).1 _

-- On a lit main screen, with the finger up and the PC on, the three turns of a tap on the button of
-- REBOOT or SHUTDOWN, a lift within a minute and a tap on OK send exactly one power command, of
-- that action to the address of the settings, and lead back to the main screen, if operations are
-- locked neither at the taps nor when the command runs.
pub run-commands :
    (action : PowerAction) (p : Panel) (t1 t2 t3 : Turn) (x1 y1 x3 y3 : ℕ)
    → IsAt main false p
    → t1.touch ≡ some (x1, y1)
    → t2.touch ≡ none
    → t3.touch ≡ some (x3, y3)
    → Opens action x1 y1
    → contains ok_button x3 y3 ≡ true
    → t1.pc_online ≡ true
    → t1.locked_at_tap ≡ false
    → t3.locked_at_tap ≡ false
    → t3.locked_at_run ≡ false
    → t2.now < t1.now + 60_000
    → (commands (run p (t1 ∷ t2 ∷ t3 ∷ [])).1 ≡ (action, t3.pc_ip_address) ∷ [])
      × ((run p (t1 ∷ t2 ∷ t3 ∷ [])).0.screen ≡ main)
unfolding run
run-commands action p t1 t2 t3 x1 y1 x3 y3 i e1 e2 e3 opens hit on free1 free3 run3 short =
    let a = turn-Opens action t1 p x1 y1 i e1 free1 opens on in
    let p1 = (turn t1 p).0 in
    let b = turn_lift t2 p1 (confirm action) true a.1.is_at e2 (omega (arith, a.1.last_touch)) in
    let p2 = (turn t2 p1).0 in
    let c = turn_confirms action t3 p2 x3 y3 b.1 e3 free3 run3 hit in
    (
      commands-run p t1 (t2 ∷ t3 ∷ [])
          ∙ rw a.0 (commands-run p1 t2 (t3 ∷ []) ∙ rw b.0 (commands-run p2 t3 [] ∙ rw c.0 refl)),
      c.1,
    )
