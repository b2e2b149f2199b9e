-- ===== src/Tests/Panels.antt =====
-- Runs of the modules under Panel.
use m5stack_pc_remote.Base.{
  ℕ, ◌≤◌, ◌<◌, ◌≡◌, refl, ◌⊎◌, true, false, Option, none, some, [], ◌∷◌, arith,
}
use m5stack_pc_remote.Base.Result.{ok}
use m5stack_pc_remote.Base.Text.{text}
use m5stack_pc_remote.Wire.PowerAction.{reboot}
use m5stack_pc_remote.Panel.Layout.{
  display_width, display_height, main, calendar, hits, hits_one, buttons, contains,
}
use m5stack_pc_remote.Panel.Touch.{Turn, Panel}
use m5stack_pc_remote.Panel.Turns.{run}
use m5stack_pc_remote.Panel.Shown.{Leads, run-Leads}
use m5stack_pc_remote.Panel.Taps.{operations, unlocked_taps, operations-le-taps}
use m5stack_pc_remote.Panel.Backlight.{changed_brightness_stays_lit}
use m5stack_pc_remote.Panel.Command.{commands}
use m5stack_pc_remote.Panel.Command.Reached.{run-commands}

-- A turn at a time with a touch, while the PC is on.
abbrev turn_at : ℕ → Option (ℕ × ℕ) → Turn
turn_at now touch = record {
  now = now;
  touch = touch;
  locked_at_start = false;
  locked_at_tap = false;
  locked_at_run = false;
  pc_online = true;
  brightness = 80;
  brightness_written = true;
  backlight_written = true;
  wol_sent = true;
  wol_port = 9;
  bridge = ok 202;
  pc_ip_address = text "192.168.1.2";
  has_notifier = true;
}

abbrev lit_panel : Panel
lit_panel = record {
  screen = main;
  locked = false;
  toast = none;
  toast_at = 0;
  touch_was_down = false;
  backlight_on = true;
  last_touch_activity_at = 0;
  applied_brightness = 80;
  supply_on = true;
  wake_watch = none;
}

abbrev dark_panel : Panel
dark_panel = record lit_panel { backlight_on = false; applied_brightness = 30; supply_on = false }

-- A tap on REBOOT, a lift and a tap on OK.
abbrev first_tap : Turn
first_tap = turn_at 1_000 (some (120, 190))

abbrev lift : Turn
lift = turn_at 1_100 none

abbrev second_tap : Turn
second_tap = turn_at 1_200 (some (180, 160))

hits_one_example :
    (hits (buttons calendar) 30 160 ≤ 1)
    × ((hits (buttons calendar) 30 160 ≡ 0) ⊎ ((30 < display_width) × (160 < display_height)))
hits_one_example = hits_one calendar 30 160

run-Leads_example :
    Leads main
      (run lit_panel (first_tap ∷ lift ∷ second_tap ∷ [])).1
      (run lit_panel (first_tap ∷ lift ∷ second_tap ∷ [])).0.screen
run-Leads_example = run-Leads lit_panel (first_tap ∷ lift ∷ second_tap ∷ [])

operations-le-taps_example :
    operations (run lit_panel (first_tap ∷ lift ∷ second_tap ∷ [])).1
    ≤ unlocked_taps false (first_tap ∷ lift ∷ second_tap ∷ [])
operations-le-taps_example = operations-le-taps lit_panel (first_tap ∷ lift ∷ second_tap ∷ [])

changed_brightness_stays_lit_example :
    ((run dark_panel (lift ∷ turn_at 99_999 none ∷ [])).0.supply_on ≡ true)
    × ((run dark_panel (lift ∷ turn_at 99_999 none ∷ [])).0.backlight_on ≡ false)
changed_brightness_stays_lit_example =
    changed_brightness_stays_lit dark_panel lift (turn_at 99_999 none ∷ []) refl (omega arith) refl
      refl (refl, tt)

run-commands_example :
    (commands (run lit_panel (first_tap ∷ lift ∷ second_tap ∷ [])).1
      ≡ (reboot, text "192.168.1.2") ∷ [])
    × ((run lit_panel (first_tap ∷ lift ∷ second_tap ∷ [])).0.screen ≡ main)
unfolding contains
run-commands_example =
    run-commands reboot lit_panel first_tap lift second_tap 120 190 180 160
      (record { at_screen = refl; is_lit = refl; finger = refl }) refl refl refl refl refl refl refl
      refl refl (omega arith)
