-- ===== src/Panel/Layout.antt =====
-- The buttons of firmware/src/ui.rs with their hit areas, and the screens of firmware/src/main.rs.
-- A touch is at a column and a row, which the touch controller reports as unsigned numbers.
use m5stack_pc_remote.Base.{
  ℕ, ◌+◌, ◌≤◌, ◌<◌, ◌≡◌, ◌⊎◌, Bool, ◌&&◌, ◌||◌, List, [], ◌∷◌, arith, ltb, leb, bit,
}
use m5stack_pc_remote.Wire.PowerAction.{PowerAction}

abbrev pub display_width : ℕ
display_width = 320

abbrev pub display_height : ℕ
display_height = 240

pub record Button : Type 0 where
  pub x : ℕ
  pub y : ℕ
  pub w : ℕ
  pub h : ℕ

unfoldable pub contains : Button → ℕ → ℕ → Bool
contains b x y = leb b.x x && ltb x (b.x + b.w) && leb b.y y && ltb y (b.y + b.h)

abbrev pub wake_button : Button
wake_button = record { x = 10; y = 180; w = 95; h = 48 }

abbrev pub reboot_button : Button
reboot_button = record { x = 112; y = 180; w = 95; h = 48 }

abbrev pub shutdown_button : Button
shutdown_button = record { x = 214; y = 180; w = 95; h = 48 }

abbrev pub clock_tap_zone : Button
clock_tap_zone = record { x = 24; y = 138; w = 272; h = 32 }

abbrev pub calendar_back_button : Button
calendar_back_button = record { x = 20; y = 150; w = 130; h = 26 }

abbrev pub cancel_button : Button
cancel_button = record { x = 20; y = 150; w = 130; h = 60 }

abbrev pub ok_button : Button
ok_button = record { x = 170; y = 150; w = 130; h = 60 }

pub data Screen : Type 0 where
  main calendar : Screen
  confirm : PowerAction → Screen

-- What a screen reacts to; `reboot` and `shutdown` are there while the PC is on.
unfoldable pub buttons : Screen → List Button
buttons main = wake_button ∷ reboot_button ∷ shutdown_button ∷ clock_tap_zone ∷ []
buttons calendar = wake_button ∷ reboot_button ∷ shutdown_button ∷ calendar_back_button ∷ []
buttons (confirm action) = cancel_button ∷ ok_button ∷ []

-- How many of the buttons contain a point.
unfoldable pub hits : List Button → ℕ → ℕ → ℕ
hits [] x y = 0
hits (b ∷ bs) x y = bit (contains b x y) + hits bs x y

-- The test of main.rs whether a touch is on a button of a power operation.
unfoldable pub power_button_tapped : Screen → ℕ → ℕ → Bool
power_button_tapped (confirm action) x y = contains ok_button x y
power_button_tapped _ x y =
    contains wake_button x y || contains reboot_button x y || contains shutdown_button x y

-- On every screen a touch is on at most one of the screen's buttons, and a touched button lies
-- within the 320 by 240 points of the display; so the order in which the code tests the buttons
-- does not matter.
pub hits_one :
    (s : Screen) (x y : ℕ)
    → (hits (buttons s) x y ≤ 1)
      × ((hits (buttons s) x y ≡ 0) ⊎ ((x < display_width) × (y < display_height)))
unfolding hits buttons contains
hits_one main x y = ground arith
hits_one calendar x y = ground arith
hits_one (confirm action) x y = ground arith
