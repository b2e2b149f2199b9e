-- ===== src/Rounds/Battery.antt =====
-- The battery: the states, texts and tables of shared/battery/src/lib.rs, and the battery round of
-- the loop of firmware/src/main.rs. The percentage, which the code estimates from a voltage in
-- floating point, comes with the reading. Times are milliseconds.
use m5stack_pc_remote.Base.{
  ℕ, ◌-◌, Bool, true, false, not, ◌&&◌, ◌||◌, Option, none, some, List, [], ◌∷◌, ◌++◌, leb, ◌==◌,
  same, if◌then◌else◌,
}
use m5stack_pc_remote.Base.Decimal.{show_ℕ}
use m5stack_pc_remote.Base.Text.{Text, text}
use Prim.Native.Nat.{bit_and}
use m5stack_pc_remote.Watch.PowerNotify.{PowerNotify}
use m5stack_pc_remote.Watch.PowerNotify
use m5stack_pc_remote.Watch.Timers.{should_read}

pub data PowerState : Type 0 where
  charging powered on_battery : PowerState

unfoldable pub classify : Bool → Bool → PowerState
classify is_charging is_powered =
    if is_charging then charging else if is_powered then powered else on_battery

unfoldable pub lamp_label : ℕ → PowerState → Text
lamp_label percent charging = text "CHG " ++ (show_ℕ percent ++ text "%")
lamp_label percent powered = text "PWR " ++ (show_ℕ percent ++ text "%")
lamp_label percent on_battery = show_ℕ percent ++ text "%"

unfoldable pub status_ja : ℕ → PowerState → Text
status_ja percent charging = show_ℕ percent ++ text "% 充電中"
status_ja percent powered = show_ℕ percent ++ text "% 満充電・給電中"
status_ja percent on_battery = show_ℕ percent ++ text "% 電池駆動"

unfoldable pub power_state_notification_ja : Bool → ℕ → Text
power_state_notification_ja true percent = text "M5Stackの給電が戻りました。"
power_state_notification_ja false percent =
    text "M5Stackの給電が切れました(バッテリー駆動に切り替わりました。残量 " ++ (show_ℕ percent ++ text "%)。")

-- `DisplayState`, and `Battery` of firmware/src/board.rs, which has the same fields.
pub record DisplayState : Type 0 where
  pub percent : ℕ
  pub is_powered : Bool
  pub is_charging : Bool

abbrev pub eq_display : DisplayState → DisplayState → Bool
eq_display a b =
    a.percent == b.percent && same a.is_powered b.is_powered && same a.is_charging b.is_charging

unfoldable pub needs_redraw : Option DisplayState → Option DisplayState → Bool
needs_redraw none none = false
needs_redraw (some a) (some b) = not (eq_display a b)
needs_redraw _ _ = true

-- The registers with the bits of the power events: enabled, cleared and tested.
abbrev pub enable_updates : List (ℕ × ℕ)
enable_updates = (0x40, 0x6C) ∷ (0x41, 0x0C) ∷ []

abbrev pub status_clear : List (ℕ × ℕ)
status_clear = (0x44, 0x6C) ∷ (0x45, 0x0C) ∷ []

abbrev pub status_mask : List (ℕ × ℕ)
status_mask = (0x44, 0x6C) ∷ (0x45, 0x0C) ∷ []

unfoldable pub is_pending : ℕ → ℕ → Bool
is_pending status44 status45 = not (bit_and status44 0x6C == 0) || not (bit_and status45 0x0C == 0)

-- `BATTERY_POLL_INTERVAL`, 1 second.
abbrev pub battery_poll_interval : ℕ
battery_poll_interval = 1_000

-- The locals of the loop that the round keeps, and the battery that it shares.
pub record Gauge : Type 0 where
  pub battery_fast_at : ℕ
  pub battery_at : ℕ
  pub battery : Option DisplayState
  pub shared : Option DisplayState
  pub power_notify : PowerNotify

-- The inputs of a turn: the latched registers if they can be read, and what a reading gives.
pub record Tick : Type 0 where
  pub now : ℕ
  pub latches : Option (ℕ × ℕ)
  pub reading : Option DisplayState

pub data Output : Type 0 where
  read_battery : Output
  redraw_header : Output
  notice : Bool → ℕ → Output

abbrev pub pending : Option (ℕ × ℕ) → Bool
pending none = true
pending (some (status44, status45)) = is_pending status44 status45

-- A full reading, whose header is drawn unless a confirmation is on the screen; a reading that shows nothing new changes the shared battery only.
unfoldable pub read : Tick → Gauge → Gauge × List Output
unfolding should_read is_pending needs_redraw
read t g =
    if should_read (pending t.latches) (t.now - g.battery_at)
    then (
      record g {
        battery_at = t.now;
        shared = t.reading;
        battery = if needs_redraw g.battery t.reading then t.reading else g.battery;
      },
      read_battery ∷ (if needs_redraw g.battery t.reading then redraw_header ∷ [] else []),
    )
    else (g, [])

-- The power source of the battery that is displayed.
abbrev pub observed : Option DisplayState → Gauge → Gauge × List Output
observed none g = (g, [])
observed (some known) g = (
  record g { power_notify = (PowerNotify.poll g.power_notify known.is_powered).0 },
  if (PowerNotify.poll g.power_notify known.is_powered).1
      then notice known.is_powered known.percent ∷ []
      else [],
)

abbrev pub then_observed : Gauge × List Output → Gauge × List Output
then_observed (g, l) = ((observed g.battery g).0, l ++ (observed g.battery g).1)

unfoldable pub battery_round : Tick → Gauge → Gauge × List Output
unfolding read PowerNotify.poll
battery_round t g =
    if leb battery_poll_interval (t.now - g.battery_fast_at)
    then then_observed (read t (record g { battery_fast_at = t.now }))
    else (g, [])

unfoldable pub outputs : Gauge → List Tick → List Output
unfolding battery_round
outputs g [] = []
outputs g (t ∷ ts) = (battery_round t g).1 ++ outputs (battery_round t g).0 ts
