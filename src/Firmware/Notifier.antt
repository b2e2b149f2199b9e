-- ===== src/Firmware/Notifier.antt =====
-- The notifier thread of firmware/src/telegram.rs: queued texts, the check for a new firmware, and
-- the daily report. The queue, the clocks, the manifest, the probe of the PC and the outcome of
-- each message are inputs of a turn of the thread.
pub mod Days
pub mod Once
use m5stack_pc_remote.Base.{
  ℕ, ◌/◌, Bool, true, false, not, ◌&&◌, ◌||◌, Option, none, some, List, [], ◌∷◌, ◌++◌,
  if◌then◌else◌,
}
use m5stack_pc_remote.Base.Text.{Text, text}
use m5stack_pc_remote.Base.Int.{ℤ, ◌+ℤ◌, leb_ℤ, eqb_ℤ, div_euclid, rem_euclid, scale, pos}
use m5stack_pc_remote.Wire.Notice.{FirmwareNotice, observe}
use m5stack_pc_remote.Watch.Timers
use m5stack_pc_remote.Watch.Timers.{FirmwareCheckSchedule}
use m5stack_pc_remote.Firmware.BridgeClient.{is_ntp_synced}

-- The settings of the report.
pub record ReportConfig : Type 0 where
  pub timezone_offset_hours : ℤ
  pub daily_report_hour : ℤ
  pub firmware_version : Text

-- `b * a` for a signed factor of 3600.
abbrev pub offset_seconds : ℤ → ℤ
offset_seconds hours = scale 3_600 hours

-- The local day and hour, if the clock is set.
unfoldable pub local_now : ReportConfig → Option ℕ → Option (ℤ × ℤ)
unfolding is_ntp_synced ◌+ℤ◌ scale div_euclid rem_euclid
local_now g none = none
local_now g (some unix) =
    if not (is_ntp_synced (pos unix))
    then none
    else (let local = pos unix +ℤ offset_seconds g.timezone_offset_hours in
        some (div_euclid local 86_400, pos (rem_euclid local 86_400 / 3_600)))

-- The day that a report at the start counts as sent.
abbrev pub past_day : ℤ → Option (ℤ × ℤ) → Option ℤ
past_day report_hour none = none
past_day report_hour (some (day, hour)) = if leb_ℤ report_hour hour then some day else none

-- `DailyReport::new`.
unfoldable pub new_report : ReportConfig → Option ℕ → Option ℤ
unfolding local_now
new_report g unix = past_day g.daily_report_hour (local_now g unix)

abbrev pub is_day : Option ℤ → ℤ → Bool
is_day none day = false
is_day (some last) day = eqb_ℤ last day

-- The tests of `due_report` on the local time.
abbrev pub due_day : ℤ → Option ℤ → Option (ℤ × ℤ) → Option ℤ
due_day report_hour last_sent_day none = none
due_day report_hour last_sent_day (some (day, hour)) =
    if not (eqb_ℤ hour report_hour) || is_day last_sent_day day then none else some day

unfoldable pub due_report : ReportConfig → Option ℤ → Option ℕ → Option ℤ
unfolding local_now
due_report g last_sent_day unix =
    if leb_ℤ (pos 0) g.daily_report_hour && leb_ℤ g.daily_report_hour (pos 23)
    then due_day g.daily_report_hour last_sent_day (local_now g unix)
    else none

unfoldable pub report_text : Bool → Text
report_text online = text "定期レポート\nPC: " ++ (if online then text "オン" else text "オフ")

-- What the thread keeps from turn to turn.
pub record Notifier : Type 0 where
  pub last_sent_day : Option ℤ
  pub firmware_schedule : FirmwareCheckSchedule
  pub firmware_notice : FirmwareNotice

pub record Turn : Type 0 where
  pub queued : Option Text
  pub elapsed : ℕ
  pub offered : Option Text
  pub root_ca : Bool
  pub unix : Option ℕ
  pub pc_online : Bool
  pub queued_sent : Bool
  pub report_sent : Bool

-- A message with its outcome, a report with its day and outcome, and the notice of a new firmware,
-- which is put into the queue.
pub data Output : Type 0 where
  message : Text → Bool → Output
  report : ℤ → Text → Bool → Output
  enqueue : Text → Output

-- `firmware_available_text` of shared/pc-remote-signing/src/firmware_notice.rs.
unfoldable pub firmware_available_text : Text → Text → Text
firmware_available_text current version =
    text "新しいfirmware "
    ++ (version ++ (text " が利用可能です(現在 " ++ (current ++ text ")。/update で更新できます")))

abbrev pub announcement : Text → Bool → Option Text → List Output
announcement current true (some version) = enqueue (firmware_available_text current version) ∷ []
announcement current _ _ = []

-- The check for a new firmware, when it is due.
unfoldable pub check_firmware : ReportConfig → Turn → Notifier → Notifier × List Output
unfolding Timers.poll observe
check_firmware g t n =
    let polled = Timers.poll n.firmware_schedule t.elapsed in
    let scheduled = record n { firmware_schedule = polled.0 } in
    if polled.1
    then (
      record scheduled {
        firmware_notice = (observe n.firmware_notice g.firmware_version t.offered).0;
      },
      announcement g.firmware_version (observe n.firmware_notice g.firmware_version t.offered).1
          t.offered,
    )
    else (scheduled, [])

abbrev pub send_queued : Turn → List Output
send_queued t = elim t.queued [ none ↦ [] | some s ↦ message s t.queued_sent ∷ [] ]

abbrev pub send_report : Turn → Option ℤ → Notifier → Notifier × List Output
send_report t none n = (n, [])
send_report t (some day) n = (
  if t.report_sent then record n { last_sent_day = some day } else n,
  report day (report_text t.pc_online) t.report_sent ∷ [],
)

-- The messages, which need the root certificate; without it a queued text is dropped.
unfoldable pub send_all : ReportConfig → Turn → Notifier → Notifier × List Output
unfolding due_report
send_all g t n =
    if t.root_ca
    then (
      (send_report t (due_report g n.last_sent_day t.unix) n).0,
      send_queued t ++ (send_report t (due_report g n.last_sent_day t.unix) n).1,
    )
    else (n, [])

unfoldable pub notifier_turn : ReportConfig → Turn → Notifier → Notifier × List Output
unfolding check_firmware send_all
notifier_turn g t n =
    let checked = check_firmware g t n in
    ((send_all g t checked.0).0, checked.1 ++ (send_all g t checked.0).1)

unfoldable pub outputs : ReportConfig → Notifier → List Turn → List Output
unfolding notifier_turn
outputs g n [] = []
outputs g n (t ∷ ts) = (notifier_turn g t n).1 ++ outputs g (notifier_turn g t n).0 ts
