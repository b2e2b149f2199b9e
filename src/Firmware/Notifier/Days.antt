-- ===== src/Firmware/Notifier/Days.antt =====
-- The days of the daily reports.
use m5stack_pc_remote.Base.Text.{Text}
use m5stack_pc_remote.Base.{
  ℕ, ◌≡◌, refl, ap, ◌∙◌, ◌≢◌, ◌⊎◌, inl, inr, Bool, true, false, ◌&&◌, Option, none, some, List, [],
  ◌∷◌, ◌++◌, arith, if◌then◌else◌,
}
use mathlib.Core.Path.{subst}
use m5stack_pc_remote.Watch.Timers
use m5stack_pc_remote.Base.Int.{ℤ, leb_ℤ, eqb_ℤ_iff, pos}
use m5stack_pc_remote.Firmware.Notifier.{
  observe, report_text, ReportConfig, Notifier, Turn, Output, message, report, enqueue, local_now,
  due_day, due_report, send_report, send_all, send_queued, check_firmware, announcement,
  notifier_turn,
}

-- The days whose report was sent.
abbrev pub sent_days : List Output → List ℤ
sent_days [] = []
sent_days (report day s true ∷ l) = day ∷ sent_days l
sent_days (report day s false ∷ l) = sent_days l
sent_days (message s b ∷ l) = sent_days l
sent_days (enqueue s ∷ l) = sent_days l

abbrev pub day_of : Option (ℤ × ℤ) → Option ℤ
day_of none = none
day_of (some (day, hour)) = some day

abbrev pub today : ReportConfig → Turn → Option ℤ
today g t = day_of (local_now g t.unix)

pub sent_days-append : (l m : List Output) → sent_days (l ++ m) ≡ sent_days l ++ sent_days m
sent_days-append [] m = refl
sent_days-append (report day s true ∷ l) m = ap (λ k. day ∷ k) (sent_days-append l m)
sent_days-append (report day s false ∷ l) m = sent_days-append l m
sent_days-append (message s b ∷ l) m = sent_days-append l m
sent_days-append (enqueue s ∷ l) m = sent_days-append l m

-- What a turn does to the report: nothing, or it sends the report of today.
abbrev pub Reports : ReportConfig → Turn → Option ℤ → List Output → Option ℤ → Type 0
Reports g t last l last' =
    ((sent_days l ≡ []) × (last' ≡ last))
    ⊎ ((day : ℤ) × (today g t ≡ some day)
        × (last ≢ some day)
        × (sent_days l ≡ day ∷ [])
        × (last' ≡ some day))

due_day_lem :
    (report_hour : ℤ) (last : Option ℤ) (now : Option (ℤ × ℤ)) (day : ℤ)
    → due_day report_hour last now ≡ some day
    → (day_of now ≡ some day) × (last ≢ some day)
due_day_lem report_hour last none day h = cc
due_day_lem report_hour none (some (d, hour)) day h = ground arith
due_day_lem report_hour (some l) (some (d, hour)) day h = ground (arith, eqb_ℤ_iff l d)

if-some : (b : Bool) (o : Option ℤ) (day : ℤ) → (if b then o else none) ≡ some day → o ≡ some day
if-some true o day h = h
if-some false o day h = cc

due_report_lem :
    (g : ReportConfig) (last : Option ℤ) (unix : Option ℕ) (day : ℤ)
    → due_report g last unix ≡ some day
    → (day_of (local_now g unix) ≡ some day) × (last ≢ some day)
unfolding due_report
due_report_lem g last unix day h =
    due_day_lem g.daily_report_hour last (local_now g unix) day
      (if-some (leb_ℤ (pos 0) g.daily_report_hour && leb_ℤ g.daily_report_hour (pos 23)) _ day h)

sent_report :
    (b : Bool) (g : ReportConfig) (t : Turn) (day : ℤ) (s : Text) (n : Notifier)
    → (today g t ≡ some day) × (n.last_sent_day ≢ some day)
    → Reports g t n.last_sent_day
        (report day s b ∷ [])
        (if b then record n { last_sent_day = some day } else n).last_sent_day
sent_report true g t day s n (h, k) = inr (day, h, k, refl, refl)
sent_report false g t day s n h = inl (refl, refl)

send_report-Reports :
    (g : ReportConfig) (t : Turn) (due : Option ℤ) (n : Notifier)
    → due_report g n.last_sent_day t.unix ≡ due
    → Reports g t n.last_sent_day (send_report t due n).1 (send_report t due n).0.last_sent_day
send_report-Reports g t none n h = inl (refl, refl)
send_report-Reports g t (some day) n h =
    sent_report t.report_sent g t day (report_text t.pc_online) n
      (due_report_lem g n.last_sent_day t.unix day h)

-- Outputs without a report in front change nothing.
Reports-after :
    (g : ReportConfig) (t : Turn) (last last' : Option ℤ) (l m : List Output)
    → sent_days l ≡ []
    → Reports g t last m last'
    → Reports g t last (l ++ m) last'
Reports-after g t last last' l m h (inl (e, k)) = inl (sent_days-append l m ∙ rw h e, k)
Reports-after g t last last' l m h (inr (day, a, b, e, k)) =
    inr (day, a, b, sent_days-append l m ∙ rw h e, k)

sent_days-queued : (t : Turn) → sent_days (send_queued t) ≡ []
sent_days-queued t = ground arith

Reports-if :
    (b : Bool) (g : ReportConfig) (t : Turn) (last : Option ℤ) (r r' : Notifier × List Output)
    → Reports g t last r.1 r.0.last_sent_day
    → Reports g t last r'.1 r'.0.last_sent_day
    → Reports g t last (if b then r else r').1 (if b then r else r').0.last_sent_day
Reports-if true g t last r r' h k = h
Reports-if false g t last r r' h k = k

send_all-Reports :
    (g : ReportConfig) (t : Turn) (n : Notifier)
    → Reports g t n.last_sent_day (send_all g t n).1 (send_all g t n).0.last_sent_day
unfolding send_all
send_all-Reports g t n =
    let due = due_report g n.last_sent_day t.unix in
    Reports-if t.root_ca g t n.last_sent_day
      ((send_report t due n).0, send_queued t ++ (send_report t due n).1) (n, [])
      (Reports-after g t n.last_sent_day _ (send_queued t) _ (sent_days-queued t)
        (send_report-Reports g t due n refl))
      (inl (refl, refl))

sent_days-announcement :
    (current : Text) (b : Bool) (offered : Option Text)
    → sent_days (announcement current b offered) ≡ []
sent_days-announcement current true none = refl
sent_days-announcement current true (some version) = refl
sent_days-announcement current false offered = refl

-- A step that sends no report.
abbrev IsQuiet : Option ℤ → Notifier × List Output → Type 0
IsQuiet last r = (sent_days r.1 ≡ []) × (r.0.last_sent_day ≡ last)

if-IsQuiet :
    (b : Bool) (last : Option ℤ) (r r' : Notifier × List Output)
    → IsQuiet last r
    → IsQuiet last r'
    → IsQuiet last (if b then r else r')
if-IsQuiet true last r r' h k = h
if-IsQuiet false last r r' h k = k

check_firmware-IsQuiet :
    (g : ReportConfig) (t : Turn) (n : Notifier) → IsQuiet n.last_sent_day (check_firmware g t n)
unfolding check_firmware
check_firmware-IsQuiet g t n =
    if-IsQuiet (Timers.poll n.firmware_schedule t.elapsed).1 n.last_sent_day _ _
      (
        sent_days-announcement g.firmware_version
            (observe n.firmware_notice g.firmware_version t.offered).1 t.offered,
        refl,
      )
      (refl, refl)

pub notifier_turn-Reports :
    (g : ReportConfig) (t : Turn) (n : Notifier)
    → Reports g t n.last_sent_day (notifier_turn g t n).1 (notifier_turn g t n).0.last_sent_day
unfolding notifier_turn
notifier_turn-Reports g t n =
    let checked = check_firmware g t n in
    let c = check_firmware-IsQuiet g t n in
    subst
      (λ last.
        Reports g t last (checked.1 ++ (send_all g t checked.0).1)
          (send_all g t checked.0).0.last_sent_day)
      c.1
      (Reports-after g t checked.0.last_sent_day _ checked.1 _ c.0 (send_all-Reports g t checked.0))
