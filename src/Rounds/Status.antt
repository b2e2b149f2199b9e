-- ===== src/Rounds/Status.antt =====
-- The STATUS round of the loop of firmware/src/main.rs with the wake watch and the sleep watch that
-- it shares with the Telegram thread. Times are milliseconds; the guards of the shared values are
-- not modelled, each of them is read and written once in a round.
use m5stack_pc_remote.Base.{
  ℕ, ◌-◌, ◌/◌, Bool, true, false, not, ◌&&◌, Option, none, some, List, [], ◌∷◌, ◌++◌, leb, same,
  if◌then◌else◌,
}
use m5stack_pc_remote.Base.Text.{Text, eqb, trim}
use m5stack_pc_remote.Watch.StableNotify.{StableNotify}
use m5stack_pc_remote.Watch.WakeWatch.{WakeWatch, WakeNotice, succeeded, timed_out}
use m5stack_pc_remote.Watch.SleepWatch.{SleepWatch}
use m5stack_pc_remote.Watch.StableNotify
use m5stack_pc_remote.Watch.WakeWatch
use m5stack_pc_remote.Watch.SleepWatch
use m5stack_pc_remote.Rounds.Target.{
  Connection, parse_status_socket_addr, resolve_status_addr_with, check_pc_online_cached,
}

-- `STATUS_INTERVAL`, 10 seconds.
abbrev pub status_interval : ℕ
status_interval = 10_000

-- The boot self-test of shared/pc-remote-signing/src/lib.rs.
pub record BootChecks : Type 0 where
  pub display_ok : Bool
  pub wifi_connected : Bool

unfoldable pub boot_self_test_passed : BootChecks → Bool
boot_self_test_passed c = c.display_ok && c.wifi_connected

-- The locals of the loop that the round keeps, and the two shared watches.
pub record Watcher (Addr : Type 0) : Type 0 where
  pub status_at : ℕ
  pub pc_online : Bool
  pub status_target_text : Text
  pub status_targets : List Addr
  pub status_dns_tried : Bool
  pub stable_notify : StableNotify
  pub wake_watch : Option ℕ
  pub sleep_watch : SleepWatch
  pub ota_validated : Bool

-- The inputs of a turn of the loop.
pub record Turn (Addr : Type 0) : Type 0 where
  pub now : ℕ
  pub wifi_connected : Bool
  pub addr_text : Text
  pub hosts : Text → List Addr
  pub connect : Addr → Connection
  pub marked : Bool

-- What a round sends, and the calls that are counted: a host name that is looked up, and an attempt
-- to mark the running application valid.
pub data Output : Type 0 where
  lookup : Text → Output
  wake_succeeded : ℕ → Output
  wake_timed_out : ℕ → Output
  pc_state : Bool → Output
  mark_valid : Bool → Output
  redraw : Output

module _ {Addr : Type 0} (parse : Text → Option Addr) where
  -- A change of the target is read as an address; no name is looked up for it yet.
  unfoldable pub retarget : Turn Addr → Watcher Addr → Watcher Addr
  unfolding parse_status_socket_addr
  retarget t w = if eqb t.addr_text w.status_target_text then w else record w {
    status_target_text = t.addr_text;
    status_targets = elim (parse_status_socket_addr parse t.addr_text) [
      | none ↦ []
      | some a ↦ a ∷ []
    ];
    status_dns_tried = false;
  }

  abbrev pub looked_up : Text → List Output
  looked_up addr_text = elim (parse (trim addr_text)) [
    | none ↦ lookup (trim addr_text) ∷ []
    | some a ↦ []
  ]

  abbrev pub is_empty : List Addr → Bool
  is_empty [] = true
  is_empty (a ∷ l) = false

  -- The one attempt to resolve a target that is no address.
  unfoldable pub resolve_once : Turn Addr → Watcher Addr → Watcher Addr × List Output
  unfolding resolve_status_addr_with
  resolve_once t w =
      if is_empty w.status_targets && not w.status_dns_tried
      then (
        record w {
          status_dns_tried = true;
          status_targets = resolve_status_addr_with parse w.status_target_text t.hosts;
        },
        looked_up w.status_target_text,
      )
      else (w, [])

-- The poll of the wake watch: whether it still waits, and its notice.
abbrev pub wake_poll : Option ℕ → Bool → ℕ → Option ℕ × Option WakeNotice
wake_poll none now_online now = (none, none)
wake_poll (some started_at) now_online now =
    let polled =
      WakeWatch.poll (record { waiting = true }) now_online ((now - started_at) / 1000) in
    (if polled.0.waiting then some started_at else none, polled.1)

abbrev pub waited : Option ℕ → ℕ → ℕ
waited none now = 0
waited (some started_at) now = (now - started_at) / 1000

abbrev pub is_succeeded : Option WakeNotice → Bool
is_succeeded (some succeeded) = true
is_succeeded _ = false

-- A success counts as the announcement of the start.
abbrev pub after_notice : Option WakeNotice → StableNotify → StableNotify
after_notice (some succeeded) s = record { notified_online = some true; notify_streak = 0 }
after_notice _ s = s

abbrev pub wake_output : Option WakeNotice → ℕ → List Output
wake_output none elapsed = []
wake_output (some succeeded) elapsed = wake_succeeded elapsed ∷ []
wake_output (some timed_out) elapsed = wake_timed_out elapsed ∷ []

-- From the observation to the notices.
module _ {Addr : Type 0} where
  unfoldable pub announce : Turn Addr → Bool → Watcher Addr → Watcher Addr × List Output
  announce t now_online w =
      let waited_for = wake_poll w.wake_watch now_online t.now in
      let slept = SleepWatch.poll w.sleep_watch now_online in
      let settled =
        StableNotify.poll (after_notice waited_for.1 w.stable_notify) now_online
          (is_succeeded waited_for.1) slept.1 in
      (
        record w {
          pc_online = now_online;
          wake_watch = waited_for.0;
          sleep_watch = slept.0;
          stable_notify = settled.0;
        },
        wake_output waited_for.1 (waited w.wake_watch t.now)
            ++ (if settled.1 then pc_state now_online ∷ [] else [])
            ++ (if same now_online w.pc_online then [] else redraw ∷ []),
      )

  -- The boot self-test; the display works when the loop is reached.
  unfoldable pub validate : Turn Addr → Watcher Addr → Watcher Addr × List Output
  unfolding boot_self_test_passed
  validate t w =
      if not w.ota_validated
        && boot_self_test_passed (record { display_ok = true; wifi_connected = t.wifi_connected })
      then (record w { ota_validated = t.marked }, mark_valid t.marked ∷ [])
      else (w, [])

  infixl 5 ◌|>◌
  abbrev pub ◌|>◌ :
      Watcher Addr × List Output
      → (Watcher Addr → Watcher Addr × List Output)
      → Watcher Addr × List Output
  (w, l) |> f = ((f w).0, l ++ (f w).1)

  unfoldable pub observe : Turn Addr → Watcher Addr → Watcher Addr × List Output
  unfolding announce check_pc_online_cached
  observe t w = announce t (check_pc_online_cached w.status_targets t.connect) w

  unfoldable pub status_round :
      (Text → Option Addr) → Turn Addr → Watcher Addr → Watcher Addr × List Output
  unfolding retarget resolve_once observe validate
  status_round parse t w =
      if t.wifi_connected && leb status_interval (t.now - w.status_at)
      then resolve_once parse t (retarget parse t (record w { status_at = t.now }))
        |> observe t
        |> validate t
      else (w, [])
