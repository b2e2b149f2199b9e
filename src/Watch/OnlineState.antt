-- ===== src/Watch/OnlineState.antt =====
-- shared/online-state/src/lib.rs
use m5stack_pc_remote.Base.{
  ℕ, suc, ◌+◌, ◌≡◌, refl, ◌↔◌, Bool, true, false, not, ◌&&◌, List, [], ◌∷◌, arith, if◌then◌else◌,
  bit,
}

pub record Services : Type 0 where
  pub sntp_started : Bool
  pub notifier_started : Bool
  pub telegram_started : Bool

pub data OnlineState : Type 0 where
  offline : Services → OnlineState
  online : Services → OnlineState

pub data OnlineEvent : Type 0 where
  wifi_connected wifi_disconnected : OnlineEvent

pub record OnlineActions : Type 0 where
  pub start_sntp : Bool
  pub start_notifier : Bool
  pub start_telegram : Bool

-- `OnlineActions::none`.
abbrev no_actions : OnlineActions
no_actions = record { start_sntp = false; start_notifier = false; start_telegram = false }

abbrev pub initial : OnlineState
initial =
    offline (record { sntp_started = false; notifier_started = false; telegram_started = false })

unfoldable from_parts : Bool → Bool → Bool → Bool → OnlineState
from_parts connected sntp_started notifier_started telegram_started =
    let services : Services = record {
      sntp_started = sntp_started;
      notifier_started = notifier_started;
      telegram_started = telegram_started;
    } in
    if connected then online services else offline services

unfoldable pub is_online : OnlineState → Bool
is_online (online _) = true
is_online (offline _) = false

pub services : OnlineState → Services
services (online s) = s
services (offline s) = s

pub transition : OnlineState → OnlineEvent → Bool → OnlineState × OnlineActions
unfolding services
transition state wifi_connected telegram_configured =
    let s = services state in
    (
      online s,
      record {
        start_sntp = not s.sntp_started;
        start_notifier = not s.notifier_started;
        start_telegram = not s.telegram_started && telegram_configured;
      },
    )
transition state wifi_disconnected telegram_configured = (offline (services state), no_actions)

-- A transition follows the link, keeps what has been started, and asks for a service exactly on a
-- connection and if it has not been started; for Telegram, also only if it is configured.
pub transition_lem :
    (state : OnlineState) (event : OnlineEvent) (configured : Bool)
    → (services (transition state event configured).0 ≡ services state)
      × ((is_online (transition state event configured).0 ≡ true) ↔ (event ≡ wifi_connected))
      × (((transition state event configured).1.start_sntp ≡ true)
          ↔ ((event ≡ wifi_connected) × ((services state).sntp_started ≡ false)))
      × (((transition state event configured).1.start_notifier ≡ true)
          ↔ ((event ≡ wifi_connected) × ((services state).notifier_started ≡ false)))
      × (((transition state event configured).1.start_telegram ≡ true) ↔ (
          (event ≡ wifi_connected)
          × ((services state).telegram_started ≡ false)
          × (configured ≡ true)))
unfolding transition services is_online
transition_lem state wifi_connected configured = (
  refl,
  (λ h. refl, λ h. refl),
  (λ h. ground arith, λ h. ground arith),
  (λ h. ground arith, λ h. ground arith),
  (λ h. ground arith, λ h. ground arith),
)
transition_lem state wifi_disconnected configured =
    (refl, (λ h. cc, λ h. cc), (λ h. cc, λ h. cc), (λ h. cc, λ h. cc), (λ h. cc, λ h. cc))

-- `apply_online_actions` of firmware/src/main.rs: each requested start succeeds or fails, and what
-- has been started stays.
pub record Outcome : Type 0 where
  pub sntp_ok : Bool
  pub notifier_ok : Bool
  pub telegram_ok : Bool

apply_online_actions : OnlineActions → Outcome → Services → Services
apply_online_actions a o s = record {
  sntp_started = if a.start_sntp then o.sntp_ok else s.sntp_started;
  notifier_started = if a.start_notifier then o.notifier_ok else s.notifier_started;
  telegram_started = if a.start_telegram && o.telegram_ok then true else s.telegram_started;
}

-- One pass of the main loop over the link: the transition, and the starts if it is up.
link_round : OnlineState → OnlineEvent → Bool → Outcome → OnlineState
unfolding apply_online_actions
link_round state event configured o =
    let (next, actions) = transition state event configured in
    if is_online next then online (apply_online_actions actions o (services next)) else next

pub record Pass : Type 0 where
  pub event : OnlineEvent
  pub outcome : Outcome

pub run : Bool → OnlineState → List Pass → OnlineState
run configured state [] = state
run configured state (p ∷ ps) = run configured (link_round state p.event configured p.outcome) ps

-- How many times the start of Telegram polling is requested and succeeds.
pub telegram_starts : Bool → OnlineState → List Pass → ℕ
telegram_starts configured state [] = 0
telegram_starts configured state (p ∷ ps) =
    let rest = telegram_starts configured (link_round state p.event configured p.outcome) ps in
    if (transition state p.event configured).1.start_telegram && p.outcome.telegram_ok
    then suc rest
    else rest

telegram_starts_step :
    (configured : Bool) (state : OnlineState) (e : OnlineEvent) (o : Outcome)
    → bit ((transition state e configured).1.start_telegram && o.telegram_ok)
        + bit (services state).telegram_started
      ≡ bit (services (link_round state e configured o)).telegram_started
unfolding link_round transition services is_online
telegram_starts_step configured (online s) wifi_connected o = ground arith
telegram_starts_step configured (offline s) wifi_connected o = ground arith
telegram_starts_step configured (online s) wifi_disconnected o = ground arith
telegram_starts_step configured (offline s) wifi_disconnected o = ground arith

-- Whatever the link does, the polling thread is started at most once; it has been started once
-- exactly when the final state says that it is.
pub telegram_starts_once :
    (configured : Bool) (state : OnlineState) (ps : List Pass)
    → telegram_starts configured state ps + bit (services state).telegram_started
      ≡ bit (services (run configured state ps)).telegram_started
unfolding telegram_starts run
telegram_starts_once configured state [] = omega arith
telegram_starts_once configured state (p ∷ ps) = ground (
  arith,
  telegram_starts_step configured state p.event p.outcome,
  telegram_starts_once configured (link_round state p.event configured p.outcome) ps,
)
