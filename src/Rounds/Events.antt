-- ===== src/Rounds/Events.antt =====
-- Sequences of turns of the loop, with the requests of the panel and of the Telegram thread between
-- them.
use m5stack_pc_remote.Base.{ℕ, Bool, Option, none, some, List, [], ◌∷◌, ◌++◌, if◌then◌else◌}
use m5stack_pc_remote.Base.Text.{Text}
use m5stack_pc_remote.Watch.SleepWatch.{begin}
use m5stack_pc_remote.Rounds.Status.{Watcher, Turn, Output, status_round}

-- `wake_request` is `begin_wake_watch` of firmware/src/telegram.rs; `sleep_request` is what it does
-- after the bridge accepted a sleep.
pub data Event (Addr : Type 0) : Type 0 where
  turn : Turn Addr → Event Addr
  wake_request : ℕ → Bool → Event Addr
  sleep_request : Event Addr

module _ {Addr : Type 0} (parse : Text → Option Addr) where
  unfoldable pub step : Event Addr → Watcher Addr → Watcher Addr × List Output
  unfolding status_round
  step (turn t) w = status_round parse t w
  step (wake_request now pc_online) w =
      (record w { wake_watch = if pc_online then none else some now }, [])
  step sleep_request w = (record w { sleep_watch = begin w.sleep_watch }, [])

  unfoldable pub outputs : Watcher Addr → List (Event Addr) → List Output
  unfolding step
  outputs w [] = []
  outputs w (e ∷ es) = (step e w).1 ++ outputs (step e w).0 es
