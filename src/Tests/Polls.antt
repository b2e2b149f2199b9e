-- ===== src/Tests/Polls.antt =====
-- Runs of Firmware/Telegram/Poll.antt.
use m5stack_pc_remote.Base.{Option, some, false, true, refl, List, [], ◌∷◌, arith}
use m5stack_pc_remote.Base.Int.{pos}
use m5stack_pc_remote.Base.Result.{Result, ok, err}
use m5stack_pc_remote.Base.Text.{Text, text}
use m5stack_pc_remote.Tests.Devices.{config, world, client, pressed}
use m5stack_pc_remote.Wire.Crypto.{Bytes}
use m5stack_pc_remote.Firmware.Telegram.Updates.{Update}
use m5stack_pc_remote.Firmware.Telegram.Poll.{Poll, Poller, polling, run}
use m5stack_pc_remote.Firmware.Telegram.Poll.Delivery.{fetched, Delivers, run-Delivers}

-- A parser for bodies that hold the id of an update.
abbrev numbered : Bytes → Result Text (Option (List Update))
numbered [] = ok (some [])
numbered (id ∷ body) = ok (some (record (pressed (pos 42)) { update_id = pos id } ∷ []))

abbrev poller : Poller
poller = record {
  cursor = record { next_offset = pos 7; synced = true };
  client = client false;
  backoff = 5_000;
  state = polling;
}

abbrev answered : Bytes → Poll
answered body = record {
  reply = ok (record { status = 200; reads = ok body ∷ [] });
  worlds = λ i. world;
}

-- An update, an error of the connection, an answer of another status, and an update.
abbrev polls : List Poll
polls =
    answered (7 ∷ [])
    ∷ record { reply = err (text "timeout"); worlds = λ i. world }
    ∷ record { reply = ok (record { status = 502; reads = [] }); worlds = λ i. world }
    ∷ answered (9 ∷ [])
    ∷ []

run-Delivers_example :
    let result = run numbered config poller polls in
    Delivers config poller (fetched numbered polls) result.0.client result.1.0
unfolding m5stack_pc_remote.Watch.UpdateCursor.advance m5stack_pc_remote.Base.Int.◌+ℤ◌
    m5stack_pc_remote.Firmware.Telegram.Poll.turn m5stack_pc_remote.Firmware.Telegram.Poll.fetch
    m5stack_pc_remote.Firmware.Telegram.Poll.read_updates
    m5stack_pc_remote.Firmware.Telegram.Updates.process_updates
run-Delivers_example =
    run-Delivers numbered config poller polls refl
      ((omega arith, omega arith, tt), (tt, (tt, ((omega arith, omega arith, tt), tt))))
