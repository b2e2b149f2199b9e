-- ===== src/Tests/Wake.antt =====
-- Runs of Watch/WakeWatch.antt.
use m5stack_pc_remote.Base.{◌≡◌, true, false, List, [], ◌∷◌}
use m5stack_pc_remote.Watch.WakeWatch.{idle, begin, Round, notices, first_verdict, notices-begin}

abbrev rounds : List Round
rounds =
    record { pc_online = false; elapsed_secs = 10 }
    ∷ record { pc_online = true; elapsed_secs = 20 }
    ∷ record { pc_online = false; elapsed_secs = 200 }
    ∷ []

notices-begin_example : notices (begin idle false).0 rounds ≡ first_verdict rounds
notices-begin_example = notices-begin idle false rounds
