-- ===== src/Tests/Sleep.antt =====
-- Runs of Watch/SleepWatch.antt.
use m5stack_pc_remote.Base.{◌≡◌, true, false, [], ◌∷◌, ◌++◌, arith, replicate}
use m5stack_pc_remote.Watch.SleepWatch.{idle_watch, begin, suppressed, suppressed-begin}

suppressed-begin_example :
    suppressed
      (begin idle_watch)
      (replicate 2 true ++ (false ∷ (replicate 3 false ++ (true ∷ true ∷ []))))
    ≡ replicate 2 false ++ (true ∷ (replicate 3 true ++ (false ∷ replicate 1 false)))
suppressed-begin_example = suppressed-begin idle_watch 2 3 (true ∷ []) (omega arith)
