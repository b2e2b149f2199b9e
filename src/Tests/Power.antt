-- ===== src/Tests/Power.antt =====
-- Runs of Watch/PowerNotify.antt.
use m5stack_pc_remote.Base.{◌≡◌, true, false, none, some, [], arith, ◌∷◌, ◌++◌, replicate}
use m5stack_pc_remote.Watch.PowerNotify.{announced, settled, announced_change}

announced_change_example :
    (announced (settled true) (replicate 5 false ++ true ∷ [])
      ≡ none ∷ none ∷ none ∷ none ∷ some false ∷ announced (settled false) (true ∷ []))
    × (announced (settled true) (replicate 3 false ++ true ∷ true ∷ [])
        ≡ replicate 3 none ++ none ∷ announced (settled true) (true ∷ []))
announced_change_example = announced_change true (true ∷ []) 3 (omega arith)
