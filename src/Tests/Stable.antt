-- ===== src/Tests/Stable.antt =====
-- Runs of Watch/StableNotify.antt.
use m5stack_pc_remote.Base.{refl, inl, Bool, true, false, some, [], ◌∷◌, arith}
use m5stack_pc_remote.Watch.StableNotify.{
  StableNotify, Round, announced, IsValid, Alternates, announced-Alternates,
}

-- The PC was on, and one poll has seen it off.
abbrev drifting : StableNotify
drifting = record { notified_online = some true; notify_streak = 1 }

drifting-IsValid : IsValid drifting
drifting-IsValid = record { streak_low = omega arith; none_low = inl (λ h. cc) }

abbrev plain : Bool → Round
plain b = record { now_online = b; wake_succeeded = false; suppress_off = false }

announced-Alternates_example :
    Alternates (some true) (announced drifting (plain false ∷ plain true ∷ plain true ∷ []))
announced-Alternates_example =
    announced-Alternates drifting (plain false ∷ plain true ∷ plain true ∷ [])
      (refl, (refl, (refl, tt)))
