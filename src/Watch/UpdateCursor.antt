-- ===== src/Watch/UpdateCursor.antt =====
-- shared/telegram-cursor/src/lib.rs
use mathlib.Core.Path.{subst}
use m5stack_pc_remote.Base.{
  suc, ◌≤◌, ◌≡◌, refl, sym, ◌∙◌, ◌≢◌, inl, inr, Bool, true, false, List, [], ◌∷◌, ◌++◌, arith,
  if◌then◌else◌, Bool-cases, All,
}
use m5stack_pc_remote.Base.Int.{
  ℤ, pos_part, ◌+ℤ◌, ◌≤ℤ◌, leb_ℤ, i64_max, i64_suc, i64_suc-lt, leb_ℤ-le, +ℤ_parts, pos,
}

pub record UpdateCursor : Type 0 where
  pub next_offset : ℤ
  pub synced : Bool

abbrev pub new : UpdateCursor
new = record { next_offset = pos 0; synced = false }

abbrev offset : UpdateCursor → ℤ
offset c = c.next_offset

-- The `for` loop of `advance`: the offset after the ids, and whether there was none. `id + 1` is
-- the addition of `i64`, which wraps in a release build.
advance_ids : ℤ → Bool → List ℤ → ℤ × Bool
advance_ids next_offset empty [] = (next_offset, empty)
advance_ids next_offset empty (id ∷ ids) =
    advance_ids (if leb_ℤ next_offset id then i64_suc id else next_offset) false ids

unfoldable pub advance : UpdateCursor → List ℤ → UpdateCursor × Bool
unfolding advance_ids
advance c ids =
    let (next_offset, empty) = advance_ids c.next_offset true ids in
    (record { next_offset = next_offset; synced = if empty then true else c.synced }, c.synced)

-- The responses to a sequence of polls, each handled or dropped: the ids of the handled updates.
pub dispatched : UpdateCursor → List (List ℤ) → List ℤ
dispatched c [] = []
dispatched c (ids ∷ responses) =
    let (c', dispatch) = advance c ids in
    let rest = dispatched c' responses in if dispatch then ids ++ rest else rest

-- Strictly below `i64::MAX`, and each id at least the offset of its poll and above those before
-- it: the answers that the Bot API documents for `getUpdates` with that offset.
abbrev pub IsAnswer : ℤ → List ℤ → Type 0
IsAnswer offset [] = Unit
IsAnswer offset (id ∷ ids) =
    (offset ≤ℤ id) × (suc (pos_part id) ≤ i64_max) × IsAnswer (id +ℤ pos 1) ids

abbrev AreAnswers : UpdateCursor → List (List ℤ) → Type 0
AreAnswers c [] = Unit
AreAnswers c (ids ∷ responses) = IsAnswer c.next_offset ids × AreAnswers (advance c ids).0 responses

-- Each element is at least the bound and above the one before it.
abbrev pub Increasing : ℤ → List ℤ → Type 0
Increasing bound [] = Unit
Increasing bound (id ∷ ids) = (bound ≤ℤ id) × Increasing (id +ℤ pos 1) ids

Increasing-weaken : (a b : ℤ) (l : List ℤ) → a ≤ℤ b → Increasing b l → Increasing a l
Increasing-weaken a b [] h i = tt
Increasing-weaken a b (id ∷ l) h i = (omega arith, i.1)

loop_step :
    (o id : ℤ)
    → o ≤ℤ id
    → suc (pos_part id) ≤ i64_max
    → (if leb_ℤ o id then i64_suc id else o) ≡ id +ℤ pos 1
loop_step o id h k = rw (leb_ℤ-le o id h) (i64_suc-lt id k)

advance_ids-Increasing :
    (o : ℤ) (e : Bool) (ids rest : List ℤ)
    → IsAnswer o ids
    → Increasing (advance_ids o e ids).0 rest
    → Increasing o (ids ++ rest)
unfolding advance_ids
advance_ids-Increasing o e [] rest a i = i
advance_ids-Increasing o e (id ∷ ids) rest a i = (
  a.0,
  advance_ids-Increasing (id +ℤ pos 1) false ids rest a.2
      (subst (λ x. Increasing (advance_ids x false ids).0 rest) (loop_step o id a.0 a.1) i),
)

advance_ids-ge : (o : ℤ) (e : Bool) (ids : List ℤ) → IsAnswer o ids → o ≤ℤ (advance_ids o e ids).0
unfolding advance_ids
advance_ids-ge o e [] a = omega arith
advance_ids-ge o e (id ∷ ids) a =
    subst (λ x. o ≤ℤ (advance_ids x false ids).0) (sym (loop_step o id a.0 a.1))
      (omega (arith, a.0, +ℤ_parts id (pos 1), advance_ids-ge (id +ℤ pos 1) false ids a.2))

-- What follows an answer may be appended to it.
pub advance-Increasing :
    (c : UpdateCursor) (ids rest : List ℤ)
    → IsAnswer c.next_offset ids
    → Increasing (advance c ids).0.next_offset rest
    → Increasing c.next_offset (ids ++ rest)
unfolding advance
advance-Increasing c ids rest = advance_ids-Increasing c.next_offset true ids rest

-- A cursor that is in step with the server stays so, and hands every answer on.
pub advance-synced :
    (c : UpdateCursor) (ids : List ℤ)
    → c.synced ≡ true
    → ((advance c ids).0.synced ≡ true) × ((advance c ids).1 ≡ true)
unfolding advance
advance-synced c ids e = elim (Bool-cases (advance_ids c.next_offset true ids).1) [
  | inl h ↦ (rw h, e)
  | inr h ↦ (rw (h, e), e)
]

-- Over any sequence of polls that the Bot API answers as documented, the handled updates have
-- strictly increasing ids, from the cursor's offset on: none is handled twice or out of order.
pub dispatched-Increasing :
    (c : UpdateCursor) (responses : List (List ℤ))
    → AreAnswers c responses
    → Increasing c.next_offset (dispatched c responses)
unfolding dispatched advance
dispatched-Increasing c [] a = tt
dispatched-Increasing c (ids ∷ responses) a =
    let ih = dispatched-Increasing (advance c ids).0 responses a.1 in
    elim (Bool-cases c.synced) [
      | inl e ↦ rw e (advance_ids-Increasing c.next_offset true ids _ a.0 (rw e at ih))
      | inr e ↦ rw e (
          Increasing-weaken c.next_offset _ _ (advance_ids-ge c.next_offset true ids a.0)
            (rw e at ih))
    ]

abbrev IsBacklog : List ℤ → Type 0
IsBacklog ids = ids ≢ []

advance_ids-nonempty : (o : ℤ) (ids : List ℤ) → (advance_ids o false ids).1 ≡ false
unfolding advance_ids
advance_ids-nonempty o [] = refl
advance_ids-nonempty o (id ∷ ids) = advance_ids-nonempty (if leb_ℤ o id then i64_suc id else o) ids

advance-empty : (c : UpdateCursor) → (advance c []).1 ≡ c.synced
unfolding advance
advance-empty c = refl

advance-backlog :
    (c : UpdateCursor) (id : ℤ) (ids : List ℤ)
    → c.synced ≡ false
    → ((advance c (id ∷ ids)).1 ≡ false) × ((advance c (id ∷ ids)).0.synced ≡ false)
unfolding advance advance_ids
advance-backlog c id ids e = (
  e,
  rw (advance_ids-nonempty (if leb_ℤ c.next_offset id then i64_suc id else c.next_offset) ids) e,
)

-- After a start nothing is handled until an empty answer has shown that the backlog is gone:
-- whatever arrives before it is only skipped.
pub dispatched_backlog :
    (c : UpdateCursor) (backlog : List (List ℤ))
    → c.synced ≡ false
    → All IsBacklog backlog
    → dispatched c (backlog ++ [] ∷ []) ≡ []
unfolding dispatched
dispatched_backlog c [] e h = rw (advance-empty c ∙ e)
dispatched_backlog c ([] ∷ backlog) e h = absurd (h.0 refl)
dispatched_backlog c ((id ∷ ids) ∷ backlog) e h =
    let (kept, unsynced) = advance-backlog c id ids e in
    rw kept (dispatched_backlog (advance c (id ∷ ids)).0 backlog unsynced h.1)
