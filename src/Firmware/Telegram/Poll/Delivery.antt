-- ===== src/Firmware/Telegram/Poll/Delivery.antt =====
-- What the polls of `run` deliver, over errors in between.
use mathlib.Core.Path.{subst}
use mathlib.Core.List.{append_assoc, map-append}
use m5stack_pc_remote.Base.{
  ◌≤◌, ◌≡◌, refl, sym, ap, ◌∙◌, true, List, [], ◌∷◌, ◌++◌, map, arith, All,
}
use m5stack_pc_remote.Base.Int.{ℤ}
use m5stack_pc_remote.Base.Result.{Result, ok, err}
use m5stack_pc_remote.Base.Text.{Text}
use m5stack_pc_remote.Watch.UpdateCursor.{
  UpdateCursor, advance, IsAnswer, Increasing, advance-Increasing, advance-synced,
}
use m5stack_pc_remote.Firmware.Telegram.{Config, Client, World, Effect}
use m5stack_pc_remote.Firmware.Telegram.Updates.{
  Update, handle_update, handle_updates, process_updates,
}
use m5stack_pc_remote.Firmware.Telegram.Poll.{
  Parse, Poll, Poller, fetch, after_fetch, turn, run, between_polls, backoff_min, backoff_max,
}

abbrev pub id_of : World × Update → ℤ
id_of item = item.1.update_id

-- The updates that the polls fetched, whatever the loop does with them.
abbrev pub fetched_of : Result Text (List (World × Update)) → List (World × Update)
fetched_of (ok updates) = updates
fetched_of (err e) = []

abbrev pub fetched : Parse → List Poll → List (World × Update)
fetched parse [] = []
fetched parse (poll ∷ polls) = fetched_of (fetch parse poll) ++ fetched parse polls

-- Each answer is one that the Bot API documents for the offset of its poll.
abbrev pub AreAnswered : Parse → Config → Poller → List Poll → Type 0
AreAnswered parse g p [] = Unit
AreAnswered parse g p (poll ∷ polls) =
    IsAnswer p.cursor.next_offset (map id_of (fetched_of (fetch parse poll)))
    × AreAnswered parse g (turn parse g p poll).0 polls

handle_updates-append :
    (g : Config) (c : Client) (xs ys : List (World × Update))
    → let first = handle_updates g c xs in
      let second = handle_updates g first.0 ys in
      let both = handle_updates g c (xs ++ ys) in
      (both.0 ≡ second.0) × (both.1 ≡ first.1 ++ second.1)
unfolding handle_updates
handle_updates-append g c [] ys = (refl, refl)
handle_updates-append g c ((w, u) ∷ xs) ys =
    let (c', effects) = handle_update g w c u in
    let ih = handle_updates-append g c' xs ys in
    (
      ih.0,
      ap (λ (l : List Effect). effects ++ l) ih.1
          ∙ sym (append_assoc effects (handle_updates g c' xs).1 _),
    )

-- The client and the effects are those of handling the updates in order, and the ids of the
-- updates increase strictly.
abbrev pub Delivers : Config → Poller → List (World × Update) → Client → List Effect → Type 0
Delivers g p updates client effects =
    let handled = handle_updates g p.client updates in
    (client ≡ handled.0)
    × (effects ≡ handled.1)
    × Increasing p.cursor.next_offset (map id_of updates)

process_updates-synced :
    (g : Config) (p : Poller) (updates : List (World × Update))
    → p.cursor.synced ≡ true
    → let result = process_updates g p.cursor p.client updates in
      (result.0 ≡ (advance p.cursor (map id_of updates)).0)
      × (result.1 ≡ handle_updates g p.client updates)
unfolding process_updates
process_updates-synced g p updates s = (refl, rw (advance-synced p.cursor (map id_of updates) s).1)

after_fetch-Delivers :
    (g : Config) (p : Poller) (r : Result Text (List (World × Update)))
    (rest : List (World × Update)) (client : Client) (effects : List Effect)
    → p.cursor.synced ≡ true
    → IsAnswer p.cursor.next_offset (map id_of (fetched_of r))
    → ((after_fetch g p r).0.cursor.synced ≡ true
        → Delivers g (after_fetch g p r).0 rest client effects)
    → Delivers g p (fetched_of r ++ rest) client ((after_fetch g p r).1.0 ++ effects)
after_fetch-Delivers g p (err e) rest client effects s a k = k s
after_fetch-Delivers g p (ok updates) rest client effects s a k =
    let (cursor_is, handled_is) = process_updates-synced g p updates s in
    let ids = map id_of updates in
    let handled = handle_updates g p.client updates in
    let both = handle_updates-append g p.client updates rest in
    let later =
      k (ap (λ (c : UpdateCursor). c.synced) cursor_is ∙ (advance-synced p.cursor ids s).0) in
    (
      later.0
          ∙ ap (λ (h : Client × List Effect). (handle_updates g h.0 rest).0) handled_is
          ∙ sym both.0,
      ap (λ (h : Client × List Effect). h.1 ++ effects) handled_is
          ∙ ap (λ (l : List Effect). handled.1 ++ l)
              (later.1
                ∙ ap (λ (h : Client × List Effect). (handle_updates g h.0 rest).1) handled_is)
          ∙ sym both.1,
      subst (λ l. Increasing p.cursor.next_offset l) (sym (map-append id_of updates rest))
          (advance-Increasing p.cursor ids (map id_of rest) a
            (subst (λ c. Increasing c.next_offset (map id_of rest)) cursor_is later.2)),
    )

none-Delivers : (g : Config) (p : Poller) → Delivers g p [] p.client []
unfolding handle_updates
none-Delivers g p = (refl, refl, tt)

-- From a cursor that is in step with the server, and if the Bot API answers as documented: whatever
-- errors come in between, the loop leaves the client and has the effects that handling all the
-- fetched updates in order has, and their ids increase strictly from the offset on.
pub run-Delivers :
    (parse : Parse) (g : Config) (p : Poller) (polls : List Poll)
    → p.cursor.synced ≡ true
    → AreAnswered parse g p polls
    → let result = run parse g p polls in
      Delivers g p (fetched parse polls) result.0.client result.1.0
unfolding run turn
run-Delivers parse g p [] s a = none-Delivers g p
run-Delivers parse g p (poll ∷ polls) s a =
    let now = turn parse g p poll in
    after_fetch-Delivers g p (fetch parse poll) (fetched parse polls) _ _ s a.0
      (λ t. run-Delivers parse g now.0 polls t a.1)

after_fetch-waits :
    (g : Config) (p : Poller) (r : Result Text (List (World × Update)))
    → backoff_min ≤ p.backoff
    → p.backoff ≤ backoff_max
    → let (next, (_, wait)) = after_fetch g p r in
      (between_polls ≤ wait)
      × (wait ≤ backoff_max)
      × (backoff_min ≤ next.backoff)
      × (next.backoff ≤ backoff_max)
after_fetch-waits g p (ok updates) h k = omega arith
after_fetch-waits g p (err e) h k = ground arith

-- Every wait is at least fifty milliseconds and at most a minute.
pub run-waits :
    (parse : Parse) (g : Config) (p : Poller) (polls : List Poll)
    → backoff_min ≤ p.backoff
    → p.backoff ≤ backoff_max
    → All (λ wait. (between_polls ≤ wait) × (wait ≤ backoff_max)) (run parse g p polls).1.1
unfolding run turn
run-waits parse g p [] h k = tt
run-waits parse g p (poll ∷ polls) h k =
    let waits = after_fetch-waits g p (fetch parse poll) h k in
    ((waits.0, waits.1), run-waits parse g (turn parse g p poll).0 polls waits.2 waits.3)
