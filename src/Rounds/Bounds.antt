-- ===== src/Rounds/Bounds.antt =====
-- The bounds on lookups and marks over sequences of turns.
use m5stack_pc_remote.Rounds.Target.{check_pc_online_cached}
use m5stack_pc_remote.Base.{
  ◌+◌, ◌-◌, ◌≤◌, ◌≡◌, ap, ◌∙◌, Bool, true, false, not, ◌&&◌, Option, List, [], ◌∷◌, ◌++◌, arith,
  leb, if◌then◌else◌, bit,
}
use m5stack_pc_remote.Base.Text.{Text, eqb}
use m5stack_pc_remote.Rounds.Status.{
  status_interval, Watcher, Turn, Output, retarget, resolve_once, announce, validate, observe,
  status_round,
}
use m5stack_pc_remote.Rounds.Events.{Event, turn, wake_request, sleep_request, step, outputs}
use m5stack_pc_remote.Rounds.Counts.{
  changes_detour, validate_counts, announce_keeps, resolve_once_counts, marks-append,
  retarget_counts, lookups-append, lookups, marks, changes,
}

module _ {Addr : Type 0} where
  module _ (parse : Text → Option Addr) where
    -- A turn with result `r` before the events `es`: the lookups are paid by the attempt that is
    -- left and by changes of the address; a mark that succeeds is the last.
    abbrev Spends :
        List (Event Addr) → Turn Addr → Watcher Addr → Watcher Addr × List Output → Type 0
    Spends es t w r =
        (lookups r.1 + bit (not r.0.status_dns_tried) + changes r.0.status_target_text es
          ≤ bit (not w.status_dns_tried) + changes w.status_target_text (turn t ∷ es))
        × (marks r.1 + bit w.ota_validated ≡ bit r.0.ota_validated)

    if-Spends :
        (b : Bool) (es : List (Event Addr)) (t : Turn Addr) (w : Watcher Addr)
        (r r' : Watcher Addr × List Output)
        → Spends es t w r
        → Spends es t w r'
        → Spends es t w (if b then r else r')
    if-Spends true es t w r r' h k = h
    if-Spends false es t w r r' h k = k

    spent :
        (es : List (Event Addr)) (t : Turn Addr) (w w1 : Watcher Addr)
        (r1 r2 r3 : Watcher Addr × List Output)
        → (bit (not w1.status_dns_tried)
            ≤ bit (not w.status_dns_tried) + bit (not (eqb t.addr_text w.status_target_text)))
          × (w1.status_target_text ≡ t.addr_text)
          × (w1.ota_validated ≡ w.ota_validated)
        → (lookups r1.1 + bit (not r1.0.status_dns_tried) ≤ bit (not w1.status_dns_tried))
          × (marks r1.1 ≡ 0)
          × (r1.0.status_target_text ≡ w1.status_target_text)
          × (r1.0.ota_validated ≡ w1.ota_validated)
        → (lookups r2.1 ≡ 0)
          × (marks r2.1 ≡ 0)
          × (r2.0.status_dns_tried ≡ r1.0.status_dns_tried)
          × (r2.0.status_target_text ≡ r1.0.status_target_text)
          × (r2.0.ota_validated ≡ r1.0.ota_validated)
        → (lookups r3.1 ≡ 0)
          × (marks r3.1 + bit r2.0.ota_validated ≡ bit r3.0.ota_validated)
          × (r3.0.status_dns_tried ≡ r2.0.status_dns_tried)
          × (r3.0.status_target_text ≡ r2.0.status_target_text)
        → Spends es t w (r3.0, r1.1 ++ r2.1 ++ r3.1)
    spent es t w w1 r1 r2 r3 c0 c1 c2 c3 = (
      omega (
        arith,
        lookups-append (r1.1 ++ r2.1) r3.1,
        lookups-append r1.1 r2.1,
        ap (λ z. changes z es) (c3.3 ∙ c2.3 ∙ c1.2 ∙ c0.1),
        ap (λ z. bit (not z)) (c3.2 ∙ c2.2),
        c0.0,
        c1.0,
      ),
      omega (
        arith,
        marks-append (r1.1 ++ r2.1) r3.1,
        marks-append r1.1 r2.1,
        ap bit (c2.4 ∙ c1.3 ∙ c0.2),
        c3.1,
      ),
    )

    status_round-Spends :
        (es : List (Event Addr)) (t : Turn Addr) (w : Watcher Addr)
        → Spends es t w (status_round parse t w)
    unfolding status_round observe
    status_round-Spends es t w =
        let w0 = record w { status_at = t.now } in
        let w1 = retarget parse t w0 in
        let r1 = resolve_once parse t w1 in
        let now_online = check_pc_online_cached r1.0.status_targets t.connect in
        let r2 = announce t now_online r1.0 in
        let r3 = validate t r2.0 in
        let c0 = retarget_counts parse t w0 in
        let c1 = resolve_once_counts parse t w1 in
        let c2 = announce_keeps t now_online r1.0 in
        let c3 = validate_counts t r2.0 in
        if-Spends (t.wifi_connected && leb status_interval (t.now - w.status_at)) es t w
          (r3.0, r1.1 ++ r2.1 ++ r3.1) (w, []) (spent es t w w1 r1 r2 r3 c0 c1 c2 c3)
          (omega (arith, changes_detour t.addr_text w.status_target_text es), omega arith)

  -- Over any sequence of turns and requests, the rounds look up names at most once for the address
  -- that the watcher starts with, and not at all for it if the attempt was made, plus once for each
  -- change of the address in the settings, whatever the lookups answer.
  pub lookups-le-changes :
      (parse : Text → Option Addr) (w : Watcher Addr) (es : List (Event Addr))
      → lookups (outputs parse w es)
        ≤ bit (not w.status_dns_tried) + changes w.status_target_text es
  unfolding outputs step
  lookups-le-changes parse w [] = omega arith
  lookups-le-changes parse w (turn t ∷ es) =
      let r = status_round parse t w in
      omega (
        arith,
        lookups-append r.1 (outputs parse r.0 es),
        (status_round-Spends parse es t w).0,
        lookups-le-changes parse r.0 es,
      )
  lookups-le-changes parse w (wake_request now pc_online ∷ es) = lookups-le-changes parse _ es
  lookups-le-changes parse w (sleep_request ∷ es) = lookups-le-changes parse _ es

  -- Over any sequence of turns and requests, the application is marked valid at most once, and not
  -- again if it was marked before; attempts that failed do not count.
  pub marks-le-one :
      (parse : Text → Option Addr) (w : Watcher Addr) (es : List (Event Addr))
      → marks (outputs parse w es) + bit w.ota_validated ≤ 1
  unfolding outputs step
  marks-le-one parse w [] = ground arith
  marks-le-one parse w (turn t ∷ es) =
      let r = status_round parse t w in
      omega (
        arith,
        marks-append r.1 (outputs parse r.0 es),
        (status_round-Spends parse es t w).1,
        marks-le-one parse r.0 es,
      )
  marks-le-one parse w (wake_request now pc_online ∷ es) = marks-le-one parse _ es
  marks-le-one parse w (sleep_request ∷ es) = marks-le-one parse _ es
