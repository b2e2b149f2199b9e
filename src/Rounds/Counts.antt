-- ===== src/Rounds/Counts.antt =====
-- How often the STATUS rounds look a name up and mark the running application valid.
use m5stack_pc_remote.Base.{
  ℕ, suc, ◌+◌, ◌≤◌, ◌≡◌, refl, Bool, true, false, not, Option, none, some, List, [], ◌∷◌, ◌++◌,
  arith, same, if◌then◌else◌, bit,
}
use m5stack_pc_remote.Base.Text.{Text, eqb, eqb_iff}
use m5stack_pc_remote.Watch.StableNotify
use m5stack_pc_remote.Watch.SleepWatch
use m5stack_pc_remote.Watch.WakeWatch.{WakeNotice, succeeded, timed_out}
use m5stack_pc_remote.Rounds.Status.{
  Watcher, Turn, Output, lookup, wake_succeeded, wake_timed_out, pc_state, mark_valid, redraw,
  retarget, resolve_once, wake_poll, waited, after_notice, is_succeeded, wake_output, announce,
  validate,
}
use m5stack_pc_remote.Rounds.Events.{Event, turn, wake_request, sleep_request}

abbrev pub lookups : List Output → ℕ
lookups [] = 0
lookups (lookup s ∷ l) = suc (lookups l)
lookups (wake_succeeded n ∷ l) = lookups l
lookups (wake_timed_out n ∷ l) = lookups l
lookups (pc_state b ∷ l) = lookups l
lookups (mark_valid b ∷ l) = lookups l
lookups (redraw ∷ l) = lookups l

-- The marks that succeeded.
abbrev pub marks : List Output → ℕ
marks [] = 0
marks (mark_valid b ∷ l) = bit b + marks l
marks (lookup s ∷ l) = marks l
marks (wake_succeeded n ∷ l) = marks l
marks (wake_timed_out n ∷ l) = marks l
marks (pc_state b ∷ l) = marks l
marks (redraw ∷ l) = marks l

pub lookups-append : (l m : List Output) → lookups (l ++ m) ≡ lookups l + lookups m
lookups-append [] m = omega arith
lookups-append (lookup s ∷ l) m = omega (arith, lookups-append l m)
lookups-append (wake_succeeded n ∷ l) m = lookups-append l m
lookups-append (wake_timed_out n ∷ l) m = lookups-append l m
lookups-append (pc_state b ∷ l) m = lookups-append l m
lookups-append (mark_valid b ∷ l) m = lookups-append l m
lookups-append (redraw ∷ l) m = lookups-append l m

pub marks-append : (l m : List Output) → marks (l ++ m) ≡ marks l + marks m
marks-append [] m = omega arith
marks-append (mark_valid b ∷ l) m = omega (arith, marks-append l m)
marks-append (lookup s ∷ l) m = marks-append l m
marks-append (wake_succeeded n ∷ l) m = marks-append l m
marks-append (wake_timed_out n ∷ l) m = marks-append l m
marks-append (pc_state b ∷ l) m = marks-append l m
marks-append (redraw ∷ l) m = marks-append l m

-- How often the address in the settings differs from the one that the turn before it probed.
abbrev pub changes : {Addr : Type 0} → Text → List (Event Addr) → ℕ
changes target [] = 0
changes target (turn t ∷ es) = bit (not (eqb t.addr_text target)) + changes t.addr_text es
changes target (wake_request now pc_online ∷ es) = changes target es
changes target (sleep_request ∷ es) = changes target es

wake_output_counts :
    (notice : Option WakeNotice) (elapsed : ℕ)
    → (lookups (wake_output notice elapsed) ≡ 0) × (marks (wake_output notice elapsed) ≡ 0)
wake_output_counts none elapsed = (refl, refl)
wake_output_counts (some succeeded) elapsed = (refl, refl)
wake_output_counts (some timed_out) elapsed = (refl, refl)

-- The outputs of an announcement, of whatever kind they are.
announced_counts :
    (l : List Output) (b c d : Bool)
    → (lookups l ≡ 0) × (marks l ≡ 0)
    → (lookups (l ++ (if b then pc_state c ∷ [] else []) ++ (if d then [] else redraw ∷ [])) ≡ 0)
      × (marks (l ++ (if b then pc_state c ∷ [] else []) ++ (if d then [] else redraw ∷ [])) ≡ 0)
announced_counts l true c true (h, k) = (simp (lookups-append, h), simp (marks-append, k))
announced_counts l true c false (h, k) = (simp (lookups-append, h), simp (marks-append, k))
announced_counts l false c true (h, k) = (simp (lookups-append, h), simp (marks-append, k))
announced_counts l false c false (h, k) = (simp (lookups-append, h), simp (marks-append, k))

-- The detour over another address costs no fewer changes.
pub changes_detour :
    {Addr : Type 0} (last target : Text) (es : List (Event Addr))
    → changes target es ≤ bit (not (eqb last target)) + changes last es
changes_detour last target [] = omega arith
changes_detour last target (turn t ∷ es) =
    ground (arith, eqb_iff t.addr_text target, eqb_iff t.addr_text last, eqb_iff last target)
changes_detour last target (wake_request now pc_online ∷ es) = changes_detour last target es
changes_detour last target (sleep_request ∷ es) = changes_detour last target es

module _ {Addr : Type 0} where
  -- What the announcement leaves as it is.
  pub announce_keeps :
      (t : Turn Addr) (now_online : Bool) (w : Watcher Addr)
      → (lookups (announce t now_online w).1 ≡ 0)
        × (marks (announce t now_online w).1 ≡ 0)
        × ((announce t now_online w).0.status_dns_tried ≡ w.status_dns_tried)
        × ((announce t now_online w).0.status_target_text ≡ w.status_target_text)
        × ((announce t now_online w).0.ota_validated ≡ w.ota_validated)
  unfolding announce
  announce_keeps t now_online w =
      let notice = (wake_poll w.wake_watch now_online t.now).1 in
      let settled =
        StableNotify.poll (after_notice notice w.stable_notify) now_online (is_succeeded notice)
          (SleepWatch.poll w.sleep_watch now_online).1 in
      let elapsed = waited w.wake_watch t.now in
      let c =
        announced_counts (wake_output notice elapsed) settled.1 now_online
          (same now_online w.pc_online) (wake_output_counts notice elapsed) in
      (c.0, c.1, refl, refl, refl)

  pub validate_counts :
      (t : Turn Addr) (w : Watcher Addr)
      → (lookups (validate t w).1 ≡ 0)
        × (marks (validate t w).1 + bit w.ota_validated ≡ bit (validate t w).0.ota_validated)
        × ((validate t w).0.status_dns_tried ≡ w.status_dns_tried)
        × ((validate t w).0.status_target_text ≡ w.status_target_text)
  unfolding validate
  validate_counts t w = ground arith

  module _ (parse : Text → Option Addr) where
    pub resolve_once_counts :
        (t : Turn Addr) (w : Watcher Addr)
        → (lookups (resolve_once parse t w).1
              + bit (not (resolve_once parse t w).0.status_dns_tried)
            ≤ bit (not w.status_dns_tried))
          × (marks (resolve_once parse t w).1 ≡ 0)
          × ((resolve_once parse t w).0.status_target_text ≡ w.status_target_text)
          × ((resolve_once parse t w).0.ota_validated ≡ w.ota_validated)
    unfolding resolve_once
    resolve_once_counts t w = ground arith

    pub retarget_counts :
        (t : Turn Addr) (w : Watcher Addr)
        → (bit (not (retarget parse t w).status_dns_tried)
            ≤ bit (not w.status_dns_tried) + bit (not (eqb t.addr_text w.status_target_text)))
          × ((retarget parse t w).status_target_text ≡ t.addr_text)
          × ((retarget parse t w).ota_validated ≡ w.ota_validated)
    unfolding retarget
    retarget_counts t w = ground (arith, eqb_iff t.addr_text w.status_target_text)
