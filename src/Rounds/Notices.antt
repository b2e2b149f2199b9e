-- ===== src/Rounds/Notices.antt =====
-- What the STATUS rounds announce.
use m5stack_pc_remote.Rounds.Target.{check_pc_online_cached}
use m5stack_pc_remote.Base.Text.{Text, trim}
use m5stack_pc_remote.Base.{
  ℕ, ◌-◌, ◌≡◌, refl, sym, ap, ◌∙◌, ◌≢◌, ◌⊎◌, inl, inr, Bool, true, false, ◌&&◌, Option, none, some,
  List, [], ◌∷◌, ◌++◌, arith, leb, same, if◌then◌else◌,
}
use mathlib.Core.Path.{subst}
use m5stack_pc_remote.Watch.StableNotify
use m5stack_pc_remote.Watch.SleepWatch
use m5stack_pc_remote.Watch.SleepWatch.{idle_watch}
use m5stack_pc_remote.Watch.WakeWatch.{WakeNotice, succeeded, timed_out}
use m5stack_pc_remote.Rounds.Status.{
  status_interval, Watcher, Turn, Output, lookup, wake_succeeded, wake_timed_out, pc_state,
  mark_valid, redraw, retarget, resolve_once, looked_up, wake_poll, waited, after_notice,
  is_succeeded, wake_output, announce, validate, observe, status_round, ◌|>◌,
}

-- From the announced state `last`, the outputs announce no state twice in a row and lead to `final`;
-- a successful wake announces that the PC is on. The first observation is taken in silence.
abbrev pub Tells : Option Bool → List Output → Option Bool → Type 0
Tells last [] final = (final ≡ last) ⊎ (last ≡ none)
Tells last (pc_state b ∷ l) final = (last ≢ some b) × Tells (some b) l final
Tells last (wake_succeeded n ∷ l) final = Tells (some true) l final
Tells last (wake_timed_out n ∷ l) final = Tells last l final
Tells last (lookup s ∷ l) final = Tells last l final
Tells last (mark_valid b ∷ l) final = Tells last l final
Tells last (redraw ∷ l) final = Tells last l final

Tells-none : (a b : Option Bool) (l : List Output) → Tells a l b → Tells none l b
Tells-none a b [] h = inr refl
Tells-none a b (pc_state c ∷ l) (n, h) = (cc, h)
Tells-none a b (wake_succeeded n ∷ l) h = h
Tells-none a b (wake_timed_out n ∷ l) h = Tells-none a b l h
Tells-none a b (lookup s ∷ l) h = Tells-none a b l h
Tells-none a b (mark_valid c ∷ l) h = Tells-none a b l h
Tells-none a b (redraw ∷ l) h = Tells-none a b l h

Tells-append :
    (a b c : Option Bool) (l m : List Output) → Tells a l b → Tells b m c → Tells a (l ++ m) c
Tells-append a b c [] m (inl e) k = subst (λ z. Tells z m c) e k
Tells-append a b c [] m (inr e) k = subst (λ z. Tells z m c) (sym e) (Tells-none b c m k)
Tells-append a b c (pc_state d ∷ l) m (n, h) k = (n, Tells-append (some d) b c l m h k)
Tells-append a b c (wake_succeeded n ∷ l) m h k = Tells-append (some true) b c l m h k
Tells-append a b c (wake_timed_out n ∷ l) m h k = Tells-append a b c l m h k
Tells-append a b c (lookup s ∷ l) m h k = Tells-append a b c l m h k
Tells-append a b c (mark_valid d ∷ l) m h k = Tells-append a b c l m h k
Tells-append a b c (redraw ∷ l) m h k = Tells-append a b c l m h k

abbrev pub last_told : {Addr : Type 0} → Watcher Addr → Option Bool
last_told w = w.stable_notify.notified_online

-- A part of a round, from a watcher without a sleep request.
abbrev pub Told : {Addr : Type 0} → Watcher Addr → Watcher Addr × List Output → Type 0
Told w r = Tells (last_told w) r.1 (last_told r.0) × (r.0.sleep_watch ≡ idle_watch)

wake_output-Tells :
    (notice : Option WakeNotice) (elapsed : ℕ) (s : StableNotify.StableNotify)
    → Tells s.notified_online (wake_output notice elapsed) (after_notice notice s).notified_online
wake_output-Tells none elapsed s = inl refl
wake_output-Tells (some succeeded) elapsed s = inl refl
wake_output-Tells (some timed_out) elapsed s = inl refl

poll-Tells :
    (s : StableNotify.StableNotify) (now wake : Bool)
    → Tells s.notified_online
        (if (StableNotify.poll s now wake false).1 then pc_state now ∷ [] else [])
        (StableNotify.poll s now wake false).0.notified_online
unfolding StableNotify.poll
poll-Tells s now wake = ground arith

redraw-Tells : (b : Bool) (o : Option Bool) → Tells o (if b then [] else redraw ∷ []) o
redraw-Tells true o = inl refl
redraw-Tells false o = inl refl

poll-idle : (now_online : Bool) → SleepWatch.poll idle_watch now_online ≡ (idle_watch, false)
unfolding SleepWatch.poll
poll-idle now_online = refl

module _ {Addr : Type 0} where
  announce-Told :
      (t : Turn Addr) (now_online : Bool) (w : Watcher Addr)
      → w.sleep_watch ≡ idle_watch
      → Told w (announce t now_online w)
  unfolding announce
  announce-Told t now_online w h =
      let e = ap (λ z. SleepWatch.poll z now_online) h ∙ poll-idle now_online in
      let notice = (wake_poll w.wake_watch now_online t.now).1 in
      let s = after_notice notice w.stable_notify in
      let polled = λ (b : Bool). StableNotify.poll s now_online (is_succeeded notice) b in
      (
        Tells-append (last_told w) _ _
            (wake_output notice (waited w.wake_watch t.now)
              ++ (if (polled (SleepWatch.poll w.sleep_watch now_online).1).1
                  then pc_state now_online ∷ []
                  else []))
            (if same now_online w.pc_online then [] else redraw ∷ [])
            (Tells-append (last_told w) s.notified_online _
              (wake_output notice (waited w.wake_watch t.now)) _
              (wake_output-Tells notice (waited w.wake_watch t.now) w.stable_notify)
              (subst
                (λ z.
                  Tells s.notified_online (if (polled z.1).1 then pc_state now_online ∷ [] else [])
                    (polled z.1).0.notified_online)
                (sym e) (poll-Tells s now_online (is_succeeded notice))))
            (redraw-Tells (same now_online w.pc_online) _),
        ap (λ z. z.0) e,
      )

  then-Told :
      (w : Watcher Addr) (r : Watcher Addr × List Output)
      (f : Watcher Addr → Watcher Addr × List Output)
      → Told w r
      → Told r.0 (f r.0)
      → Told w (r |> f)
  then-Told w r f (h, i) (k, j) =
      (Tells-append (last_told w) (last_told r.0) (last_told (f r.0).0) r.1 (f r.0).1 h k, j)

  validate-Told :
      (t : Turn Addr) (w : Watcher Addr) → w.sleep_watch ≡ idle_watch → Told w (validate t w)
  unfolding validate
  validate-Told t w h = ground arith

  lookup-Tells :
      (found : Option Addr) (addr_text : Text) (o : Option Bool)
      → Tells o (elim found [ none ↦ lookup (trim addr_text) ∷ [] | some a ↦ [] ]) o
  lookup-Tells none addr_text o = inl refl
  lookup-Tells (some a) addr_text o = inl refl

  retold :
      (w w' : Watcher Addr) (r : Watcher Addr × List Output)
      → w.stable_notify ≡ w'.stable_notify
      → Told w' r
      → Told w r
  retold w w' r e (h, i) = (subst (λ z. Tells z.notified_online r.1 (last_told r.0)) (sym e) h, i)

  if-Told :
      (b : Bool) (w : Watcher Addr) (r r' : Watcher Addr × List Output)
      → Told w r
      → Told w r'
      → Told w (if b then r else r')
  if-Told true w r r' h k = h
  if-Told false w r r' h k = k

  module _ (parse : Text → Option Addr) where
    looked_up-Tells : (addr_text : Text) (o : Option Bool) → Tells o (looked_up parse addr_text) o
    looked_up-Tells addr_text o = lookup-Tells (parse (trim addr_text)) addr_text o

    resolve_once-Told :
        (t : Turn Addr) (w : Watcher Addr)
        → w.sleep_watch ≡ idle_watch
        → Told w (resolve_once parse t w)
    unfolding resolve_once
    resolve_once-Told t w h = ground (arith, looked_up-Tells w.status_target_text (last_told w))

    retarget_keeps :
        (t : Turn Addr) (w : Watcher Addr)
        → ((retarget parse t w).stable_notify ≡ w.stable_notify)
          × ((retarget parse t w).sleep_watch ≡ w.sleep_watch)
    unfolding retarget
    retarget_keeps t w = ground arith

    pub status_round-Told :
        (t : Turn Addr) (w : Watcher Addr)
        → w.sleep_watch ≡ idle_watch
        → Told w (status_round parse t w)
    unfolding status_round observe
    status_round-Told t w h =
        let w' = retarget parse t (record w { status_at = t.now }) in
        let k = retarget_keeps t (record w { status_at = t.now }) in
        let r1 = resolve_once parse t w' in
        let h1 = resolve_once-Told t w' (k.1 ∙ h) in
        let h2 =
          then-Told w' r1 (observe t) h1
            (announce-Told t (check_pc_online_cached r1.0.status_targets t.connect) r1.0 h1.1) in
        let r2 = r1 |> observe t in
        let h3 = then-Told w' r2 (validate t) h2 (validate-Told t r2.0 h2.1) in
        if-Told (t.wifi_connected && leb status_interval (t.now - w.status_at)) w (r2 |> validate t)
          (w, []) (retold w w' (r2 |> validate t) (sym k.0) h3) (inl refl, h)
