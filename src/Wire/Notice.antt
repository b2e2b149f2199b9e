-- ===== src/Wire/Notice.antt =====
-- `FirmwareNotice` of shared/pc-remote-signing/src/firmware_notice.rs
use mathlib.Core.Path.{subst, subst₂}
use m5stack_pc_remote.Base.{
  ◌≡◌, refl, sym, ◌⊎◌, inl, inr, Bool, true, false, not, Option, none, some, List, [], ◌∷◌, arith,
  if◌then◌else◌, All,
}
use m5stack_pc_remote.Base.Text.{Text}
use m5stack_pc_remote.Wire.Version.{
  VersionOrder, newer, same_version, older, unknown, compare_versions,
}
use m5stack_pc_remote.Wire.Version.Order.{newer_trans}

pub record FirmwareNotice : Type 0 where
  pub last_notified : Option Text

abbrev pub default_notice : FirmwareNotice
default_notice = record { last_notified = none }

abbrev is_newer : VersionOrder → Bool
is_newer newer = true
is_newer same_version = false
is_newer older = false
is_newer unknown = false

-- The test on `last_notified` in `observe`.
passes_last : Option Text → Text → Bool
passes_last none offered = true
passes_last (some previous) offered = is_newer (compare_versions previous offered)

unfoldable pub observe : FirmwareNotice → Text → Option Text → FirmwareNotice × Bool
unfolding passes_last
observe s current none = (s, false)
observe s current (some offered) =
    if not (is_newer (compare_versions current offered))
    then (s, false)
    else if not (passes_last s.last_notified offered)
    then (s, false)
    else (record { last_notified = some offered }, true)

abbrev push_version : Bool → Option Text → List Text → List Text
push_version true (some v) l = v ∷ l
push_version true none l = l
push_version false v l = l

-- The versions that are announced over a sequence of checks of the manifest.
pub announced : FirmwareNotice → Text → List (Option Text) → List Text
announced s current [] = []
announced s current (offered ∷ checks) =
    let (s', notify) = observe s current offered in
    push_version notify offered (announced s' current checks)

-- Every announced version is newer than the running one and than each one announced before it.
abbrev pub NewerThan : Text → List Text → Type 0
NewerThan v = All (λ w. compare_versions v w ≡ newer)

abbrev pub Ascending : List Text → Type 0
Ascending [] = Unit
Ascending (v ∷ l) = NewerThan v l × Ascending l

abbrev NewerThanLast : Option Text → List Text → Type 0
NewerThanLast none l = Unit
NewerThanLast (some v) l = NewerThan v l

is_newer_iff : (o : VersionOrder) → is_newer o ≡ true → o ≡ newer
is_newer_iff o h = ground arith

NewerThan-trans :
    (u v : Text) (l : List Text) → compare_versions u v ≡ newer → NewerThan v l → NewerThan u l
NewerThan-trans u v [] h n = tt
NewerThan-trans u v (w ∷ l) h n = (newer_trans u v w h n.0, NewerThan-trans u v l h n.1)

observe_lem :
    (s : FirmwareNotice) (current : Text) (offered : Option Text)
    → (((observe s current offered).1 ≡ false) × ((observe s current offered).0 ≡ s))
      ⊎ ((v : Text) × (offered ≡ some v)
          × ((observe s current offered).1 ≡ true)
          × ((observe s current offered).0 ≡ record { last_notified = some v })
          × (compare_versions current v ≡ newer)
          × (passes_last s.last_notified v ≡ true))
unfolding observe
observe_lem s current none = inl (refl, refl)
observe_lem s current (some v) = ground (arith, is_newer_iff (compare_versions current v))

NewerThanLast-push :
    (last : Option Text) (v : Text) (l : List Text)
    → passes_last last v ≡ true
    → NewerThan v l
    → NewerThanLast last (v ∷ l)
unfolding passes_last
NewerThanLast-push none v l h n = tt
NewerThanLast-push (some u) v l h n =
    let e = is_newer_iff (compare_versions u v) h in (e, NewerThan-trans u v l e n)

abbrev IsProgress : Option Text → Text → List Text → Type 0
IsProgress last current l = NewerThan current l × NewerThanLast last l × Ascending l

NewerThanLast-nil : (last : Option Text) → NewerThanLast last []
NewerThanLast-nil none = tt
NewerThanLast-nil (some v) = tt

announced-IsProgress :
    (s : FirmwareNotice) (current : Text) (checks : List (Option Text))
    → IsProgress s.last_notified current (announced s current checks)
unfolding announced
announced-IsProgress s current [] = (tt, NewerThanLast-nil s.last_notified, tt)
announced-IsProgress s current (offered ∷ checks) =
    let s' = (observe s current offered).0 in
    let l = announced s' current checks in
    let ih = announced-IsProgress s' current checks in
    elim (observe_lem s current offered) [
      | inl e ↦ rw e.0 (subst (λ (t : FirmwareNotice). IsProgress t.last_notified current l) e.1 ih)
      | inr (v, p, fired, q, fresh, passed) ↦
          let k = subst (λ (t : FirmwareNotice). IsProgress t.last_notified current l) q ih in
          let r : IsProgress s.last_notified current (v ∷ l) =
            ((fresh, k.0), NewerThanLast-push s.last_notified v l passed k.1, (k.1, k.2)) in
          subst₂ (λ b o. IsProgress s.last_notified current (push_version b o l)) (sym fired)
            (sym p) r
    ]

-- Over any sequence of checks, each announced version is newer than the running one and newer than
-- every version announced before it: no version is announced twice, and none after a newer one.
pub announced-Ascending :
    (s : FirmwareNotice) (current : Text) (checks : List (Option Text))
    → NewerThan current (announced s current checks) × Ascending (announced s current checks)
announced-Ascending s current checks = let p = announced-IsProgress s current checks in (p.0, p.2)
