-- ===== src/Wire/PowerAction.antt =====
-- `PowerAction` of shared/pc-remote-signing/src/lib.rs.
use m5stack_pc_remote.Base.{
  ◌≡◌, refl, ◌↔◌, inl, inr, Bool, true, false, Option, none, some, List, [], ◌∷◌, ◌++◌, arith,
  if◌then◌else◌, Bool-cases,
}
use m5stack_pc_remote.Base.Text.{Text, text, eqb, eqb_iff}

pub data PowerAction : Type 0 where
  reboot shutdown sleep : PowerAction

-- `PowerAction::ALL`.
abbrev all_actions : List PowerAction
all_actions = reboot ∷ shutdown ∷ sleep ∷ []

unfoldable pub slug : PowerAction → Text
slug reboot = text "reboot"
slug shutdown = text "shutdown"
slug sleep = text "sleep"

unfoldable pub path : PowerAction → Text
path reboot = text "/reboot"
path shutdown = text "/shutdown"
path sleep = text "/sleep"

-- `into_iter().find(|action| name(action) == wanted)`.
find_action : (PowerAction → Text) → Text → List PowerAction → Option PowerAction
find_action name wanted [] = none
find_action name wanted (a ∷ actions) =
    let rest = find_action name wanted actions in if eqb (name a) wanted then some a else rest

pub from_slug : Text → Option PowerAction
unfolding find_action
from_slug s = find_action slug s all_actions

pub from_path : Text → Option PowerAction
unfolding find_action
from_path p = find_action path p all_actions

-- Equality of actions, which `derive(PartialEq)` gives.
abbrev pub eq_action : PowerAction → PowerAction → Bool
eq_action reboot reboot = true
eq_action shutdown shutdown = true
eq_action sleep sleep = true
eq_action _ _ = false

pub eq_action_iff : (a b : PowerAction) → (eq_action a b ≡ true) ↔ (a ≡ b)
eq_action_iff a b = ground arith

find_action_sound :
    (name : PowerAction → Text) (s : Text) (actions : List PowerAction) {a : PowerAction}
    → find_action name s actions ≡ some a
    → name a ≡ s
unfolding find_action
find_action_sound name s [] h = cc
find_action_sound name s (b ∷ actions) h = elim (Bool-cases (eqb (name b) s)) [
  | inl e ↦ cc ((eqb_iff (name b) s).0 e, rw e at h)
  | inr e ↦ find_action_sound name s actions (rw e at h)
]

from_slug-slug : (a : PowerAction) → from_slug (slug a) ≡ some a
unfolding from_slug slug eqb
from_slug-slug reboot = refl
from_slug-slug shutdown = refl
from_slug-slug sleep = refl

from_path-path : (a : PowerAction) → from_path (path a) ≡ some a
unfolding from_path path eqb
from_path-path reboot = refl
from_path-path shutdown = refl
from_path-path sleep = refl

path-slug : (a : PowerAction) → path a ≡ text "/" ++ slug a
unfolding path slug
path-slug reboot = refl
path-slug shutdown = refl
path-slug sleep = refl

-- A text names an action exactly if it is that action's slug, and so for the paths; the path of an
-- action is its slug behind a slash.
pub from_slug_iff :
    (s : Text) (a : PowerAction)
    → ((from_slug s ≡ some a) ↔ (slug a ≡ s))
      × ((from_path s ≡ some a) ↔ (path a ≡ s))
      × (path a ≡ text "/" ++ slug a)
unfolding from_slug from_path
from_slug_iff s a = (
  (find_action_sound slug s all_actions, λ e. rw (← e) (from_slug-slug a)),
  (find_action_sound path s all_actions, λ e. rw (← e) (from_path-path a)),
  path-slug a,
)
