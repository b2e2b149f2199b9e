-- ===== src/Firmware/Telegram/StatusMenu.antt =====
-- The buttons of `/status` and the handler of their callbacks (firmware/src/telegram.rs).
use m5stack_pc_remote.Base.{◌≡◌, refl, ◌⊎◌, inl, inr, true, false, some, Bool-cases, All}
use m5stack_pc_remote.Base.Text.{Text, eqb, split}
use m5stack_pc_remote.Wire.Status.{
  PcStatusSnapshot, from_snapshot, cb_unlock, cb_refresh, cb_wake, cb_reboot, cb_shutdown,
  status_buttons,
}
use m5stack_pc_remote.Firmware.Telegram.Callback.{
  set_lock, status, refresh, wake_pc, reboot_pc, shutdown_pc, parse_callback_data, parse_parts,
  parse_status,
}

-- What a button of the menu does, for a snapshot in which it is of use.
unfoldable pub IsOffered : PcStatusSnapshot → Text → Type 0
IsOffered s button =
    (parse_callback_data button ≡ some (status refresh))
    ⊎ ((parse_callback_data button ≡ some (set_lock false)) × (s.is_locked ≡ true))
    ⊎ ((parse_callback_data button ≡ some (status wake_pc))
        × (s.is_locked ≡ false)
        × (s.pc_online ≡ false))
    ⊎ (((parse_callback_data button ≡ some (status reboot_pc))
          ⊎ (parse_callback_data button ≡ some (status shutdown_pc)))
        × (s.is_locked ≡ false)
        × (s.pc_online ≡ true)
        × (s.bridge_online ≡ true))

refresh-parses : parse_callback_data cb_refresh ≡ some (status refresh)
unfolding parse_callback_data parse_parts parse_status split eqb
refresh-parses = refl

unlock-parses : parse_callback_data cb_unlock ≡ some (set_lock false)
unfolding parse_callback_data parse_parts parse_status split eqb
unlock-parses = refl

wake-parses : parse_callback_data cb_wake ≡ some (status wake_pc)
unfolding parse_callback_data parse_parts parse_status split eqb
wake-parses = refl

reboot-parses : parse_callback_data cb_reboot ≡ some (status reboot_pc)
unfolding parse_callback_data parse_parts parse_status split eqb
reboot-parses = refl

shutdown-parses : parse_callback_data cb_shutdown ≡ some (status shutdown_pc)
unfolding parse_callback_data parse_parts parse_status split eqb
shutdown-parses = refl

-- Every button of the menu is understood, and it is offered only where it is of use: the refresh
-- always, the unlocking while locked, the start while the PC is off, and the restart and the
-- shutdown while the PC and its bridge are on; none but the refresh and the unlocking while locked.
pub status_buttons-IsOffered :
    (s : PcStatusSnapshot) → All (All (IsOffered s)) (status_buttons (from_snapshot s))
unfolding status_buttons from_snapshot IsOffered
status_buttons-IsOffered s = elim (Bool-cases s.is_locked) [
  | inl e ↦ rw e ((inr (inl (unlock-parses, refl)), tt), ((inl refresh-parses, tt), tt))
  | inr e ↦ elim (Bool-cases s.pc_online) [
    | inr f ↦
        rw (e, f) ((inr (inr (inl (wake-parses, refl, refl))), tt), ((inl refresh-parses, tt), tt))
    | inl f ↦ elim (Bool-cases s.bridge_online) [
      | inl b ↦
          rw (e, f, b)
            (
              (
                inr (inr (inr (inl reboot-parses, refl, refl, refl))),
                (inr (inr (inr (inr shutdown-parses, refl, refl, refl))), tt),
              ),
              ((inl refresh-parses, tt), tt),
            )
      | inr b ↦ rw (e, f, b) ((inl refresh-parses, tt), tt)
    ]
  ]
]
