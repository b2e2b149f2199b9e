-- ===== src/Firmware/Telegram/Confirmed.antt =====
-- What an operation of the Telegram client rests on, and the operations that commands and buttons
-- share.
pub mod Sound
pub mod Confirmations
use m5stack_pc_remote.Base.{
  ℕ, ◌+◌, ◌≤◌, ◌<◌, ◌≡◌, refl, ap, ◌∙◌, ◌≢◌, ◌↔◌, false, Option, none, some, List, [], ◌∷◌, ◌++◌,
  arith, lt→ltb, All,
}
use m5stack_pc_remote.Base.Result.{ok}
use m5stack_pc_remote.Base.Text.{Text, eqb_iff}
use m5stack_pc_remote.Firmware.Telegram.{
  PendingKind, power, config, firmware_update, Pending, Client, World, Effect, answer, send, ask,
  alert, wake, power_command, write_settings, update_firmware,
}
use m5stack_pc_remote.Firmware.Telegram.Operations.{accepted_kind, consume_pending}

-- The client holds a confirmation of the kind, and it has not expired.
abbrev pub IsConfirmed : World → Client → PendingKind → Type 0
IsConfirmed w c kind =
    (p : Pending) × (c.pending ≡ some p) × (p.kind ≡ kind) × (w.now < p.expires_at)

-- What each effect presumes of the client before it.
unfoldable pub IsJustified : World → Client → Effect → Type 0
IsJustified w c (ask chat_id nonce) = c.is_locked ≡ false
IsJustified w c (wake port) = (c.is_locked ≡ false) × (port ≡ c.settings.wol_port)
IsJustified w c (power_command action ip) =
    (c.is_locked ≡ false) × (ip ≡ c.settings.pc_ip_address) × IsConfirmed w c (power action)
IsJustified w c (write_settings change) = (c.is_locked ≡ false) × IsConfirmed w c (config change)
IsJustified w c (update_firmware m) =
    (c.is_locked ≡ false) × (w.manifest ≡ ok m) × IsConfirmed w c (firmware_update m.version)
IsJustified w c (answer id) = Unit
IsJustified w c (send chat_id) = Unit
IsJustified w c (alert chat_id count) = Unit

-- The operations that need a confirmation.
unfoldable pub operations : List Effect → ℕ
operations [] = 0
operations (power_command action ip ∷ l) = 1 + operations l
operations (write_settings change ∷ l) = 1 + operations l
operations (update_firmware m ∷ l) = 1 + operations l
operations (answer id ∷ l) = operations l
operations (send chat_id ∷ l) = operations l
operations (ask chat_id nonce ∷ l) = operations l
operations (alert chat_id count ∷ l) = operations l
operations (wake port ∷ l) = operations l

-- The confirmations that were asked for.
unfoldable pub asks : List Effect → ℕ
asks [] = 0
asks (ask chat_id nonce ∷ l) = 1 + asks l
asks (power_command action ip ∷ l) = asks l
asks (write_settings change ∷ l) = asks l
asks (update_firmware m ∷ l) = asks l
asks (answer id ∷ l) = asks l
asks (send chat_id ∷ l) = asks l
asks (alert chat_id count ∷ l) = asks l
asks (wake port ∷ l) = asks l

pub operations-append : (k l : List Effect) → operations (k ++ l) ≡ operations k + operations l
unfolding operations
operations-append [] l = omega arith
operations-append (power_command action ip ∷ k) l = omega (arith, operations-append k l)
operations-append (write_settings change ∷ k) l = omega (arith, operations-append k l)
operations-append (update_firmware m ∷ k) l = omega (arith, operations-append k l)
operations-append (answer id ∷ k) l = operations-append k l
operations-append (send chat_id ∷ k) l = operations-append k l
operations-append (ask chat_id nonce ∷ k) l = operations-append k l
operations-append (alert chat_id count ∷ k) l = operations-append k l
operations-append (wake port ∷ k) l = operations-append k l

pub asks-append : (k l : List Effect) → asks (k ++ l) ≡ asks k + asks l
unfolding asks
asks-append [] l = omega arith
asks-append (ask chat_id nonce ∷ k) l = omega (arith, asks-append k l)
asks-append (power_command action ip ∷ k) l = asks-append k l
asks-append (write_settings change ∷ k) l = asks-append k l
asks-append (update_firmware m ∷ k) l = asks-append k l
asks-append (answer id ∷ k) l = asks-append k l
asks-append (send chat_id ∷ k) l = asks-append k l
asks-append (alert chat_id count ∷ k) l = asks-append k l
asks-append (wake port ∷ k) l = asks-append k l

abbrev pub held : Option Pending → ℕ
held none = 0
held (some p) = 1

-- Every effect is justified, and every operation uses up a confirmation that was held before or
-- asked for since.
abbrev pub IsSound : World → Client → Client × List Effect → Type 0
IsSound w c (c', effects) =
    All (IsJustified w c) effects
    × (operations effects + held c'.pending ≤ held c.pending + asks effects)

pub accepted_kind_lem :
    (now : ℕ) (supplied : Text) (o : Option Pending) (kind : PendingKind)
    → accepted_kind now supplied o ≡ some kind
    → (p : Pending) × (o ≡ some p) × (p.kind ≡ kind) × (p.nonce ≡ supplied) × (now < p.expires_at)
accepted_kind_lem now supplied none kind h = cc
accepted_kind_lem now [] (some p) kind h = cc
accepted_kind_lem now (x ∷ supplied) (some p) kind h =
    let (same_nonce, _) = eqb_iff p.nonce (x ∷ supplied) in
    (p, refl, ground arith, ground (arith, same_nonce), ground arith)

accepted_kind_iff :
    (now : ℕ) (supplied : Text) (o : Option Pending) (kind : PendingKind)
    → (accepted_kind now supplied o ≡ some kind) ↔ (
        (p : Pending) × (o ≡ some p)
        × (p.kind ≡ kind)
        × (p.nonce ≡ supplied)
        × (supplied ≢ [])
        × (now < p.expires_at))
accepted_kind_iff now supplied none kind = (λ h. absurd (cc), λ h. absurd (let e = h.1 in cc))
accepted_kind_iff now [] (some p) kind = (λ h. absurd (cc), λ h. absurd (h.4 refl))
accepted_kind_iff now (x ∷ supplied) (some p) kind = (
  (λ h.
      let (q, e, k, n, t) = accepted_kind_lem now (x ∷ supplied) (some p) kind h in
      (q, e, k, n, (λ z. cc), t)),
  (λ h.
      let (q, e, k, n, z, t) = h in
      let held_one : p ≡ q = cc in
      let agreed = (eqb_iff p.nonce (x ∷ supplied)).1 (ap (λ y. y.nonce) held_one ∙ n) in
      let in_time : now < p.expires_at = rw held_one t in
      rw (agreed, lt→ltb now p.expires_at in_time) (ap (λ y. some y.kind) held_one ∙ ap some k)),
)

-- A supplied nonce confirms exactly the operation whose confirmation is held, if it is the nonce of
-- that confirmation, is not empty, and comes before the end; and whatever is supplied, no
-- confirmation is held afterwards.
pub consume_pending_iff :
    (w : World) (c : Client) (supplied : Text) (kind : PendingKind)
    → ((consume_pending w c supplied).0.pending ≡ none)
      × (((consume_pending w c supplied).1 ≡ some kind) ↔ (
          (p : Pending) × (c.pending ≡ some p)
          × (p.kind ≡ kind)
          × (p.nonce ≡ supplied)
          × (supplied ≢ [])
          × (w.now < p.expires_at)))
unfolding consume_pending
consume_pending_iff w c supplied kind = (refl, accepted_kind_iff w.now supplied c.pending kind)
