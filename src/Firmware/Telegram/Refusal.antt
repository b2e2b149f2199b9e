-- ===== src/Firmware/Telegram/Refusal.antt =====
-- What the Telegram client does not do for other users.
use m5stack_pc_remote.Base.{ℕ, ◌≡◌, refl, false, Option, none, some, List, [], ◌∷◌, All, All-append}
use m5stack_pc_remote.Base.Int.{ℤ}
use m5stack_pc_remote.Watch.AlertThrottle.{record_failure}
use m5stack_pc_remote.Firmware.Validation.{telegram_user_id_matches, parse_telegram_user_id}
use m5stack_pc_remote.Firmware.Telegram.{Config, Client, World, Effect, answer, alert}
use m5stack_pc_remote.Firmware.Telegram.Updates.{
  CallbackQuery, Message, alert_to, record_unauthorized_access, refused, handle_callback_query,
  handle_message, Update, handle_parts, handle_update,
}

-- The user whose callback query or message an update holds.
abbrev pub sender : Option CallbackQuery → Option Message → Option ℤ
sender (some q) m = some q.from_id
sender none (some m) = some m.from_id
sender none none = none

-- An answer to a button, or an alert to the configured user.
pub IsForOwner : Config → Effect → Type 0
IsForOwner g (answer id) = Unit
IsForOwner g (alert chat_id count) =
    parse_telegram_user_id g.telegram_allowed_user_id ≡ some chat_id
IsForOwner g other = ⊥

-- The client, with one more refused access on the count of its throttle.
abbrev pub counted : World → Client → Client
counted w c = record c { unauthorized_alerts = (record_failure c.unauthorized_alerts w.now).0 }

alert_to-IsForOwner :
    (g : Config) (chat_id : Option ℤ) (count : Option ℕ)
    → parse_telegram_user_id g.telegram_allowed_user_id ≡ chat_id
    → All (IsForOwner g) (alert_to chat_id count)
unfolding IsForOwner
alert_to-IsForOwner g none count h = tt
alert_to-IsForOwner g (some chat_id) none h = tt
alert_to-IsForOwner g (some chat_id) (some count) h = (h, tt)

refused_lem :
    (g : Config) (w : World) (c : Client) (before : List Effect)
    → All (IsForOwner g) before
    → ((refused g w c before).0 ≡ counted w c) × All (IsForOwner g) (refused g w c before).1
unfolding record_unauthorized_access
refused_lem g w c before b =
    let chat_id = parse_telegram_user_id g.telegram_allowed_user_id in
    let count = (record_failure c.unauthorized_alerts w.now).1 in
    (
      refl,
      All-append (IsForOwner g) before (alert_to chat_id count) b
          (alert_to-IsForOwner g chat_id count refl),
    )

parts-refused :
    (g : Config) (w : World) (c : Client) (q : Option CallbackQuery) (m : Option Message)
    (from_id : ℤ)
    → sender q m ≡ some from_id
    → telegram_user_id_matches g.telegram_allowed_user_id from_id ≡ false
    → ((handle_parts g w c q m).0 ≡ counted w c) × All (IsForOwner g) (handle_parts g w c q m).1
unfolding handle_callback_query handle_message IsForOwner
parts-refused g w c (some q) m from_id h k =
    let stranger : telegram_user_id_matches g.telegram_allowed_user_id q.from_id ≡ false = cc in
    rw stranger (refused_lem g w c (answer q.id ∷ []) (tt, tt))
parts-refused g w c none (some m) from_id h k =
    let stranger : telegram_user_id_matches g.telegram_allowed_user_id m.from_id ≡ false = cc in
    rw stranger (refused_lem g w c [] tt)
parts-refused g w c none none from_id h k = cc

-- An update from a user other than the configured one changes nothing but the count of refused
-- accesses, and it has no effect but an answer to its button and the alert to the configured user.
pub handle_update-refused :
    (g : Config) (w : World) (c : Client) (u : Update) (from_id : ℤ)
    → sender u.callback_query u.message ≡ some from_id
    → telegram_user_id_matches g.telegram_allowed_user_id from_id ≡ false
    → ((handle_update g w c u).0 ≡ counted w c) × All (IsForOwner g) (handle_update g w c u).1
unfolding handle_update
handle_update-refused g w c u from_id h k =
    parts-refused g w c u.callback_query u.message from_id h k
