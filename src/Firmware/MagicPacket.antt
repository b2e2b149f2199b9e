-- ===== src/Firmware/MagicPacket.antt =====
-- Wake-on-LAN in firmware/src/net.rs. `u8::from_str_radix`, of Rust's standard library, is written
-- out: a `+` may stand in front of one hexadecimal digit or more, and the value fits into a byte.
-- The socket is a parameter.
use m5stack_pc_remote.Base.{
  ℕ, zero, suc, ◌+◌, ◌-◌, ◌*◌, ◌≡◌, refl, sym, ap, ◌∙◌, ◌≢◌, ◌↔◌, ◌&&◌, Option, none, some, List,
  [], ◌∷◌, ◌++◌, arith, leb, ◌==◌, if◌then◌else◌, length, replicate, length-append,
}
use mathlib.Core.Path.{subst}
use m5stack_pc_remote.Base.Result.{Result, ok, err}
use m5stack_pc_remote.Base.Text.{Text, text, is_ascii_digit, split}

abbrev hex_value : ℕ → Option ℕ
hex_value b =
    if is_ascii_digit b
    then some (b - 48)
    else if leb 97 b && leb b 102
    then some (b - 87)
    else if leb 65 b && leb b 70
    then some (b - 55)
    else none

-- The value of a text of digits, after a value that is already read.
read_hex : ℕ → Text → Option ℕ
read_hex v [] = if leb v 255 then some v else none
read_hex v (b ∷ s) = elim (hex_value b) [ none ↦ none | some d ↦ read_hex (v * 16 + d) s ]

unsigned_hex : Text → Option ℕ
unfolding read_hex
unsigned_hex [] = none
unsigned_hex (b ∷ s) = read_hex 0 (b ∷ s)

unfoldable pub from_str_radix_16 : Text → Option ℕ
unfolding unsigned_hex
from_str_radix_16 [] = none
from_str_radix_16 (b ∷ s) = if b == b'+' then unsigned_hex s else unsigned_hex (b ∷ s)

abbrev pub cons_byte : Option ℕ → Option (List ℕ) → Option (List ℕ)
cons_byte none mac = none
cons_byte (some b) none = none
cons_byte (some b) (some mac) = some (b ∷ mac)

-- The loop over the parts.
unfoldable pub parse_parts : List Text → Option (List ℕ)
unfolding from_str_radix_16
parse_parts [] = some []
parse_parts (part ∷ parts) = cons_byte (from_str_radix_16 part) (parse_parts parts)

unfoldable pub parse_mac : Text → Option (List ℕ)
unfolding parse_parts
parse_mac s = if length (split b':' s) == 6 then parse_parts (split b':' s) else none

-- `count` copies of the address.
unfoldable pub copies : ℕ → List ℕ → List ℕ
copies zero mac = []
copies (suc count) mac = mac ++ copies count mac

unfoldable pub magic_packet : List ℕ → List ℕ
unfolding copies
magic_packet mac = replicate 6 0xFF ++ copies 16 mac

abbrev pub checked_write : ℕ → Result Text ℕ → Result Text (Unit {0})
checked_write expected (err e) = err e
checked_write expected (ok sent) = if sent == expected then ok tt else err (text "short WOL write")

abbrev pub broadcast : (List ℕ → ℕ → Result Text ℕ) → ℕ → Option (List ℕ) → Result Text (Unit {0})
broadcast send_to port none = err (text "invalid PC_MAC_ADDRESS")
broadcast send_to port (some mac) =
    checked_write (length (magic_packet mac)) (send_to (magic_packet mac) port)

-- `send_to` is the broadcast of a packet to a port, with the number of bytes that were sent.
unfoldable pub send_wake_on_lan : (List ℕ → ℕ → Result Text ℕ) → Text → ℕ → Result Text (Unit {0})
unfolding magic_packet parse_mac
send_wake_on_lan send_to mac_text port = broadcast send_to port (parse_mac mac_text)

cons_byte-length :
    (b : Option ℕ) (parsed : Option (List ℕ)) (n : ℕ) (mac : List ℕ)
    → ((rest : List ℕ) → parsed ≡ some rest → length rest ≡ n)
    → cons_byte b parsed ≡ some mac
    → length mac ≡ suc n
cons_byte-length none parsed n mac ih h = cc
cons_byte-length (some b) none n mac ih h = cc
cons_byte-length (some b) (some rest) n mac ih h = ground (arith, ih rest refl)

length-parse_parts :
    (parts : List Text) (mac : List ℕ) → parse_parts parts ≡ some mac → length mac ≡ length parts
unfolding parse_parts
length-parse_parts [] mac h = ground arith
length-parse_parts (part ∷ parts) mac h =
    cons_byte-length (from_str_radix_16 part) (parse_parts parts) (length parts) mac
      (λ rest e. length-parse_parts parts rest e) h

length-parse_mac : (s : Text) (mac : List ℕ) → parse_mac s ≡ some mac → length mac ≡ 6
unfolding parse_mac
length-parse_mac s mac h = ground (arith, length-parse_parts (split b':' s) mac)

length-copies : (count : ℕ) (mac : List ℕ) → length (copies count mac) ≡ count * length mac
unfolding copies
length-copies zero mac = omega arith
length-copies (suc count) mac =
    grind (arith, length-append mac (copies count mac), length-copies count mac)

length-magic_packet : (mac : List ℕ) → length mac ≡ 6 → length (magic_packet mac) ≡ 102
unfolding magic_packet
length-magic_packet mac h =
    omega (arith, length-append (replicate 6 0xFF) (copies 16 mac), length-copies 16 mac, h)

checked_write_iff :
    (expected : ℕ) (written : Result Text ℕ)
    → (checked_write expected written ≡ ok tt) ↔ (written ≡ ok expected)
checked_write_iff expected (err e) = (λ h. cc, λ h. cc)
checked_write_iff expected (ok sent) = (λ h. ground arith, λ h. ground arith)

broadcast_iff :
    (send_to : List ℕ → ℕ → Result Text ℕ) (port : ℕ) (parsed : Option (List ℕ))
    → ((mac : List ℕ) → parsed ≡ some mac → length mac ≡ 6)
    → (broadcast send_to port parsed ≡ ok tt) ↔ (
        (mac : List ℕ) × (parsed ≡ some mac)
        × (length mac ≡ 6)
        × (send_to (magic_packet mac) port ≡ ok 102))
broadcast_iff send_to port none six = (λ h. cc, λ (mac, h, l, w). cc)
broadcast_iff send_to port (some mac) six =
    let l = length-magic_packet mac (six mac refl) in
    let (sound, complete) =
      checked_write_iff (length (magic_packet mac)) (send_to (magic_packet mac) port) in
    (λ h. (mac, refl, six mac refl, sound h ∙ ap ok l), λ (mac', e, l', w). complete (cc))

sent_iff :
    (send_to : List ℕ → ℕ → Result Text ℕ) (mac_text : Text) (port : ℕ)
    → (send_wake_on_lan send_to mac_text port ≡ ok tt) ↔ (
        (mac : List ℕ) × (parse_mac mac_text ≡ some mac)
        × (length mac ≡ 6)
        × (send_to (magic_packet mac) port ≡ ok 102))
unfolding send_wake_on_lan
sent_iff send_to mac_text port =
    broadcast_iff send_to port (parse_mac mac_text) (length-parse_mac mac_text)

-- Each part is the hexadecimal number of the byte at its place.
abbrev pub AreBytes : List Text → List ℕ → Type 0
AreBytes [] [] = Unit
AreBytes [] (b ∷ bytes) = ⊥
AreBytes (part ∷ parts) [] = ⊥
AreBytes (part ∷ parts) (b ∷ bytes) = (from_str_radix_16 part ≡ some b) × AreBytes parts bytes

cons_byte_iff :
    (first : Option ℕ) (later : Option (List ℕ)) (b : ℕ) (bytes : List ℕ)
    → (cons_byte first later ≡ some (b ∷ bytes)) ↔ ((first ≡ some b) × (later ≡ some bytes))
cons_byte_iff none later b bytes = (λ h. cc, λ (h, k). cc)
cons_byte_iff (some c) none b bytes = (λ h. cc, λ (h, k). cc)
cons_byte_iff (some c) (some mac) b bytes = (λ h. (cc, cc), λ (h, k). cc)

cons_byte-nonempty : (first : Option ℕ) (later : Option (List ℕ)) → cons_byte first later ≢ some []
cons_byte-nonempty none later h = cc
cons_byte-nonempty (some c) none h = cc
cons_byte-nonempty (some c) (some mac) h = cc

parse_parts_iff :
    (parts : List Text) (bytes : List ℕ) → (parse_parts parts ≡ some bytes) ↔ AreBytes parts bytes
unfolding parse_parts
parse_parts_iff [] [] = (λ h. tt, λ h. refl)
parse_parts_iff [] (b ∷ bytes) = (λ h. cc, λ h. absurd h)
parse_parts_iff (part ∷ parts) [] =
    (cons_byte-nonempty (from_str_radix_16 part) (parse_parts parts), λ h. absurd h)
parse_parts_iff (part ∷ parts) (b ∷ bytes) =
    let ih = parse_parts_iff parts bytes in
    let (sound, complete) = cons_byte_iff (from_str_radix_16 part) (parse_parts parts) b bytes in
    (λ h. ((sound h).0, ih.0 (sound h).1), λ (h, k). complete (h, ih.1 k))

parse_mac_iff :
    (s : Text) (mac : List ℕ)
    → length mac ≡ 6
    → (parse_mac s ≡ some mac) ↔ AreBytes (split b':' s) mac
unfolding parse_mac
parse_mac_iff s mac six =
    let (sound, complete) = parse_parts_iff (split b':' s) mac in
    (
      λ h. ground (arith, sound),
      λ h. ground (arith, complete h, length-parse_parts (split b':' s) mac (complete h)),
    )

abbrev pub flatten : List (List ℕ) → List ℕ
flatten [] = []
flatten (l ∷ ls) = l ++ flatten ls

copies-flatten : (count : ℕ) (mac : List ℕ) → copies count mac ≡ flatten (replicate count mac)
unfolding copies
copies-flatten zero mac = refl
copies-flatten (suc count) mac = ap (λ (l : List ℕ). mac ++ l) (copies-flatten count mac)

magic_packet_lem : (mac : List ℕ) → magic_packet mac ≡ replicate 6 255 ++ flatten (replicate 16 mac)
unfolding magic_packet
magic_packet_lem mac = ap (λ (l : List ℕ). replicate 6 255 ++ l) (copies-flatten 16 mac)

-- A wake request succeeds exactly if the address of the PC is six bytes, as `u8::from_str_radix`
-- reads them in base 16, with colons between them, and the socket sent all 102 bytes of the packet
-- of six bytes 255 and sixteen copies of these six.
pub send_wake_on_lan_ok_iff :
    (send_to : List ℕ → ℕ → Result Text ℕ) (mac_text : Text) (port : ℕ)
    → (send_wake_on_lan send_to mac_text port ≡ ok tt) ↔ (
        (mac : List ℕ) × (length mac ≡ 6)
        × AreBytes (split b':' mac_text) mac
        × (send_to (replicate 6 255 ++ flatten (replicate 16 mac)) port ≡ ok 102))
send_wake_on_lan_ok_iff send_to mac_text port =
    let (sound, complete) = sent_iff send_to mac_text port in
    (
      λ h.
          let (mac, parsed, six, sent) = sound h in
          (
            mac,
            six,
            (parse_mac_iff mac_text mac six).0 parsed,
            subst (λ packet. send_to packet port ≡ ok 102) (magic_packet_lem mac) sent,
          ),
      λ (mac, six, are_bytes, sent). complete (
        mac,
        (parse_mac_iff mac_text mac six).1 are_bytes,
        six,
        subst (λ packet. send_to packet port ≡ ok 102) (sym (magic_packet_lem mac)) sent,
      ),
    )
