-- ===== src/Link/Damage.antt =====
-- What `mbus_link_parseMsg` makes of messages that were damaged on the bus.
pub mod Xor
use mathlib.Core.List.{append_assoc}
use diy_acura_bluetooth.Prelude.{
  ℕ, ◌+◌, ◌%◌, ◌≤◌, ◌<◌, ◌≡◌, ◌≢◌, refl, ap, ◌∙◌, List, [], ◌∷◌, ◌++◌, arith, length, length-append,
  All, All-append, Returns, Returns-map, ne_test, ◌==◌, if◌then◌else◌,
}
use diy_acura_bluetooth.Fifo
use diy_acura_bluetooth.Phy.State.{mbus_low_too_long_code, mbus_end_msg_code}
use diy_acura_bluetooth.Link.Types.{RxMsg, nibble_array_size, err_id_checksum}
use diy_acura_bluetooth.Link.Parse.Checksum.{checksum, checksum-lt, filled}
use diy_acura_bluetooth.Link.Core.{Link}
use diy_acura_bluetooth.Link.Core.Receive.{receive, IsReady}
use diy_acura_bluetooth.Link.Deliver.{CanReceive, IsNibble, parsed_as, received}
use Xor.{checksum-ne}

-- One message more is queued, with a checksum error, and the link is at rest.
abbrev pub GotChecksumError : Link → Link → Type 0
GotChecksumError link link' =
    (m : RxMsg) × (Fifo.Refine.contents link'.rx_msg_fifo
      ≡ Fifo.Refine.contents link.rx_msg_fifo ++ m ∷ [])
    × (m.err_id ≡ err_id_checksum)
    × IsReady link'

refused :
    (scratch : RxMsg) (link : Link) (ns : List ℕ) (c : ℕ)
    → CanReceive scratch link
    → 2 ≤ length ns
    → length ns + 1 < nibble_array_size
    → All IsNibble ns
    → c < mbus_end_msg_code
    → c ≢ checksum ns
    → Returns (GotChecksumError link) (receive scratch link (ns ++ c ∷ mbus_end_msg_code ∷ []))
refused scratch link ns c can long short small last ne =
    let msg = record (filled scratch (ns ++ c ∷ [])) { err_id = err_id_checksum } in
    let read : parsed_as scratch ns c ≡ msg = rw (ne_test c (checksum ns) ne) in
    Returns-map _ (GotChecksumError link) (receive scratch link (ns ++ c ∷ mbus_end_msg_code ∷ []))
      (λ link' q.
        (msg, q.0 ∙ ap (λ m. Fifo.Refine.contents link.rx_msg_fifo ++ m ∷ []) read, refl, q.1))
      (received scratch link ns c can.ready can.room can.space long short small last)

-- The checksum finds every change of a single nibble: a message in which one nibble `a` has become
-- another nibble `b`, sent with the checksum of the message as it was, is queued with a checksum
-- error. The message has two to thirty nibbles, and the link is at rest with room.
pub changed_nibble_found :
    (scratch : RxMsg) (link : Link) (pre : List ℕ) (a b : ℕ) (post : List ℕ)
    → CanReceive scratch link
    → 2 ≤ length (pre ++ b ∷ post)
    → length (pre ++ b ∷ post) + 1 < nibble_array_size
    → All IsNibble pre
    → IsNibble a
    → IsNibble b
    → All IsNibble post
    → a ≢ b
    → Returns (GotChecksumError link) (
        receive scratch link
          ((pre ++ b ∷ post) ++ checksum (pre ++ a ∷ post) ∷ mbus_end_msg_code ∷ []))
changed_nibble_found scratch link pre a b post can long short hpre ha hb hpost ne =
    refused scratch link (pre ++ b ∷ post) (checksum (pre ++ a ∷ post)) can long short
      (All-append IsNibble pre (b ∷ post) hpre (hb, hpost))
      (omega (arith, checksum-lt (pre ++ a ∷ post))) (checksum-ne pre a b post hpre ha hb hpost ne)

-- A message that the receiver gave up, which ends in one of its two error codes before the end code,
-- is queued with a checksum error; the signal error that the parser knows is not what it gets. There
-- are two to thirty nibbles before the code, and the link is at rest with room.
pub signal_error_read :
    (scratch : RxMsg) (link : Link) (ns : List ℕ) (code : ℕ)
    → CanReceive scratch link
    → 2 ≤ length ns
    → length ns + 1 < nibble_array_size
    → All IsNibble ns
    → mbus_low_too_long_code ≤ code
    → code < mbus_end_msg_code
    → Returns (GotChecksumError link) (receive scratch link (ns ++ code ∷ mbus_end_msg_code ∷ []))
signal_error_read scratch link ns code can long short small low high =
    let c = checksum-lt ns in refused scratch link ns code can long short small high (omega arith)
