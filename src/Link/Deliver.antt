-- ===== src/Link/Deliver.antt =====
-- A message that one link frames and another link is given nibble by nibble.
use mathlib.Core.List.{append_assoc}
use diy_acura_bluetooth.Prelude.{
  ℕ, ◌+◌, ◌≤◌, ◌<◌, ◌≡◌, ◌≢◌, refl, ap, ◌∙◌, List, [], ◌∷◌, ◌++◌, arith, length, length-append, All,
  All-append, All-map, Returns, Returns-map, eq_test, ◌==◌, if◌then◌else◌,
}
use diy_acura_bluetooth.Fifo
use diy_acura_bluetooth.Fifo.Many.{contents-push}
use diy_acura_bluetooth.Phy.State.{mbus_end_msg_code}
use diy_acura_bluetooth.Link.Types.{RxMsg, MsgParsed, nibble_array_size, err_id_checksum}
use diy_acura_bluetooth.Link.Parse.{parse_msg}
use diy_acura_bluetooth.Link.Parse.Checksum.{
  checksum, checksum-lt, no_signal, filled, parse_rest, parse_msg_lem,
}
use diy_acura_bluetooth.Link.Core.{Link}
use diy_acura_bluetooth.Link.Core.Send.{framed}
use diy_acura_bluetooth.Link.Core.Receive.{receive, IsReady, receive-message}

abbrev pub IsNibble : ℕ → Type 0
IsNibble n = n < 16

-- What the link queues for the nibbles `ns` and then `c`.
abbrev pub parsed_as : RxMsg → List ℕ → ℕ → RxMsg
parsed_as scratch ns c =
    if c == checksum ns
    then parse_rest (filled scratch (ns ++ c ∷ []))
    else record (filled scratch (ns ++ c ∷ [])) { err_id = err_id_checksum }

no_end : (n : ℕ) → n < mbus_end_msg_code → n ≢ mbus_end_msg_code
no_end n h = omega arith

-- A message of two to thirty nibbles `ns`, a last nibble or error code `c` and the end code, handed
-- to a link that is at rest with room: one message is queued, with a checksum error unless `c` is
-- the checksum of `ns`, and otherwise parsed, and the link is at rest again.
pub received :
    (scratch : RxMsg) (link : Link) (ns : List ℕ) (c : ℕ)
    → IsReady link
    → length (Fifo.Refine.contents link.rx_msg_fifo) + 1 ≤ link.rx_msg_fifo.capacity
    → nibble_array_size ≤ length scratch.raw_nibbles.nibbles
    → 2 ≤ length ns
    → length ns + 1 < nibble_array_size
    → All IsNibble ns
    → c < mbus_end_msg_code
    → Returns
        (λ link'.
          (Fifo.Refine.contents link'.rx_msg_fifo
            ≡ Fifo.Refine.contents link.rx_msg_fifo ++ parsed_as scratch ns c ∷ [])
          × IsReady link')
        (receive scratch link (ns ++ c ∷ mbus_end_msg_code ∷ []))
received scratch link ns c r room space long short small last =
    let ms = ns ++ c ∷ [] in
    let size = length-append ns (c ∷ []) in
    let below =
      All-append (λ n. n < mbus_end_msg_code) ns (c ∷ [])
        (All-map IsNibble _ (λ n h. omega arith) ns small) (last, tt) in
    let (tail, array, run, whole) =
      receive-message scratch link ms r (omega (arith, size)) room
        (All-map (λ n. n < mbus_end_msg_code) _ no_end ms below) in
    let parsed =
      parse_msg_lem ns c tail scratch long (omega arith) space
        (All-map (λ n. n < mbus_end_msg_code) _ (λ n h. no_signal n (omega arith)) ms below) in
    let queued = parse_msg (ms ++ tail) (length ms) scratch in
    rw (← append_assoc ns (c ∷ []) (mbus_end_msg_code ∷ []), run)
      (
        contents-push queued r.valid room
            ∙ ap (λ m. Fifo.Refine.contents link.rx_msg_fifo ++ m ∷ []) parsed,
        record { valid = Fifo.Inv.push-IsValid queued r.valid; array = whole; at_start = refl },
      )

-- What one link frames the other parses: a framed message of two to thirty nibbles queues exactly one
-- message, the parse of those nibbles, past the checksum.
pub delivered :
    (scratch : RxMsg) (link : Link) (ns : List ℕ)
    → IsReady link
    → length (Fifo.Refine.contents link.rx_msg_fifo) + 1 ≤ link.rx_msg_fifo.capacity
    → nibble_array_size ≤ length scratch.raw_nibbles.nibbles
    → 2 ≤ length ns
    → length ns + 1 < nibble_array_size
    → All IsNibble ns
    → Returns
        (λ link'.
          (Fifo.Refine.contents link'.rx_msg_fifo
            ≡ Fifo.Refine.contents link.rx_msg_fifo
              ++ parse_rest (filled scratch (ns ++ checksum ns ∷ [])) ∷ [])
          × IsReady link')
        (receive scratch link (framed ns))
delivered scratch link ns r room space long short small = rw (eq_test (checksum ns)) at (
    received scratch link ns (checksum ns) r room space long short small
      (omega (arith, checksum-lt ns)))

-- One message more is queued, with no error and what `parsed` says, and the link is at rest.
abbrev pub GotMessage : Link → MsgParsed → Link → Type 0
GotMessage link parsed link' =
    (m : RxMsg) × (Fifo.Refine.contents link'.rx_msg_fifo
      ≡ Fifo.Refine.contents link.rx_msg_fifo ++ m ∷ [])
    × (m.err_id ≡ 0)
    × (m.parsed ≡ parsed)
    × IsReady link'

-- The room that one message more needs, on both sides of the copy.
pub record CanReceive (scratch : RxMsg) (link : Link) : Type 0 where
  pub ready : IsReady link
  pub room : length (Fifo.Refine.contents link.rx_msg_fifo) + 1 ≤ link.rx_msg_fifo.capacity
  pub space : nibble_array_size ≤ length scratch.raw_nibbles.nibbles

pub delivered_as :
    (scratch : RxMsg) (link : Link) (ns : List ℕ) (parsed : MsgParsed)
    → CanReceive scratch link
    → 2 ≤ length ns
    → length ns + 1 < nibble_array_size
    → All IsNibble ns
    → (let msg = filled scratch (ns ++ checksum ns ∷ []) in
        parse_rest msg ≡ record msg { parsed = parsed })
    → Returns (GotMessage link parsed) (receive scratch link (framed ns))
delivered_as scratch link ns parsed can long short small reads =
    let msg = record (filled scratch (ns ++ checksum ns ∷ [])) { parsed = parsed } in
    Returns-map _ (GotMessage link parsed) (receive scratch link (framed ns))
      (λ link' q. (
        msg,
        q.0 ∙ ap (λ m. Fifo.Refine.contents link.rx_msg_fifo ++ m ∷ []) reads,
        refl,
        refl,
        q.1,
      ))
      (delivered scratch link ns can.ready can.room can.space long short small)
