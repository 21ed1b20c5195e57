-- ===== src/Link/Core/Keeps.antt =====
-- What `mbus_link_update` and `mbus_link_rx_push_nibble` keep valid.
use diy_acura_bluetooth.Prelude.{
  ℕ, ◌+◌, ◌-◌, ◌<◌, ◌≡◌, refl, Bool, true, false, not, ◌&&◌, Option, some, arith, Returns,
  Returns-bind, Bool-cases, inl, inr, if_both, lt→ltb, set, ◌==◌,
}
use diy_acura_bluetooth.Prelude.Words.{u8}
use diy_acura_bluetooth.Fifo
use diy_acura_bluetooth.Fifo.{Fifo}
use diy_acura_bluetooth.Fifo.Many.{push_all-IsValid}
use diy_acura_bluetooth.Phy.State.{mbus_end_msg_code}
use diy_acura_bluetooth.Link.Types.{RxMsg, nibble_array_size}
use diy_acura_bluetooth.Link.Parse.{parse_msg}
use diy_acura_bluetooth.Link.Core.{
  Link, tx_is_empty, send_pending, update, rx_msg_push, rx_push_nibble,
}
use diy_acura_bluetooth.Link.Core.Send.{framed, unpacked, send_pending_lem}

send_pending-valid :
    (link : Link) (f : Fifo ℕ)
    → Fifo.Inv.IsValid link.tx_msg_fifo
    → Fifo.is_empty link.tx_msg_fifo ≡ false
    → Fifo.Inv.IsValid f
    → Returns (λ r. Fifo.Inv.IsValid r.1) (send_pending link f)
send_pending-valid link f v ne w =
    let (m, g, p, c) = Fifo.Refine.pop_total link.tx_msg_fifo v ne in
    let (h, run, rest, valid) = send_pending_lem link f m (Fifo.Refine.contents g) v c in
    rw run (push_all-IsValid (framed (unpacked m.nibbles)) w)

-- The queue of the transmitter stays valid.
pub update-IsValid_tx :
    (link : Link) (rx_busy tx_busy : Bool) (f : Fifo ℕ)
    → Fifo.Inv.IsValid link.tx_msg_fifo
    → Fifo.Inv.IsValid f
    → Returns (λ r. Fifo.Inv.IsValid r.1) (update link rx_busy tx_busy f)
unfolding update tx_is_empty
update-IsValid_tx link rx_busy tx_busy f v w =
    let Ok : Option (Link × Fifo ℕ × Bool) → Type 0 = Returns (λ r. Fifo.Inv.IsValid r.1) in
    elim (Bool-cases (Fifo.is_empty link.tx_msg_fifo)) [
      | inl none_left ↦ rw none_left (
          if_both Ok link.rx_not_tx_mode (if_both Ok (not rx_busy && false) w w)
            (if_both Ok (not tx_busy && true) w w))
      | inr some_left ↦ rw some_left (
          if_both Ok link.rx_not_tx_mode (if_both Ok (not rx_busy && true) w w) (
            if_both Ok (not tx_busy && false) w (
              Returns-bind (λ r. Fifo.Inv.IsValid r.1) (λ r. Fifo.Inv.IsValid r.1)
                (send_pending link f) (λ (link1, fifo1). some (link1, fifo1, false)) (λ r h. h)
                (send_pending-valid link f v some_left w))))
    ]

-- A nibble is taken in, with the queues left valid, and the direction as it is.
abbrev pub TakesIn : Link → Link → Type 0
TakesIn link link' =
    Fifo.Inv.IsValid link'.rx_msg_fifo
    × (link'.tx_msg_fifo ≡ link.tx_msg_fifo)
    × (link'.rx_not_tx_mode ≡ link.rx_not_tx_mode)

rx_msg_push-TakesIn :
    (scratch : RxMsg) (link : Link)
    → Fifo.Inv.IsValid link.rx_msg_fifo
    → TakesIn link (rx_msg_push scratch link)
unfolding rx_msg_push
rx_msg_push-TakesIn scratch link v =
    let msg = parse_msg link.nibbles.nibbles (link.nibbles.num_nibbles - 1) scratch in
    if_both (TakesIn link) (not (Fifo.is_full link.rx_msg_fifo))
      (Fifo.Inv.push-IsValid msg v, refl, refl) (v, refl, refl)

pub rx_push_nibble-TakesIn :
    (scratch : RxMsg) (link : Link) (n : ℕ)
    → link.nibbles.num_nibbles < nibble_array_size
    → Fifo.Inv.IsValid link.rx_msg_fifo
    → Returns (TakesIn link) (rx_push_nibble scratch link n)
unfolding rx_push_nibble
rx_push_nibble-TakesIn scratch link n room v =
    let raw = link.nibbles in
    let link1 : Link = record link {
      nibbles = record {
        nibbles = set raw.nibbles raw.num_nibbles n;
        num_nibbles = u8 (raw.num_nibbles + 1);
      };
    } in
    rw (lt→ltb raw.num_nibbles nibble_array_size room) (
      if_both (Returns (TakesIn link)) (n == mbus_end_msg_code)
        (rx_msg_push-TakesIn scratch link1 v) (v, refl, refl))

-- A link that receives and has nothing to send stays as it is.
pub update-rests :
    (link : Link) (rx_busy tx_busy : Bool) (f : Fifo ℕ)
    → link.rx_not_tx_mode ≡ true
    → Fifo.is_empty link.tx_msg_fifo ≡ true
    → update link rx_busy tx_busy f ≡ some (link, f, false)
unfolding update tx_is_empty
update-rests link rx_busy tx_busy f receives none_left = ground (arith, receives, none_left)
