-- ===== src/Demos/Ping.antt =====
-- `main` of mbus_msg_ping_reply.cpp: it prints every message, and means to answer a ping with a pong
-- that it pushes into the transmitter by itself.
pub mod Silent
use diy_acura_bluetooth.Prelude.{
  ℕ, ◌==◌, ◌&&◌, Bool, not, List, [], ◌∷◌, ◌++◌, Option, some, ◌>>=◌, if◌then◌else◌,
}
use diy_acura_bluetooth.Phy.Join.{
  MbusPhy, mbus_phy_rx_enable, mbus_phy_rx_disable, mbus_phy_rx_is_busy, mbus_phy_tx_enable,
  mbus_phy_tx_disable, mbus_phy_tx_is_busy, mbus_phy_tx_push,
}
use diy_acura_bluetooth.Link.Types.{RxMsg, msgtype_ping}
use diy_acura_bluetooth.Link.Core.{
  Link, is_direction_rx, rx_is_empty, rx_pop, update as link_update,
}
use diy_acura_bluetooth.Link.Print.Format.{codes}
use diy_acura_bluetooth.Link.Print.Buffer.{msg_to_str}
use diy_acura_bluetooth.Demos.Station.{
  Station, Inputs, pass_time, blink, poll_phy, hand_on_nibble, msg_str_size,
}

-- Both directions of the physical layer, when the link has changed its own.
unfoldable pub switch : Bool → Link → MbusPhy → MbusPhy
switch direction_updated link phy =
    if direction_updated
    then (if is_direction_rx link
        then mbus_phy_rx_enable (mbus_phy_tx_disable phy)
        else mbus_phy_tx_enable (mbus_phy_rx_disable phy))
    else phy

-- "mbusLink"
unfoldable pub poll_link : Station → Option Station
poll_link m =
    link_update m.link (mbus_phy_rx_is_busy m.phy) (mbus_phy_tx_is_busy m.phy) m.phy.tx.byte_fifo
    >>= λ (link, tx_fifo, direction_updated). some (record m {
      phy =
          switch direction_updated link
            (record m.phy { tx = record m.phy.tx { byte_fifo = tx_fifo } });
      link = link;
    })

unfoldable pub is_ping : RxMsg → Bool
is_ping msg = (msg.err_id == 0) && msg.parsed.direction_h2c && (msg.parsed.msg_type == msgtype_ping)

-- The three nibbles, and what is printed of them.
unfoldable pub answer : RxMsg → MbusPhy → MbusPhy × List (List ℕ)
answer msg phy =
    if is_ping msg
    then (
      mbus_phy_tx_push (mbus_phy_tx_push (mbus_phy_tx_push phy 0x9) 0x8) 0x2,
      codes "sent pong" ∷ [],
    )
    else (phy, [])

-- "print mbusLink rx msg if one is available"
unfoldable pub take_message : Station → Option (Station × List (List ℕ))
take_message m =
    if not (rx_is_empty m.link)
    then (rx_pop m.link >>= λ (msg, link). msg_to_str msg m.msg_str msg_str_size >>= λ (str, len).
        some (
          record m { phy = (answer msg m.phy).0; link = link; msg_str = str },
          (answer msg m.phy).1 ++ str ∷ [],
        ))
    else some (m, [])

-- One round of `while (1)`, and what it prints.
unfoldable pub round : Inputs → Station → Option (Station × List (List ℕ))
round inputs m = poll_phy inputs (blink (pass_time m inputs.passed)) >>= λ m1.
    hand_on_nibble inputs m1 >>= λ m2. poll_link m2 >>= λ m3. take_message m3
