-- ===== src/Demos/Sniffer.antt =====
-- `main` of mbus_msg_sniffer.cpp: it prints every message, and leaves both directions of the physical
-- layer as they are.
pub mod Listening
use diy_acura_bluetooth.Prelude.{ℕ, ◌∷◌, [], not, List, Option, some, ◌>>=◌, if◌then◌else◌}
use diy_acura_bluetooth.Phy.Join.{mbus_phy_rx_is_busy, mbus_phy_tx_is_busy}
use diy_acura_bluetooth.Link.Core.{rx_is_empty, rx_pop, update as link_update}
use diy_acura_bluetooth.Link.Print.Buffer.{msg_to_str}
use diy_acura_bluetooth.Demos.Station.{
  Station, Inputs, pass_time, blink, poll_phy, hand_on_nibble, msg_str_size,
}

-- "link": whether the direction has changed is not looked at.
unfoldable pub poll_link : Station → Option Station
poll_link m =
    link_update m.link (mbus_phy_rx_is_busy m.phy) (mbus_phy_tx_is_busy m.phy) m.phy.tx.byte_fifo
    >>= λ (link, tx_fifo, direction_updated). some (record m {
      phy = record m.phy { tx = record m.phy.tx { byte_fifo = tx_fifo } };
      link = link;
    })

-- "print link rx msg if one is available"
unfoldable pub take_message : Station → Option (Station × List (List ℕ))
take_message m =
    if not (rx_is_empty m.link)
    then (rx_pop m.link >>= λ (msg, link). msg_to_str msg m.msg_str msg_str_size >>= λ (str, len).
        some (record m { link = link; msg_str = str }, str ∷ []))
    else some (m, [])

-- One round of `while (1)`, and what it prints.
unfoldable pub round : Inputs → Station → Option (Station × List (List ℕ))
round inputs m = poll_phy inputs (blink (pass_time m inputs.passed)) >>= λ m1.
    hand_on_nibble inputs m1 >>= λ m2. poll_link m2 >>= λ m3. take_message m3
