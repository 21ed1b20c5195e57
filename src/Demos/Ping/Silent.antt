-- ===== src/Demos/Ping/Silent.antt =====
-- What becomes of the pongs of mbus_msg_ping_reply.cpp.
use diy_acura_bluetooth.Prelude.{
  ℕ, ◌≡◌, ◌∙◌, Bool, true, false, List, Returns, Returns-bind, Returns-map, Bool-cases, inl, inr,
  if_both,
}
use diy_acura_bluetooth.Fifo
use diy_acura_bluetooth.Phy.Rx
use diy_acura_bluetooth.Phy.Tx
use diy_acura_bluetooth.Phy.Tx.{Tx}
use diy_acura_bluetooth.Phy.Tx.Inv.{is_off, off-quiet}
use diy_acura_bluetooth.Phy.Join.{
  MbusPhy, mbus_phy_tx_push, mbus_phy_rx_is_busy, mbus_phy_tx_is_busy,
}
use diy_acura_bluetooth.Link.Types.{RxMsg}
use diy_acura_bluetooth.Link.Core.{rx_is_empty}
use diy_acura_bluetooth.Link.Core.Keeps.{update-rests}
use diy_acura_bluetooth.Demos.Station.{Station, Inputs, pass_time, blink, poll_phy, hand_on_nibble}
use diy_acura_bluetooth.Demos.Station.Inv.{
  IsSilent, Fits, Goes, pass_time-blink-Goes, poll_phy-Goes, hand_on_nibble-IsSilent,
}
use diy_acura_bluetooth.Demos.Station.Message.{rx_pop-Listens, msg_to_str-printed}
use diy_acura_bluetooth.Demos.Station.Start.{Reach, Started, Reach-IsSilent}
use diy_acura_bluetooth.Demos.Ping.{round, poll_link, switch, take_message, answer, is_ping}

poll_link-IsSilent : (m : Station) → IsSilent m → Returns IsSilent (poll_link m)
unfolding poll_link switch
poll_link-IsSilent m s =
    rw
      (update-rests m.link (mbus_phy_rx_is_busy m.phy) (mbus_phy_tx_is_busy m.phy)
        m.phy.tx.byte_fifo s.link.receives s.link.none_pending)
      (record { rx = s.rx; tx = s.tx; off = s.off; pin = s.pin; link = s.link; buffer = s.buffer })

-- A physical layer whose transmitter is disabled.
record IsOff (drive_lo : Bool) (phy : MbusPhy) : Type 0 where
  rx : Rx.Inv.IsValid phy.rx
  tx : Tx.Inv.IsValid phy.tx drive_lo
  off : is_off phy.tx.state ≡ true

tx_push-IsOff :
    (drive_lo : Bool) (phy : MbusPhy) (n : ℕ)
    → IsOff drive_lo phy
    → IsOff drive_lo (mbus_phy_tx_push phy n)
unfolding mbus_phy_tx_push Tx.push
tx_push-IsOff drive_lo phy n o = record {
  rx = o.rx;
  tx = record {
    fifo = Fifo.Inv.push-IsValid n o.tx.fifo;
    shifter = o.tx.shifter;
    driven = o.tx.driven;
  };
  off = o.off;
}

answer-IsOff :
    (drive_lo : Bool) (msg : RxMsg) (phy : MbusPhy)
    → IsOff drive_lo phy
    → IsOff drive_lo (answer msg phy).0
unfolding answer
answer-IsOff drive_lo msg phy o =
    if_both (λ (r : MbusPhy × List (List ℕ)). IsOff drive_lo r.0) (is_ping msg)
      (tx_push-IsOff drive_lo _ 0x2
        (tx_push-IsOff drive_lo _ 0x8 (tx_push-IsOff drive_lo phy 0x9 o)))
      o

take_message-IsSilent : (m : Station) → IsSilent m → Returns (λ q. IsSilent q.0) (take_message m)
unfolding take_message
take_message-IsSilent m s = elim (Bool-cases (rx_is_empty m.link)) [
  | inl none_left ↦ rw none_left s
  | inr some_left ↦
      let (msg, link, p, l, parsed, e, same) = rx_pop-Listens m.link s.link some_left in
      let (shown, size) = msg_to_str-printed msg m.msg_str parsed s.buffer in
      let o =
        answer-IsOff m.drive_mbus_pin_lo msg m.phy (record { rx = s.rx; tx = s.tx; off = s.off }) in
      rw (some_left, p, shown)
        (record { rx = o.rx; tx = o.tx; off = o.off; pin = s.pin; link = l; buffer = size })
]

round-IsSilent :
    (m : Station) (inputs : Inputs)
    → IsSilent m
    → Fits m inputs
    → Returns (λ q. IsSilent q.0) (round inputs m)
unfolding round
round-IsSilent m inputs s f =
    Returns-bind (Goes inputs) (λ q. IsSilent q.0)
      (poll_phy inputs (blink (pass_time m inputs.passed))) _
      (λ m1 g1.
        Returns-bind IsSilent (λ q. IsSilent q.0) (hand_on_nibble inputs m1) _
          (λ m2 s2.
            Returns-bind IsSilent (λ q. IsSilent q.0) (poll_link m2) _
              (λ m3 s3. take_message-IsSilent m3 s3) (poll_link-IsSilent m2 s2))
          (hand_on_nibble-IsSilent m1 inputs g1))
      (poll_phy-Goes _ inputs (pass_time-blink-Goes m inputs (s, f)))

-- The pong is never sent. From the set-up on, every round that overruns no array comes to its end, with
-- no failed assertion, and whatever has come in, a ping too, the transmitter is disabled and the pin
-- does not drive the bus.
pub pong_never_sent :
    (first m : Station) (inputs : Inputs)
    → Started first
    → Reach round first m
    → Fits m inputs
    → Returns
        (λ q. (is_off q.0.phy.tx.state ≡ true) × (q.0.mbus_drive_lo_pin ≡ false))
        (round inputs m)
pong_never_sent first m inputs st r fits =
    Returns-map (λ q. IsSilent q.0) _ (round inputs m)
      (λ q s. (s.off, s.pin ∙ s.tx.driven ∙ off-quiet q.0.phy.tx.state s.off))
      (round-IsSilent m inputs (Reach-IsSilent round round-IsSilent st r) fits)
