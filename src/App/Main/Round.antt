-- ===== src/App/Main/Round.antt =====
-- A whole round of the main loop.
use mathlib.Core.Path.{subst}
use diy_acura_bluetooth.Prelude.{
  ℕ, ◌≡◌, refl, sym, ap, ◌∙◌, Bool, true, false, not, Option, none, some, length, arith, Returns,
  Returns-both, Returns-bind, Bool-cases, inl, inr,
}
use diy_acura_bluetooth.Fifo
use diy_acura_bluetooth.Fifo.{Fifo}
use diy_acura_bluetooth.Phy.State.{TxState}
use diy_acura_bluetooth.Phy.Rx
use diy_acura_bluetooth.Phy.Tx
use diy_acura_bluetooth.Phy.Tx.{Tx}
use diy_acura_bluetooth.Phy.Tx.Inv.{drives, is_off, off-quiet, is_busy-quiet}
use diy_acura_bluetooth.Phy.Join.{
  MbusPhy, mbus_phy_rx_is_busy, mbus_phy_tx_is_busy, mbus_phy_tx_enable, mbus_phy_tx_disable,
}
use diy_acura_bluetooth.Link.Core.{Link, update}
use diy_acura_bluetooth.Link.Core.Direction.{is_turned, flip_if, update_lem}
use diy_acura_bluetooth.Link.Core.Keeps.{update-IsValid_tx}
use diy_acura_bluetooth.Rn52.State.{Rn52}
use diy_acura_bluetooth.Rn52.Text.{IsString}
use diy_acura_bluetooth.Rn52.Total.{HasRoom, update_safe}
use diy_acura_bluetooth.Rn52.Total
use diy_acura_bluetooth.Rn52.Update.{update as rn52_update}
use diy_acura_bluetooth.App.Update.{update as app_update}
use diy_acura_bluetooth.App.Inv as AppInv
use diy_acura_bluetooth.App.Total.{app_update_total}
use diy_acura_bluetooth.App.Main.{
  Machine, Inputs, pass_time, blink, poll_phy, hand_on_nibble, turn, poll_link, poll_app, poll_rn52,
  round,
}
use diy_acura_bluetooth.App.Main.Inv.{
  IsSound, Fits, Goes, Heard, pass_time-Goes, blink-Goes, poll_phy-Goes, hand_on_nibble-Heard,
}
use diy_acura_bluetooth.App.Main.Frame.{Serial, serial, app_update-Kept}

-- The transmitter is valid, and disabled exactly while the link receives.
abbrev Turned : Bool → Link → MbusPhy → MbusPhy → Type 0
Turned drive_lo link phy phy' =
    Tx.Inv.IsValid phy'.tx drive_lo
    × (link.rx_not_tx_mode ≡ is_off phy'.tx.state)
    × (phy'.rx ≡ phy.rx)

in_state :
    {tx : Tx} {drive_lo : Bool} (state : TxState)
    → Tx.Inv.IsValid tx drive_lo
    → drive_lo ≡ drives state
    → Tx.Inv.IsValid (record tx { state = state }) drive_lo
in_state state v e = record { fifo = v.fifo; shifter = v.shifter; driven = e }

-- A link that has been turned to receive had nothing left to send.
not_busy :
    (link : Link) (rx_busy tx_busy : Bool)
    → true ≡ is_turned link rx_busy tx_busy
    → link.rx_not_tx_mode ≡ false
    → tx_busy ≡ false
not_busy link rx_busy tx_busy why sends = ground arith

-- When the link turns, the transmitter is enabled from being disabled, or disabled from being idle:
-- neither state drives the bus.
turn-Turned :
    (link link' : Link) (phy : MbusPhy) (drive_lo changed rx_busy tx_busy : Bool)
    → Tx.Inv.IsValid phy.tx drive_lo
    → link.rx_not_tx_mode ≡ is_off phy.tx.state
    → changed ≡ is_turned link rx_busy tx_busy
    → (tx_busy ≡ false → drives phy.tx.state ≡ false)
    → link'.rx_not_tx_mode ≡ flip_if changed link.rx_not_tx_mode
    → Turned drive_lo link' phy (turn changed link' phy)
unfolding turn mbus_phy_tx_enable mbus_phy_tx_disable
turn-Turned link link' phy drive_lo false rx_busy tx_busy v mode why still new =
    (v, new ∙ mode, refl)
turn-Turned link link' phy drive_lo true rx_busy tx_busy v mode why still new =
    elim (Bool-cases link.rx_not_tx_mode) [
      | inl receives ↦
          let now : link'.rx_not_tx_mode ≡ false = new ∙ ap not receives in
          let quiet = v.driven ∙ off-quiet phy.tx.state (sym mode ∙ receives) in
          rw now (in_state TxState.enable v quiet, refl, refl)
      | inr sends ↦
          let now : link'.rx_not_tx_mode ≡ true = new ∙ ap not sends in
          let quiet = v.driven ∙ still (not_busy link rx_busy tx_busy why sends) in
          rw now (in_state TxState.disabled v quiet, refl, refl)
    ]

poll_link-Heard :
    (m : Machine) (inputs : Inputs) → Heard inputs m → Returns (Heard inputs) (poll_link m)
unfolding poll_link mbus_phy_tx_is_busy
poll_link-Heard m inputs (s, room) =
    let link = m.app.link in
    let rx_busy = mbus_phy_rx_is_busy m.phy in
    let tx_busy = mbus_phy_tx_is_busy m.phy in
    let f = m.phy.tx.byte_fifo in
    Returns-bind _ (Heard inputs) (update link rx_busy tx_busy f) _
      (λ q h.
        let phy : MbusPhy = record m.phy { tx = record m.phy.tx { byte_fifo = q.1 } } in
        let tx : Tx.Inv.IsValid phy.tx m.drive_mbus_pin_lo = record {
          fifo = h.1;
          shifter = s.tx.shifter;
          driven = s.tx.driven;
        } in
        let t =
          turn-Turned link q.0 phy m.drive_mbus_pin_lo q.2 rx_busy tx_busy tx s.mode h.0.0
            (is_busy-quiet m.phy.tx) h.0.1 in
        (
          record {
            rx = subst Rx.Inv.IsValid (sym t.2) s.rx;
            tx = t.0;
            pin = s.pin;
            app = AppInv.with_link q.0 s.app (subst Fifo.Inv.IsValid (sym h.0.2.0) s.app.rx) h.0.3;
            driver = s.driver;
            mode = t.1;
          },
          room,
        ))
      (Returns-both _ (λ q. Fifo.Inv.IsValid q.1) (update link rx_busy tx_busy f)
        (update_lem link rx_busy tx_busy f s.app.tx)
        (update-IsValid_tx link rx_busy tx_busy f s.app.tx s.tx.fifo))

-- The driver with its buffers as they were and another queue of commands.
driver_kept :
    (before after : Rn52)
    → serial after ≡ serial before
    → Fifo.Inv.IsValid after.avrcp_cmd_fifo
    → Total.IsValid before
    → Total.IsValid after
driver_kept before after e commands v = record {
  fifo = commands;
  buffer = ap (λ b. length b.rx_str) e ∙ v.buffer;
  len = omega (arith, ap (λ (b : Serial). b.rx_str_len) e, v.len);
  command = subst IsString (sym (ap (λ b. b.tx_cmd) e)) v.command;
  cmd_size = ap (λ b. length b.tx_cmd) e ∙ v.cmd_size;
}

room_kept :
    (rx_c : Option ℕ) (before after : Rn52)
    → serial after ≡ serial before
    → HasRoom before rx_c
    → HasRoom after rx_c
room_kept none before after e room = room
room_kept (some c) before after e room = omega (arith, ap (λ (b : Serial). b.rx_str_len) e, room)

poll_app-Heard :
    (m : Machine) (inputs : Inputs) → Heard inputs m → Returns (Heard inputs) (poll_app m)
unfolding poll_app
poll_app-Heard m inputs (s, room) =
    Returns-bind _ (Heard inputs) (app_update m.app) _
      (λ app h.
        let same = ap (λ r. r.buffers) h.1.same in
        (
          record {
            rx = s.rx;
            tx = s.tx;
            pin = s.pin;
            app = h.0;
            driver = driver_kept m.app.rn52 app.rn52 same h.0.commands s.driver;
            mode = ap (λ r. r.rx_not_tx_mode) h.1.same ∙ s.mode;
          },
          room_kept inputs.serial m.app.rn52 app.rn52 same room,
        ))
      (Returns-both AppInv.IsValid _ (app_update m.app) (app_update_total m.app s.app)
        (app_update-Kept m.app s.app))

poll_rn52-IsSound :
    (m : Machine) (inputs : Inputs)
    → Heard inputs m
    → Returns (λ r. IsSound r.0) (poll_rn52 inputs m)
unfolding poll_rn52
poll_rn52-IsSound m inputs (s, room) =
    let rn52 = m.app.rn52 in
    Returns-bind (λ q. Total.IsValid q.0) (λ r. IsSound r.0)
      (rn52_update rn52 inputs.millis inputs.rn52_event_pin inputs.serial m.rn52_cmd_mode_pin) _
      (λ q v. record {
        rx = s.rx;
        tx = s.tx;
        pin = s.pin;
        app = AppInv.with_commands q.0 s.app v.fifo;
        driver = v;
        mode = s.mode;
      })
      (update_safe rn52 inputs.millis inputs.rn52_event_pin inputs.serial m.rn52_cmd_mode_pin
        s.driver room)

-- A round of the main loop in which no array is overrun keeps the invariant. It ends, and no assertion
-- fails: both state machines of the bus, the four queues and the serial buffers stay valid, the pin
-- drives the bus exactly when the transmitter sends a bit, and the transmitter is disabled exactly
-- while the link receives. There must be a place for the nibble and for the character that may come;
-- the clocks, the pins and the character are free.
pub round-IsSound :
    (m : Machine) (inputs : Inputs)
    → IsSound m
    → Fits m inputs
    → Returns (λ r. IsSound r.0) (round inputs m)
unfolding round
round-IsSound m inputs sound fits =
    let m0 = blink (pass_time m inputs.passed) in
    let start : Goes inputs m0 =
      blink-Goes (pass_time m inputs.passed) inputs (pass_time-Goes m inputs (sound, fits)) in
    Returns-bind (Goes inputs) _ (poll_phy inputs m0) _
      (λ m1 g1.
        Returns-bind (Heard inputs) _ (hand_on_nibble inputs m1) _
          (λ m2 g2.
            Returns-bind (Heard inputs) _ (poll_link m2) _
              (λ m3 g3.
                Returns-bind (Heard inputs) _ (poll_app m3) _
                  (λ m4 g4. poll_rn52-IsSound m4 inputs g4) (poll_app-Heard m3 inputs g3))
              (poll_link-Heard m2 inputs g2))
          (hand_on_nibble-Heard m1 inputs g1))
      (poll_phy-Goes m0 inputs start)
