-- ===== src/App/Main/Inv.antt =====
-- What the adapter keeps from round to round, and the stages of a round that touch the bus.
use diy_acura_bluetooth.Prelude.{
  ℕ, ◌+◌, ◌<◌, ◌≡◌, refl, sym, ◌∙◌, Bool, not, Returns, Returns-bind, Bool-cases, inl, inr, if_both,
  ltb,
}
use mathlib.Core.Path.{subst}
use diy_acura_bluetooth.Prelude.Words.{u32}
use diy_acura_bluetooth.Fifo
use diy_acura_bluetooth.Fifo.{Fifo}
use diy_acura_bluetooth.Phy.Rx
use diy_acura_bluetooth.Phy.Rx.{Rx}
use diy_acura_bluetooth.Phy.Rx.Inv.{HoldsCodes}
use diy_acura_bluetooth.Phy.Tx
use diy_acura_bluetooth.Phy.Tx.{Tx}
use diy_acura_bluetooth.Phy.Tx.Inv.{
  drives, is_off, update_total, update-is_off, off-quiet, is_busy-quiet,
}
use diy_acura_bluetooth.Phy.Join.{mbus_phy_rx_is_empty, mbus_phy_rx_pop}
use diy_acura_bluetooth.Phy.Join.Polled.{Polled, mbus_phy_update-Polled, popped-IsValid}
use diy_acura_bluetooth.Link.Types.{nibble_array_size}
use diy_acura_bluetooth.Link.Core.{rx_push_nibble}
use diy_acura_bluetooth.Link.Core.Keeps.{rx_push_nibble-TakesIn}
use diy_acura_bluetooth.Rn52.Total.{HasRoom}
use diy_acura_bluetooth.Rn52.Total
use diy_acura_bluetooth.App.State.{App}
use diy_acura_bluetooth.App.Inv as AppInv
use diy_acura_bluetooth.App.Main.{Machine, Inputs, pass_time, blink, poll_phy, hand_on_nibble}

-- Both state machines of the bus, the application with its queues and the driver are valid, the pin is
-- what the transmitter asked for, and the transmitter is disabled exactly while the link receives.
pub record IsSound (m : Machine) : Type 0 where
  pub rx : Rx.Inv.IsValid m.phy.rx
  pub tx : Tx.Inv.IsValid m.phy.tx m.drive_mbus_pin_lo
  pub pin : m.mbus_drive_lo_pin ≡ m.drive_mbus_pin_lo
  pub app : AppInv.IsValid m.app
  pub driver : Total.IsValid m.app.rn52
  pub mode : m.app.link.rx_not_tx_mode ≡ is_off m.phy.tx.state

-- What a round must find so that no array is written past its end: a place for the nibble that may
-- come, and one for the character that comes.
pub record Fits (m : Machine) (inputs : Inputs) : Type 0 where
  pub nibble : m.app.link.nibbles.num_nibbles < nibble_array_size
  pub character : HasRoom m.app.rn52 inputs.serial

ticked :
    {app : App} (timer : ℕ) → AppInv.IsValid app → AppInv.IsValid (record app { timer = timer })
ticked timer v = record {
  simple = v.simple;
  rx = v.rx;
  tx = v.tx;
  commands = v.commands;
  tracks = v.tracks;
  track_in = v.track_in;
}

-- The beginning of a round leaves what matters alone.
abbrev pub Goes : Inputs → Machine → Type 0
Goes inputs m = IsSound m × Fits m inputs

pub pass_time-Goes :
    (m : Machine) (inputs : Inputs) → Goes inputs m → Goes inputs (pass_time m inputs.passed)
unfolding pass_time
pass_time-Goes m inputs (s, f) = (
  record {
    rx = s.rx;
    tx = s.tx;
    pin = s.pin;
    app = ticked (u32 (m.app.timer + inputs.passed)) s.app;
    driver = s.driver;
    mode = s.mode;
  },
  record { nibble = f.nibble; character = f.character },
)

blinked :
    (m : Machine) (inputs : Inputs) (led : Bool) (n : ℕ)
    → Goes inputs m
    → Goes inputs (record m { led_pin = led; blink_milli_sec_elapsed = n })
blinked m inputs led n (s, f) = (
  record { rx = s.rx; tx = s.tx; pin = s.pin; app = s.app; driver = s.driver; mode = s.mode },
  record { nibble = f.nibble; character = f.character },
)

pub blink-Goes : (m : Machine) (inputs : Inputs) → Goes inputs m → Goes inputs (blink m)
unfolding blink
blink-Goes m inputs g =
    if_both (Goes inputs) (ltb 1000 m.blink_milli_sec_elapsed)
      (blinked m inputs (not m.led_pin) 0 g) g

pub poll_phy-Goes :
    (m : Machine) (inputs : Inputs) → Goes inputs m → Returns (Goes inputs) (poll_phy inputs m)
unfolding poll_phy
poll_phy-Goes m inputs (s, f) =
    Returns-bind (Polled m.phy) (Goes inputs) _ _
      (λ q h. (
        record {
          rx = h.0;
          tx = h.1;
          pin = refl;
          app = s.app;
          driver = s.driver;
          mode = s.mode ∙ sym h.2;
        },
        record { nibble = f.nibble; character = f.character },
      ))
      (mbus_phy_update-Polled m.phy inputs.micros inputs.mbus_sense_pin m.drive_mbus_pin_lo s.rx
        s.tx)

-- After a nibble was handed on the place for the next one is not needed in this round.
abbrev pub Heard : Inputs → Machine → Type 0
Heard inputs m = IsSound m × HasRoom m.app.rn52 inputs.serial

pub hand_on_nibble-Heard :
    (m : Machine) (inputs : Inputs)
    → Goes inputs m
    → Returns (Heard inputs) (hand_on_nibble inputs m)
unfolding hand_on_nibble mbus_phy_rx_is_empty mbus_phy_rx_pop Rx.is_empty Rx.pop
hand_on_nibble-Heard m inputs (s, f) = elim (Bool-cases (Fifo.is_empty m.phy.rx.byte_fifo)) [
  | inl none_left ↦ rw none_left (s, f.character)
  | inr some_left ↦
      let (c, g, p, e) = Fifo.Refine.pop_total m.phy.rx.byte_fifo s.rx.fifo.valid some_left in
      rw (some_left, p)
        (Returns-bind _ (Heard inputs) (rx_push_nibble inputs.scratch m.app.link c) _
          (λ link h. (
            record {
              rx = popped-IsValid m.phy.rx c g s.rx p e;
              tx = s.tx;
              pin = s.pin;
              app = AppInv.with_link link s.app h.0 (subst Fifo.Inv.IsValid (sym h.1) s.app.tx);
              driver = s.driver;
              mode = h.2 ∙ s.mode;
            },
            f.character,
          ))
          (rx_push_nibble-TakesIn inputs.scratch m.app.link c f.nibble s.app.rx))
]
