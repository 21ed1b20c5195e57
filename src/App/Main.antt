-- ===== src/App/Main.antt =====
-- `main` of app_demo.cpp: the set-up, and one round of the endless loop that polls every component.
-- The locals that outlive a round and the pins that the program sets are one record. What a round
-- reads is a record too: the clocks, the input pins, and a character of the serial line. The timers of
-- type `elapsedMillis` go on by the milliseconds that have passed since the round before. Setting up
-- the pins and the two waits have no counterpart.
pub mod Inv
pub mod Frame
pub mod Round
pub mod Safety
use diy_acura_bluetooth.Prelude.{
  ℕ, ◌+◌, ◌*◌, Bool, true, false, not, List, Option, none, some, replicate, ltb, ◌>>=◌,
  if◌then◌else◌,
}
use diy_acura_bluetooth.Prelude.Words.{u32}
use diy_acura_bluetooth.Fifo.{Fifo}
use diy_acura_bluetooth.Phy.Tx.{Tx}
use diy_acura_bluetooth.Phy.Join.{
  MbusPhy, mbus_phy_init, mbus_phy_update, mbus_phy_rx_enable, mbus_phy_rx_is_busy,
  mbus_phy_rx_is_empty, mbus_phy_rx_pop, mbus_phy_tx_enable, mbus_phy_tx_disable,
  mbus_phy_tx_is_busy,
}
use diy_acura_bluetooth.Link.Types.{RxMsg, TxMsg, RawNibbleList}
use diy_acura_bluetooth.Link.Core.{
  Link, is_direction_rx, rx_push_nibble, init as link_init, update as link_update,
}
use diy_acura_bluetooth.Rn52.State.{Rn52}
use diy_acura_bluetooth.Rn52.Commands.{init as rn52_init}
use diy_acura_bluetooth.Rn52.Update.{update as rn52_update}
use diy_acura_bluetooth.App.State.{App, init as app_init}
use diy_acura_bluetooth.App.Update.{update as app_update}

abbrev pub rn52_avrcp_cmd_mem_size : ℕ
rn52_avrcp_cmd_mem_size = 16

abbrev pub byte_mem_size : ℕ
byte_mem_size = 256

abbrev pub rx_msg_mem_num : ℕ
rx_msg_mem_num = 4

abbrev pub tx_msg_mem_num : ℕ
tx_msg_mem_num = 16

pub record Machine : Type 0 where
  pub phy : MbusPhy
  pub app : App
  pub blink_milli_sec_elapsed : ℕ
  pub drive_mbus_pin_lo : Bool
  pub rn52_cmd_mode_pin : Bool
  pub led_pin : Bool
  pub mbus_drive_lo_pin : Bool
  pub rn52_cmd_lo_pin : Bool

pub record Inputs : Type 0 where
  pub passed : ℕ  -- milliseconds since the round before
  pub micros : ℕ
  pub millis : ℕ
  pub mbus_sense_pin : Bool
  pub rn52_event_pin : Bool
  pub serial : Option ℕ
  pub scratch : RxMsg  -- what the stack holds where a received message is parsed

-- The memory that the set-up finds: the buffers, and what the structures hold that it does not set.
pub record Memory : Type 0 where
  pub rx_bytes : List ℕ
  pub tx_bytes : List ℕ
  pub rx_msgs : List RxMsg
  pub tx_msgs : List TxMsg
  pub commands : List ℕ
  pub simple_msgs : List ℕ
  pub nibbles : RawNibbleList
  pub rn52 : Rn52
  pub app : App

-- The part before the loop. The sizes of the message structures are the compiler's.
unfoldable pub set_up : ℕ → ℕ → Memory → Option Machine
set_up rx_msg_size tx_msg_size memory =
    mbus_phy_init (some memory.rx_bytes) byte_mem_size (some memory.tx_bytes) byte_mem_size
    >>= λ phy.
        link_init memory.nibbles (some memory.rx_msgs) (rx_msg_mem_num * rx_msg_size) rx_msg_size
          (some memory.tx_msgs) (tx_msg_mem_num * tx_msg_size) tx_msg_size
        >>= λ link. rn52_init memory.rn52 (some memory.commands) rn52_avrcp_cmd_mem_size >>= λ rn52.
            app_init (record memory.app { link = link; rn52 = rn52 }) memory.simple_msgs >>= λ app.
            some (record {
              phy = mbus_phy_rx_enable phy;
              app = app;
              blink_milli_sec_elapsed = 0;
              drive_mbus_pin_lo = false;
              rn52_cmd_mode_pin = true;
              led_pin = false;
              mbus_drive_lo_pin = false;
              rn52_cmd_lo_pin = true;
            })

unfoldable pub pass_time : Machine → ℕ → Machine
pass_time m passed = record m {
  blink_milli_sec_elapsed = u32 (m.blink_milli_sec_elapsed + passed);
  app = record m.app { timer = u32 (m.app.timer + passed) };
}

unfoldable pub blink : Machine → Machine
blink m =
    if ltb 1000 m.blink_milli_sec_elapsed
    then record m { led_pin = not m.led_pin; blink_milli_sec_elapsed = 0 }
    else m

-- "mbusPhy"
unfoldable pub poll_phy : Inputs → Machine → Option Machine
poll_phy inputs m =
    mbus_phy_update m.phy inputs.micros inputs.mbus_sense_pin m.drive_mbus_pin_lo
    >>= λ (phy, drive_lo).
        some (record m { phy = phy; drive_mbus_pin_lo = drive_lo; mbus_drive_lo_pin = drive_lo })

-- "mbusPhy->app.link"
unfoldable pub hand_on_nibble : Inputs → Machine → Option Machine
hand_on_nibble inputs m =
    if not (mbus_phy_rx_is_empty m.phy)
    then (mbus_phy_rx_pop m.phy >>= λ (rx_nibble, phy).
        rx_push_nibble inputs.scratch m.app.link rx_nibble >>= λ link.
        some (record m { phy = phy; app = record m.app { link = link } }))
    else some m

-- The direction of the transmitter, when the link has changed its own.
unfoldable pub turn : Bool → Link → MbusPhy → MbusPhy
turn direction_updated link phy =
    if direction_updated
    then (if is_direction_rx link then mbus_phy_tx_disable phy else mbus_phy_tx_enable phy)
    else phy

-- "app.link": the link fills the queue of the transmitter, to which `phyTxNibbleFifo` points.
unfoldable pub poll_link : Machine → Option Machine
poll_link m =
    link_update m.app.link (mbus_phy_rx_is_busy m.phy) (mbus_phy_tx_is_busy m.phy)
      m.phy.tx.byte_fifo
    >>= λ (link, tx_fifo, direction_updated). some (record m {
      phy =
          turn direction_updated link
            (record m.phy { tx = record m.phy.tx { byte_fifo = tx_fifo } });
      app = record m.app { link = link };
    })

unfoldable pub poll_app : Machine → Option Machine
poll_app m = app_update m.app >>= λ app. some (record m { app = app })

-- "rn 52 bluetooth"
unfoldable pub poll_rn52 : Inputs → Machine → Option (Machine × List ℕ)
poll_rn52 inputs m =
    rn52_update m.app.rn52 inputs.millis inputs.rn52_event_pin inputs.serial m.rn52_cmd_mode_pin
    >>= λ (rn52, cmd_pin, sent). some (
      record m {
        app = record m.app { rn52 = rn52 };
        rn52_cmd_mode_pin = cmd_pin;
        rn52_cmd_lo_pin = cmd_pin;
      },
      sent,
    )

-- One round of `while (1)`: the machine after it, and the characters that it puts out.
unfoldable pub round : Inputs → Machine → Option (Machine × List ℕ)
round inputs m = poll_phy inputs (blink (pass_time m inputs.passed)) >>= λ m1.
    hand_on_nibble inputs m1 >>= λ m2.
    poll_link m2 >>= λ m3. poll_app m3 >>= λ m4. poll_rn52 inputs m4
