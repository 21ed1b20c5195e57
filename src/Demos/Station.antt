-- ===== src/Demos/Station.antt =====
-- What mbus_msg_ping_reply.cpp and mbus_msg_sniffer.cpp share: the locals of `main` that outlive a
-- round, the set-up, and the beginning of a round. The lines are those of mbus_msg_ping_reply.cpp, to
-- which mbus_msg_sniffer.cpp is the same. What `println` is given is output: the buffer of the text, up
-- to its first zero.
pub mod Inv
pub mod Message
pub mod Start
pub mod Heard
use diy_acura_bluetooth.Prelude.{
  ℕ, ◌+◌, ◌*◌, Bool, true, false, not, List, Option, some, ltb, ◌>>=◌, if◌then◌else◌,
}
use diy_acura_bluetooth.Prelude.Words.{u32}
use diy_acura_bluetooth.Phy.Join.{
  MbusPhy, mbus_phy_init, mbus_phy_update, mbus_phy_rx_enable, mbus_phy_rx_is_empty,
  mbus_phy_rx_pop,
}
use diy_acura_bluetooth.Link.Types.{RxMsg, TxMsg, RawNibbleList}
use diy_acura_bluetooth.Link.Core.{Link, rx_push_nibble, init as link_init}

abbrev pub byte_mem_size : ℕ
byte_mem_size = 64

abbrev pub msg_mem_size : ℕ
msg_mem_size = 2

abbrev pub msg_str_size : ℕ
msg_str_size = 256

pub record Station : Type 0 where
  pub phy : MbusPhy
  pub link : Link
  pub blink_milli_sec_elapsed : ℕ
  pub drive_mbus_pin_lo : Bool
  pub led_pin : Bool
  pub mbus_drive_lo_pin : Bool
  pub msg_str : List ℕ

pub record Inputs : Type 0 where
  pub passed : ℕ  -- milliseconds since the round before
  pub micros : ℕ
  pub mbus_sense_pin : Bool
  pub scratch : RxMsg  -- what the stack holds where a received message is parsed

-- The memory that the set-up finds.
pub record Memory : Type 0 where
  pub rx_bytes : List ℕ
  pub tx_bytes : List ℕ
  pub rx_msgs : List RxMsg
  pub tx_msgs : List TxMsg
  pub nibbles : RawNibbleList
  pub msg_str : List ℕ

-- The part before the loop. The sizes of the message structures are the compiler's.
unfoldable pub set_up : ℕ → ℕ → Memory → Option Station
set_up rx_msg_size tx_msg_size memory =
    mbus_phy_init (some memory.rx_bytes) byte_mem_size (some memory.tx_bytes) byte_mem_size
    >>= λ phy.
        link_init memory.nibbles (some memory.rx_msgs) (msg_mem_size * rx_msg_size) rx_msg_size
          (some memory.tx_msgs) (msg_mem_size * tx_msg_size) tx_msg_size
        >>= λ link. some (record {
          phy = mbus_phy_rx_enable phy;
          link = link;
          blink_milli_sec_elapsed = 0;
          drive_mbus_pin_lo = false;
          led_pin = false;
          mbus_drive_lo_pin = false;
          msg_str = memory.msg_str;
        })

unfoldable pub pass_time : Station → ℕ → Station
pass_time m passed = record m { blink_milli_sec_elapsed = u32 (m.blink_milli_sec_elapsed + passed) }

unfoldable pub blink : Station → Station
blink m =
    if ltb 1000 m.blink_milli_sec_elapsed
    then record m { led_pin = not m.led_pin; blink_milli_sec_elapsed = 0 }
    else m

-- "mbusPhy"
unfoldable pub poll_phy : Inputs → Station → Option Station
poll_phy inputs m =
    mbus_phy_update m.phy inputs.micros inputs.mbus_sense_pin m.drive_mbus_pin_lo
    >>= λ (phy, drive_lo).
        some (record m { phy = phy; drive_mbus_pin_lo = drive_lo; mbus_drive_lo_pin = drive_lo })

-- "mbusPhy->mbusLink"
unfoldable pub hand_on_nibble : Inputs → Station → Option Station
hand_on_nibble inputs m =
    if not (mbus_phy_rx_is_empty m.phy)
    then (mbus_phy_rx_pop m.phy >>= λ (rx_nibble, phy).
        rx_push_nibble inputs.scratch m.link rx_nibble >>= λ link.
        some (record m { phy = phy; link = link }))
    else some m
