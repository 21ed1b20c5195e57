-- ===== src/Demos/Toggle.antt =====
-- `main` of app_demo_toggle_sniffer.cpp: it answers three messages of the head unit with messages that
-- are written out in the code, polls the driver, and prints each change of the bus. What is printed for
-- debugging is left out; what `println` is given is output.
pub mod Misread
use diy_acura_bluetooth.Prelude.{
  ℕ, ◌+◌, ◌*◌, ◌-◌, ◌==◌, ◌&&◌, Bool, true, false, not, List, [], ◌∷◌, ◌++◌, Option, none, some,
  length, replicate, ltb, ◌>>=◌, if◌then◌else◌,
}
use diy_acura_bluetooth.Prelude.Words.{u32}
use diy_acura_bluetooth.Phy.Join.{
  MbusPhy, mbus_phy_init, mbus_phy_update, mbus_phy_rx_enable, mbus_phy_rx_is_empty,
  mbus_phy_rx_pop, mbus_phy_rx_is_busy, mbus_phy_tx_enable, mbus_phy_tx_disable,
  mbus_phy_tx_is_busy,
}
use diy_acura_bluetooth.Link.Types.{
  RxMsg, TxMsg, MsgBody, RawNibbleList, msgtype_ping, msgtype_set_play_state, msgtype_head_power_on,
}
use diy_acura_bluetooth.Link.Core.{
  Link, is_direction_rx, rx_is_empty, rx_pop, tx_push, rx_push_nibble, init as link_init,
  update as link_update,
}
use diy_acura_bluetooth.Link.Print.Format.{codes, digit, hexadecimal, of_bool}
use diy_acura_bluetooth.Link.Print.Buffer.{snprintf, msg_to_str}
use diy_acura_bluetooth.Rn52.State.{Rn52}
use diy_acura_bluetooth.Rn52.Commands.{init as rn52_init}
use diy_acura_bluetooth.Rn52.Update.{update as rn52_update}

-- The locals of `main` that outlive a round, and the pins.
pub record Toggler : Type 0 where
  pub phy : MbusPhy
  pub link : Link
  pub rn52 : Rn52
  pub blink_milli_sec_elapsed : ℕ
  pub drive_mbus_pin_lo : Bool
  pub rn52_cmd_mode_pin : Bool
  pub led_pin : Bool
  pub mbus_drive_lo_pin : Bool
  pub rn52_cmd_lo_pin : Bool
  pub prev_pin_val : Bool
  pub msg_str : List ℕ

-- What a round reads. `micros` and the pin are read twice.
pub record Inputs : Type 0 where
  pub passed : ℕ  -- milliseconds since the round before
  pub micros : ℕ
  pub mbus_sense_pin : Bool
  pub millis : ℕ
  pub rn52_event_pin : Bool
  pub serial : Option ℕ
  pub last_micros : ℕ
  pub last_sense_pin : Bool
  pub scratch : RxMsg  -- what the stack holds where a received message is parsed

-- The memory that the set-up finds.
pub record Memory : Type 0 where
  pub rx_bytes : List ℕ
  pub tx_bytes : List ℕ
  pub rx_msgs : List RxMsg
  pub tx_msgs : List TxMsg
  pub commands : List ℕ
  pub nibbles : RawNibbleList
  pub rn52 : Rn52
  pub msg_str : List ℕ

-- The part before the loop. The sizes of the message structures are the compiler's.
unfoldable pub set_up : ℕ → ℕ → Memory → Option Toggler
set_up rx_msg_size tx_msg_size memory =
    mbus_phy_init (some memory.rx_bytes) 64 (some memory.tx_bytes) 64 >>= λ phy.
    link_init memory.nibbles (some memory.rx_msgs) (2 * rx_msg_size) rx_msg_size
      (some memory.tx_msgs) (2 * tx_msg_size) tx_msg_size
    >>= λ link. rn52_init memory.rn52 (some memory.commands) 16 >>= λ rn52. some (record {
      phy = mbus_phy_rx_enable phy;
      link = link;
      rn52 = rn52;
      blink_milli_sec_elapsed = 0;
      drive_mbus_pin_lo = false;
      rn52_cmd_mode_pin = true;
      led_pin = false;
      mbus_drive_lo_pin = false;
      rn52_cmd_lo_pin = true;
      prev_pin_val = false;
      msg_str = memory.msg_str;
    })

unfoldable pub blink : Toggler → ℕ → Toggler
blink m passed =
    let elapsed = u32 (m.blink_milli_sec_elapsed + passed) in
    if ltb 1000 elapsed
    then record m { led_pin = not m.led_pin; blink_milli_sec_elapsed = 0 }
    else record m { blink_milli_sec_elapsed = elapsed }

-- "mbusPhy"
unfoldable pub poll_phy : Inputs → Toggler → Option Toggler
poll_phy inputs m =
    mbus_phy_update m.phy inputs.micros inputs.mbus_sense_pin m.drive_mbus_pin_lo
    >>= λ (phy, drive_lo).
        some (record m { phy = phy; drive_mbus_pin_lo = drive_lo; mbus_drive_lo_pin = drive_lo })

-- "mbusPhy->mbusLink"
unfoldable pub hand_on_nibble : Inputs → Toggler → Option Toggler
hand_on_nibble inputs m =
    if not (mbus_phy_rx_is_empty m.phy)
    then (mbus_phy_rx_pop m.phy >>= λ (rx_nibble, phy).
        rx_push_nibble inputs.scratch m.link rx_nibble >>= λ link.
        some (record m { phy = phy; link = link }))
    else some m

unfoldable pub turn : Bool → Link → MbusPhy → MbusPhy
turn direction_updated link phy =
    if direction_updated
    then (if is_direction_rx link then mbus_phy_tx_disable phy else mbus_phy_tx_enable phy)
    else phy

-- "mbusLink"
unfoldable pub poll_link : Toggler → Option Toggler
poll_link m =
    link_update m.link (mbus_phy_rx_is_busy m.phy) (mbus_phy_tx_is_busy m.phy) m.phy.tx.byte_fifo
    >>= λ (link, tx_fifo, direction_updated). some (record m {
      phy =
          turn direction_updated link
            (record m.phy { tx = record m.phy.tx { byte_fifo = tx_fifo } });
      link = link;
    })

abbrev pub packed : ℕ → ℕ → TxMsg
packed pack_nibbles num_nibbles = record {
  nibbles = record { pack_nibbles = pack_nibbles; num_nibbles = num_nibbles };
}

-- `parsed.body.setPlayState.play`
abbrev pub says_play : MsgBody → Bool
says_play (MsgBody.set_play_state b) = b.play
says_play _ = false

-- The message that is sent back.
unfoldable pub reply : RxMsg → Option TxMsg
reply msg =
    if (msg.err_id == 0) && msg.parsed.direction_h2c
    then (if msg.parsed.msg_type == msgtype_ping
        then some (packed 0x982 3)
        else if (msg.parsed.msg_type == msgtype_set_play_state) && says_play msg.parsed.body
        then some (packed 0x9940201014300011 16)
        else if msg.parsed.msg_type == msgtype_head_power_on
        then some (packed 0x9A00000000004 13)
        else none)
    else none

unfoldable pub push_reply : Option TxMsg → Link → Link
push_reply none link = link
push_reply (some msg) link = tx_push link msg

-- "print mbusLink rx msg if one is available"
unfoldable pub take_message : Toggler → Option Toggler
take_message m =
    if not (rx_is_empty m.link)
    then (rx_pop m.link >>= λ (msg, link). msg_to_str msg m.msg_str 256 >>= λ (str, len).
        some (record m { link = push_reply (reply msg) link; msg_str = str }))
    else some m

-- "rn 52 bluetooth"
unfoldable pub poll_rn52 : Inputs → Toggler → Option (Toggler × List ℕ)
poll_rn52 inputs m =
    rn52_update m.rn52 inputs.millis inputs.rn52_event_pin inputs.serial m.rn52_cmd_mode_pin
    >>= λ (rn52, cmd_pin, sent).
        some
          (record m { rn52 = rn52; rn52_cmd_mode_pin = cmd_pin; rn52_cmd_lo_pin = cmd_pin }, sent)

-- `t:%08x %d`
abbrev pub toggle_text : ℕ → Bool → List ℕ
toggle_text micros pin_val =
    let hex = hexadecimal micros in
    codes "t:"
    ++ (replicate (8 - length hex) b'0' ++ (hex ++ (b' ' ∷ digit (of_bool pin_val) ∷ [])))

abbrev pub is_changed : Bool → Bool → Bool
is_changed true pin_val = not pin_val
is_changed false pin_val = pin_val

-- "toggle sniffer"
unfoldable pub sniff : Inputs → Toggler → Option (Toggler × List (List ℕ))
sniff inputs m =
    let pin_val = inputs.last_sense_pin in
    if is_changed m.prev_pin_val pin_val
    then (snprintf (toggle_text inputs.last_micros pin_val)
          (record { memory = m.msg_str; pos = 0; room = 256 })
        >>= λ out.
            some (record m { msg_str = out.memory; prev_pin_val = pin_val }, out.memory ∷ []))
    else some (m, [])

-- One round of `while (1)`: the characters for the Bluetooth module, and what is printed.
unfoldable pub round : Inputs → Toggler → Option (Toggler × List ℕ × List (List ℕ))
round inputs m = poll_phy inputs (blink m inputs.passed) >>= λ m1.
    hand_on_nibble inputs m1 >>= λ m2. poll_link m2 >>= λ m3. take_message m3 >>= λ m4.
    poll_rn52 inputs m4 >>= λ (m5, sent).
    sniff inputs m5 >>= λ (m6, printed). some (m6, sent, printed)
