-- ===== src/Demos/Bridge.antt =====
-- `main` of mbus_nibble_bridge.cpp: received nibbles go to the serial line as characters, and a line of
-- hexadecimal digits that is typed goes to the transmitter. `none` is a failed assertion, or a write
-- past the end of `txNibQueue`. Of what is printed the echo of a sent line is left out.
pub mod Line
use diy_acura_bluetooth.Prelude.{
  ℕ, zero, suc, ◌+◌, ◌==◌, ◌&&◌, Bool, true, false, not, List, [], ◌∷◌, Option, none, some, length,
  set, get_or, ltb, ◌>>=◌, if◌then◌else◌,
}
use diy_acura_bluetooth.Prelude.Words.{u32, has_bit}
use diy_acura_bluetooth.Phy.State.{mbus_end_msg_code}
use diy_acura_bluetooth.Phy.Ascii.{rxnibble2ascii, ascii2txnibble}
use diy_acura_bluetooth.Phy.Join.{
  MbusPhy, mbus_phy_init, mbus_phy_update, mbus_phy_rx_enable, mbus_phy_rx_is_empty,
  mbus_phy_rx_pop, mbus_phy_rx_is_busy, mbus_phy_tx_enable, mbus_phy_tx_disable,
  mbus_phy_tx_is_busy, mbus_phy_tx_push,
}

abbrev pub byte_mem_size : ℕ
byte_mem_size = 64

-- The locals of `main` that outlive a round, and the pins.
pub record Bridge : Type 0 where
  pub phy : MbusPhy
  pub blink_milli_sec_elapsed : ℕ
  pub tx_nib_queue : List ℕ
  pub tx_nib_queue_last_idx : ℕ
  pub transmitting : Bool
  pub drive_mbus_pin_lo : Bool
  pub led_pin : Bool
  pub mbus_drive_lo_pin : Bool

pub record Inputs : Type 0 where
  pub passed : ℕ  -- milliseconds since the round before
  pub micros : ℕ
  pub mbus_sense_pin : Bool
  pub typed_char : Option ℕ  -- a character that the serial line has for the program

-- The part before the loop.
unfoldable pub set_up : List ℕ → List ℕ → List ℕ → Option Bridge
set_up rx_byte_mem tx_byte_mem tx_nib_queue =
    mbus_phy_init (some rx_byte_mem) byte_mem_size (some tx_byte_mem) byte_mem_size >>= λ phy.
    some (record {
      phy = mbus_phy_rx_enable phy;
      blink_milli_sec_elapsed = 0;
      tx_nib_queue = tx_nib_queue;
      tx_nib_queue_last_idx = 0;
      transmitting = false;
      drive_mbus_pin_lo = false;
      led_pin = false;
      mbus_drive_lo_pin = false;
    })

unfoldable pub blink : Bridge → ℕ → Bridge
blink m passed =
    let elapsed = u32 (m.blink_milli_sec_elapsed + passed) in
    if ltb 1000 elapsed
    then record m { led_pin = not m.led_pin; blink_milli_sec_elapsed = 0 }
    else record m { blink_milli_sec_elapsed = elapsed }

-- "phy"
unfoldable pub poll_phy : Inputs → Bridge → Option Bridge
poll_phy inputs m =
    mbus_phy_update m.phy inputs.micros inputs.mbus_sense_pin m.drive_mbus_pin_lo
    >>= λ (phy, drive_lo).
        some (record m { phy = phy; drive_mbus_pin_lo = drive_lo; mbus_drive_lo_pin = drive_lo })

-- A received code as characters: a line break at the end of a message.
unfoldable pub shown : ℕ → List ℕ
shown rx_nibble =
    if rx_nibble == mbus_end_msg_code then 13 ∷ 10 ∷ [] else rxnibble2ascii rx_nibble ∷ []

unfoldable pub show_nibble : Bridge → Option (Bridge × List ℕ)
show_nibble m =
    if not (mbus_phy_rx_is_empty m.phy)
    then (mbus_phy_rx_pop m.phy >>= λ (rx_nibble, phy).
        some (record m { phy = phy }, shown rx_nibble))
    else some (m, [])

-- The nibble that a typed character stands for: the return key ends a message.
unfoldable pub typed_nibble : ℕ → ℕ
typed_nibble tx_char = if tx_char == 0x0d then mbus_end_msg_code else ascii2txnibble tx_char

-- The loop that pushes the queue from `idx` on, with the rounds that are left.
unfoldable pub push_loop : ℕ → ℕ → List ℕ → MbusPhy → MbusPhy
push_loop zero idx queue phy = phy
push_loop (suc rounds) idx queue phy =
    push_loop rounds (suc idx) queue (mbus_phy_tx_push phy (get_or queue idx 0))

-- The line that is queued is handed to the transmitter, if the bus is free.
unfoldable pub send_line : Bridge → Bridge
send_line m =
    if not (mbus_phy_rx_is_busy m.phy) && not m.transmitting
    then record m {
      transmitting = true;
      phy = push_loop m.tx_nib_queue_last_idx 0 m.tx_nib_queue (mbus_phy_tx_enable m.phy);
      tx_nib_queue_last_idx = 0;
    }
    else m

-- A nibble that is queued. The write is inside the array only while fewer than 32 are held.
unfoldable pub queue_nibble : ℕ → Bridge → Option Bridge
queue_nibble nib m =
    if ltb m.tx_nib_queue_last_idx 32
    then (let m1 = record m {
      tx_nib_queue = set m.tx_nib_queue m.tx_nib_queue_last_idx nib;
      tx_nib_queue_last_idx = m.tx_nib_queue_last_idx + 1;
    } in
        some (if nib == mbus_end_msg_code then send_line m1 else m1))
    else none

unfoldable pub take_char : ℕ → Bridge → Option Bridge
take_char tx_char m =
    if has_bit (typed_nibble tx_char) 0x80 then some m else queue_nibble (typed_nibble tx_char) m

unfoldable pub take_typed : Option ℕ → Bridge → Option Bridge
take_typed none m = some m
take_typed (some tx_char) m = take_char tx_char m

unfoldable pub finish_sending : Bridge → Bridge
finish_sending m =
    if m.transmitting && not (mbus_phy_tx_is_busy m.phy)
    then record m { transmitting = false; phy = mbus_phy_tx_disable m.phy }
    else m

-- One round of `while (1)`, and the characters of what was received.
unfoldable pub round : Inputs → Bridge → Option (Bridge × List ℕ)
round inputs m = poll_phy inputs (blink m inputs.passed) >>= λ m1. show_nibble m1 >>= λ (m2, said).
    take_typed inputs.typed_char m2 >>= λ m3. some (finish_sending m3, said)
