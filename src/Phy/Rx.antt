-- ===== src/Phy/Rx.antt =====
-- The receiver of mbus_phy.c: `_mbus_phy_rx_init`, `_mbus_phy_rx_update` and the queue of bytes that
-- it fills. The update is its two `switch` statements in order, edges and then time-outs.
pub mod Inv
pub mod Decode
pub mod Nibbles
pub mod Frame
pub mod Missing
use diy_acura_bluetooth.Prelude.{
  ℕ, ◌*◌, Bool, true, false, not, List, Option, none, some, bit_and, bit_or, ltb, ◌>>=◌,
  if◌then◌else◌,
}
use diy_acura_bluetooth.Prelude.Words.{u8, elapsed, has_bit}
use diy_acura_bluetooth.Fifo
use diy_acura_bluetooth.Fifo.{Fifo}
use diy_acura_bluetooth.Phy.State.{
  RxState, MbusPhyTxRx, mbus_low_too_long_code, mbus_timeout_code, mbus_end_msg_code,
  bit_oneval_thresh_time, bit_low_too_long_time, nibble_end_gap_time, interbit_timeout_time,
}

abbrev pub Rx : Type 0
Rx = MbusPhyTxRx RxState

abbrev pub rx_bit_shifter_init : ℕ
rx_bit_shifter_init = 0x08

abbrev pub rx_bit_shifter_done_mask : ℕ
rx_bit_shifter_done_mask = 0x80

-- The memory is that of `rxByteMemIn`.
unfoldable pub init : Option (List ℕ) → ℕ → Option Rx
init rx_byte_mem_in rx_byte_mem_in_size = do
  fifo ← Fifo.nomalloc_init "mbusPhyRx" rx_byte_mem_in rx_byte_mem_in_size 1
  some (record {
    state = RxState.disabled;
    bit_shifter = rx_bit_shifter_init;
    micro_sec_time_stamp = 0;
    byte_fifo = fifo;
  })

-- `_mbus_phy_rx_push`
pub push : Rx → ℕ → Rx
push rx byte = record rx { byte_fifo = Fifo.push rx.byte_fifo byte }

-- The rising edge ends a bit: a long low time is a one.
pub rise : Rx → ℕ → Rx
rise rx us =
    let shifted = u8 (rx.bit_shifter * 2) in
    let shifter =
      if ltb bit_oneval_thresh_time (elapsed us rx.micro_sec_time_stamp)
      then bit_or shifted 0x01
      else shifted in
    let rx1 = record rx { bit_shifter = shifter; micro_sec_time_stamp = us } in
    if has_bit shifter rx_bit_shifter_done_mask
    then record (push rx1 (bit_and shifter 0x0F)) {
      state = RxState.nibble_ended;
      bit_shifter = rx_bit_shifter_init;
    }
    else record rx1 { state = RxState.awaiting_fall }

unfoldable pub fall : Rx → ℕ → Rx
fall rx us = record rx { state = RxState.awaiting_rise; micro_sec_time_stamp = us }

-- "handle bit edges"
unfoldable pub edges : RxState → Rx → ℕ → Bool → Rx
edges RxState.disabled rx us pin_hi = rx
edges RxState.idle rx us pin_hi = if not pin_hi then fall rx us else rx
edges RxState.nibble_ended rx us pin_hi = if not pin_hi then fall rx us else rx
edges RxState.awaiting_fall rx us pin_hi = if not pin_hi then fall rx us else rx
edges RxState.awaiting_rise rx us pin_hi = if pin_hi then rise rx us else rx
edges RxState.failed_low rx us pin_hi = if pin_hi then record rx { state = RxState.idle } else rx

-- "handle timeouts"
unfoldable pub timeouts : RxState → Rx → ℕ → Rx
timeouts RxState.disabled rx us = rx
timeouts RxState.idle rx us = rx
timeouts RxState.failed_low rx us = rx
timeouts RxState.awaiting_fall rx us =
    if ltb interbit_timeout_time (elapsed us rx.micro_sec_time_stamp)
    then record (push (push (push rx (bit_and rx.bit_shifter 0x0F)) mbus_timeout_code)
        mbus_end_msg_code) { state = RxState.idle; bit_shifter = rx_bit_shifter_init }
    else rx
timeouts RxState.awaiting_rise rx us =
    if ltb bit_low_too_long_time (elapsed us rx.micro_sec_time_stamp)
    then record (push (push (push rx (bit_and rx.bit_shifter 0x0F)) mbus_low_too_long_code)
        mbus_end_msg_code) { state = RxState.failed_low; bit_shifter = rx_bit_shifter_init }
    else rx
timeouts RxState.nibble_ended rx us =
    if ltb nibble_end_gap_time (elapsed us rx.micro_sec_time_stamp)
    then record (push rx mbus_end_msg_code) {
      state = RxState.idle;
      bit_shifter = rx_bit_shifter_init;
    }
    else rx

-- `_mbus_phy_rx_update`
unfoldable pub update : Rx → ℕ → Bool → Rx
unfolding edges timeouts rise fall push
update rx us pin_hi = let rx1 = edges rx.state rx us pin_hi in timeouts rx1.state rx1 us

-- `mbus_phy_rx_is_empty` and `mbus_phy_rx_pop`, on the receiver's part of the structure.
unfoldable pub is_empty : Rx → Bool
is_empty rx = Fifo.is_empty rx.byte_fifo

unfoldable pub pop : Rx → Option (ℕ × Rx)
pop rx = Fifo.pop rx.byte_fifo >>= λ (nib, fifo). some (nib, record rx { byte_fifo = fifo })
