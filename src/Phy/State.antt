-- ===== src/Phy/State.antt =====
-- `MbusPhyTxRxStruct`, which the receiver and the transmitter share, and the times of mbus_phy.c in
-- microseconds. The states that the source numbers by `#define` are data types.
use diy_acura_bluetooth.Prelude.{ℕ, ◌+◌, ◌*◌, ◌/◌}
use diy_acura_bluetooth.Fifo.{Fifo}

pub data RxState : Type 0 where
  disabled idle awaiting_rise awaiting_fall nibble_ended failed_low : RxState

pub data TxState : Type 0 where
  disabled enable turnaround_delay idle sending sending_one sending_zero send_bit_gap msg2msg_gap
        msg2msg_wait :
      TxState

pub record MbusPhyTxRx (S : Type 0) : Type 0 where
  pub state : S
  pub bit_shifter : ℕ  -- uint8_t
  pub micro_sec_time_stamp : ℕ  -- unsigned long
  pub byte_fifo : Fifo ℕ

abbrev pub mbus_low_too_long_code : ℕ
mbus_low_too_long_code = 16

abbrev pub mbus_timeout_code : ℕ
mbus_timeout_code = 17

abbrev pub mbus_end_msg_code : ℕ
mbus_end_msg_code = 18

abbrev pub bit_time : ℕ
bit_time = 3100

abbrev pub bit_zero_low_time : ℕ
bit_zero_low_time = 675

abbrev pub bit_one_low_time : ℕ
bit_one_low_time = 1890

abbrev pub bit_oneval_thresh_time : ℕ
bit_oneval_thresh_time = (bit_zero_low_time + bit_one_low_time) / 2

abbrev pub bit_low_too_long_time : ℕ
bit_low_too_long_time = (bit_time + bit_one_low_time) / 2

abbrev pub nibble_end_gap_time : ℕ
nibble_end_gap_time = bit_time

abbrev pub interbit_timeout_time : ℕ
interbit_timeout_time = bit_time

abbrev pub tx_turnaround_delay_time : ℕ
tx_turnaround_delay_time = bit_time

abbrev pub tx_msg2msg_wait : ℕ
tx_msg2msg_wait = 2 * bit_time
