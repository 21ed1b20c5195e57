-- ===== src/Phy/Tx.antt =====
-- The transmitter of mbus_phy.c: `_mbus_phy_tx_init`, `_mbus_phy_tx_update` and the queue of nibbles
-- that it empties. `*pDriveMbusPinLo` goes in and comes out. `none` is the failed assertion of
-- `fifo_pop`, which `Tx.Inv.update_total` rules out.
pub mod Inv
pub mod Bit
pub mod Nibble
use diy_acura_bluetooth.Prelude.{
  ℕ, ◌*◌, ◌^◌, Bool, true, false, not, List, Option, none, some, bit_and, bit_or, ltb, ◌==◌, ◌>>=◌,
  if◌then◌else◌,
}
use diy_acura_bluetooth.Prelude.Words.{u8, elapsed, has_bit}
use diy_acura_bluetooth.Fifo
use diy_acura_bluetooth.Phy.State.{
  TxState, MbusPhyTxRx, mbus_end_msg_code, bit_time, bit_zero_low_time, bit_one_low_time,
  tx_turnaround_delay_time, tx_msg2msg_wait,
}

abbrev pub Tx : Type 0
Tx = MbusPhyTxRx TxState

abbrev pub tx_bit_shifter_init : ℕ
tx_bit_shifter_init = 0x01

abbrev pub tx_bit_shifter_not_done_mask : ℕ
tx_bit_shifter_not_done_mask = 0x0F

unfoldable pub init : Option (List ℕ) → ℕ → Option Tx
init tx_byte_mem_in tx_byte_mem_in_size = do
  fifo ← Fifo.nomalloc_init "mbusPhyTx" tx_byte_mem_in tx_byte_mem_in_size 1
  some (record {
    state = TxState.disabled;
    bit_shifter = tx_bit_shifter_init;
    micro_sec_time_stamp = 0;
    byte_fifo = fifo;
  })

-- `_txShiftOutBit`: the bit, and the shifter after it.
pub shift_out_bit : ℕ → Bool × ℕ
shift_out_bit shifter = (has_bit shifter 0x80, u8 (shifter * 2))

-- `_mbus_phy_tx_pop`
pub pop : Tx → Option (ℕ × Tx)
pop tx = Fifo.pop tx.byte_fifo >>= λ (nib, fifo). some (nib, record tx { byte_fifo = fifo })

-- The branch of MBUS_STATE_TX_IDLE on the nibble taken from the queue.
pub load : Tx → ℕ → Tx
load tx tx_nibble =
    if tx_nibble == mbus_end_msg_code
    then record tx { state = TxState.msg2msg_gap }
    else record tx {
      bit_shifter = bit_or tx_bit_shifter_init (u8 (bit_and tx_nibble 0x0F * 2 ^ 4));
      state = TxState.sending;
    }

-- The `switch` of `_mbus_phy_tx_update`.
unfoldable pub dispatch : TxState → Tx → ℕ → Bool → Option (Tx × Bool)
unfolding shift_out_bit pop
dispatch TxState.disabled tx us drive_lo = some (tx, drive_lo)
dispatch TxState.enable tx us drive_lo =
    some (record tx { micro_sec_time_stamp = us; state = TxState.turnaround_delay }, drive_lo)
dispatch TxState.turnaround_delay tx us drive_lo =
    if ltb tx_turnaround_delay_time (elapsed us tx.micro_sec_time_stamp)
    then some (record tx { state = TxState.idle }, drive_lo)
    else some (tx, drive_lo)
dispatch TxState.idle tx us drive_lo =
    if not (Fifo.is_empty tx.byte_fifo)
    then (pop tx >>= λ (tx_nibble, tx1). some (load tx1 tx_nibble, false))
    else some (tx, false)
dispatch TxState.sending tx us drive_lo =
    let (out_bit_one, shifter) = shift_out_bit tx.bit_shifter in
    some (
      record tx {
        micro_sec_time_stamp = us;
        bit_shifter = shifter;
        state = if out_bit_one then TxState.sending_one else TxState.sending_zero;
      },
      true,
    )
dispatch TxState.sending_one tx us drive_lo =
    if ltb bit_one_low_time (elapsed us tx.micro_sec_time_stamp)
    then some (record tx { state = TxState.send_bit_gap }, false)
    else some (tx, true)
dispatch TxState.sending_zero tx us drive_lo =
    if ltb bit_zero_low_time (elapsed us tx.micro_sec_time_stamp)
    then some (record tx { state = TxState.send_bit_gap }, false)
    else some (tx, true)
dispatch TxState.send_bit_gap tx us drive_lo =
    if ltb bit_time (elapsed us tx.micro_sec_time_stamp)
    then some (
      record tx {
        state =
            if has_bit tx.bit_shifter tx_bit_shifter_not_done_mask
            then TxState.sending
            else TxState.idle;
      },
      false,
    )
    else some (tx, false)
dispatch TxState.msg2msg_gap tx us drive_lo =
    some (record tx { state = TxState.msg2msg_wait; micro_sec_time_stamp = us }, drive_lo)
dispatch TxState.msg2msg_wait tx us drive_lo =
    if ltb tx_msg2msg_wait (elapsed us tx.micro_sec_time_stamp)
    then some (record tx { state = TxState.idle }, drive_lo)
    else some (tx, drive_lo)

-- `_mbus_phy_tx_update`
unfoldable pub update : Tx → ℕ → Bool → Option (Tx × Bool)
unfolding dispatch
update tx us drive_lo = dispatch tx.state tx us drive_lo

-- `mbus_phy_tx_is_empty`, `mbus_phy_tx_is_full` and `mbus_phy_tx_push`.
pub is_empty : Tx → Bool
is_empty tx = Fifo.is_empty tx.byte_fifo

pub is_full : Tx → Bool
is_full tx = Fifo.is_full tx.byte_fifo

unfoldable pub push : Tx → ℕ → Tx
push tx nibble = record tx { byte_fifo = Fifo.push tx.byte_fifo nibble }

-- `mbus_phy_tx_is_busy`
unfoldable pub busy_in : TxState → Tx → Bool
busy_in TxState.disabled tx = false
busy_in TxState.idle tx = not (Fifo.is_empty tx.byte_fifo)
busy_in _ tx = true

unfoldable pub is_busy : Tx → Bool
unfolding busy_in
is_busy tx = busy_in tx.state tx
