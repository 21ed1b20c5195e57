-- ===== src/Phy/Join.antt =====
-- `MbusPhyStruct`: a receiver and a transmitter, polled one after the other by `mbus_phy_update`.
pub mod Polled
use diy_acura_bluetooth.Prelude.{ℕ, Bool, true, false, List, Option, some, ◌>>=◌}
use diy_acura_bluetooth.Phy.State.{RxState, TxState}
use diy_acura_bluetooth.Phy.Rx
use diy_acura_bluetooth.Phy.Rx.{Rx}
use diy_acura_bluetooth.Phy.Tx
use diy_acura_bluetooth.Phy.Tx.{Tx}

pub record MbusPhy : Type 0 where
  pub tx : Tx
  pub rx : Rx

unfoldable pub mbus_phy_init : Option (List ℕ) → ℕ → Option (List ℕ) → ℕ → Option MbusPhy
mbus_phy_init rx_byte_mem_in rx_byte_mem_in_size tx_byte_mem_in tx_byte_mem_in_size =
    Rx.init rx_byte_mem_in rx_byte_mem_in_size >>= λ rx.
    Tx.init tx_byte_mem_in tx_byte_mem_in_size >>= λ tx. some (record { tx = tx; rx = rx })

-- `*pDriveMbusPinLo` goes in and comes out.
unfoldable pub mbus_phy_update : MbusPhy → ℕ → Bool → Bool → Option (MbusPhy × Bool)
mbus_phy_update phy micro_sec_elapsed mbus_pin_hi drive_lo =
    let rx = Rx.update phy.rx micro_sec_elapsed mbus_pin_hi in
    Tx.update phy.tx micro_sec_elapsed drive_lo >>= λ (tx, drive1).
    some (record { tx = tx; rx = rx }, drive1)

unfoldable pub mbus_phy_rx_enable : MbusPhy → MbusPhy
mbus_phy_rx_enable phy = record phy { rx = record phy.rx { state = RxState.idle } }

pub mbus_phy_rx_disable : MbusPhy → MbusPhy
mbus_phy_rx_disable phy = record phy { rx = record phy.rx { state = RxState.disabled } }

unfoldable pub rx_busy_in : RxState → Bool
rx_busy_in RxState.disabled = false
rx_busy_in RxState.idle = false
rx_busy_in _ = true

unfoldable pub mbus_phy_rx_is_busy : MbusPhy → Bool
unfolding rx_busy_in
mbus_phy_rx_is_busy phy = rx_busy_in phy.rx.state

rx_enabled_in : RxState → Bool
rx_enabled_in RxState.disabled = false
rx_enabled_in _ = true

pub mbus_phy_rx_is_enabled : MbusPhy → Bool
unfolding rx_enabled_in
mbus_phy_rx_is_enabled phy = rx_enabled_in phy.rx.state

unfoldable pub mbus_phy_rx_is_empty : MbusPhy → Bool
mbus_phy_rx_is_empty phy = Rx.is_empty phy.rx

unfoldable pub mbus_phy_rx_pop : MbusPhy → Option (ℕ × MbusPhy)
mbus_phy_rx_pop phy = Rx.pop phy.rx >>= λ (nib, rx). some (nib, record phy { rx = rx })

unfoldable pub mbus_phy_tx_enable : MbusPhy → MbusPhy
mbus_phy_tx_enable phy = record phy { tx = record phy.tx { state = TxState.enable } }

unfoldable pub mbus_phy_tx_disable : MbusPhy → MbusPhy
mbus_phy_tx_disable phy = record phy { tx = record phy.tx { state = TxState.disabled } }

unfoldable pub mbus_phy_tx_is_busy : MbusPhy → Bool
mbus_phy_tx_is_busy phy = Tx.is_busy phy.tx

tx_enabled_in : TxState → Bool
tx_enabled_in TxState.disabled = false
tx_enabled_in _ = true

pub mbus_phy_tx_is_enabled : MbusPhy → Bool
unfolding tx_enabled_in
mbus_phy_tx_is_enabled phy = tx_enabled_in phy.tx.state

pub mbus_phy_tx_is_empty : MbusPhy → Bool
mbus_phy_tx_is_empty phy = Tx.is_empty phy.tx

pub mbus_phy_tx_is_full : MbusPhy → Bool
mbus_phy_tx_is_full phy = Tx.is_full phy.tx

unfoldable pub mbus_phy_tx_push : MbusPhy → ℕ → MbusPhy
mbus_phy_tx_push phy nibble = record phy { tx = Tx.push phy.tx nibble }
