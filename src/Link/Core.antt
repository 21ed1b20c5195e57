-- ===== src/Link/Core.antt =====
-- `MbusLinkStruct`: the queues of received and of pending messages, the nibbles of the message that
-- is coming in, and the direction. `phyTxNibbleFifo` points at the queue of the transmitter, which
-- belongs to the physical layer; it goes in and comes out of the functions that fill it. `none` is a
-- failed assertion, or a write outside `nibbles`.
pub mod Send
pub mod Pack
pub mod Receive
pub mod Direction
pub mod Keeps
use diy_acura_bluetooth.Prelude.{
  ℕ, zero, suc, ◌+◌, ◌-◌, ◌*◌, ◌/◌, ◌%◌, ◌^◌, bit_and, bit_xor, Bool, true, false, not, ◌&&◌, List,
  Option, none, some, set, ltb, ◌==◌, ◌>>=◌, if◌then◌else◌,
}
use diy_acura_bluetooth.Prelude.Words.{u8}
use diy_acura_bluetooth.Fifo
use diy_acura_bluetooth.Fifo.{Fifo}
use diy_acura_bluetooth.Phy.State.{mbus_end_msg_code}
use diy_acura_bluetooth.Link.Types.{RawNibbleList, PackedNibbles, RxMsg, TxMsg, nibble_array_size}
use diy_acura_bluetooth.Link.Parse.{parse_msg}
use diy_acura_bluetooth.Link.Build

pub record Link : Type 0 where
  pub rx_msg_fifo : Fifo RxMsg
  pub tx_msg_fifo : Fifo TxMsg
  pub nibbles : RawNibbleList
  pub rx_not_tx_mode : Bool

-- `sizeof` of the two structures, which the compiler chooses, are parameters. `nibbles` is not set:
-- it is what the memory of the structure holds.
unfoldable pub init :
    RawNibbleList → Option (List RxMsg) → ℕ → ℕ → Option (List TxMsg) → ℕ → ℕ → Option Link
init nibbles rx_msg_mem_in rx_msg_mem_in_size rx_msg_size tx_msg_mem_in tx_msg_mem_in_size
      tx_msg_size =
    Fifo.nomalloc_init "mbusLinkRx" rx_msg_mem_in rx_msg_mem_in_size rx_msg_size >>= λ rx.
    Fifo.nomalloc_init "mbusLinkTx" tx_msg_mem_in tx_msg_mem_in_size tx_msg_size >>= λ tx.
    some (record { rx_msg_fifo = rx; tx_msg_fifo = tx; nibbles = nibbles; rx_not_tx_mode = true })

unfoldable pub rx_is_empty : Link → Bool
rx_is_empty link = Fifo.is_empty link.rx_msg_fifo

unfoldable pub tx_is_empty : Link → Bool
tx_is_empty link = Fifo.is_empty link.tx_msg_fifo

pub tx_is_full : Link → Bool
tx_is_full link = Fifo.is_full link.tx_msg_fifo

unfoldable pub rx_pop : Link → Option (RxMsg × Link)
rx_pop link =
    Fifo.pop link.rx_msg_fifo >>= λ (msg, fifo). some (msg, record link { rx_msg_fifo = fifo })

-- `_mbus_link_tx_pop`
pub tx_pop : Link → Option (TxMsg × Link)
tx_pop link =
    Fifo.pop link.tx_msg_fifo >>= λ (msg, fifo). some (msg, record link { tx_msg_fifo = fifo })

unfoldable pub tx_push : Link → TxMsg → Link
tx_push link msg = record link { tx_msg_fifo = Fifo.push link.tx_msg_fifo msg }

-- `(packNibbles >> (4*(numNibbles - idx - 1))) & 0x0f`
abbrev pub nibble_at : PackedNibbles → ℕ → ℕ
nibble_at p idx = bit_and (p.pack_nibbles / 2 ^ (4 * (p.num_nibbles - idx - 1))) 0x0F

-- The loop of `_sendPendingTxMsg` from `idx` on, with the rounds that are left.
pub send_loop : ℕ → ℕ → PackedNibbles → ℕ → Fifo ℕ → ℕ × Fifo ℕ
send_loop zero idx p check_sum phy_fifo = (check_sum, phy_fifo)
send_loop (suc rounds) idx p check_sum phy_fifo =
    send_loop rounds (suc idx) p (bit_xor check_sum (nibble_at p idx))
      (Fifo.push phy_fifo (nibble_at p idx))

-- `_sendPendingTxMsg`
pub send_pending : Link → Fifo ℕ → Option (Link × Fifo ℕ)
unfolding tx_pop send_loop
send_pending link phy_fifo = tx_pop link >>= λ (msg, link1).
    let (sum, fifo1) = send_loop msg.nibbles.num_nibbles 0 msg.nibbles 0 phy_fifo in
    some (link1, Fifo.push (Fifo.push fifo1 ((sum + 1) % 16)) mbus_end_msg_code)

-- `mbus_link_update`: the link, the transmitter's queue, and whether the direction was changed.
unfoldable pub update : Link → Bool → Bool → Fifo ℕ → Option (Link × Fifo ℕ × Bool)
unfolding tx_is_empty
update link phy_rx_busy phy_tx_busy phy_fifo =
    if link.rx_not_tx_mode
    then (if not phy_rx_busy && not (tx_is_empty link)
        then some (record link { rx_not_tx_mode = false }, phy_fifo, true)
        else some (link, phy_fifo, false))
    else if not phy_tx_busy && tx_is_empty link
    then some (record link { rx_not_tx_mode = true }, phy_fifo, true)
    else if not (tx_is_empty link)
    then (send_pending link phy_fifo >>= λ (link1, fifo1). some (link1, fifo1, false))
    else some (link, phy_fifo, false)

-- `_mbus_link_rx_msg_push`. `scratch` is what the local structure holds before it is filled in.
unfoldable pub rx_msg_push : RxMsg → Link → Link
rx_msg_push scratch link =
    let msg = parse_msg link.nibbles.nibbles (link.nibbles.num_nibbles - 1) scratch in
    if not (Fifo.is_full link.rx_msg_fifo)
    then record link { rx_msg_fifo = Fifo.push link.rx_msg_fifo msg }
    else link

-- The write is inside the array only while fewer than NIBBLE_ARRAY_SIZE nibbles are held.
unfoldable pub rx_push_nibble : RxMsg → Link → ℕ → Option Link
unfolding rx_msg_push
rx_push_nibble scratch link rx_nibble =
    let raw = link.nibbles in
    if ltb raw.num_nibbles nibble_array_size
    then (let link1 = record link {
      nibbles = record {
        nibbles = set raw.nibbles raw.num_nibbles rx_nibble;
        num_nibbles = u8 (raw.num_nibbles + 1);
      };
    } in
        if rx_nibble == mbus_end_msg_code
        then (let link2 = rx_msg_push scratch link1 in
            some (record link2 { nibbles = record link2.nibbles { num_nibbles = 0 } }))
        else some link1)
    else none

abbrev pub is_direction_rx : Link → Bool
is_direction_rx link = link.rx_not_tx_mode

unfoldable pub tx_ping : Link → Link
tx_ping link = tx_push link Build.ping

unfoldable pub tx_play_state : Link → ℕ → ℕ → ℕ → Bool → Link
tx_play_state link track index seconds playing_not_stopped =
    tx_push link (Build.play_state track index seconds playing_not_stopped)

unfoldable pub tx_changing : Link → ℕ → ℕ → Link
tx_changing link disk track = tx_push link (Build.changing disk track)

unfoldable pub tx_ack_wait : Link → Link
tx_ack_wait link = tx_push link Build.ack_wait

unfoldable pub tx_disk_info : Link → ℕ → ℕ → ℕ → Link
tx_disk_info link disk tracks seconds = tx_push link (Build.disk_info disk tracks seconds)

unfoldable pub tx_cd_power_on : Link → Link
tx_cd_power_on link = tx_push link Build.cd_power_on

pub tx_unknown_status : Link → Link
tx_unknown_status link = tx_push link Build.unknown_status
