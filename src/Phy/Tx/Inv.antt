-- ===== src/Phy/Tx/Inv.antt =====
-- What the transmitter keeps, and that it drives the bus only while it sends a bit.
use diy_acura_bluetooth.Prelude.{
  ℕ, ◌+◌, ◌*◌, ◌%◌, ◌^◌, ◌<◌, ◌≡◌, inl, inr, refl, Bool, true, false, ◌∷◌, some, arith, bit_or,
  ◌==◌, ==→eq, if◌then◌else◌, Bool-cases, Returns,
}
use diy_acura_bluetooth.Prelude.Bits.{bit_and_fifteen}
use diy_acura_bluetooth.Prelude.Words.{u8, all_below, all_below_sound}
use diy_acura_bluetooth.Fifo
use diy_acura_bluetooth.Fifo.{Fifo}
use diy_acura_bluetooth.Phy.State.{TxState, mbus_end_msg_code}
use diy_acura_bluetooth.Phy.Tx.{Tx, load, dispatch, update, busy_in, is_busy}

-- The bus is driven low in the two states that send a bit, and in no other that could leave it so.
abbrev pub drives : TxState → Bool
drives TxState.sending_one = true
drives TxState.sending_zero = true
drives _ = false

pub record IsValid (tx : Tx) (drive_lo : Bool) : Type 0 where
  pub fifo : Fifo.Inv.IsValid tx.byte_fifo
  pub shifter : tx.bit_shifter < 256
  pub driven : drive_lo ≡ drives tx.state

or_table : all_below 16 (λ n. bit_or 1 (u8 (n * 2 ^ 4)) == n * 16 + 1) ≡ true
unfolding all_below
or_table = refl

-- A nibble is loaded above a one, which marks how many bits are left.
pub load_lem :
    (tx : Tx) (n : ℕ)
    → load tx n ≡ (
        if n == mbus_end_msg_code
        then record tx { state = TxState.msg2msg_gap }
        else record tx { bit_shifter = n % 16 * 16 + 1; state = TxState.sending })
unfolding load
load_lem tx n = rw (bit_and_fifteen n, marked) refl
  where
    marked : bit_or 1 (u8 (n % 16 * 2 ^ 4)) ≡ n % 16 * 16 + 1
    marked = ==→eq _ _ (
        all_below_sound 16 (λ n. bit_or 1 (u8 (n * 2 ^ 4)) == n * 16 + 1) (n % 16) or_table
          (omega arith))

-- The transmitter with something to send takes it from its queue.
pub dispatch_next :
    (tx : Tx) (us : ℕ) (drive_lo : Bool)
    → Fifo.Inv.IsValid tx.byte_fifo
    → Fifo.is_empty tx.byte_fifo ≡ false
    → (n : ℕ) × (f : Fifo ℕ) × (Fifo.pop tx.byte_fifo ≡ some (n, f))
      × (dispatch TxState.idle tx us drive_lo ≡ some (load (record tx { byte_fifo = f }) n, false))
      × (Fifo.Refine.contents tx.byte_fifo ≡ n ∷ Fifo.Refine.contents f)
unfolding dispatch
dispatch_next tx us drive_lo v ne =
    let (n, f, e, c) = Fifo.Refine.pop_total tx.byte_fifo v ne in (n, f, e, rw (ne, e), c)

load-IsValid :
    (tx : Tx) (n : ℕ)
    → Fifo.Inv.IsValid tx.byte_fifo
    → tx.bit_shifter < 256
    → IsValid (load tx n) false
load-IsValid tx n v s = ground (arith, load_lem tx n)

dispatch-idle_IsValid :
    (tx : Tx) (us : ℕ) (drive_lo : Bool)
    → tx.state ≡ TxState.idle
    → IsValid tx drive_lo
    → Returns (λ r. IsValid r.0 r.1) (dispatch TxState.idle tx us drive_lo)
unfolding dispatch
dispatch-idle_IsValid tx us drive_lo e v = elim (Bool-cases (Fifo.is_empty tx.byte_fifo)) [
  | inl none_left ↦ rw none_left (ground arith)
  | inr some_left ↦
      let (n, f, p, d, c) = dispatch_next tx us drive_lo v.fifo some_left in
      rw d (load-IsValid (record tx { byte_fifo = f }) n (Fifo.Inv.pop-IsValid v.fifo p) v.shifter)
]

dispatch-IsValid :
    (st : TxState) (tx : Tx) (us : ℕ) (drive_lo : Bool)
    → tx.state ≡ st
    → IsValid tx drive_lo
    → Returns (λ r. IsValid r.0 r.1) (dispatch st tx us drive_lo)
unfolding dispatch
dispatch-IsValid TxState.idle tx us drive_lo e v = dispatch-idle_IsValid tx us drive_lo e v
dispatch-IsValid _ tx us drive_lo e v = ground arith

-- `_mbus_phy_tx_update` never fails the assertion of `fifo_pop`, and keeps the invariant: the queue
-- is valid, the shifter is a byte, and the bus is driven low exactly in the states that send a bit.
pub update_total :
    (tx : Tx) (us : ℕ) (drive_lo : Bool)
    → IsValid tx drive_lo
    → Returns (λ r. IsValid r.0 r.1) (update tx us drive_lo)
unfolding update
update_total tx us drive_lo v = dispatch-IsValid tx.state tx us drive_lo refl v

abbrev pub is_off : TxState → Bool
is_off TxState.disabled = true
is_off _ = false

load-on : (tx : Tx) (n : ℕ) → is_off (load tx n).state ≡ false
load-on tx n = ground (arith, load_lem tx n)

dispatch-is_off :
    (st : TxState) (tx : Tx) (us : ℕ) (drive_lo : Bool)
    → tx.state ≡ st
    → Fifo.Inv.IsValid tx.byte_fifo
    → Returns (λ r. is_off r.0.state ≡ is_off st) (dispatch st tx us drive_lo)
unfolding dispatch
dispatch-is_off TxState.idle tx us drive_lo e v = elim (Bool-cases (Fifo.is_empty tx.byte_fifo)) [
  | inl none_left ↦ rw none_left (ground arith)
  | inr some_left ↦
      let (n, f, p, d, c) = dispatch_next tx us drive_lo v some_left in
      rw d (load-on (record tx { byte_fifo = f }) n)
]
dispatch-is_off _ tx us drive_lo e v = ground arith

-- Polling neither enables nor disables the transmitter.
pub update-is_off :
    (tx : Tx) (us : ℕ) (drive_lo : Bool)
    → Fifo.Inv.IsValid tx.byte_fifo
    → Returns (λ r. is_off r.0.state ≡ is_off tx.state) (update tx us drive_lo)
unfolding update
update-is_off tx us drive_lo v = dispatch-is_off tx.state tx us drive_lo refl v

pub off-quiet : (st : TxState) → is_off st ≡ true → drives st ≡ false
off-quiet TxState.disabled e = refl
off-quiet TxState.idle e = refl
off-quiet _ e = cc

busy_in-quiet : (st : TxState) (tx : Tx) → busy_in st tx ≡ false → drives st ≡ false
unfolding busy_in
busy_in-quiet TxState.disabled tx e = refl
busy_in-quiet TxState.idle tx e = refl
busy_in-quiet _ tx e = cc

-- A transmitter that is not busy does not drive the bus.
pub is_busy-quiet : (tx : Tx) → is_busy tx ≡ false → drives tx.state ≡ false
unfolding is_busy
is_busy-quiet tx e = busy_in-quiet tx.state tx e
