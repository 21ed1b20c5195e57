-- ===== src/Phy/Rx/Inv.antt =====
-- What the receiver keeps: its bit shifter stays between its start value and a full nibble, and it
-- only ever queues nibbles and the three special codes.
use diy_acura_bluetooth.Prelude.{
  ℕ, ◌+◌, ◌*◌, ◌%◌, ◌≤◌, ◌<◌, ◌≡◌, refl, Bool, true, false, [], ◌∷◌, arith, bit_and, length, ltb,
  leb, if◌then◌else◌, Bool-cases, inl, inr, All, All-append,
}
use diy_acura_bluetooth.Prelude.Words.{elapsed, has_bit, all_below, all_below_sound}
use diy_acura_bluetooth.Prelude.Bits.{bit_or_one, bit_and_fifteen}
use diy_acura_bluetooth.Queue
use diy_acura_bluetooth.Fifo
use diy_acura_bluetooth.Fifo.{Fifo}
use diy_acura_bluetooth.Phy.State.{RxState, mbus_end_msg_code, bit_oneval_thresh_time}
use diy_acura_bluetooth.Phy.Rx.{Rx, rise, fall, push, edges, timeouts, update}

abbrev xnor : Bool → Bool → Bool
xnor true b = b
xnor false true = false
xnor false false = true

done_table : all_below 256 (λ s. xnor (has_bit s 0x80) (leb 128 s)) ≡ true
unfolding all_below
done_table = refl

xnor→eq : (a b : Bool) → xnor a b ≡ true → a ≡ b
xnor→eq a b h = ground arith

has_bit_done : (s : ℕ) → s < 256 → has_bit s 0x80 ≡ leb 128 s
has_bit_done s h =
    xnor→eq _ _ (all_below_sound 256 (λ s. xnor (has_bit s 0x80) (leb 128 s)) s done_table h)

-- The bit that a low time of `us` microseconds stands for.
abbrev pub bit_of : ℕ → ℕ
bit_of us = if ltb bit_oneval_thresh_time us then 1 else 0

-- A rising edge doubles the shifter and adds the bit. The shifter starts at 8, so its top bit comes
-- up with the fourth bit, and what is queued is the low nibble.
pub rise_lem :
    (rx : Rx) (us : ℕ)
    → rx.bit_shifter < 128
    → let s = rx.bit_shifter * 2 + bit_of (elapsed us rx.micro_sec_time_stamp) in
      rise rx us ≡ (
        if leb 64 rx.bit_shifter
        then record rx {
          state = RxState.nibble_ended;
          bit_shifter = 8;
          micro_sec_time_stamp = us;
          byte_fifo = Fifo.push rx.byte_fifo (s % 16);
        }
        else record rx {
          state = RxState.awaiting_fall;
          bit_shifter = s;
          micro_sec_time_stamp = us;
        })
unfolding rise push
rise_lem rx us h = ground (
  arith,
  bit_or_one rx.bit_shifter h,
  has_bit_done (rx.bit_shifter * 2),
  has_bit_done (rx.bit_shifter * 2 + 1),
  bit_and_fifteen (rx.bit_shifter * 2),
  bit_and_fifteen (rx.bit_shifter * 2 + 1),
)

-- A valid queue of nibbles and special codes.
pub record HoldsCodes (f : Fifo ℕ) : Type 0 where
  pub valid : Fifo.Inv.IsValid f
  pub codes : All (λ c. c ≤ mbus_end_msg_code) (Fifo.Refine.contents f)

pub push-HoldsCodes :
    {f : Fifo ℕ} (c : ℕ) → c ≤ mbus_end_msg_code → HoldsCodes f → HoldsCodes (Fifo.push f c)
unfolding Queue.push
push-HoldsCodes {f} c h v = record {
  valid = Fifo.Inv.push-IsValid c v.valid;
  codes =
      rw (Fifo.Refine.push_refines c v.valid)
        (elim (Bool-cases (leb f.capacity (length (Fifo.Refine.contents f)))) [
          | inl full ↦ rw full v.codes
          | inr room ↦ rw room (All-append _ _ (c ∷ []) v.codes (h, tt))
        ]);
}

pub record IsValid (rx : Rx) : Type 0 where
  pub fifo : HoldsCodes rx.byte_fifo
  pub shifter_low : 8 ≤ rx.bit_shifter
  pub shifter_high : rx.bit_shifter < 128

rise-IsValid : {rx : Rx} (us : ℕ) → IsValid rx → IsValid (rise rx us)
rise-IsValid {rx} us v =
    let s = rx.bit_shifter * 2 + bit_of (elapsed us rx.micro_sec_time_stamp) in
    ground (arith, rise_lem rx us, push-HoldsCodes {f = rx.byte_fifo} (s % 16) (omega arith))

edges-IsValid :
    (st : RxState) {rx : Rx} (us : ℕ) (pin_hi : Bool) → IsValid rx → IsValid (edges st rx us pin_hi)
unfolding edges fall
edges-IsValid RxState.awaiting_rise us true v = rise-IsValid us v
edges-IsValid RxState.awaiting_rise us false v = v
edges-IsValid _ us pin_hi v = ground arith

pushes-HoldsCodes :
    {f : Fifo ℕ} (a b c : ℕ)
    → a ≤ mbus_end_msg_code
    → b ≤ mbus_end_msg_code
    → c ≤ mbus_end_msg_code
    → HoldsCodes f
    → HoldsCodes (Fifo.push (Fifo.push (Fifo.push f a) b) c)
pushes-HoldsCodes a b c ha hb hc v =
    push-HoldsCodes c hc (push-HoldsCodes b hb (push-HoldsCodes a ha v))

timeouts-IsValid : (st : RxState) {rx : Rx} (us : ℕ) → IsValid rx → IsValid (timeouts st rx us)
unfolding timeouts push
timeouts-IsValid RxState.awaiting_fall {rx} us v = ground (
  arith,
  pushes-HoldsCodes {f = rx.byte_fifo} (bit_and rx.bit_shifter 15) 17 18
      (omega (arith, bit_and_fifteen rx.bit_shifter)) (omega arith) (omega arith) v.fifo,
)
timeouts-IsValid RxState.awaiting_rise {rx} us v = ground (
  arith,
  pushes-HoldsCodes {f = rx.byte_fifo} (bit_and rx.bit_shifter 15) 16 18
      (omega (arith, bit_and_fifteen rx.bit_shifter)) (omega arith) (omega arith) v.fifo,
)
timeouts-IsValid RxState.nibble_ended {rx} us v =
    ground (arith, push-HoldsCodes {f = rx.byte_fifo} 18 (omega arith) v.fifo)
timeouts-IsValid _ us v = v

-- `_mbus_phy_rx_update` keeps the invariant, whatever the pin and the clock do: the shifter stays
-- from 8 to 127, and all that is queued are nibbles and the codes 16 to 18.
pub update-IsValid : {rx : Rx} (us : ℕ) (pin_hi : Bool) → IsValid rx → IsValid (update rx us pin_hi)
unfolding update
update-IsValid {rx} us pin_hi v =
    timeouts-IsValid (edges rx.state rx us pin_hi).state us (edges-IsValid rx.state us pin_hi v)
