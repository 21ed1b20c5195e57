-- ===== src/Phy/Rx/Nibbles.antt =====
-- A nibble on the wire: four pulses, most significant first.
use diy_acura_bluetooth.Prelude.{
  ℕ, ◌+◌, ◌*◌, ◌%◌, ◌≤◌, ◌<◌, ◌≡◌, refl, ◌∙◌, ap, true, List, ◌++◌, arith,
}
use diy_acura_bluetooth.Fifo
use diy_acura_bluetooth.Fifo.{Fifo}
use diy_acura_bluetooth.Phy.State.{RxState}
use diy_acura_bluetooth.Phy.Rx.{Rx}
use diy_acura_bluetooth.Phy.Rx.Decode.{
  Poll, run, run-append, Pulse, polls, IsInTime, bit, is_ready, run-polls,
}

-- The four bits of a nibble on the wire, most significant first.
pub record NibbleWave : Type 0 where
  pub bit3 : Pulse
  pub bit2 : Pulse
  pub bit1 : Pulse
  pub bit0 : Pulse

abbrev pub nibble_polls : NibbleWave → List Poll
nibble_polls w = polls w.bit3 ++ (polls w.bit2 ++ (polls w.bit1 ++ polls w.bit0))

abbrev pub value : NibbleWave → ℕ
value w = 8 * bit w.bit3 + 4 * bit w.bit2 + 2 * bit w.bit1 + bit w.bit0

pub record NibbleInTime (w : NibbleWave) : Type 0 where
  pub in_time3 : IsInTime w.bit3
  pub in_time2 : IsInTime w.bit2
  pub in_time1 : IsInTime w.bit1
  pub in_time0 : IsInTime w.bit0

pub bit-le : (p : Pulse) → bit p ≤ 1
bit-le p = ground arith

abbrev pub after_nibble : Rx → NibbleWave → Rx
after_nibble rx w = record rx {
  state = RxState.nibble_ended;
  bit_shifter = 8;
  micro_sec_time_stamp = w.bit0.rise;
  byte_fifo = Fifo.push rx.byte_fifo (value w);
}

-- The receiver after a bit that does not fill the nibble.
abbrev pub after_early_bit : Rx → Pulse → Rx
after_early_bit rx p = record rx {
  state = RxState.awaiting_fall;
  bit_shifter = rx.bit_shifter * 2 + bit p;
  micro_sec_time_stamp = p.rise;
}

pub run-early_bit :
    (rx : Rx) (p : Pulse) (qs : List Poll)
    → is_ready rx.state ≡ true
    → rx.bit_shifter < 64
    → IsInTime p
    → run rx (polls p ++ qs) ≡ run (after_early_bit rx p) qs
run-early_bit rx p qs s h t =
    run-append (polls p) qs rx
    ∙ ap (λ r. run r qs) (run-polls rx p s (omega arith) t ∙ ground arith)

run-last_bit :
    (rx : Rx) (p : Pulse)
    → is_ready rx.state ≡ true
    → 64 ≤ rx.bit_shifter
    → rx.bit_shifter < 128
    → IsInTime p
    → run rx (polls p) ≡ record rx {
      state = RxState.nibble_ended;
      bit_shifter = 8;
      micro_sec_time_stamp = p.rise;
      byte_fifo = Fifo.push rx.byte_fifo ((rx.bit_shifter * 2 + bit p) % 16);
    }
run-last_bit rx p s l h t = run-polls rx p s h t ∙ ground arith

-- Four pulses after a start value in the shifter queue the nibble that their low times spell.
pub run-nibble_polls :
    (rx : Rx) (w : NibbleWave)
    → is_ready rx.state ≡ true
    → rx.bit_shifter ≡ 8
    → NibbleInTime w
    → run rx (nibble_polls w) ≡ after_nibble rx w
run-nibble_polls rx w s h t =
    let r1 = after_early_bit rx w.bit3 in
    let r2 = after_early_bit r1 w.bit2 in
    let r3 = after_early_bit r2 w.bit1 in
    let l3 = bit-le w.bit3 in
    let l2 = bit-le w.bit2 in
    let l1 = bit-le w.bit1 in
    let l0 = bit-le w.bit0 in
    let sum : (r3.bit_shifter * 2 + bit w.bit0) % 16 ≡ value w = omega (arith, h, l3, l2, l1, l0) in
    run-early_bit rx w.bit3 (polls w.bit2 ++ (polls w.bit1 ++ polls w.bit0)) s (omega arith)
      t.in_time3
    ∙ run-early_bit r1 w.bit2 (polls w.bit1 ++ polls w.bit0) refl (omega arith) t.in_time2
    ∙ run-early_bit r2 w.bit1 (polls w.bit0) refl (omega arith) t.in_time1
    ∙ run-last_bit r3 w.bit0 refl (omega arith) (omega arith) t.in_time0
    ∙ ap (λ v. record (after_nibble rx w) { byte_fifo = Fifo.push rx.byte_fifo v }) sum
