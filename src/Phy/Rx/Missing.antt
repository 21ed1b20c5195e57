-- ===== src/Phy/Rx/Missing.antt =====
-- A nibble that breaks off: a bit that does not come.
use mathlib.Core.List.{append_assoc}
use diy_acura_bluetooth.Prelude.{
  ℕ, ◌+◌, ◌*◌, ◌%◌, ◌≤◌, ◌<◌, ◌≡◌, refl, ◌∙◌, ap, true, List, [], ◌∷◌, ◌++◌, arith, length, All,
}
use diy_acura_bluetooth.Prelude.Words.{elapsed}
use diy_acura_bluetooth.Prelude.Bits.{bit_and_fifteen}
use diy_acura_bluetooth.Fifo
use diy_acura_bluetooth.Fifo.Many.{push_all, contents-push_all}
use diy_acura_bluetooth.Phy.State.{
  RxState, mbus_end_msg_code, mbus_timeout_code, interbit_timeout_time,
}
use diy_acura_bluetooth.Phy.Rx.{Rx, update}
use diy_acura_bluetooth.Phy.Rx.Decode.{
  Poll, held, run, run-append, is_ready, Pulse, polls, IsInTime, bit,
}
use diy_acura_bluetooth.Phy.Rx.Nibbles.{
  NibbleWave, NibbleInTime, nibble_polls, after_nibble, run-nibble_polls, after_early_bit,
  run-early_bit, bit-le,
}
use diy_acura_bluetooth.Phy.Rx.Frame.{values, gave_up}

update-late :
    (rx : Rx) (us : ℕ)
    → rx.state ≡ RxState.awaiting_fall
    → interbit_timeout_time < elapsed us rx.micro_sec_time_stamp
    → update rx us true ≡ gave_up rx RxState.idle mbus_timeout_code
unfolding update push_all
update-late rx us s h = ground (arith, bit_and_fifteen rx.bit_shifter)

pub update-rest : (rx : Rx) (us : ℕ) → rx.state ≡ RxState.idle → update rx us true ≡ rx
unfolding update
update-rest rx us s = ground arith

run-rest : (times : List ℕ) (rx : Rx) → rx.state ≡ RxState.idle → run rx (held true times) ≡ rx
unfolding run
run-rest [] rx s = refl
run-rest (us ∷ times) rx s =
    ap (λ r. run r (held true times)) (update-rest rx us s) ∙ run-rest times rx s

-- A nibble of which one, two or three bits come.
pub data BrokenWave : Type 0 where
  one : Pulse → BrokenWave
  two : Pulse → Pulse → BrokenWave
  three : Pulse → Pulse → Pulse → BrokenWave

abbrev pub broken_polls : BrokenWave → List Poll
broken_polls (one p) = polls p
broken_polls (two p q) = polls p ++ polls q
broken_polls (three p q r) = polls p ++ (polls q ++ polls r)

-- The number that the bits spell, without the ones that are missing.
abbrev pub spelled : BrokenWave → ℕ
spelled (one p) = bit p
spelled (two p q) = 2 * bit p + bit q
spelled (three p q r) = 4 * bit p + 2 * bit q + bit r

abbrev pub broke_off : BrokenWave → ℕ
broke_off (one p) = p.rise
broke_off (two p q) = q.rise
broke_off (three p q r) = r.rise

abbrev pub BrokenInTime : BrokenWave → Type 0
BrokenInTime (one p) = IsInTime p
BrokenInTime (two p q) = IsInTime p × IsInTime q
BrokenInTime (three p q r) = IsInTime p × IsInTime q × IsInTime r

-- The bits are held behind the start value, with nothing queued yet.
run-broken :
    (w : BrokenWave) (rx : Rx) (qs : List Poll)
    → is_ready rx.state ≡ true
    → rx.bit_shifter ≡ 8
    → BrokenInTime w
    → (rx' : Rx) × (run rx (broken_polls w ++ qs) ≡ run rx' qs)
      × (rx'.state ≡ RxState.awaiting_fall)
      × (rx'.byte_fifo ≡ rx.byte_fifo)
      × (rx'.micro_sec_time_stamp ≡ broke_off w)
      × (rx'.bit_shifter % 16 ≡ spelled w)
run-broken (one p) rx qs s h t =
    let l = bit-le p in
    (
      after_early_bit rx p,
      run-early_bit rx p qs s (omega arith) t,
      refl,
      refl,
      refl,
      omega (arith, h, l),
    )
run-broken (two p q) rx qs s h t =
    let r1 = after_early_bit rx p in
    let lp = bit-le p in
    let lq = bit-le q in
    (
      after_early_bit r1 q,
      ap (run rx) (append_assoc (polls p) (polls q) qs)
          ∙ run-early_bit rx p (polls q ++ qs) s (omega arith) t.0
          ∙ run-early_bit r1 q qs refl (omega arith) t.1,
      refl,
      refl,
      refl,
      omega (arith, h, lp, lq),
    )
run-broken (three p q r) rx qs s h t =
    let r1 = after_early_bit rx p in
    let r2 = after_early_bit r1 q in
    let lp = bit-le p in
    let lq = bit-le q in
    let lr = bit-le r in
    (
      after_early_bit r2 r,
      ap (run rx) (
            append_assoc (polls p) (polls q ++ polls r) qs
            ∙ ap (λ l. polls p ++ l) (append_assoc (polls q) (polls r) qs))
          ∙ run-early_bit rx p (polls q ++ (polls r ++ qs)) s (omega arith) t.0
          ∙ run-early_bit r1 q (polls r ++ qs) refl (omega arith) t.1
          ∙ run-early_bit r2 r qs refl (omega arith) t.2,
      refl,
      refl,
      refl,
      omega (arith, h, lp, lq, lr),
    )

-- Whole nibbles, then one that breaks off.
abbrev pub broken_frame : List NibbleWave → BrokenWave → List Poll
broken_frame [] b = broken_polls b
broken_frame (w ∷ ws) b = nibble_polls w ++ broken_frame ws b

-- The receiver that gave a broken message up.
abbrev GaveUp : Rx → List ℕ → Rx → Type 0
GaveUp rx codes rx' =
    (rx'.byte_fifo ≡ push_all rx.byte_fifo codes)
    × (rx'.state ≡ RxState.idle)
    × (rx'.bit_shifter ≡ 8)

run-broken_frame :
    (ws : List NibbleWave) (b : BrokenWave) (late : ℕ) (times : List ℕ) (rx : Rx)
    → is_ready rx.state ≡ true
    → rx.bit_shifter ≡ 8
    → All NibbleInTime ws
    → BrokenInTime b
    → interbit_timeout_time < elapsed late (broke_off b)
    → GaveUp rx
        (values ws ++ (spelled b ∷ mbus_timeout_code ∷ mbus_end_msg_code ∷ []))
        (run rx (broken_frame ws b ++ (late, true) ∷ held true times))
unfolding run push_all
run-broken_frame [] b late times rx s h ts t over =
    let (r, heard, st, queue, stamp, bits) =
      run-broken b rx ((late, true) ∷ held true times) s h t in
    let gave = gave_up r RxState.idle mbus_timeout_code in
    let quiet = update-late r late st (omega (arith, over, ap (elapsed late) stamp)) in
    let rest = ap (λ x. run x (held true times)) quiet ∙ run-rest times gave refl in
    rw (heard, rest, queue, bits) (refl, refl, refl)
run-broken_frame (w ∷ ws) b late times rx s h ts t over =
    let qs = (late, true) ∷ held true times in
    rw
      (
        append_assoc (nibble_polls w) (broken_frame ws b) qs,
        run-append (nibble_polls w) (broken_frame ws b ++ qs) rx,
        run-nibble_polls rx w s h ts.0,
      )
      (run-broken_frame ws b late times (after_nibble rx w) refl refl ts.1 t over)

-- A message that breaks off within a nibble is ended: from rest, the receiver queues the nibbles that
-- came whole, then the number that the one to three bits of the broken one spell, the time-out code
-- and the end code, once the line has been high for longer than the time between two bits, and it is
-- at rest again, also at later high polls. The bits that come may be polled at any times that stay
-- below the time-outs, and the queue must have room.
pub bit_missing :
    (ws : List NibbleWave) (b : BrokenWave) (late : ℕ) (times : List ℕ) (rx : Rx)
    → Fifo.Inv.IsValid rx.byte_fifo
    → is_ready rx.state ≡ true
    → rx.bit_shifter ≡ 8
    → All NibbleInTime ws
    → BrokenInTime b
    → interbit_timeout_time < elapsed late (broke_off b)
    → let codes = values ws ++ (spelled b ∷ mbus_timeout_code ∷ mbus_end_msg_code ∷ []) in
      length (Fifo.Refine.contents rx.byte_fifo) + length codes ≤ rx.byte_fifo.capacity
      → let rx' = run rx (broken_frame ws b ++ (late, true) ∷ held true times) in
        (Fifo.Refine.contents rx'.byte_fifo ≡ Fifo.Refine.contents rx.byte_fifo ++ codes)
        × (rx'.state ≡ RxState.idle)
        × (rx'.bit_shifter ≡ 8)
bit_missing ws b late times rx v s h ts t over room =
    let (queue, at_rest, start) = run-broken_frame ws b late times rx s h ts t over in
    (ap Fifo.Refine.contents queue ∙ contents-push_all _ v room, at_rest, start)
