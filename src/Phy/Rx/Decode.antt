-- ===== src/Phy/Rx/Decode.antt =====
-- What the receiver makes of a waveform. A poll of `_mbus_phy_rx_update` is a time and the level of
-- the pin; a waveform is the list of the polls, so it holds for every rate at which the main loop
-- comes round.
use diy_acura_bluetooth.Prelude.{
  ℕ, ◌+◌, ◌*◌, ◌%◌, ◌≤◌, ◌<◌, ◌≡◌, refl, sym, ◌∙◌, ap, Bool, true, false, List, [], ◌∷◌, ◌++◌,
  arith, leb, if◌then◌else◌, All,
}
use mathlib.Core.Path.{subst}
use diy_acura_bluetooth.Prelude.Words.{elapsed}
use diy_acura_bluetooth.Fifo
use diy_acura_bluetooth.Fifo.{Fifo}
use diy_acura_bluetooth.Phy.State.{RxState, bit_low_too_long_time, interbit_timeout_time}
use diy_acura_bluetooth.Phy.Rx.{Rx, edges, timeouts, update}
use diy_acura_bluetooth.Phy.Rx.Inv.{bit_of, rise_lem}

abbrev pub Poll : Type 0
Poll = ℕ × Bool

-- The receiver after a list of polls.
unfoldable pub run : Rx → List Poll → Rx
run rx [] = rx
run rx ((us, pin_hi) ∷ polls) = run (update rx us pin_hi) polls

abbrev pub held : Bool → List ℕ → List Poll
held pin_hi [] = []
held pin_hi (us ∷ times) = (us, pin_hi) ∷ held pin_hi times

pub run-append : (ps qs : List Poll) (rx : Rx) → run rx (ps ++ qs) ≡ run (run rx ps) qs
unfolding run
run-append [] qs rx = refl
run-append ((us, pin_hi) ∷ ps) qs rx = run-append ps qs (update rx us pin_hi)

-- One bit on the wire: the poll that first sees the pin low, the polls while it stays low, the poll
-- that first sees it high again, and the polls while it stays high.
pub record Pulse : Type 0 where
  pub fall : ℕ
  pub low : List ℕ
  pub rise : ℕ
  pub high : List ℕ

abbrev pub polls : Pulse → List Poll
polls p = (p.fall, false) ∷ held false p.low ++ (p.rise, true) ∷ held true p.high

-- No poll of the pulse is late enough for a time-out. The low time itself, from the fall to the
-- rise, is free: it is what the bit is read from.
pub record IsInTime (p : Pulse) : Type 0 where
  pub low_in_time : All (λ us. elapsed us p.fall ≤ bit_low_too_long_time) p.low
  pub high_in_time : All (λ us. elapsed us p.rise ≤ interbit_timeout_time) p.high

abbrev pub bit : Pulse → ℕ
bit p = bit_of (elapsed p.rise p.fall)

-- The states in which the receiver takes a falling edge for the start of a bit.
abbrev pub is_ready : RxState → Bool
is_ready RxState.idle = true
is_ready RxState.awaiting_fall = true
is_ready RxState.nibble_ended = true
is_ready _ = false

abbrev is_between : RxState → Bool
is_between RxState.awaiting_fall = true
is_between RxState.nibble_ended = true
is_between _ = false

elapsed_self : (us : ℕ) → elapsed us us ≡ 0
elapsed_self us = omega arith

update-fall :
    (rx : Rx) (us : ℕ)
    → is_ready rx.state ≡ true
    → update rx us false ≡ record rx { state = RxState.awaiting_rise; micro_sec_time_stamp = us }
unfolding update
update-fall rx us h = ground (arith, elapsed_self us)

timeouts_fresh :
    (st : RxState) (rx : Rx) (us : ℕ) → rx.micro_sec_time_stamp ≡ us → timeouts st rx us ≡ rx
unfolding timeouts
timeouts_fresh RxState.disabled rx us e = refl
timeouts_fresh _ rx us e = ground (arith, elapsed_self us)

update-low :
    (rx : Rx) (us : ℕ)
    → rx.state ≡ RxState.awaiting_rise
    → elapsed us rx.micro_sec_time_stamp ≤ bit_low_too_long_time
    → update rx us false ≡ rx
unfolding update
update-low rx us s h = ground arith

pub update-high :
    (rx : Rx) (us : ℕ)
    → is_between rx.state ≡ true
    → elapsed us rx.micro_sec_time_stamp ≤ interbit_timeout_time
    → update rx us true ≡ rx
unfolding update
update-high rx us s h = ground arith

run-low :
    (times : List ℕ) (rx : Rx)
    → rx.state ≡ RxState.awaiting_rise
    → All (λ us. elapsed us rx.micro_sec_time_stamp ≤ bit_low_too_long_time) times
    → run rx (held false times) ≡ rx
unfolding run
run-low [] rx s h = refl
run-low (us ∷ times) rx s h =
    ap (λ r. run r (held false times)) (update-low rx us s h.0) ∙ run-low times rx s h.1

pub run-high :
    (times : List ℕ) (rx : Rx)
    → is_between rx.state ≡ true
    → All (λ us. elapsed us rx.micro_sec_time_stamp ≤ interbit_timeout_time) times
    → run rx (held true times) ≡ rx
unfolding run
run-high [] rx s h = refl
run-high (us ∷ times) rx s h =
    ap (λ r. run r (held true times)) (update-high rx us s h.0) ∙ run-high times rx s h.1

-- The receiver after the rising edge of a bit.
abbrev pub after_bit : Rx → ℕ → ℕ → Rx
after_bit rx bit us =
    let s = rx.bit_shifter * 2 + bit in
    if leb 64 rx.bit_shifter
    then record rx {
      state = RxState.nibble_ended;
      bit_shifter = 8;
      micro_sec_time_stamp = us;
      byte_fifo = Fifo.push rx.byte_fifo (s % 16);
    }
    else record rx { state = RxState.awaiting_fall; bit_shifter = s; micro_sec_time_stamp = us }

edges-rise :
    (rx : Rx) (us : ℕ)
    → rx.state ≡ RxState.awaiting_rise
    → rx.bit_shifter < 128
    → edges rx.state rx us true ≡ after_bit rx (bit_of (elapsed us rx.micro_sec_time_stamp)) us
unfolding edges
edges-rise rx us s h = ap (λ st. edges st rx us true) s ∙ rise_lem rx us h

after_bit_stamp : (rx : Rx) (bit us : ℕ) → (after_bit rx bit us).micro_sec_time_stamp ≡ us
after_bit_stamp rx bit us = ground arith

update-rise :
    (rx : Rx) (us : ℕ)
    → rx.state ≡ RxState.awaiting_rise
    → rx.bit_shifter < 128
    → update rx us true ≡ after_bit rx (bit_of (elapsed us rx.micro_sec_time_stamp)) us
unfolding update
update-rise rx us s h =
    let b = bit_of (elapsed us rx.micro_sec_time_stamp) in
    ap (λ r. timeouts r.state r us) (edges-rise rx us s h)
    ∙ timeouts_fresh (after_bit rx b us).state (after_bit rx b us) us (after_bit_stamp rx b us)

-- A pulse that comes in time adds its bit to the shifter; the fourth bit queues the nibble.
pub run-polls :
    (rx : Rx) (p : Pulse)
    → is_ready rx.state ≡ true
    → rx.bit_shifter < 128
    → IsInTime p
    → run rx (polls p) ≡ after_bit rx (bit p) p.rise
unfolding run
run-polls rx p s h t =
    let falling = record rx { state = RxState.awaiting_rise; micro_sec_time_stamp = p.fall } in
    let risen = after_bit rx (bit p) p.rise in
    let rest = (p.rise, true) ∷ held true p.high in
    ap (λ r. run r (held false p.low ++ rest)) (update-fall rx p.fall s)
    ∙ run-append (held false p.low) rest falling
    ∙ ap (λ r. run r rest) (run-low p.low falling refl t.low_in_time)
    ∙ ap (λ r. run r (held true p.high)) (update-rise falling p.rise refl h)
    ∙ run-high p.high risen (ground arith) (
        subst (λ us. All (λ t. elapsed t us ≤ interbit_timeout_time) p.high)
          (sym (after_bit_stamp rx (bit p) p.rise)) t.high_in_time)
