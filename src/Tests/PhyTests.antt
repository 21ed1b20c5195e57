-- ===== src/Tests/PhyTests.antt =====
-- The physical layer of common/mbus/mbus_phy.c at concrete inputs.
use diy_acura_bluetooth.Prelude.{
  ℕ, ◌≡◌, refl, ◌⊎◌, inl, true, false, [], ◌∷◌, ◌++◌, some, replicate, Returns, arith, ◌+◌, ◌%◌,
}
use diy_acura_bluetooth.Fifo
use diy_acura_bluetooth.Fifo.{Fifo}
use diy_acura_bluetooth.Fifo.Many.{push_all}
use diy_acura_bluetooth.Phy.State.{
  RxState, TxState, mbus_end_msg_code, mbus_low_too_long_code, mbus_timeout_code,
}
use diy_acura_bluetooth.Phy.Ascii
use diy_acura_bluetooth.Phy.Rx
use diy_acura_bluetooth.Phy.Rx.{Rx}
use diy_acura_bluetooth.Phy.Rx.Decode.{Pulse, run, held}
use diy_acura_bluetooth.Phy.Rx.Nibbles.{NibbleWave, NibbleInTime}
use diy_acura_bluetooth.Phy.Rx.Frame.{frame_polls, values}
use diy_acura_bluetooth.Phy.Rx.Missing.{BrokenWave, two, BrokenInTime, broken_frame}
use diy_acura_bluetooth.Phy.Tx
use diy_acura_bluetooth.Phy.Tx.{Tx}
use diy_acura_bluetooth.Phy.Tx.Bit.{BitTimes, emit}
use diy_acura_bluetooth.Phy.Tx.Nibble.{NibbleTimes, TimesOf, nibble_times, nibble_wave}

abbrev pub empty_bytes : Fifo ℕ
empty_bytes = record {
  id = "mbusPhyRx";
  buffer = 0 ∷ 0 ∷ 0 ∷ [];
  buffer_end = 3;
  capacity = 3;
  count = 0;
  element_size = 1;
  head = 0;
  tail = 0;
}

pub empty_bytes-IsValid : Fifo.Inv.IsValid empty_bytes
empty_bytes-IsValid = omega arith

abbrev pub rx_in : RxState → ℕ → Rx
rx_in state bit_shifter = record {
  state = state;
  bit_shifter = bit_shifter;
  micro_sec_time_stamp = 1000;
  byte_fifo = empty_bytes;
}

-- A bit whose low time is `low`, polled in the middle of it, and the next bit 3000 microseconds on.
abbrev pulse : ℕ → ℕ → Pulse
pulse start low = record {
  fall = start;
  low = (start + 300) ∷ [];
  rise = start + low;
  high = (start + 2500) ∷ [];
}

-- 1, 0, 0, 1, over the time at which the clock goes round.
abbrev nine : NibbleWave
nine = record {
  bit3 = pulse 5000 1900;
  bit2 = pulse 8000 700;
  bit1 = pulse 11000 700;
  bit0 = pulse 14000 1900;
}

nine-NibbleInTime : NibbleInTime nine
nine-NibbleInTime = omega arith

frame_received_example :
    let rx = rx_in RxState.idle 8 in
    let rx' = run rx (frame_polls (nine ∷ []) 20000) in
    (Fifo.Refine.contents rx'.byte_fifo
      ≡ Fifo.Refine.contents rx.byte_fifo ++ (values (nine ∷ []) ++ mbus_end_msg_code ∷ []))
    × (rx'.state ≡ RxState.idle)
    × (rx'.bit_shifter ≡ 8)
frame_received_example =
    Rx.Frame.frame_received nine [] 20000 (rx_in RxState.idle 8) empty_bytes-IsValid refl refl
      nine-NibbleInTime tt (omega arith) (omega arith)

low_too_long_example :
    let rx = rx_in RxState.awaiting_rise 17 in
    run rx ((3600, false) ∷ held false (4000 ∷ []) ++ (9000, true) ∷ []) ≡ record rx {
      state = RxState.idle;
      bit_shifter = 8;
      byte_fifo =
          push_all rx.byte_fifo
            (rx.bit_shifter % 16 ∷ mbus_low_too_long_code ∷ mbus_end_msg_code ∷ []);
    }
low_too_long_example =
    Rx.Frame.low_too_long (rx_in RxState.awaiting_rise 17) 3600 9000 (4000 ∷ []) refl (omega arith)

-- Room for six codes.
abbrev roomy : Rx
roomy = record (rx_in RxState.idle 8) {
  byte_fifo = record empty_bytes { buffer = replicate 6 0; buffer_end = 6; capacity = 6 };
}

roomy-IsValid : Fifo.Inv.IsValid roomy.byte_fifo
roomy-IsValid = omega arith

-- The bits 1 and 0.
abbrev broken : BrokenWave
broken = two (pulse 17000 1900) (pulse 20000 700)

broken-BrokenInTime : BrokenInTime broken
broken-BrokenInTime = omega arith

bit_missing_example :
    let rx' =
      run roomy (broken_frame (nine ∷ []) broken ++ (26000, true) ∷ held true (27000 ∷ [])) in
    (Fifo.Refine.contents rx'.byte_fifo
      ≡ [] ++ (values (nine ∷ []) ++ (2 ∷ mbus_timeout_code ∷ mbus_end_msg_code ∷ [])))
    × (rx'.state ≡ RxState.idle)
    × (rx'.bit_shifter ≡ 8)
bit_missing_example =
    Rx.Missing.bit_missing (nine ∷ []) broken 26000 (27000 ∷ []) roomy roomy-IsValid refl refl
      (nine-NibbleInTime, tt) broken-BrokenInTime (omega arith) (omega arith)

rx_in-IsValid : Rx.Inv.IsValid (rx_in RxState.awaiting_rise 65)
rx_in-IsValid = record {
  fifo = record { valid = empty_bytes-IsValid; codes = tt };
  shifter_low = omega arith;
  shifter_high = omega arith;
}

update-IsValid_example : Rx.Inv.IsValid (Rx.update (rx_in RxState.awaiting_rise 65) 3000 true)
update-IsValid_example = Rx.Inv.update-IsValid 3000 true rx_in-IsValid

-- One nibble, 9, in the queue of an idle transmitter.
abbrev loaded_tx : Tx
loaded_tx = record {
  state = TxState.idle;
  bit_shifter = 1;
  micro_sec_time_stamp = 0;
  byte_fifo = record empty_bytes { buffer = 9 ∷ 0 ∷ 0 ∷ []; count = 1; head = 1 };
}

loaded-IsValid : Fifo.Inv.IsValid loaded_tx.byte_fifo
loaded-IsValid = omega arith

abbrev pub bit_times : ℕ → ℕ → BitTimes
bit_times start low = record {
  start = start;
  low = (start + 600) ∷ [];
  release = start + low;
  gap = (start + 3000) ∷ [];
  finish = start + 3101;
}

abbrev pub nine_times : NibbleTimes
nine_times = record {
  bit3 = bit_times 5000 1900;
  bit2 = bit_times 9000 700;
  bit1 = bit_times 13000 700;
  bit0 = bit_times 17000 1900;
}

pub nine_times-TimesOf : TimesOf 9 nine_times
nine_times-TimesOf = omega arith

nibble_sent_example :
    (tx' : Tx) × (emit loaded_tx false (4000 ∷ nibble_times nine_times)
      ≡ some (tx', (4000, false) ∷ nibble_wave nine_times))
    × (tx'.state ≡ TxState.idle)
    × (Fifo.Refine.contents tx'.byte_fifo ≡ [])
    × Fifo.Inv.IsValid tx'.byte_fifo
nibble_sent_example =
    Tx.Nibble.nibble_sent loaded_tx 4000 false 9 [] nine_times loaded-IsValid refl refl
      (omega arith) nine_times-TimesOf

loaded_tx-IsValid : Tx.Inv.IsValid loaded_tx false
loaded_tx-IsValid = record { fifo = loaded-IsValid; shifter = omega arith; driven = refl }

update_total_example : Returns (λ r. Tx.Inv.IsValid r.0 r.1) (Tx.update loaded_tx 4000 false)
update_total_example = Tx.Inv.update_total loaded_tx 4000 false loaded_tx-IsValid

ascii2txnibble_example : Ascii.ascii2txnibble (Ascii.rxnibble2ascii 11) ≡ 11
ascii2txnibble_example = Ascii.ascii2txnibble-rxnibble2ascii 11 (inl (omega arith))

rxnibble2ascii_example :
    (Ascii.ascii2txnibble 98 ≡ 0x80) ⊎ (Ascii.rxnibble2ascii (Ascii.ascii2txnibble 98) ≡ 98)
rxnibble2ascii_example = Ascii.rxnibble2ascii-ascii2txnibble 98 (omega arith)
