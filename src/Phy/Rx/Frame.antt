-- ===== src/Phy/Rx/Frame.antt =====
-- Whole messages on the wire, and a bus that is held low too long.
use diy_acura_bluetooth.Prelude.{
  ℕ, ◌+◌, ◌%◌, ◌≤◌, ◌<◌, ◌≡◌, refl, ◌∙◌, ap, true, false, List, [], ◌∷◌, ◌++◌, arith, length, All,
}
use diy_acura_bluetooth.Prelude.Words.{elapsed}
use diy_acura_bluetooth.Prelude.Bits.{bit_and_fifteen}
use diy_acura_bluetooth.Fifo
use diy_acura_bluetooth.Fifo.Many.{push_all, contents-push_all}
use diy_acura_bluetooth.Phy.State.{
  RxState, mbus_end_msg_code, mbus_low_too_long_code, bit_low_too_long_time, nibble_end_gap_time,
}
use diy_acura_bluetooth.Phy.Rx.{Rx, update}
use diy_acura_bluetooth.Phy.Rx.Decode.{Poll, held, run, run-append, is_ready}
use diy_acura_bluetooth.Phy.Rx.Nibbles.{
  NibbleWave, NibbleInTime, nibble_polls, value, after_nibble, run-nibble_polls,
}

-- The nibbles of a message one after the other, then one poll after the line has been quiet.
abbrev pub frame_polls : List NibbleWave → ℕ → List Poll
frame_polls [] quiet = (quiet, true) ∷ []
frame_polls (w ∷ ws) quiet = nibble_polls w ++ frame_polls ws quiet

abbrev pub last_rise : NibbleWave → List NibbleWave → ℕ
last_rise w [] = w.bit0.rise
last_rise w (v ∷ vs) = last_rise v vs

pub update-gap :
    (rx : Rx) (us : ℕ)
    → rx.state ≡ RxState.nibble_ended
    → nibble_end_gap_time < elapsed us rx.micro_sec_time_stamp
    → update rx us true ≡ record rx {
      state = RxState.idle;
      bit_shifter = 8;
      byte_fifo = Fifo.push rx.byte_fifo mbus_end_msg_code;
    }
unfolding update
update-gap rx us s h = ground arith

abbrev pub values : List NibbleWave → List ℕ
values [] = []
values (w ∷ ws) = value w ∷ values ws

-- A message that comes in time queues its nibbles and the end code, and leaves the receiver idle.
pub run-frame_polls :
    (w : NibbleWave) (ws : List NibbleWave) (quiet : ℕ) (rx : Rx)
    → is_ready rx.state ≡ true
    → rx.bit_shifter ≡ 8
    → NibbleInTime w
    → All NibbleInTime ws
    → nibble_end_gap_time < elapsed quiet (last_rise w ws)
    → run rx (frame_polls (w ∷ ws) quiet) ≡ record rx {
      state = RxState.idle;
      bit_shifter = 8;
      micro_sec_time_stamp = last_rise w ws;
      byte_fifo = push_all rx.byte_fifo (values (w ∷ ws) ++ mbus_end_msg_code ∷ []);
    }
unfolding run push_all
run-frame_polls w [] quiet rx s h t ts late =
    run-append (nibble_polls w) (frame_polls [] quiet) rx
    ∙ ap (λ r. run r (frame_polls [] quiet)) (run-nibble_polls rx w s h t)
    ∙ update-gap (after_nibble rx w) quiet refl late
run-frame_polls w (v ∷ vs) quiet rx s h t ts late =
    run-append (nibble_polls w) (frame_polls (v ∷ vs) quiet) rx
    ∙ ap (λ r. run r (frame_polls (v ∷ vs) quiet)) (run-nibble_polls rx w s h t)
    ∙ run-frame_polls v vs quiet (after_nibble rx w) refl refl ts.0 ts.1 late

-- The receiver takes a whole message off the wire: from rest it queues, in order, the nibble that
-- each group of four low times spells and then the end-of-message code, and is at rest again. The
-- bits may be polled at any rate and at any times that stay below the time-outs, and the queue must
-- have room.
pub frame_received :
    (w : NibbleWave) (ws : List NibbleWave) (quiet : ℕ) (rx : Rx)
    → Fifo.Inv.IsValid rx.byte_fifo
    → is_ready rx.state ≡ true
    → rx.bit_shifter ≡ 8
    → NibbleInTime w
    → All NibbleInTime ws
    → nibble_end_gap_time < elapsed quiet (last_rise w ws)
    → length (Fifo.Refine.contents rx.byte_fifo)
        + length (values (w ∷ ws) ++ mbus_end_msg_code ∷ [])
      ≤ rx.byte_fifo.capacity
    → let rx' = run rx (frame_polls (w ∷ ws) quiet) in
      (Fifo.Refine.contents rx'.byte_fifo
        ≡ Fifo.Refine.contents rx.byte_fifo ++ (values (w ∷ ws) ++ mbus_end_msg_code ∷ []))
      × (rx'.state ≡ RxState.idle)
      × (rx'.bit_shifter ≡ 8)
frame_received w ws quiet rx v s h t ts late room =
    rw (run-frame_polls w ws quiet rx s h t ts late) (contents-push_all _ v room, refl, refl)

update-stuck : (rx : Rx) (us : ℕ) → rx.state ≡ RxState.failed_low → update rx us false ≡ rx
unfolding update
update-stuck rx us s = ground arith

run-stuck :
    (times : List ℕ) (rx : Rx) → rx.state ≡ RxState.failed_low → run rx (held false times) ≡ rx
unfolding run
run-stuck [] rx s = refl
run-stuck (us ∷ times) rx s =
    ap (λ r. run r (held false times)) (update-stuck rx us s) ∙ run-stuck times rx s

abbrev pub gave_up : Rx → RxState → ℕ → Rx
gave_up rx state code = record rx {
  state = state;
  bit_shifter = 8;
  byte_fifo = push_all rx.byte_fifo (rx.bit_shifter % 16 ∷ code ∷ mbus_end_msg_code ∷ []);
}

update-too_long :
    (rx : Rx) (us : ℕ)
    → rx.state ≡ RxState.awaiting_rise
    → bit_low_too_long_time < elapsed us rx.micro_sec_time_stamp
    → update rx us false ≡ gave_up rx RxState.failed_low mbus_low_too_long_code
unfolding update push_all
update-too_long rx us s h = ground (arith, bit_and_fifteen rx.bit_shifter)

update-released :
    (rx : Rx) (us : ℕ)
    → rx.state ≡ RxState.failed_low
    → update rx us true ≡ record rx { state = RxState.idle }
unfolding update
update-released rx us s = ground arith

-- A bus that is held low too long in a bit ends the message once: the bits so far, the code for a
-- low time too long and the end code are queued, nothing more while the bus stays low, and the first
-- high poll brings the receiver to rest.
pub low_too_long :
    (rx : Rx) (us release : ℕ) (times : List ℕ)
    → rx.state ≡ RxState.awaiting_rise
    → bit_low_too_long_time < elapsed us rx.micro_sec_time_stamp
    → run rx ((us, false) ∷ held false times ++ (release, true) ∷ []) ≡ record rx {
      state = RxState.idle;
      bit_shifter = 8;
      byte_fifo =
          push_all rx.byte_fifo
            (rx.bit_shifter % 16 ∷ mbus_low_too_long_code ∷ mbus_end_msg_code ∷ []);
    }
unfolding run
low_too_long rx us release times s h =
    let failed = gave_up rx RxState.failed_low mbus_low_too_long_code in
    ap (λ r. run r (held false times ++ (release, true) ∷ [])) (update-too_long rx us s h)
    ∙ run-append (held false times) ((release, true) ∷ []) failed
    ∙ ap (λ r. update r release true) (run-stuck times failed refl)
    ∙ update-released failed release refl
