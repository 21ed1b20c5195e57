-- ===== src/Phy/Loop.antt =====
-- A transmitter and a receiver on one bus: what the one drives the other decodes.
pub mod Emit
pub mod Message
pub mod Ending
use mathlib.Core.List.{append_assoc, append-nil}
use diy_acura_bluetooth.Prelude.{
  ℕ, ◌+◌, ◌*◌, ◌/◌, ◌%◌, ◌≤◌, ◌<◌, ◌≡◌, refl, sym, ap, ◌∙◌, Bool, true, false, not, List, [], ◌∷◌,
  ◌++◌, some, arith, length, All, All-append, All-map, ltb, ◌==◌, if◌then◌else◌,
}
use mathlib.Core.Path.{ap₂}
use diy_acura_bluetooth.Prelude.Words.{elapsed}
use diy_acura_bluetooth.Fifo
use diy_acura_bluetooth.Fifo.Many.{contents-push}
use diy_acura_bluetooth.Phy.State.{
  RxState, TxState, bit_low_too_long_time, interbit_timeout_time, bit_oneval_thresh_time,
}
use diy_acura_bluetooth.Phy.Rx.{Rx}
use diy_acura_bluetooth.Phy.Rx.Decode.{
  Poll, Pulse, IsInTime, held, run, polls, bit, is_ready, run-append,
}
use diy_acura_bluetooth.Phy.Rx.Nibbles.{
  NibbleWave, NibbleInTime, nibble_polls, value, after_nibble, run-nibble_polls,
}
use diy_acura_bluetooth.Phy.Tx.{Tx}
use diy_acura_bluetooth.Phy.Tx.Bit.{Drive, emit, BitTimes, Times, low_time, wave, driven}
use diy_acura_bluetooth.Phy.Tx.Nibble.{NibbleTimes, TimesOf, nibble_times, nibble_wave, nibble_sent}

-- The receiver sees the bus high where the transmitter does not drive it low.
abbrev pub seen : List Drive → List Poll
seen [] = []
seen ((us, drive_lo) ∷ drives) = (us, not drive_lo) ∷ seen drives

abbrev pub pulse_of : BitTimes → Pulse
pulse_of b = record { fall = b.start; low = b.low; rise = b.release; high = b.gap ++ b.finish ∷ [] }

abbrev pub wave_of : NibbleTimes → NibbleWave
wave_of t = record {
  bit3 = pulse_of t.bit3;
  bit2 = pulse_of t.bit2;
  bit1 = pulse_of t.bit1;
  bit0 = pulse_of t.bit0;
}

-- The polls come round soon enough: the bus is released before a zero could be taken for a one, and
-- from then on the polls of the bit stay below the receiver's time-out.
pub record IsPrompt (bit : ℕ) (b : BitTimes) : Type 0 where
  pub released : elapsed b.release b.start ≤ low_time bit + 600
  pub ended : All (λ us. elapsed us b.release ≤ interbit_timeout_time) (b.gap ++ b.finish ∷ [])

pub record ArePrompt (n : ℕ) (t : NibbleTimes) : Type 0 where
  pub prompt3 : IsPrompt (n / 8) t.bit3
  pub prompt2 : IsPrompt (n / 4 % 2) t.bit2
  pub prompt1 : IsPrompt (n / 2 % 2) t.bit1
  pub prompt0 : IsPrompt (n % 2) t.bit0

pub seen-driven :
    (d : Bool) (ts : List ℕ) (rest : List Drive)
    → seen (driven d ts rest) ≡ held (not d) ts ++ seen rest
seen-driven d [] rest = refl
seen-driven d (us ∷ ts) rest = ap (λ l. (us, not d) ∷ l) (seen-driven d ts rest)

held-append : (d : Bool) (ts us : List ℕ) → held d (ts ++ us) ≡ held d ts ++ held d us
held-append d [] us = refl
held-append d (t ∷ ts) us = ap (λ l. (t, d) ∷ l) (held-append d ts us)

seen-wave :
    (b : BitTimes) (rest : List Drive) → seen (wave b rest) ≡ polls (pulse_of b) ++ seen rest
seen-wave b rest =
    let ending = (b.finish, true) ∷ seen rest in
    let high = held true b.gap in
    let gap : held true (b.gap ++ b.finish ∷ []) ++ seen rest ≡ high ++ ending =
      ap (λ l. l ++ seen rest) (held-append true b.gap (b.finish ∷ []))
      ∙ append_assoc high ((b.finish, true) ∷ []) (seen rest) in
    ap (λ l. (b.start, false) ∷ l)
      (seen-driven true b.low ((b.release, false) ∷ driven false b.gap ((b.finish, false) ∷ rest))
        ∙ ap (λ l. held false b.low ++ (b.release, true) ∷ l)
            (seen-driven false b.gap ((b.finish, false) ∷ rest) ∙ sym gap)
        ∙ sym (
            append_assoc (held false b.low) ((b.release, true) ∷ held true (b.gap ++ b.finish ∷ []))
              (seen rest)))

low_time-le : (bit : ℕ) → low_time bit ≤ bit_low_too_long_time
low_time-le bit = ground arith

pulse-IsInTime : (n : ℕ) (b : BitTimes) → Times n b → IsPrompt n b → IsInTime (pulse_of b)
pulse-IsInTime n b t p = record {
  low_in_time =
      All-map (λ us. elapsed us b.start ≤ low_time n) _ (λ us h. omega (arith, low_time-le n)) b.low
        t.low_on;
  high_in_time = p.ended;
}

bit-pulse : (n : ℕ) (b : BitTimes) → n ≤ 1 → Times n b → IsPrompt n b → bit (pulse_of b) ≡ n
bit-pulse n b h t p = let over = t.low_over in let released = p.released in ground arith

seen-nibble_wave : (t : NibbleTimes) → seen (nibble_wave t) ≡ nibble_polls (wave_of t)
seen-nibble_wave t =
    let rest2 = wave t.bit2 (wave t.bit1 (wave t.bit0 [])) in
    seen-wave t.bit3 rest2
    ∙ ap (λ l. polls (pulse_of t.bit3) ++ l)
        (seen-wave t.bit2 (wave t.bit1 (wave t.bit0 []))
          ∙ ap (λ l. polls (pulse_of t.bit2) ++ l)
              (seen-wave t.bit1 (wave t.bit0 [])
                ∙ ap (λ l. polls (pulse_of t.bit1) ++ l)
                    (seen-wave t.bit0 [] ∙ append-nil (polls (pulse_of t.bit0)))))

value-wave_of :
    (n : ℕ) (t : NibbleTimes) → n < 16 → TimesOf n t → ArePrompt n t → value (wave_of t) ≡ n
value-wave_of n t small h p = omega (
  arith,
  bit-pulse (n / 8) t.bit3 (omega arith) h.times3 p.prompt3,
  bit-pulse (n / 4 % 2) t.bit2 (omega arith) h.times2 p.prompt2,
  bit-pulse (n / 2 % 2) t.bit1 (omega arith) h.times1 p.prompt1,
  bit-pulse (n % 2) t.bit0 (omega arith) h.times0 p.prompt0,
)

wave_of-NibbleInTime :
    (n : ℕ) (t : NibbleTimes) → TimesOf n t → ArePrompt n t → NibbleInTime (wave_of t)
wave_of-NibbleInTime n t h p = record {
  in_time3 = pulse-IsInTime (n / 8) t.bit3 h.times3 p.prompt3;
  in_time2 = pulse-IsInTime (n / 4 % 2) t.bit2 h.times2 p.prompt2;
  in_time1 = pulse-IsInTime (n / 2 % 2) t.bit1 h.times1 p.prompt1;
  in_time0 = pulse-IsInTime (n % 2) t.bit0 h.times0 p.prompt0;
}

-- The receiver queues the nibble that the wave was made for.
pub run-seen_nibble :
    (rx : Rx) (n : ℕ) (t : NibbleTimes)
    → is_ready rx.state ≡ true
    → rx.bit_shifter ≡ 8
    → n < 16
    → TimesOf n t
    → ArePrompt n t
    → run rx (seen (nibble_wave t)) ≡ record rx {
      state = RxState.nibble_ended;
      bit_shifter = 8;
      micro_sec_time_stamp = t.bit0.release;
      byte_fifo = Fifo.push rx.byte_fifo n;
    }
run-seen_nibble rx n t s e small h p =
    ap (run rx) (seen-nibble_wave t)
    ∙ run-nibble_polls rx (wave_of t) s e (wave_of-NibbleInTime n t h p)
    ∙ ap (λ v. record (after_nibble rx (wave_of t)) { byte_fifo = Fifo.push rx.byte_fifo v })
        (value-wave_of n t small h p)
