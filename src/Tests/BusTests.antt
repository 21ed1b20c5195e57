-- ===== src/Tests/BusTests.antt =====
-- A play state message from one side of the bus to the other, polled at a steady rate.
use diy_acura_bluetooth.Prelude.{
  ℕ, ◌+◌, ◌*◌, ◌/◌, ◌%◌, ◌^◌, ◌≤◌, ◌<◌, ◌≡◌, refl, ap, true, false, List, [], ◌∷◌, ◌++◌, arith,
  Bool, replicate, length, All, Returns, ◌==◌, if◌then◌else◌,
}
use diy_acura_bluetooth.Fifo
use diy_acura_bluetooth.Fifo.{Fifo}
use diy_acura_bluetooth.Phy.State.{RxState, TxState}
use diy_acura_bluetooth.Phy.Rx.{Rx}
use diy_acura_bluetooth.Phy.Tx.{Tx}
use diy_acura_bluetooth.Phy.Tx.Bit.{BitTimes, Times}
use diy_acura_bluetooth.Phy.Loop.{IsPrompt}
use diy_acura_bluetooth.Phy.Loop.Message.{Sending, IsSent, Follow, nibbles, all_times, last_release}
use diy_acura_bluetooth.Phy.Loop.Ending.{Ending, EndsAfter, end_times}
use diy_acura_bluetooth.Link.Parse.Checksum.{checksum, checksum-lt}
use diy_acura_bluetooth.Link.Core.{Link, tx_play_state}
use diy_acura_bluetooth.Link.Deliver.{CanReceive, GotMessage}
use diy_acura_bluetooth.Link.Roundtrip.{playing}
use diy_acura_bluetooth.Link.Roundtrip.Digits.{play_state_digits}
use diy_acura_bluetooth.Bus
use diy_acura_bluetooth.Bus.{IsQuiet, Spells, travel}
use diy_acura_bluetooth.Tests.MainTests.{empty_msg, empty_tx, set_up_fifo}

abbrev low_for : ℕ → ℕ
low_for bit = if bit == 0 then 700 else 1900

-- The polls of a bit that begins at `start`.
abbrev bit_at : ℕ → ℕ → BitTimes
bit_at start bit = record {
  start = start;
  low = (start + 600) ∷ [];
  release = start + low_for bit;
  gap = (start + 2900) ∷ [];
  finish = start + 3101;
}

abbrev sending_at : ℕ → ℕ → Sending
sending_at t n = record {
  nibble = n;
  pick = t;
  bits = record {
    bit3 = bit_at (t + 100) (n / 8);
    bit2 = bit_at (t + 3300) (n / 4 % 2);
    bit1 = bit_at (t + 6500) (n / 2 % 2);
    bit0 = bit_at (t + 9700) (n % 2);
  };
}

-- One nibble each 12.9 milliseconds.
abbrev sendings : ℕ → List ℕ → List Sending
sendings t [] = []
sendings t (n ∷ ns) = sending_at t n ∷ sendings (t + 12900) ns

bit_at-Times : (start bit : ℕ) → start + 4000 < 2 ^ 32 → Times bit (bit_at start bit)
bit_at-Times start bit h = ground arith

bit_at-IsPrompt : (start bit : ℕ) → start + 4000 < 2 ^ 32 → IsPrompt bit (bit_at start bit)
bit_at-IsPrompt start bit h = ground arith

sending_at-IsSent : (t n : ℕ) → n < 16 → t + 16000 < 2 ^ 32 → IsSent (sending_at t n)
sending_at-IsSent t n small h = record {
  small = small;
  times = record {
    times3 = bit_at-Times (t + 100) (n / 8) (omega arith);
    times2 = bit_at-Times (t + 3300) (n / 4 % 2) (omega arith);
    times1 = bit_at-Times (t + 6500) (n / 2 % 2) (omega arith);
    times0 = bit_at-Times (t + 9700) (n % 2) (omega arith);
  };
  prompt = record {
    prompt3 = bit_at-IsPrompt (t + 100) (n / 8) (omega arith);
    prompt2 = bit_at-IsPrompt (t + 3300) (n / 4 % 2) (omega arith);
    prompt1 = bit_at-IsPrompt (t + 6500) (n / 2 % 2) (omega arith);
    prompt0 = bit_at-IsPrompt (t + 9700) (n % 2) (omega arith);
  };
}

low_for-range : (bit : ℕ) → (700 ≤ low_for bit) × (low_for bit ≤ 1900)
low_for-range bit = ground arith

sendings-Follow :
    (t n : ℕ) (ns : List ℕ)
    → All (λ m. m < 16) ns
    → t + 16000 + 12900 * length ns < 2 ^ 32
    → Follow (sending_at t n).bits.bit0.release (sendings (t + 12900) ns)
sendings-Follow t n [] small h = tt
sendings-Follow t n (m ∷ ns) small h = (
  sending_at-IsSent (t + 12900) m small.0 (omega arith),
  omega (arith, low_for-range (n % 2)),
  sendings-Follow (t + 12900) m ns small.1 (omega arith),
)

nibbles-sendings : (t : ℕ) (ns : List ℕ) → nibbles (sendings t ns) ≡ ns
nibbles-sendings t [] = refl
nibbles-sendings t (n ∷ ns) = ap (λ l. n ∷ l) (nibbles-sendings (t + 12900) ns)

abbrev end_at : ℕ → Ending
end_at t = record { take = t; begin = t + 100; waits = (t + 600) ∷ []; quiet = t + 3100 }

last_release-sendings :
    (t n : ℕ) (ns : List ℕ)
    → (k : ℕ) × (last_release (sending_at t n).bits.bit0.release (sendings (t + 12900) ns)
        ≡ t + 12900 * length ns + 9700 + low_for (k % 2))
last_release-sendings t n [] = (n, omega arith)
last_release-sendings t n (m ∷ ns) =
    let (k, e) = last_release-sendings (t + 12900) m ns in (k, omega (arith, e))

sendings-Ends :
    (t n : ℕ) (ns : List ℕ)
    → t + 20000 + 12900 * length ns < 2 ^ 32
    → EndsAfter
        (last_release (sending_at t n).bits.bit0.release (sendings (t + 12900) ns))
        (end_at (t + 12900 * length ns + 12900))
sendings-Ends t n ns h =
    let (k, e) = last_release-sendings t n ns in rw e (omega (arith, low_for-range (k % 2)))

abbrev bytes : Fifo ℕ
bytes = set_up_fifo "mbusPhy" (replicate 32 0) 32

abbrev quiet_tx : Tx
quiet_tx = record {
  state = TxState.idle;
  bit_shifter = 16;
  micro_sec_time_stamp = 0;
  byte_fifo = bytes;
}

abbrev quiet_rx : Rx
quiet_rx = record {
  state = RxState.idle;
  bit_shifter = 8;
  micro_sec_time_stamp = 0;
  byte_fifo = bytes;
}

bytes-IsValid : Fifo.Inv.IsValid bytes
bytes-IsValid = omega arith

quiet : IsQuiet 17 quiet_tx quiet_rx
quiet = record {
  tx_valid = bytes-IsValid;
  tx_idle = refl;
  tx_empty = refl;
  tx_room = omega arith;
  rx_valid = record {
    fifo = record { valid = bytes-IsValid; codes = tt };
    shifter_low = omega arith;
    shifter_high = omega arith;
  };
  rx_idle = refl;
  rx_start = refl;
  rx_empty = refl;
  rx_room = omega arith;
}

abbrev pub quiet_link : Bool → Link
quiet_link receives = record {
  rx_msg_fifo = set_up_fifo "mbusLinkRx" (replicate 2 empty_msg) 2;
  tx_msg_fifo = set_up_fifo "mbusLinkTx" (replicate 2 empty_tx) 2;
  nibbles = record { nibbles = replicate 32 0; num_nibbles = 0 };
  rx_not_tx_mode = receives;
}

messages-IsValid : Fifo.Inv.IsValid (quiet_link false).tx_msg_fifo
messages-IsValid = omega arith

pub receiver-CanReceive : CanReceive empty_msg (quiet_link true)
receiver-CanReceive = record {
  ready = record { valid = omega arith; array = refl; at_start = refl };
  room = omega arith;
  space = omega arith;
}

-- The message of the third track, 75 seconds in, and what follows its first nibble up to the checksum.
abbrev digits : List ℕ
digits = play_state_digits 2 1 75

abbrev rest : List ℕ
rest = 9 ∷ 4 ∷ 0 ∷ 3 ∷ 0 ∷ 1 ∷ 0 ∷ 1 ∷ 1 ∷ 5 ∷ 0 ∷ 0 ∷ 0 ∷ 1 ∷ checksum digits ∷ []

abbrev first : Sending
first = sending_at 5000 9

abbrev others : List Sending
others = sendings 17900 rest

abbrev ending : Ending
ending = end_at 211400

rest-small : All (λ m. m < 16) rest
rest-small = omega (arith, checksum-lt digits)

spells : Spells (digits ++ checksum digits ∷ []) first others ending
spells = record {
  letters = nibbles-sendings 5000 (9 ∷ rest);
  sent = sending_at-IsSent 5000 9 (omega arith) (omega arith);
  follow = sendings-Follow 5000 9 rest rest-small (omega arith);
  ends = sendings-Ends 5000 9 rest (omega arith);
}

play_state_travels_example : Returns (GotMessage (quiet_link true) (playing 2 1 75)) (
    travel
      (tx_play_state (quiet_link false) 2 1 75 true)
      false
      false
      quiet_tx
      false
      (all_times (first ∷ others) ++ end_times ending)
      quiet_rx
      17
      empty_msg
      (quiet_link true))
play_state_travels_example =
    Bus.play_state_travels (quiet_link false) (quiet_link true) false false quiet_tx false quiet_rx
      first others ending empty_msg 2 1 75 messages-IsValid refl refl (omega arith)
      receiver-CanReceive (omega arith) (omega arith) (omega arith) quiet spells
