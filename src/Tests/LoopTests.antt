-- ===== src/Tests/LoopTests.antt =====
-- A transmitter and a receiver on one bus: the nibbles 9 and 6.
use diy_acura_bluetooth.Prelude.{◌≡◌, refl, false, List, [], ◌∷◌, ◌++◌, some, arith}
use diy_acura_bluetooth.Fifo
use diy_acura_bluetooth.Phy.State.{RxState, TxState, mbus_end_msg_code}
use diy_acura_bluetooth.Phy.Rx.Decode.{run}
use diy_acura_bluetooth.Phy.Tx.{Tx}
use diy_acura_bluetooth.Phy.Tx.Bit.{Drive, emit}
use diy_acura_bluetooth.Phy.Tx.Nibble.{NibbleTimes, TimesOf}
use diy_acura_bluetooth.Phy.Loop.{seen, ArePrompt}
use diy_acura_bluetooth.Phy.Loop.Message.{Sending, IsSent, nibbles, all_times}
use diy_acura_bluetooth.Phy.Loop.Ending
use diy_acura_bluetooth.Phy.Loop.Ending.{end_times, EndsAfter}
use diy_acura_bluetooth.Tests.PhyTests.{
  empty_bytes, empty_bytes-IsValid, rx_in, bit_times, nine_times, nine_times-TimesOf,
}

abbrev six_times : NibbleTimes
six_times = record {
  bit3 = bit_times 20300 700;
  bit2 = bit_times 23500 1900;
  bit1 = bit_times 26700 1900;
  bit0 = bit_times 29900 700;
}

six_times-TimesOf : TimesOf 6 six_times
six_times-TimesOf = omega arith

six-ArePrompt : ArePrompt 6 six_times
six-ArePrompt = omega arith

nine-ArePrompt : ArePrompt 9 nine_times
nine-ArePrompt = omega arith

abbrev send_nine : Sending
send_nine = record { nibble = 9; pick = 4000; bits = nine_times }

abbrev send_six : Sending
send_six = record { nibble = 6; pick = 20200; bits = six_times }

nine-IsSent : IsSent send_nine
nine-IsSent = record { small = omega arith; times = nine_times-TimesOf; prompt = nine-ArePrompt }

six-IsSent : IsSent send_six
six-IsSent = record { small = omega arith; times = six_times-TimesOf; prompt = six-ArePrompt }

abbrev quiet_end : Ending.Ending
quiet_end = record { take = 33100; begin = 33200; waits = 33500 ∷ []; quiet = 34000 }

quiet_end-EndsAfter : EndsAfter 30600 quiet_end
quiet_end-EndsAfter = omega arith

abbrev message_tx : Tx
message_tx = record {
  state = TxState.idle;
  bit_shifter = 1;
  micro_sec_time_stamp = 0;
  byte_fifo = record empty_bytes { buffer = 9 ∷ 6 ∷ mbus_end_msg_code ∷ []; count = 3 };
}

message_tx-IsValid : Fifo.Inv.IsValid message_tx.byte_fifo
message_tx-IsValid = omega arith

message_carried_example :
    (tx' : Tx) × (drives : List Drive) × (emit message_tx false
        (all_times (send_nine ∷ send_six ∷ []) ++ end_times quiet_end)
      ≡ some (tx', drives))
    × (tx'.state ≡ TxState.msg2msg_wait)
    × (Fifo.Refine.contents tx'.byte_fifo ≡ [])
    × (Fifo.Refine.contents (run (rx_in RxState.idle 8) (seen drives)).byte_fifo
        ≡ [] ++ (nibbles (send_nine ∷ send_six ∷ []) ++ mbus_end_msg_code ∷ []))
    × ((run (rx_in RxState.idle 8) (seen drives)).state ≡ RxState.idle)
message_carried_example =
    Ending.message_carried send_nine (send_six ∷ []) quiet_end message_tx false []
      (rx_in RxState.idle 8) message_tx-IsValid refl refl empty_bytes-IsValid refl refl
      (omega arith) nine-IsSent (six-IsSent, omega arith, tt) quiet_end-EndsAfter
