-- ===== src/Tests/Rn52Tests.antt =====
-- The driver of common/rn52/rn52.c at concrete inputs.
use diy_acura_bluetooth.Prelude.{
  ℕ, ◌+◌, ◌*◌, ◌≡◌, ◌≢◌, ◌⊎◌, refl, true, false, List, [], ◌∷◌, ◌++◌, none, some, Returns,
  replicate, arith,
}
use diy_acura_bluetooth.Fifo
use diy_acura_bluetooth.Fifo.{Fifo}
use diy_acura_bluetooth.Rn52.State.{Rn52, Rn52State}
use diy_acura_bluetooth.Rn52.Chars.{c_string}
use diy_acura_bluetooth.Rn52.Update.{update}
use diy_acura_bluetooth.Rn52.Total
use diy_acura_bluetooth.Rn52.Line.{Heard, IsWaiting, hear}
use diy_acura_bluetooth.Rn52.Status
use diy_acura_bluetooth.Rn52.Sending
use diy_acura_bluetooth.Rn52.Sending.{IsRunning, text_of, undisturbed}
use diy_acura_bluetooth.Rn52.Answer
use diy_acura_bluetooth.Rn52.Answer.{consent}

-- The queue of commands with one command.
abbrev queued : ℕ → Fifo ℕ
queued cmd = record {
  id = "rn52AvrcpCmdFifo";
  buffer = cmd ∷ 0 ∷ [];
  buffer_end = 2;
  capacity = 2;
  count = 1;
  element_size = 1;
  head = 1;
  tail = 0;
}

-- A connected driver whose last command was `AT+`.
abbrev driver : Rn52State → ℕ → ℕ → Rn52
driver state cmd rx_str_len = record {
  state = state;
  mode_cmd_not_data = true;
  connection_status = 0x0400;
  ext_feat = 0x0080;
  return_state = Rn52State.running;
  rx_str_len = rx_str_len;
  rx_str = replicate 64 0;
  tx_cmd = b'A' ∷ b'T' ∷ b'+' ∷ 0 ∷ replicate 12 0;
  event_lo_milli_sec_time_stamp = 0;
  cmd2cmd_milli_sec_time_stamp = 0;
  reply_milli_sec_time_stamp = 1000;
  avrcp_cmd_fifo = queued cmd;
}

queued-IsValid : Fifo.Inv.IsValid (queued 3)
queued-IsValid = omega arith

driver-IsValid : Total.IsValid (driver Rn52State.running 3 5)
driver-IsValid = record {
  fifo = queued-IsValid;
  buffer = refl;
  len = omega arith;
  command = unfold c_string in tt;
  cmd_size = refl;
}

update_safe_example :
    Returns
      (λ r. Total.IsValid r.0)
      (update (driver Rn52State.running 3 5) 1200 true (some 65) false)
update_safe_example =
    Total.update_safe (driver Rn52State.running 3 5) 1200 true (some 65) false driver-IsValid
      (omega arith)

-- 0C40: connected over A2DP.
abbrev answer : List Heard
answer =
    (1001, some 48)
    ∷ (1001, none)
    ∷ (1002, some 67)
    ∷ (1003, some 52)
    ∷ (1003, none)
    ∷ (1004, some 48)
    ∷ (1005, some 13)
    ∷ []

driver_waits : IsWaiting (driver Rn52State.query_constat_await_resp 3 0)
driver_waits = record { awaiting = refl; buffer = refl; nothing = refl }

status_heard_example :
    Returns
      (λ (rn52', out).
        (rn52'.connection_status ≡ ((0 * 16 + 12) * 16 + 4) * 16 + 0)
        × (rn52'.state ≡ Rn52State.running)
        × (rn52'.rx_str_len ≡ 0)
        × (out ≡ []))
      (hear
        (driver Rn52State.query_constat_await_resp 3 0)
        true
        false
        (answer ++ (1006, some 10) ∷ []))
status_heard_example =
    Status.status_heard (driver Rn52State.query_constat_await_resp 3 0) 0 12 4 0 answer 1006 true
      false driver_waits (omega arith) (omega arith) (omega arith) (omega arith) refl (omega arith)

line_refused_example :
    Returns
      (λ (rn52', out).
        (rn52'.connection_status ≡ 0x0400)
        × (rn52'.state ≡ Rn52State.query_constat)
        × (rn52'.rx_str_len ≡ 0)
        × (out ≡ []))
      (hear
        (driver Rn52State.query_constat_await_resp 3 0)
        true
        false
        (((1001, some 63) ∷ (1001, none) ∷ (1002, some 13) ∷ []) ++ (1003, some 10) ∷ []))
line_refused_example =
    Status.line_refused (driver Rn52State.query_constat_await_resp 3 0)
      ((1001, some 63) ∷ (1001, none) ∷ (1002, some 13) ∷ []) 1003 true false driver_waits
      (omega arith) (omega arith) (omega arith)

running-IsRunning : IsRunning (driver Rn52State.running 3 0)
running-IsRunning = record {
  fifo = queued-IsValid;
  running = refl;
  command_mode = refl;
  connected = refl;
  cmd_size = refl;
}

command_sent_example :
    Returns
      (λ (rn52', out).
        (out ≡ text_of 3 ++ 13 ∷ 10 ∷ [])
        × (Fifo.Refine.contents rn52'.avrcp_cmd_fifo ≡ [])
        × (rn52'.state ≡ Rn52State.action_or_set_cmd_await_resp)
        × (rn52'.return_state ≡ Rn52State.running))
      (undisturbed (driver Rn52State.running 3 0) false (2000 ∷ 2001 ∷ []))
command_sent_example =
    Sending.command_sent (driver Rn52State.running 3 0) 2000 2001 3 false [] running-IsRunning refl
      (omega arith) (omega arith)

play_repeats_example :
    Returns
      (λ (rn52', out).
        (out ≡ (b'A' ∷ b'T' ∷ b'+' ∷ []) ++ 13 ∷ 10 ∷ [])
        × (Fifo.Refine.contents rn52'.avrcp_cmd_fifo ≡ [])
        × (rn52'.state ≡ Rn52State.action_or_set_cmd_await_resp)
        × (rn52'.return_state ≡ Rn52State.running))
      (undisturbed (driver Rn52State.running 1 0) false (2000 ∷ 2001 ∷ []))
play_repeats_example =
    Sending.play_repeats (driver Rn52State.running 1 0) 2000 2001 false [] (b'A' ∷ b'T' ∷ b'+' ∷ [])
      (record {
        fifo = omega arith;
        running = refl;
        command_mode = refl;
        connected = refl;
        cmd_size = refl;
      })
      refl (unfold c_string in refl)

-- A driver that waits for an answer and holds `AOK`, the end of a line, and zeros behind it.
abbrev answered : Rn52
answered = record (driver Rn52State.action_or_set_cmd_await_resp 3 5) {
  rx_str = consent ++ replicate 59 0;
}

answer_judged_example :
    ((c_string answered.rx_str ≡ some consent)
      × Returns
          (λ (rn52', out).
            (out ≡ (b'A' ∷ b'T' ∷ b'+' ∷ []) ++ 13 ∷ 10 ∷ [])
            × (rn52'.state ≡ Rn52State.action_or_set_cmd_await_resp)
            × (rn52'.rx_str_len ≡ 0))
          (undisturbed answered false (1200 ∷ 1201 ∷ [])))
    ⊎ ((c_string answered.rx_str ≢ some consent)
        × Returns
            (λ (rn52', out).
              (out ≡ []) × (rn52'.state ≡ Rn52State.running) × (rn52'.rx_str_len ≡ 0))
            (undisturbed answered false (1200 ∷ [])))
answer_judged_example =
    Answer.answer_judged answered 1200 1201 false (b'A' ∷ b'T' ∷ b'+' ∷ []) refl (omega arith)
      (omega arith) (unfold c_string in refl)
