-- ===== src/Rn52/Commands.antt =====
-- The queue of commands of rn52.c, and the command that is sent for each.
use diy_acura_bluetooth.Prelude.{
  ℕ, Bool, true, false, not, List, [], ◌∷◌, Option, some, set, ◌==◌, ◌>>=◌, if◌then◌else◌,
}
use diy_acura_bluetooth.Prelude.Words.{has_bit}
use diy_acura_bluetooth.Fifo
use diy_acura_bluetooth.Rn52.State.{
  Rn52, Rn52State, rn52_constat_a2dp, rn52_avrcp_cmd_play, rn52_avrcp_cmd_pause,
  rn52_avrcp_cmd_next, rn52_avrcp_cmd_prev, rn52_avrcp_cmd_playpause, rn52_avrcp_cmd_reconnect_last,
  rn52_avrcp_cmd_pairing, rn52_avrcp_cmd_reboot,
}
use diy_acura_bluetooth.Rn52.Chars.{strcpy}

-- `memory` is what the structure holds before: `extFeat` and `eventLoMilliSecTimeStamp` are not set.
unfoldable pub init : Rn52 → Option (List ℕ) → ℕ → Option Rn52
init memory avrcp_cmd_fifo_mem avrcp_cmd_fifo_mem_size =
    Fifo.nomalloc_init "rn52AvrcpCmdFifo" avrcp_cmd_fifo_mem avrcp_cmd_fifo_mem_size 1 >>= λ fifo.
    some (record memory {
      state = Rn52State.starting_up;
      mode_cmd_not_data = false;
      connection_status = 0;
      return_state = Rn52State.starting_up;
      rx_str_len = 0;
      rx_str = set memory.rx_str 0 0;
      tx_cmd = set memory.tx_cmd 0 0;
      reply_milli_sec_time_stamp = 0;
      cmd2cmd_milli_sec_time_stamp = 0;
      avrcp_cmd_fifo = fifo;
    })

abbrev pub is_connected : Rn52 → Bool
is_connected rn52 = has_bit rn52.connection_status rn52_constat_a2dp

abbrev pub avrcp_cmd_fifo_is_full : Rn52 → Bool
avrcp_cmd_fifo_is_full rn52 = Fifo.is_full rn52.avrcp_cmd_fifo

abbrev pub avrcp_cmd_fifo_is_empty : Rn52 → Bool
avrcp_cmd_fifo_is_empty rn52 = Fifo.is_empty rn52.avrcp_cmd_fifo

unfoldable pub avrcp_cmd_fifo_push : Rn52 → ℕ → Rn52
avrcp_cmd_fifo_push rn52 cmd =
    if not (avrcp_cmd_fifo_is_full rn52)
    then record rn52 { avrcp_cmd_fifo = Fifo.push rn52.avrcp_cmd_fifo cmd }
    else rn52

unfoldable pub avrcp_cmd_fifo_pop : Rn52 → Option (ℕ × Rn52)
avrcp_cmd_fifo_pop rn52 = Fifo.pop rn52.avrcp_cmd_fifo >>= λ (cmd, fifo).
    some (cmd, record rn52 { avrcp_cmd_fifo = fifo })

-- `rn52_avrcp_play` and its four kin push only while the far end is connected.
abbrev pub push_if_connected : Rn52 → ℕ → Rn52
push_if_connected rn52 cmd = if is_connected rn52 then avrcp_cmd_fifo_push rn52 cmd else rn52

unfoldable pub avrcp_play : Rn52 → Rn52
avrcp_play rn52 = push_if_connected rn52 rn52_avrcp_cmd_play

unfoldable pub avrcp_pause : Rn52 → Rn52
avrcp_pause rn52 = push_if_connected rn52 rn52_avrcp_cmd_pause

unfoldable pub avrcp_next : Rn52 → Rn52
avrcp_next rn52 = push_if_connected rn52 rn52_avrcp_cmd_next

unfoldable pub avrcp_prev : Rn52 → Rn52
avrcp_prev rn52 = push_if_connected rn52 rn52_avrcp_cmd_prev

pub avrcp_playpause : Rn52 → Rn52
avrcp_playpause rn52 = push_if_connected rn52 rn52_avrcp_cmd_playpause

unfoldable pub reconnect_last : Rn52 → Rn52
reconnect_last rn52 = avrcp_cmd_fifo_push rn52 rn52_avrcp_cmd_reconnect_last

unfoldable pub pairing : Rn52 → Rn52
pairing rn52 = avrcp_cmd_fifo_push rn52 rn52_avrcp_cmd_pairing

unfoldable pub reboot : Rn52 → Rn52
reboot rn52 = avrcp_cmd_fifo_push rn52 rn52_avrcp_cmd_reboot

-- It always says that it is playing, as the source does.
abbrev pub avrcp_is_playing : Rn52 → Bool
avrcp_is_playing rn52 = true

-- The `switch` on a command for the far end: what `txCmd` holds after it.
unfoldable pub avrcp_text : Rn52 → ℕ → Option (List ℕ)
unfolding strcpy
avrcp_text rn52 cmd =
    let tx_cmd = rn52.tx_cmd in
    if cmd == rn52_avrcp_cmd_play
    then (if not (avrcp_is_playing rn52) then strcpy tx_cmd (b'A' ∷ b'P' ∷ []) else some tx_cmd)
    else if cmd == rn52_avrcp_cmd_pause
    then (if avrcp_is_playing rn52 then strcpy tx_cmd (b'A' ∷ b'P' ∷ []) else some tx_cmd)
    else if cmd == rn52_avrcp_cmd_next
    then strcpy tx_cmd (b'A' ∷ b'T' ∷ b'+' ∷ [])
    else if cmd == rn52_avrcp_cmd_prev
    then strcpy tx_cmd (b'A' ∷ b'T' ∷ b'-' ∷ [])
    else if cmd == rn52_avrcp_cmd_playpause
    then strcpy tx_cmd (b'A' ∷ b'P' ∷ [])
    else some tx_cmd

-- The command goes out next, and the driver runs on after it.
abbrev pub act : Rn52 → List ℕ → Rn52
act rn52 tx_cmd = record rn52 {
  tx_cmd = tx_cmd;
  state = Rn52State.action_or_set_cmd;
  return_state = Rn52State.running;
}

abbrev pub act_on : Rn52 → Option (List ℕ) → Option Rn52
act_on rn52 tx_cmd = tx_cmd >>= λ tx_cmd. some (act rn52 tx_cmd)

-- `_doAvrCpCmdIfAvailable` on the command that it took from the queue.
unfoldable pub do_avr_cp_cmd : Rn52 → ℕ → Option Rn52
unfolding avrcp_text strcpy
do_avr_cp_cmd rn52 cmd =
    if cmd == rn52_avrcp_cmd_reconnect_last
    then act_on rn52 (strcpy rn52.tx_cmd (b'B' ∷ []))
    else if cmd == rn52_avrcp_cmd_reboot
    then act_on rn52 (strcpy rn52.tx_cmd (b'R' ∷ b',' ∷ b'1' ∷ []))
    else if cmd == rn52_avrcp_cmd_pairing
    then act_on rn52 (strcpy rn52.tx_cmd (b'@' ∷ b',' ∷ b'1' ∷ []))
    else if is_connected rn52
    then act_on rn52 (avrcp_text rn52 cmd)
    else some (record rn52 { state = Rn52State.running })

-- `_doAvrCpCmdIfAvailable`
unfoldable pub do_avr_cp_cmd_if_available : Rn52 → Option Rn52
unfolding avrcp_cmd_fifo_pop
do_avr_cp_cmd_if_available rn52 =
    if not (avrcp_cmd_fifo_is_empty rn52)
    then (avrcp_cmd_fifo_pop rn52 >>= λ (cmd, rn52'). do_avr_cp_cmd rn52' cmd)
    else some rn52
