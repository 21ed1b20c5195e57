-- ===== src/Rn52/Update.antt =====
-- `rn52_update`: a character that is available is stored, then the `switch` on the state runs. The
-- level of the command pin goes in and comes out, with the characters that were put out. `none` is a
-- write or a read outside one of the two buffers, or a failed assertion of `fifo_pop`.
use diy_acura_bluetooth.Prelude.{
  ℕ, ◌+◌, ◌-◌, ◌/◌, Bool, true, false, not, ◌&&◌, List, [], ◌∷◌, ◌++◌, Option, none, some, set,
  get_or, bit_and, ltb, leb, ◌==◌, ◌>>=◌, if◌then◌else◌,
}
use diy_acura_bluetooth.Prelude.Words.{u8, elapsed}
use diy_acura_bluetooth.Rn52.State.{
  Rn52, Rn52State, rx_str_size, rn52_cmd_timeout_millsec, default_extfeat,
}
use diy_acura_bluetooth.Rn52.Chars.{nibble2hex_char, hex_loop, strcpy, strcmp, strncmp, c_string}
use diy_acura_bluetooth.Rn52.Commands.{do_avr_cp_cmd_if_available}

-- The first lines: one character, if the serial line has one.
unfoldable pub store_char : Rn52 → Option ℕ → Option Rn52
store_char rn52 none = some rn52
store_char rn52 (some rx_c) =
    if ltb rn52.rx_str_len rx_str_size
    then some (record rn52 {
      rx_str = set rn52.rx_str rn52.rx_str_len (u8 rx_c);
      rx_str_len = u8 (rn52.rx_str_len + 1);
    })
    else none

-- `rxStrLen` starts again, in a state.
abbrev pub go_on : Rn52 → Rn52State → Rn52
go_on rn52 state = record rn52 { state = state; rx_str_len = 0 }

abbrev pub is_timed_out : Rn52 → ℕ → Bool
is_timed_out rn52 ms = ltb rn52_cmd_timeout_millsec (elapsed ms rn52.reply_milli_sec_time_stamp)

-- `_rn52_is_cmd_reboot`
unfoldable pub is_cmd_reboot : Rn52 → Bool
unfolding strncmp
is_cmd_reboot rn52 =
    let tx_cmd = rn52.tx_cmd in
    if not (get_or tx_cmd 0 0 == b'R')
    then false
    else if not (get_or tx_cmd 1 0 == b',')
    then false
    else if not (get_or tx_cmd 2 0 == b'1')
    then false
    else strncmp tx_cmd (b'R' ∷ b',' ∷ b'1' ∷ []) 3

-- SWITCH_TO_CMD_AWAIT_RESP
unfoldable pub await_cmd_mode : Rn52 → ℕ → Rn52
unfolding strcmp
await_cmd_mode rn52 ms =
    if leb 5 rn52.rx_str_len
    then (if strcmp rn52.rx_str (b'C' ∷ b'M' ∷ b'D' ∷ 13 ∷ 10 ∷ [])
        then record (go_on rn52 rn52.return_state) { mode_cmd_not_data = true }
        else go_on rn52 Rn52State.switch_to_cmd_mode)
    else if is_timed_out rn52 ms
    then go_on rn52 Rn52State.switch_to_cmd_mode
    else rn52

-- The answer to a command, when there are `size` characters.
unfoldable pub take_answer : Rn52 → ℕ → List ℕ → Rn52
unfolding strcmp
take_answer rn52 size text =
    if leb size rn52.rx_str_len
    then (if strcmp rn52.rx_str text
        then go_on rn52 rn52.return_state
        else go_on rn52 Rn52State.action_or_set_cmd)
    else rn52

-- ACTION_OR_SET_CMD_AWAIT_RESP
unfoldable pub await_answer : Rn52 → ℕ → Rn52
unfolding take_answer is_cmd_reboot
await_answer rn52 ms =
    if is_timed_out rn52 ms
    then go_on rn52 Rn52State.action_or_set_cmd
    else if is_cmd_reboot rn52
    then take_answer rn52 9 (b'R' ∷ b'e' ∷ b'b' ∷ b'o' ∷ b'o' ∷ b't' ∷ b'!' ∷ 13 ∷ 10 ∷ [])
    else take_answer rn52 5 (b'A' ∷ b'O' ∷ b'K' ∷ 13 ∷ 10 ∷ [])

-- `(rxStrLen > 0) && rxStr[rxStrLen-1] == '\n'`
abbrev pub is_line : Rn52 → Bool
is_line rn52 = ltb 0 rn52.rx_str_len && (get_or rn52.rx_str (rn52.rx_str_len - 1) 0 == 10)

-- QUERY_CONSTAT_AWAIT_RESP and QUERY_EXTFEAT_AWAIT_RESP, which differ in the field `put` that is
-- written and in the state to which a bad answer leads.
unfoldable pub await_word : (Rn52 → ℕ → Rn52) → Rn52State → Rn52 → ℕ → Rn52
unfolding hex_loop
await_word put query rn52 ms =
    if is_line rn52
    then (if rn52.rx_str_len == 6
        then go_on (put rn52 (hex_loop 4 0 rn52.rx_str 0)) rn52.return_state
        else go_on rn52 query)
    else if is_timed_out rn52 ms
    then go_on rn52 query
    else rn52

abbrev pub put_connection_status : Rn52 → ℕ → Rn52
put_connection_status rn52 w = record rn52 { connection_status = w }

abbrev pub put_ext_feat : Rn52 → ℕ → Rn52
put_ext_feat rn52 w = record rn52 { ext_feat = w }

-- RUNNING
unfoldable pub run_on : Rn52 → ℕ → Bool → Option Rn52
unfolding do_avr_cp_cmd_if_available
run_on rn52 ms event_state_pin =
    if not rn52.mode_cmd_not_data
    then some
        (record rn52 { state = Rn52State.switch_to_cmd_mode; return_state = Rn52State.running })
    else if not event_state_pin && ltb 105 (elapsed ms rn52.event_lo_milli_sec_time_stamp)
    then some (record rn52 {
      event_lo_milli_sec_time_stamp = ms;
      state = Rn52State.query_constat;
      return_state = Rn52State.running;
    })
    else do_avr_cp_cmd_if_available rn52

abbrev pub set_extfeat_text : List ℕ
set_extfeat_text =
    b's'
    ∷ b'%'
    ∷ b','
    ∷ nibble2hex_char (default_extfeat / 4096)
    ∷ nibble2hex_char (bit_and (default_extfeat / 256) 0xF)
    ∷ nibble2hex_char (bit_and (default_extfeat / 16) 0xF)
    ∷ nibble2hex_char (bit_and default_extfeat 0xF)
    ∷ []

-- The `switch`.
unfoldable pub dispatch : Rn52State → Rn52 → ℕ → Bool → Bool → Option (Rn52 × Bool × List ℕ)
unfolding run_on await_cmd_mode await_answer await_word c_string strcpy nibble2hex_char
dispatch Rn52State.starting_up rn52 ms event pin =
    some (
      record rn52 { state = Rn52State.switch_to_cmd_mode; return_state = Rn52State.reboot },
      pin,
      [],
    )
dispatch Rn52State.reboot rn52 ms event pin =
    strcpy rn52.tx_cmd (b'R' ∷ b',' ∷ b'1' ∷ []) >>= λ tx_cmd. some (
      record rn52 {
        tx_cmd = tx_cmd;
        state = Rn52State.action_or_set_cmd;
        return_state = Rn52State.read_initial_constat;
      },
      pin,
      [],
    )
dispatch Rn52State.read_initial_constat rn52 ms event pin = some (
  record rn52 {
    state = Rn52State.query_constat;
    return_state = Rn52State.read_extfeat;
    event_lo_milli_sec_time_stamp = ms;
  },
  pin,
  [],
)
dispatch Rn52State.read_extfeat rn52 ms event pin = some (
  record rn52 { state = Rn52State.query_extfeat; return_state = Rn52State.check_extfeat },
  pin,
  [],
)
dispatch Rn52State.check_extfeat rn52 ms event pin = some (
  record rn52 {
    state =
        if not (rn52.ext_feat == default_extfeat) then Rn52State.set_extfeat else Rn52State.running;
  },
  pin,
  [],
)
dispatch Rn52State.set_extfeat rn52 ms event pin = strcpy rn52.tx_cmd set_extfeat_text >>= λ tx_cmd.
    some (
      record rn52 {
        tx_cmd = tx_cmd;
        state = Rn52State.action_or_set_cmd;
        return_state = Rn52State.starting_up;
      },
      pin,
      [],
    )
dispatch Rn52State.running rn52 ms event pin =
    run_on rn52 ms event >>= λ rn52'. some (rn52', pin, [])
dispatch Rn52State.switch_to_cmd_mode rn52 ms event pin = some (
  record (go_on rn52 Rn52State.switch_to_cmd_delay_hi) { reply_milli_sec_time_stamp = ms },
  true,
  [],
)
dispatch Rn52State.switch_to_cmd_delay_hi rn52 ms event pin =
    if ltb 500 (elapsed ms rn52.reply_milli_sec_time_stamp)
    then some (
      record (go_on rn52 Rn52State.switch_to_cmd_delay_lo) { reply_milli_sec_time_stamp = ms },
      false,
      [],
    )
    else some (rn52, pin, [])
dispatch Rn52State.switch_to_cmd_delay_lo rn52 ms event pin =
    if ltb 100 (elapsed ms rn52.reply_milli_sec_time_stamp)
    then some (
      record rn52 { state = Rn52State.switch_to_cmd_await_resp; reply_milli_sec_time_stamp = ms },
      false,
      [],
    )
    else some (rn52, pin, [])
dispatch Rn52State.switch_to_cmd_await_resp rn52 ms event pin =
    some (await_cmd_mode rn52 ms, pin, [])
dispatch Rn52State.action_or_set_cmd rn52 ms event pin = c_string rn52.tx_cmd >>= λ text. some (
  record (go_on rn52 Rn52State.action_or_set_cmd_await_resp) { reply_milli_sec_time_stamp = ms },
  pin,
  text ++ 13 ∷ 10 ∷ [],
)
dispatch Rn52State.action_or_set_cmd_await_resp rn52 ms event pin =
    some (await_answer rn52 ms, pin, [])
dispatch Rn52State.query_constat rn52 ms event pin = some (
  record rn52 { reply_milli_sec_time_stamp = ms; state = Rn52State.query_constat_await_resp },
  pin,
  b'Q' ∷ 13 ∷ 10 ∷ [],
)
dispatch Rn52State.query_constat_await_resp rn52 ms event pin =
    some (await_word put_connection_status Rn52State.query_constat rn52 ms, pin, [])
dispatch Rn52State.query_extfeat rn52 ms event pin = some (
  record rn52 { reply_milli_sec_time_stamp = ms; state = Rn52State.query_extfeat_await_resp },
  pin,
  b'G' ∷ b'%' ∷ 13 ∷ 10 ∷ [],
)
dispatch Rn52State.query_extfeat_await_resp rn52 ms event pin =
    some (await_word put_ext_feat Rn52State.query_extfeat rn52 ms, pin, [])

-- `rn52_update`
unfoldable pub update : Rn52 → ℕ → Bool → Option ℕ → Bool → Option (Rn52 × Bool × List ℕ)
unfolding store_char dispatch
update rn52 ms event_state_pin rx_c cmd_pin =
    store_char rn52 rx_c >>= λ rn52'. dispatch rn52'.state rn52' ms event_state_pin cmd_pin
