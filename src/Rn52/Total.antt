-- ===== src/Rn52/Total.antt =====
-- What the driver keeps, and when `rn52_update` stays inside its buffers.
use diy_acura_bluetooth.Prelude.{
  ℕ, ◌≤◌, ◌<◌, ◌≡◌, refl, Bool, false, List, [], ◌∷◌, Option, none, some, arith, length, length-set,
  All, Bool-cases, inl, inr, if_both, ◌==◌, Returns, Returns-bind,
}
use diy_acura_bluetooth.Prelude.Words.{u8}
use diy_acura_bluetooth.Fifo
use diy_acura_bluetooth.Rn52.State.{Rn52, Rn52State, rx_str_size, tx_cmd_size}
use diy_acura_bluetooth.Rn52.Chars.{c_string, strcpy, nibble2hex_char}
use diy_acura_bluetooth.Rn52.Text.{IsString, IsCommand, strcpy-IsCommand}
use diy_acura_bluetooth.Rn52.Commands.{
  is_connected, act, act_on, avrcp_text, do_avr_cp_cmd, do_avr_cp_cmd_if_available,
  avrcp_cmd_fifo_pop,
}
use diy_acura_bluetooth.Rn52.Update.{
  store_char, await_cmd_mode, await_answer, take_answer, await_word, run_on, set_extfeat_text,
  dispatch, update,
}

pub record IsValid (rn52 : Rn52) : Type 0 where
  pub fifo : Fifo.Inv.IsValid rn52.avrcp_cmd_fifo
  pub buffer : length rn52.rx_str ≡ rx_str_size
  pub len : rn52.rx_str_len ≤ rx_str_size
  pub command : IsString rn52.tx_cmd
  pub cmd_size : length rn52.tx_cmd ≡ tx_cmd_size

-- There is room for a character that comes.
abbrev pub HasRoom : Rn52 → Option ℕ → Type 0
HasRoom rn52 none = Unit
HasRoom rn52 (some c) = rn52.rx_str_len < rx_str_size

store_char-IsValid :
    (rn52 : Rn52) (rx_c : Option ℕ)
    → IsValid rn52
    → HasRoom rn52 rx_c
    → Returns IsValid (store_char rn52 rx_c)
unfolding store_char
store_char-IsValid rn52 none v room = v
store_char-IsValid rn52 (some c) v room =
    ground (arith, length-set rn52.rx_str rn52.rx_str_len (u8 c))

with_command :
    (rn52 : Rn52) (state return_state : Rn52State) (tx_cmd : List ℕ)
    → IsValid rn52
    → IsCommand tx_cmd
    → IsValid (record rn52 { tx_cmd = tx_cmd; state = state; return_state = return_state })
with_command rn52 state return_state tx_cmd v c = record {
  fifo = v.fifo;
  buffer = v.buffer;
  len = v.len;
  command = c.0;
  cmd_size = c.1;
}

act_on-IsValid :
    (rn52 : Rn52) (tx_cmd : Option (List ℕ))
    → IsValid rn52
    → Returns IsCommand tx_cmd
    → Returns IsValid (act_on rn52 tx_cmd)
act_on-IsValid rn52 tx_cmd v c =
    Returns-bind IsCommand IsValid tx_cmd (λ tx. some (act rn52 tx))
      (λ tx h. with_command rn52 Rn52State.action_or_set_cmd Rn52State.running tx v h) c

avrcp_text-IsCommand :
    (rn52 : Rn52) (cmd : ℕ) → IsValid rn52 → Returns IsCommand (avrcp_text rn52 cmd)
unfolding avrcp_text
avrcp_text-IsCommand rn52 cmd v =
    let T : Option (List ℕ) → Type 0 = Returns IsCommand in
    let copy = strcpy-IsCommand rn52.tx_cmd in
    if_both T (cmd == 1) (v.command, v.cmd_size)
      (if_both T (cmd == 2) (copy (b'A' ∷ b'P' ∷ []) v.cmd_size (omega arith) (refl, (refl, tt))) (
        if_both T (cmd == 3)
          (copy (b'A' ∷ b'T' ∷ b'+' ∷ []) v.cmd_size (omega arith) (refl, (refl, (refl, tt))))
          (if_both T (cmd == 4)
            (copy (b'A' ∷ b'T' ∷ b'-' ∷ []) v.cmd_size (omega arith) (refl, (refl, (refl, tt))))
            (if_both T (cmd == 5)
              (copy (b'A' ∷ b'P' ∷ []) v.cmd_size (omega arith) (refl, (refl, tt)))
              (v.command, v.cmd_size)))))

do_avr_cp_cmd-IsValid :
    (rn52 : Rn52) (cmd : ℕ) → IsValid rn52 → Returns IsValid (do_avr_cp_cmd rn52 cmd)
unfolding do_avr_cp_cmd
do_avr_cp_cmd-IsValid rn52 cmd v =
    let T : Option Rn52 → Type 0 = Returns IsValid in
    let copy = λ (text : List ℕ). strcpy-IsCommand rn52.tx_cmd text v.cmd_size in
    if_both T (cmd == 6) (act_on-IsValid rn52 _ v (copy (b'B' ∷ []) (omega arith) (refl, tt))) (
      if_both T (cmd == 8)
        (act_on-IsValid rn52 _ v
          (copy (b'R' ∷ b',' ∷ b'1' ∷ []) (omega arith) (refl, (refl, (refl, tt)))))
        (if_both T (cmd == 7)
          (act_on-IsValid rn52 _ v
            (copy (b'@' ∷ b',' ∷ b'1' ∷ []) (omega arith) (refl, (refl, (refl, tt)))))
          (if_both T (is_connected rn52) (act_on-IsValid rn52 _ v (avrcp_text-IsCommand rn52 cmd v))
            (record {
              fifo = v.fifo;
              buffer = v.buffer;
              len = v.len;
              command = v.command;
              cmd_size = v.cmd_size;
            }))))

do_avr_cp_cmd_if_available-IsValid :
    (rn52 : Rn52) → IsValid rn52 → Returns IsValid (do_avr_cp_cmd_if_available rn52)
unfolding do_avr_cp_cmd_if_available avrcp_cmd_fifo_pop
do_avr_cp_cmd_if_available-IsValid rn52 v = elim (Bool-cases (Fifo.is_empty rn52.avrcp_cmd_fifo)) [
  | inl none_left ↦ rw none_left v
  | inr some_left ↦
      let (cmd, f, p, c) = Fifo.Refine.pop_total rn52.avrcp_cmd_fifo v.fifo some_left in
      let popped = record rn52 { avrcp_cmd_fifo = f } in
      let valid : IsValid popped = record {
        fifo = Fifo.Inv.pop-IsValid {r = (cmd, f)} v.fifo p;
        buffer = v.buffer;
        len = v.len;
        command = v.command;
        cmd_size = v.cmd_size;
      } in
      rw (some_left, p) (do_avr_cp_cmd-IsValid popped cmd valid)
]

run_on-IsValid :
    (rn52 : Rn52) (ms : ℕ) (event : Bool) → IsValid rn52 → Returns IsValid (run_on rn52 ms event)
unfolding run_on
run_on-IsValid rn52 ms event v = ground (arith, do_avr_cp_cmd_if_available-IsValid rn52 v)

awaits-IsValid :
    (rn52 : Rn52) (ms : ℕ)
    → IsValid rn52
    → IsValid (await_cmd_mode rn52 ms) × IsValid (await_answer rn52 ms)
unfolding await_cmd_mode await_answer take_answer
awaits-IsValid rn52 ms v = (ground arith, ground arith)

extfeat_plain : All (λ c. (c == 0) ≡ false) set_extfeat_text
unfolding nibble2hex_char
extfeat_plain = (refl, (refl, (refl, (refl, (refl, (refl, (refl, tt)))))))

dispatch-IsValid :
    (state : Rn52State) (rn52 : Rn52) (ms : ℕ) (event pin : Bool)
    → IsValid rn52
    → Returns (λ r. IsValid r.0) (dispatch state rn52 ms event pin)
unfolding dispatch await_word c_string
dispatch-IsValid Rn52State.running rn52 ms event pin v =
    ground (arith, run_on-IsValid rn52 ms event v)
dispatch-IsValid Rn52State.switch_to_cmd_await_resp rn52 ms event pin v =
    (awaits-IsValid rn52 ms v).0
dispatch-IsValid Rn52State.action_or_set_cmd_await_resp rn52 ms event pin v =
    (awaits-IsValid rn52 ms v).1
dispatch-IsValid Rn52State.reboot rn52 ms event pin v =
    Returns-bind IsCommand (λ r. IsValid r.0) (strcpy rn52.tx_cmd (b'R' ∷ b',' ∷ b'1' ∷ [])) _
      (λ tx h. with_command rn52 Rn52State.action_or_set_cmd Rn52State.read_initial_constat tx v h)
      (strcpy-IsCommand rn52.tx_cmd (b'R' ∷ b',' ∷ b'1' ∷ []) v.cmd_size (omega arith)
        (refl, (refl, (refl, tt))))
dispatch-IsValid Rn52State.set_extfeat rn52 ms event pin v =
    Returns-bind IsCommand (λ r. IsValid r.0) (strcpy rn52.tx_cmd set_extfeat_text) _
      (λ tx h. with_command rn52 Rn52State.action_or_set_cmd Rn52State.starting_up tx v h)
      (strcpy-IsCommand rn52.tx_cmd set_extfeat_text v.cmd_size (omega arith) extfeat_plain)
dispatch-IsValid _ rn52 ms event pin v = ground arith

-- `rn52_update` stays inside its two buffers and keeps the invariant in every state: the queue of
-- commands is valid, at most 64 characters are held in `rxStr`, and `txCmd` has its 16 characters, of
-- which a zero ends the command; so every text that is copied there fits. When a character comes,
-- fewer than 64 are held before; nothing in the code sees to that.
pub update_safe :
    (rn52 : Rn52) (ms : ℕ) (event_state_pin : Bool) (rx_c : Option ℕ) (cmd_pin : Bool)
    → IsValid rn52
    → HasRoom rn52 rx_c
    → Returns (λ r. IsValid r.0) (update rn52 ms event_state_pin rx_c cmd_pin)
unfolding update
update_safe rn52 ms event_state_pin rx_c cmd_pin v room =
    Returns-bind IsValid (λ r. IsValid r.0) (store_char rn52 rx_c)
      (λ rn52'. dispatch rn52'.state rn52' ms event_state_pin cmd_pin)
      (λ rn52' v'. dispatch-IsValid rn52'.state rn52' ms event_state_pin cmd_pin v')
      (store_char-IsValid rn52 rx_c v room)
