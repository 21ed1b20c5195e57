-- ===== src/Rn52/Sending.antt =====
-- How a command of the queue goes out to the module, and how its answer is judged.
use mathlib.Core.List.{append-nil}
use diy_acura_bluetooth.Prelude.{
  ℕ, ◌≤◌, ◌≡◌, refl, ap, ◌∙◌, Bool, true, List, [], ◌∷◌, ◌++◌, Option, none, some, arith, length,
  lt→ltb, ◌==◌, ◌>>=◌, if◌then◌else◌, Returns,
}
use diy_acura_bluetooth.Fifo
use diy_acura_bluetooth.Fifo.{Fifo}
use diy_acura_bluetooth.Rn52.State.{
  Rn52, Rn52State, tx_cmd_size, rn52_avrcp_cmd_play, rn52_avrcp_cmd_reboot,
}
use diy_acura_bluetooth.Rn52.Chars.{copied, c_string}
use diy_acura_bluetooth.Rn52.Commands.{
  is_connected, avrcp_text, act, do_avr_cp_cmd, do_avr_cp_cmd_if_available, avrcp_cmd_fifo_pop,
}
use diy_acura_bluetooth.Rn52.Update.{go_on, run_on, store_char, dispatch, update}

-- Polls at which no character is available and the event pin is high, with what is put out.
unfoldable pub undisturbed : Rn52 → Bool → List ℕ → Option (Rn52 × List ℕ)
undisturbed rn52 pin [] = some (rn52, [])
undisturbed rn52 pin (ms ∷ times) = update rn52 ms true none pin >>= λ (rn52', pin', out).
    (undisturbed rn52' pin' times >>= λ (rn52'', outs). some (rn52'', out ++ outs))

-- The command of the module for each command of the queue but `PLAY`.
abbrev pub text_of : ℕ → List ℕ
text_of cmd =
    if cmd == 2
    then b'A' ∷ b'P' ∷ []
    else if cmd == 3
    then b'A' ∷ b'T' ∷ b'+' ∷ []
    else if cmd == 4
    then b'A' ∷ b'T' ∷ b'-' ∷ []
    else if cmd == 5
    then b'A' ∷ b'P' ∷ []
    else if cmd == 6
    then b'B' ∷ []
    else if cmd == 7
    then b'@' ∷ b',' ∷ b'1' ∷ []
    else b'R' ∷ b',' ∷ b'1' ∷ []

-- Ready for the next command: in command mode, with the far end connected, and `txCmd` as long as it is
-- declared.
pub record IsRunning (rn52 : Rn52) : Type 0 where
  pub fifo : Fifo.Inv.IsValid rn52.avrcp_cmd_fifo
  pub running : rn52.state ≡ Rn52State.running
  pub command_mode : rn52.mode_cmd_not_data ≡ true
  pub connected : is_connected rn52 ≡ true
  pub cmd_size : length rn52.tx_cmd ≡ tx_cmd_size

do_avr_cp_cmd-text :
    (rn52 : Rn52) (cmd : ℕ)
    → is_connected rn52 ≡ true
    → 2 ≤ cmd
    → cmd ≤ rn52_avrcp_cmd_reboot
    → length rn52.tx_cmd ≡ tx_cmd_size
    → do_avr_cp_cmd rn52 cmd ≡ some (act rn52 (copied rn52.tx_cmd (text_of cmd)))
unfolding do_avr_cp_cmd avrcp_text
do_avr_cp_cmd-text rn52 cmd c low high size =
    let n = length rn52.tx_cmd in
    let fits1 = lt→ltb 1 n (omega (arith, size)) in
    let fits2 = lt→ltb 2 n (omega (arith, size)) in
    let fits3 = lt→ltb 3 n (omega (arith, size)) in ground (arith, fits1, fits2, fits3)

c_string-text :
    (buffer : List ℕ) (cmd : ℕ) → c_string (copied buffer (text_of cmd)) ≡ some (text_of cmd)
unfolding c_string
c_string-text buffer cmd = ground arith

update-takes :
    (rn52 : Rn52) (ms cmd : ℕ) (pin : Bool) {q : List ℕ}
    → IsRunning rn52
    → Fifo.Refine.contents rn52.avrcp_cmd_fifo ≡ cmd ∷ q
    → (f : Fifo ℕ) × (update rn52 ms true none pin ≡ (
        do_avr_cp_cmd (record rn52 { avrcp_cmd_fifo = f }) cmd >>= λ rn52'. some (rn52', pin, [])))
      × (Fifo.Refine.contents f ≡ q)
unfolding update store_char dispatch run_on do_avr_cp_cmd_if_available avrcp_cmd_fifo_pop
update-takes rn52 ms cmd pin r c =
    let (f, p, rest) = Fifo.Refine.pop_cons rn52.avrcp_cmd_fifo r.fifo c in
    (f, ground (arith, p, Fifo.Refine.is_empty_cons r.fifo c), rest)

pub update-puts :
    (rn52 : Rn52) (ms : ℕ) (pin : Bool) {text : List ℕ}
    → rn52.state ≡ Rn52State.action_or_set_cmd
    → c_string rn52.tx_cmd ≡ some text
    → update rn52 ms true none pin
      ≡ some (
        record (go_on rn52 Rn52State.action_or_set_cmd_await_resp) {
          reply_milli_sec_time_stamp = ms;
        },
        pin,
        text ++ 13 ∷ 10 ∷ [],
      )
unfolding update store_char dispatch
update-puts rn52 ms pin s t = ground (arith, s, t)

-- A command is taken and its text put out by two polls.
put_out :
    (rn52 : Rn52) (ms1 ms2 cmd : ℕ) (pin : Bool) {q text tx_cmd : List ℕ}
    → IsRunning rn52
    → Fifo.Refine.contents rn52.avrcp_cmd_fifo ≡ cmd ∷ q
    → ((rn : Rn52)
        → is_connected rn ≡ true
        → rn.tx_cmd ≡ rn52.tx_cmd
        → do_avr_cp_cmd rn cmd ≡ some (act rn tx_cmd))
    → c_string tx_cmd ≡ some text
    → Returns
        (λ (rn52', out).
          (out ≡ text ++ 13 ∷ 10 ∷ [])
          × (Fifo.Refine.contents rn52'.avrcp_cmd_fifo ≡ q)
          × (rn52'.state ≡ Rn52State.action_or_set_cmd_await_resp)
          × (rn52'.return_state ≡ Rn52State.running))
        (undisturbed rn52 pin (ms1 ∷ ms2 ∷ []))
unfolding undisturbed
put_out rn52 ms1 ms2 cmd pin {text = text} {tx_cmd = tx_cmd} r c acts t =
    let (f, took, rest) = update-takes rn52 ms1 cmd pin r c in
    let popped = record rn52 { avrcp_cmd_fifo = f } in
    rw (took, acts popped r.connected refl, update-puts (act popped tx_cmd) ms2 pin refl t)
      (append-nil (text ++ 13 ∷ 10 ∷ []), rest, refl, refl)

-- A command of the queue is sent to the module. Two polls of a driver that is ready for it, with no
-- character and no event, take the oldest command and put out its text and the end of a line; the
-- rest of the queue is kept, and the driver waits for the answer. This holds for every command
-- but `PLAY`, while the far end is connected.
pub command_sent :
    (rn52 : Rn52) (ms1 ms2 cmd : ℕ) (pin : Bool) (q : List ℕ)
    → IsRunning rn52
    → Fifo.Refine.contents rn52.avrcp_cmd_fifo ≡ cmd ∷ q
    → 2 ≤ cmd
    → cmd ≤ rn52_avrcp_cmd_reboot
    → Returns
        (λ (rn52', out).
          (out ≡ text_of cmd ++ 13 ∷ 10 ∷ [])
          × (Fifo.Refine.contents rn52'.avrcp_cmd_fifo ≡ q)
          × (rn52'.state ≡ Rn52State.action_or_set_cmd_await_resp)
          × (rn52'.return_state ≡ Rn52State.running))
        (undisturbed rn52 pin (ms1 ∷ ms2 ∷ []))
command_sent rn52 ms1 ms2 cmd pin q r c low high =
    put_out rn52 ms1 ms2 cmd pin r c
      (λ rn connected e.
        do_avr_cp_cmd-text rn cmd connected low high (ap length e ∙ r.cmd_size)
        ∙ ap (λ buffer. some (act rn (copied buffer (text_of cmd)))) e)
      (c_string-text rn52.tx_cmd cmd)

do_avr_cp_cmd-play :
    (rn52 : Rn52)
    → is_connected rn52 ≡ true
    → do_avr_cp_cmd rn52 rn52_avrcp_cmd_play ≡ some (act rn52 rn52.tx_cmd)
unfolding do_avr_cp_cmd avrcp_text
do_avr_cp_cmd-play rn52 c = ground arith

-- `PLAY` sends the command before it once more. When it is the oldest command of a driver that is ready
-- (running, in command mode, with the far end connected), two polls with no character and no event
-- take it and put out the text that `txCmd` still holds, where a zero ends it, with the end of a line:
-- the driver takes it that the far end is playing, and leaves `txCmd` as it was.
pub play_repeats :
    (rn52 : Rn52) (ms1 ms2 : ℕ) (pin : Bool) (q last : List ℕ)
    → IsRunning rn52
    → Fifo.Refine.contents rn52.avrcp_cmd_fifo ≡ rn52_avrcp_cmd_play ∷ q
    → c_string rn52.tx_cmd ≡ some last
    → Returns
        (λ (rn52', out).
          (out ≡ last ++ 13 ∷ 10 ∷ [])
          × (Fifo.Refine.contents rn52'.avrcp_cmd_fifo ≡ q)
          × (rn52'.state ≡ Rn52State.action_or_set_cmd_await_resp)
          × (rn52'.return_state ≡ Rn52State.running))
        (undisturbed rn52 pin (ms1 ∷ ms2 ∷ []))
play_repeats rn52 ms1 ms2 pin q last r c t =
    put_out rn52 ms1 ms2 rn52_avrcp_cmd_play pin r c
      (λ rn connected e. do_avr_cp_cmd-play rn connected ∙ ap (λ tx. some (act rn tx)) e) t
