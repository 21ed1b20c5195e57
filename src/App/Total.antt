-- ===== src/App/Total.antt =====
-- `app_update` never fails an assertion and keeps the invariant.
use diy_acura_bluetooth.Prelude.{
  ℕ, zero, suc, ◌+◌, Bool, true, false, not, ◌&&◌, Option, some, leb, ◌==◌, ◌>>=◌, if◌then◌else◌,
  Bool-cases, inl, inr, Returns, Returns-bind, if_both,
}
use diy_acura_bluetooth.Prelude.Words.{u32}
use diy_acura_bluetooth.Fifo
use diy_acura_bluetooth.Fifo.{Fifo}
use diy_acura_bluetooth.Link.Types.{TxMsg}
use diy_acura_bluetooth.Link.Core.{
  rx_is_empty, rx_pop, tx_push, tx_ping, tx_play_state, tx_changing, tx_ack_wait, tx_disk_info,
  tx_cd_power_on,
}
use diy_acura_bluetooth.Link.Build
use diy_acura_bluetooth.Rn52.State.{Rn52}
use diy_acura_bluetooth.Rn52.Commands.{
  avrcp_cmd_fifo_push, push_if_connected, is_connected, avrcp_is_playing, avrcp_play, avrcp_pause,
  avrcp_next, avrcp_prev, reconnect_last, pairing, reboot,
}
use diy_acura_bluetooth.App.State.{
  App, AppState, ping, head_power_on, play, stop, switch_disk1, switch_disk4, switch_disk5,
  switch_disk6, next, prev,
}
use diy_acura_bluetooth.App.Update.{
  take_message, take_command, reconnect_times, carry_out, is_got, send_play_state, announce, step,
  update,
}
use diy_acura_bluetooth.App.Inv.{IsValid, with_simple, with_commands, with_link, decode-IsValid}

abbrev HasCommands : Rn52 → Type 0
HasCommands rn52 = Fifo.Inv.IsValid rn52.avrcp_cmd_fifo

command-HasCommands :
    (rn52 : Rn52) (cmd : ℕ) → HasCommands rn52 → HasCommands (avrcp_cmd_fifo_push rn52 cmd)
unfolding avrcp_cmd_fifo_push
command-HasCommands rn52 cmd v =
    if_both HasCommands (not (Fifo.is_full rn52.avrcp_cmd_fifo)) (Fifo.Inv.push-IsValid cmd v) v

connected-HasCommands :
    (rn52 : Rn52) (cmd : ℕ) → HasCommands rn52 → HasCommands (push_if_connected rn52 cmd)
connected-HasCommands rn52 cmd v =
    if_both HasCommands (is_connected rn52) (command-HasCommands rn52 cmd v) v

-- A message that is sent leaves the application valid.
sent-IsValid :
    {app : App} (msg : TxMsg) → IsValid app → IsValid (record app { link = tx_push app.link msg })
unfolding tx_push
sent-IsValid {app} msg v = with_link (tx_push app.link msg) v v.rx (Fifo.Inv.push-IsValid msg v.tx)

play_state-IsValid :
    {app : App} (playing : Bool) → IsValid app → IsValid (send_play_state app playing)
unfolding tx_play_state
play_state-IsValid {app} playing v =
    sent-IsValid (Build.play_state app.track app.index app.seconds playing) v

reconnect_times-IsValid : (n : ℕ) (app : App) → IsValid app → IsValid (reconnect_times n app)
unfolding reconnect_times reconnect_last
reconnect_times-IsValid zero app v = v
reconnect_times-IsValid (suc n) app v =
    reconnect_times-IsValid n (record app { rn52 = reconnect_last app.rn52 })
      (with_commands (reconnect_last app.rn52) v (command-HasCommands app.rn52 6 v.commands))

carry_out-IsValid : (app : App) (msg : ℕ) → IsValid app → IsValid (carry_out app msg).0
unfolding carry_out tx_ping tx_cd_power_on avrcp_next avrcp_prev avrcp_play reboot pairing
carry_out-IsValid app msg v =
    let Ok : App × Bool → Type 0 = λ r. IsValid r.0 in
    let asked = λ (cmd : ℕ).
      with_commands (push_if_connected app.rn52 cmd) v
        (connected-HasCommands app.rn52 cmd v.commands) in
    let pushed = λ (cmd : ℕ).
      with_commands (avrcp_cmd_fifo_push app.rn52 cmd) v
        (command-HasCommands app.rn52 cmd v.commands) in
    if_both Ok (msg == ping) (sent-IsValid Build.ping v) (
      if_both Ok (msg == head_power_on) (sent-IsValid Build.cd_power_on v) (
        if_both Ok (msg == next) (asked 3) (
          if_both Ok (msg == prev) (asked 4) (
            if_both Ok (msg == switch_disk1) (asked 1) (
              if_both Ok (msg == switch_disk4) (pushed 8) (
                if_both Ok (msg == switch_disk5) (reconnect_times-IsValid 10 app v)
                  (if_both Ok (msg == switch_disk6) (pushed 7) v)))))))

announce-IsValid : (app : App) → IsValid app → IsValid (announce app)
unfolding announce tx_changing tx_ack_wait tx_disk_info tx_play_state
announce-IsValid app v =
    let v1 = sent-IsValid (Build.changing app.disk app.track) v in
    let v2 = sent-IsValid Build.ack_wait v1 in
    let v3 = sent-IsValid (Build.disk_info app.disk app.num_tracks app.seconds) v2 in
    let v4 = sent-IsValid Build.ack_wait v3 in
    let v5 = sent-IsValid (Build.play_state app.track app.index app.seconds true) v4 in
    record {
      simple = v5.simple;
      rx = v5.rx;
      tx = v5.tx;
      commands = v5.commands;
      tracks = v5.tracks;
      track_in = v5.track_in;
    }

-- The state, the timer and the seconds do not matter.
in_state : {app : App} (state : AppState) → IsValid app → IsValid (record app { state = state })
in_state state v = record {
  simple = v.simple;
  rx = v.rx;
  tx = v.tx;
  commands = v.commands;
  tracks = v.tracks;
  track_in = v.track_in;
}

at_time :
    {app : App} (timer seconds : ℕ)
    → IsValid app
    → IsValid (record app { timer = timer; seconds = seconds })
at_time timer seconds v = record {
  simple = v.simple;
  rx = v.rx;
  tx = v.tx;
  commands = v.commands;
  tracks = v.tracks;
  track_in = v.track_in;
}

step-IsValid :
    (state : AppState) (app : App) (got : Option ℕ) → IsValid app → IsValid (step state app got)
unfolding step avrcp_pause
step-IsValid AppState.start app got v = in_state AppState.stopped v
step-IsValid AppState.stopped app got v =
    let app1 =
      if is_got got play && avrcp_is_playing app.rn52
      then record app { state = AppState.start_playing }
      else app in
    let v1 : IsValid app1 =
      if_both IsValid (is_got got play && avrcp_is_playing app.rn52)
        (in_state AppState.start_playing v) v in
    if_both IsValid (is_got got stop) (play_state-IsValid false v1) v1
step-IsValid AppState.start_playing app got v = announce-IsValid app v
step-IsValid AppState.playing app got v =
    if_both IsValid (is_got got stop && avrcp_is_playing app.rn52)
      (in_state AppState.mbus_says_stop v)
      (if_both IsValid (is_got got play) (in_state AppState.start_playing v) (
        if_both IsValid (leb 1000 app.timer)
          (at_time 0 (u32 (app.seconds + 1)) (play_state-IsValid true v)) v))
step-IsValid AppState.mbus_says_stop app got v =
    let app1 = send_play_state (record app { state = AppState.stopped }) false in
    let v1 : IsValid app1 = play_state-IsValid false (in_state AppState.stopped v) in
    with_commands (avrcp_pause app1.rn52) v1 (connected-HasCommands app1.rn52 2 v1.commands)
step-IsValid AppState.rn52_stopped app got v = in_state AppState.stopped v

pub take_message-IsValid : (app : App) → IsValid app → Returns IsValid (take_message app)
unfolding take_message rx_is_empty rx_pop
take_message-IsValid app v = elim (Bool-cases (Fifo.is_empty app.link.rx_msg_fifo)) [
  | inl none_left ↦ rw none_left v
  | inr some_left ↦
      let (msg, f, p, c) = Fifo.Refine.pop_total app.link.rx_msg_fifo v.rx some_left in
      let link = record app.link { rx_msg_fifo = f } in
      let rx = Fifo.Inv.pop-IsValid {r = (msg, f)} v.rx p in
      rw (some_left, p) (decode-IsValid (record app { link = link }) msg (with_link link v rx v.tx))
]

take_command-IsValid : (app : App) → IsValid app → Returns (λ r. IsValid r.0) (take_command app)
unfolding take_command
take_command-IsValid app v = elim (Bool-cases (Fifo.is_empty app.simple_mbus_msg_fifo)) [
  | inl none_left ↦ rw none_left v
  | inr some_left ↦
      let (msg, f, p, c) = Fifo.Refine.pop_total app.simple_mbus_msg_fifo v.simple some_left in
      let simple = Fifo.Inv.pop-IsValid {r = (msg, f)} v.simple p in
      rw (some_left, p)
        (carry_out-IsValid (record app { simple_mbus_msg_fifo = f }) msg (with_simple v simple))
]

-- `app_update` never fails an assertion, and keeps the invariant in every state and for every message
-- and command: the four queues of the application, the link and the driver are valid, and the track
-- is one of the disk's.
pub app_update_total : (app : App) → IsValid app → Returns IsValid (update app)
unfolding update
app_update_total app v =
    Returns-bind IsValid IsValid (take_message app)
      (λ app1. take_command app1 >>= λ (app2, got). some (step app2.state app2 got))
      (λ app1 v1.
        Returns-bind (λ r. IsValid r.0) IsValid (take_command app1)
          (λ (app2, got). some (step app2.state app2 got))
          (λ r v2. step-IsValid r.0.state r.0 r.1 v2) (take_command-IsValid app1 v1))
      (take_message-IsValid app v)
