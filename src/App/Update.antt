-- ===== src/App/Update.antt =====
-- `app_update`: one message of the link is decoded, one simple command is carried out, and the state
-- machine takes a step. Log output is left out, with the printing of the message, which is Link/Print.
-- `none` is a failed assertion of `fifo_pop`.
use diy_acura_bluetooth.Prelude.{
  ℕ, zero, suc, ◌+◌, Bool, true, false, not, ◌&&◌, Option, none, some, leb, ◌==◌, ◌>>=◌,
  if◌then◌else◌,
}
use diy_acura_bluetooth.Prelude.Words.{u32}
use diy_acura_bluetooth.Fifo
use diy_acura_bluetooth.Link.Core.{
  rx_is_empty, rx_pop, tx_ping, tx_play_state, tx_changing, tx_ack_wait, tx_disk_info,
  tx_cd_power_on,
}
use diy_acura_bluetooth.Rn52.Commands.{
  avrcp_play, avrcp_pause, avrcp_next, avrcp_prev, reconnect_last, pairing, reboot,
  avrcp_is_playing,
}
use diy_acura_bluetooth.App.State.{
  App, AppState, ping, head_power_on, play, stop, switch_disk1, switch_disk4, switch_disk5,
  switch_disk6, next, prev,
}
use diy_acura_bluetooth.App.Decode.{decode_push_mbus_msg}

-- The first part: a message of the link.
unfoldable pub take_message : App → Option App
take_message app =
    if not (rx_is_empty app.link)
    then (rx_pop app.link >>= λ (msg, link).
        some (decode_push_mbus_msg (record app { link = link }) msg))
    else some app

-- "try just sending this many times as it seems to fail often"
unfoldable pub reconnect_times : ℕ → App → App
reconnect_times zero app = app
reconnect_times (suc n) app = reconnect_times n (record app { rn52 = reconnect_last app.rn52 })

-- The `switch` on a simple command, and whether it sets `gotRxMsg`.
unfoldable pub carry_out : App → ℕ → App × Bool
unfolding reconnect_times
carry_out app msg =
    if msg == ping
    then (record app { link = tx_ping app.link }, false)
    else if msg == head_power_on
    then (record app { link = tx_cd_power_on app.link }, true)
    else if msg == next
    then (record app { rn52 = avrcp_next app.rn52 }, false)
    else if msg == prev
    then (record app { rn52 = avrcp_prev app.rn52 }, false)
    else if msg == switch_disk1
    then (record app { rn52 = avrcp_play app.rn52 }, false)
    else if msg == switch_disk4
    then (record app { rn52 = reboot app.rn52 }, false)
    else if msg == switch_disk5
    then (reconnect_times 10 app, false)
    else if msg == switch_disk6
    then (record app { rn52 = pairing app.rn52 }, false)
    else (app, true)

-- The second part: the simple command that was taken, if `gotRxMsg` is set.
unfoldable pub take_command : App → Option (App × Option ℕ)
unfolding carry_out
take_command app =
    if not (Fifo.is_empty app.simple_mbus_msg_fifo)
    then (Fifo.pop app.simple_mbus_msg_fifo >>= λ (msg, fifo).
        let (app1, got) = carry_out (record app { simple_mbus_msg_fifo = fifo }) msg in
        some (app1, if got then some msg else none))
    else some (app, none)

-- `gotRxMsg && simpleMbusMsg == msg`
abbrev pub is_got : Option ℕ → ℕ → Bool
is_got none msg = false
is_got (some got) msg = got == msg

abbrev pub send_play_state : App → Bool → App
send_play_state app playing = record app {
  link = tx_play_state app.link app.track app.index app.seconds playing;
}

-- START_PLAYING
unfoldable pub announce : App → App
announce app =
    let link1 = tx_ack_wait (tx_changing app.link app.disk app.track) in
    let link2 = tx_ack_wait (tx_disk_info link1 app.disk app.num_tracks app.seconds) in
    record (send_play_state (record app { link = link2 }) true) {
      timer = 0;
      state = AppState.playing;
    }

-- The third part: the state machine.
unfoldable pub step : AppState → App → Option ℕ → App
unfolding announce
step AppState.start app got = record app { state = AppState.stopped }
step AppState.stopped app got =
    let app1 =
      if is_got got play && avrcp_is_playing app.rn52
      then record app { state = AppState.start_playing }
      else app in
    if is_got got stop then send_play_state app1 false else app1
step AppState.start_playing app got = announce app
step AppState.playing app got =
    if is_got got stop && avrcp_is_playing app.rn52
    then record app { state = AppState.mbus_says_stop }
    else if not (avrcp_is_playing app.rn52)
    then record app { state = AppState.rn52_stopped }
    else if is_got got play
    then record app { state = AppState.start_playing }
    else if leb 1000 app.timer
    then record (send_play_state app true) { timer = 0; seconds = u32 (app.seconds + 1) }
    else app
step AppState.mbus_says_stop app got =
    let app1 = send_play_state (record app { state = AppState.stopped }) false in
    record app1 { rn52 = avrcp_pause app1.rn52 }
step AppState.rn52_stopped app got = record app { state = AppState.stopped }

-- `app_update`
unfoldable pub update : App → Option App
unfolding take_message take_command step
update app = take_message app >>= λ app1.
    take_command app1 >>= λ (app2, got). some (step app2.state app2 got)
