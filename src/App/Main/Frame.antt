-- ===== src/App/Main/Frame.antt =====
-- What `app_update` leaves alone in the link and in the driver: it sends messages and queues commands,
-- and has no say in the direction of the link, in the message that comes in, or in the serial buffers.
use diy_acura_bluetooth.Prelude.{
  ℕ, zero, suc, ◌+◌, ◌-◌, ◌/◌, ◌≡◌, refl, ◌∙◌, Bool, true, false, not, ◌&&◌, List, Option, some,
  ltb, leb, ◌==◌, ◌>>=◌, if◌then◌else◌, Bool-cases, inl, inr, Returns, Returns-bind, Returns-both,
  if_both,
}
use diy_acura_bluetooth.Prelude.Words.{u32}
use diy_acura_bluetooth.Fifo
use diy_acura_bluetooth.Link.Types.{
  RawNibbleList, MsgBody, RxMsg, TxMsg, SetPlayState, SetDiskTrack, msgtype_ping,
  msgtype_set_play_state, msgtype_set_disk_track,
}
use diy_acura_bluetooth.Link.Core.{
  rx_is_empty, rx_pop, tx_push, tx_ping, tx_play_state, tx_changing, tx_ack_wait, tx_disk_info,
  tx_cd_power_on,
}
use diy_acura_bluetooth.Link.Build
use diy_acura_bluetooth.Rn52.State.{Rn52}
use diy_acura_bluetooth.Rn52.Commands.{
  avrcp_cmd_fifo_push, push_if_connected, is_connected, avrcp_is_playing, avrcp_play, avrcp_pause,
  avrcp_next, avrcp_prev, reconnect_last, pairing, reboot,
}
use diy_acura_bluetooth.App.State.{
  App, AppState, ping, head_power_on, play, pause, stop, switch_disk1, switch_disk4, switch_disk5,
  switch_disk6, next, prev,
}
use diy_acura_bluetooth.App.Decode.{
  track_offset, push_simple_mbus_msg, move_track, set_disk_track, set_play_state, decode_body,
  decode_push_mbus_msg,
}
use diy_acura_bluetooth.App.Inv.{IsValid}
use diy_acura_bluetooth.App.Total.{take_message-IsValid}
use diy_acura_bluetooth.App.Update.{
  take_message, take_command, reconnect_times, carry_out, is_got, send_play_state, announce, step,
  update,
}

-- The serial buffers of a driver.
pub record Serial : Type 0 where
  pub rx_str : List ℕ
  pub rx_str_len : ℕ
  pub tx_cmd : List ℕ

abbrev pub serial : Rn52 → Serial
serial rn52 = record { rx_str = rn52.rx_str; rx_str_len = rn52.rx_str_len; tx_cmd = rn52.tx_cmd }

-- What is left alone.
pub record Rest : Type 0 where
  pub rx_not_tx_mode : Bool
  pub nibbles : RawNibbleList
  pub buffers : Serial

abbrev pub rest : App → Rest
rest app = record {
  rx_not_tx_mode = app.link.rx_not_tx_mode;
  nibbles = app.link.nibbles;
  buffers = serial app.rn52;
}

module _ (kept : Rest) where
  pub record Kept (app : App) : Type 0 where
    pub same : rest app ≡ kept

  -- The parts that are compared are those of another application.
  moved : {app : App} (app1 : App) → rest app1 ≡ rest app → Kept app → Kept app1
  moved app1 e k = record { same = e ∙ k.same }

  push_simple-Kept : (app : App) (msg : ℕ) → Kept app → Kept (push_simple_mbus_msg app msg)
  unfolding push_simple_mbus_msg
  push_simple-Kept app msg k =
      if_both Kept (not (Fifo.is_full app.simple_mbus_msg_fifo))
        (moved (record app { simple_mbus_msg_fifo = Fifo.push app.simple_mbus_msg_fifo msg }) refl
          k)
        k

  with_track : (app : App) (track : ℕ) → Kept app → Kept (record app { track = track })
  with_track app track k = moved (record app { track = track }) refl k

  with_link :
      (app : App) (msg : TxMsg) → Kept app → Kept (record app { link = tx_push app.link msg })
  unfolding tx_push
  with_link app msg k = moved (record app { link = tx_push app.link msg }) refl k

  in_state : (app : App) (state : AppState) → Kept app → Kept (record app { state = state })
  in_state app state k = moved (record app { state = state }) refl k

  move_track-Kept : (app : App) (wanted : ℕ) → Kept app → Kept (move_track app wanted)
  unfolding move_track
  move_track-Kept app wanted k =
      let app2 = push_simple_mbus_msg app prev in
      let k2 = push_simple-Kept app prev k in
      if_both Kept (ltb (app.num_tracks / 2) (track_offset app.track wanted app.num_tracks))
        (with_track (push_simple_mbus_msg app next) _ (push_simple-Kept app next k))
        (if_both Kept (not (track_offset app.track wanted app.num_tracks == 0))
          (with_track app2 _ k2) k2)

  set_disk_track-Kept :
      (app : App) (body : SetDiskTrack) → Kept app → Kept (set_disk_track app body)
  unfolding set_disk_track
  set_disk_track-Kept app body k =
      if_both Kept (not (body.disk == 0) && not (body.disk == app.disk))
        (push_simple-Kept app (switch_disk1 - 1 + body.disk) k) (move_track-Kept app body.track k)

  push_if-Kept :
      (b : Bool) (msg : ℕ) (app : App)
      → Kept app
      → Kept (if b then push_simple_mbus_msg app msg else app)
  push_if-Kept b msg app k = if_both Kept b (push_simple-Kept app msg k) k

  set_play_state-Kept :
      (app : App) (body : SetPlayState) → Kept app → Kept (set_play_state app body)
  unfolding set_play_state
  set_play_state-Kept app body k =
      push_if-Kept body.play play _
        (push_if-Kept body.pause pause _ (push_if-Kept body.stop stop app k))

  decode_body-Kept :
      (app : App) (msg_type : ℕ) (body : MsgBody) → Kept app → Kept (decode_body app msg_type body)
  unfolding decode_body
  decode_body-Kept app msg_type (MsgBody.set_play_state body) k =
      if_both Kept (msg_type == msgtype_ping) (push_simple-Kept app ping k)
        (if_both Kept (msg_type == msgtype_set_play_state) (set_play_state-Kept app body k) k)
  decode_body-Kept app msg_type (MsgBody.set_disk_track body) k =
      if_both Kept (msg_type == msgtype_ping) (push_simple-Kept app ping k)
        (if_both Kept (msg_type == msgtype_set_disk_track) (set_disk_track-Kept app body k) k)
  decode_body-Kept app msg_type _ k =
      if_both Kept (msg_type == msgtype_ping) (push_simple-Kept app ping k) k

  decode-Kept : (app : App) (msg : RxMsg) → Kept app → Kept (decode_push_mbus_msg app msg)
  unfolding decode_push_mbus_msg
  decode-Kept app msg k = if_both Kept (not (msg.err_id == 0)) k (
      if_both Kept (not msg.parsed.direction_h2c) k
        (decode_body-Kept app msg.parsed.msg_type msg.parsed.body k))

  -- A command that is queued, or is not.
  command-Kept :
      (app : App) (cmd : ℕ)
      → Kept app
      → Kept (record app { rn52 = avrcp_cmd_fifo_push app.rn52 cmd })
  unfolding avrcp_cmd_fifo_push
  command-Kept app cmd k =
      if_both (λ rn52. Kept (record app { rn52 = rn52 }))
        (not (Fifo.is_full app.rn52.avrcp_cmd_fifo))
        (moved
          (record app {
            rn52 = record app.rn52 { avrcp_cmd_fifo = Fifo.push app.rn52.avrcp_cmd_fifo cmd };
          })
          refl k)
        (moved (record app { rn52 = app.rn52 }) refl k)

  connected-Kept :
      (app : App) (cmd : ℕ) → Kept app → Kept (record app { rn52 = push_if_connected app.rn52 cmd })
  connected-Kept app cmd k =
      if_both (λ rn52. Kept (record app { rn52 = rn52 })) (is_connected app.rn52)
        (command-Kept app cmd k) (moved (record app { rn52 = app.rn52 }) refl k)

  reconnect_times-Kept : (n : ℕ) (app : App) → Kept app → Kept (reconnect_times n app)
  unfolding reconnect_times reconnect_last
  reconnect_times-Kept zero app k = k
  reconnect_times-Kept (suc n) app k =
      reconnect_times-Kept n (record app { rn52 = reconnect_last app.rn52 }) (command-Kept app 6 k)

  carry_out-Kept : (app : App) (msg : ℕ) → Kept app → Kept (carry_out app msg).0
  unfolding carry_out tx_ping tx_cd_power_on avrcp_next avrcp_prev avrcp_play reboot pairing
  carry_out-Kept app msg k =
      let Ok : App × Bool → Type 0 = λ r. Kept r.0 in
      if_both Ok (msg == ping) (with_link app Build.ping k) (
        if_both Ok (msg == head_power_on) (with_link app Build.cd_power_on k) (
          if_both Ok (msg == next) (connected-Kept app 3 k) (
            if_both Ok (msg == prev) (connected-Kept app 4 k) (
              if_both Ok (msg == switch_disk1) (connected-Kept app 1 k) (
                if_both Ok (msg == switch_disk4) (command-Kept app 8 k) (
                  if_both Ok (msg == switch_disk5) (reconnect_times-Kept 10 app k)
                    (if_both Ok (msg == switch_disk6) (command-Kept app 7 k) k)))))))

  play_state-Kept : (app : App) (playing : Bool) → Kept app → Kept (send_play_state app playing)
  unfolding tx_play_state
  play_state-Kept app playing k =
      with_link app (Build.play_state app.track app.index app.seconds playing) k

  announce-Kept : (app : App) → Kept app → Kept (announce app)
  unfolding announce tx_play_state tx_changing tx_ack_wait tx_disk_info tx_push
  announce-Kept app k = record { same = k.same }

  step-Kept : (state : AppState) (app : App) (got : Option ℕ) → Kept app → Kept (step state app got)
  unfolding step avrcp_pause
  step-Kept AppState.start app got k = in_state app AppState.stopped k
  step-Kept AppState.stopped app got k =
      let app1 =
        if is_got got play && avrcp_is_playing app.rn52
        then record app { state = AppState.start_playing }
        else app in
      let k1 : Kept app1 =
        if_both Kept (is_got got play && avrcp_is_playing app.rn52)
          (in_state app AppState.start_playing k) k in
      if_both Kept (is_got got stop) (play_state-Kept app1 false k1) k1
  step-Kept AppState.start_playing app got k = announce-Kept app k
  step-Kept AppState.playing app got k =
      if_both Kept (is_got got stop && avrcp_is_playing app.rn52)
        (in_state app AppState.mbus_says_stop k)
        (if_both Kept (is_got got play) (in_state app AppState.start_playing k) (
          if_both Kept (leb 1000 app.timer)
            (moved
              (record (send_play_state app true) { timer = 0; seconds = u32 (app.seconds + 1) })
              refl (play_state-Kept app true k))
            k))
  step-Kept AppState.mbus_says_stop app got k =
      connected-Kept (send_play_state (record app { state = AppState.stopped }) false) 2 (
        play_state-Kept (record app { state = AppState.stopped }) false
          (in_state app AppState.stopped k))
  step-Kept AppState.rn52_stopped app got k = in_state app AppState.stopped k

  module _ (app : App) (k : Kept app) where
    take_message-Kept : Fifo.Inv.IsValid app.link.rx_msg_fifo → Returns Kept (take_message app)
    unfolding take_message rx_is_empty rx_pop
    take_message-Kept v = elim (Bool-cases (Fifo.is_empty app.link.rx_msg_fifo)) [
      | inl none_left ↦ rw none_left k
      | inr some_left ↦
          let (msg, f, p, c) = Fifo.Refine.pop_total app.link.rx_msg_fifo v some_left in
          let app1 = record app { link = record app.link { rx_msg_fifo = f } } in
          rw (some_left, p) (decode-Kept app1 msg (moved app1 refl k))
    ]

    take_command-Kept :
        Fifo.Inv.IsValid app.simple_mbus_msg_fifo → Returns (λ r. Kept r.0) (take_command app)
    unfolding take_command
    take_command-Kept v = elim (Bool-cases (Fifo.is_empty app.simple_mbus_msg_fifo)) [
      | inl none_left ↦ rw none_left k
      | inr some_left ↦
          let (msg, f, p, c) = Fifo.Refine.pop_total app.simple_mbus_msg_fifo v some_left in
          let app1 = record app { simple_mbus_msg_fifo = f } in
          rw (some_left, p) (carry_out-Kept app1 msg (moved app1 refl k))
    ]

-- `app_update` leaves alone the direction of the link, the nibbles that are coming in, and the serial
-- buffers of the driver.
pub app_update-Kept : (app : App) → IsValid app → Returns (Kept (rest app)) (update app)
unfolding update
app_update-Kept app v =
    let K = Kept (rest app) in
    Returns-bind (λ app1. IsValid app1 × K app1) K (take_message app)
      (λ app1. take_command app1 >>= λ (app2, got). some (step app2.state app2 got))
      (λ app1 p.
        Returns-bind (λ r. K r.0) K (take_command app1)
          (λ (app2, got). some (step app2.state app2 got))
          (λ r k. step-Kept (rest app) r.0.state r.0 r.1 k)
          (take_command-Kept (rest app) app1 p.1 p.0.simple))
      (Returns-both IsValid K (take_message app) (take_message-IsValid app v)
        (take_message-Kept (rest app) app (record { same = refl }) v.rx))
