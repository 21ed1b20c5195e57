-- ===== src/App/Inv.antt =====
-- What the application keeps, through `app_decode_push_mbus_msg`.
use diy_acura_bluetooth.Prelude.{
  ℕ, ◌+◌, ◌-◌, ◌/◌, ◌<◌, Bool, not, ◌&&◌, arith, ltb, leb, ◌==◌, if◌then◌else◌, if_both,
}
use diy_acura_bluetooth.Prelude.Words.{u8}
use diy_acura_bluetooth.Fifo
use diy_acura_bluetooth.Fifo.{Fifo}
use diy_acura_bluetooth.Link.Types.{
  MsgBody, RxMsg, SetPlayState, SetDiskTrack, msgtype_ping, msgtype_set_play_state,
  msgtype_set_disk_track,
}
use diy_acura_bluetooth.Link.Core.{Link}
use diy_acura_bluetooth.Rn52.State.{Rn52}
use diy_acura_bluetooth.App.State.{App, ping, play, pause, stop, switch_disk1, next, prev}
use diy_acura_bluetooth.App.Decode.{
  track_offset, push_simple_mbus_msg, move_track, set_disk_track, set_play_state, decode_body,
  decode_push_mbus_msg,
}

-- The queues are valid, and the track is one of the disk's.
pub record IsValid (app : App) : Type 0 where
  pub simple : Fifo.Inv.IsValid app.simple_mbus_msg_fifo
  pub rx : Fifo.Inv.IsValid app.link.rx_msg_fifo
  pub tx : Fifo.Inv.IsValid app.link.tx_msg_fifo
  pub commands : Fifo.Inv.IsValid app.rn52.avrcp_cmd_fifo
  pub tracks : app.num_tracks < 256
  pub track_in : app.track < app.num_tracks

pub with_simple :
    {app : App} {f : Fifo ℕ}
    → IsValid app
    → Fifo.Inv.IsValid f
    → IsValid (record app { simple_mbus_msg_fifo = f })
with_simple v w = record {
  simple = w;
  rx = v.rx;
  tx = v.tx;
  commands = v.commands;
  tracks = v.tracks;
  track_in = v.track_in;
}

with_track :
    {app : App} (t : ℕ) → IsValid app → t < app.num_tracks → IsValid (record app { track = t })
with_track t v h = record {
  simple = v.simple;
  rx = v.rx;
  tx = v.tx;
  commands = v.commands;
  tracks = v.tracks;
  track_in = h;
}

pub with_commands :
    {app : App} (rn52 : Rn52)
    → IsValid app
    → Fifo.Inv.IsValid rn52.avrcp_cmd_fifo
    → IsValid (record app { rn52 = rn52 })
with_commands rn52 v w = record {
  simple = v.simple;
  rx = v.rx;
  tx = v.tx;
  commands = w;
  tracks = v.tracks;
  track_in = v.track_in;
}

pub with_link :
    {app : App} (link : Link)
    → IsValid app
    → Fifo.Inv.IsValid link.rx_msg_fifo
    → Fifo.Inv.IsValid link.tx_msg_fifo
    → IsValid (record app { link = link })
with_link link v r t = record {
  simple = v.simple;
  rx = r;
  tx = t;
  commands = v.commands;
  tracks = v.tracks;
  track_in = v.track_in;
}

push_simple-IsValid : (app : App) (msg : ℕ) → IsValid app → IsValid (push_simple_mbus_msg app msg)
unfolding push_simple_mbus_msg
push_simple-IsValid app msg v =
    if_both IsValid (not (Fifo.is_full app.simple_mbus_msg_fifo))
      (with_simple v (Fifo.Inv.push-IsValid msg v.simple)) v

next_track-lt :
    (track size : ℕ)
    → track < size
    → (if leb size (u8 (track + 1)) then 0 else u8 (track + 1)) < size
next_track-lt track size h = ground arith

prev_track-lt :
    (track size : ℕ)
    → track < size
    → size < 256
    → (if track == 0 then u8 (size - 1) else track - 1) < size
prev_track-lt track size h w = ground arith

move_track-IsValid : (app : App) (wanted : ℕ) → IsValid app → IsValid (move_track app wanted)
unfolding move_track
move_track-IsValid app wanted v =
    let app1 = push_simple_mbus_msg app next in
    let app2 = push_simple_mbus_msg app prev in
    let v1 = push_simple-IsValid app next v in
    let v2 = push_simple-IsValid app prev v in
    if_both IsValid (ltb (app.num_tracks / 2) (track_offset app.track wanted app.num_tracks))
      (with_track (if leb app1.num_tracks (u8 (app1.track + 1)) then 0 else u8 (app1.track + 1)) v1
        (next_track-lt app1.track app1.num_tracks v1.track_in))
      (if_both IsValid (not (track_offset app.track wanted app.num_tracks == 0))
        (with_track (if app2.track == 0 then u8 (app2.num_tracks - 1) else app2.track - 1) v2
          (prev_track-lt app2.track app2.num_tracks v2.track_in v2.tracks))
        v2)

set_disk_track-IsValid :
    (app : App) (body : SetDiskTrack) → IsValid app → IsValid (set_disk_track app body)
unfolding set_disk_track
set_disk_track-IsValid app body v =
    if_both IsValid (not (body.disk == 0) && not (body.disk == app.disk))
      (push_simple-IsValid app (switch_disk1 - 1 + body.disk) v)
      (move_track-IsValid app body.track v)

push_if-IsValid :
    (b : Bool) (msg : ℕ) (app : App)
    → IsValid app
    → IsValid (if b then push_simple_mbus_msg app msg else app)
push_if-IsValid b msg app v = if_both IsValid b (push_simple-IsValid app msg v) v

set_play_state-IsValid :
    (app : App) (body : SetPlayState) → IsValid app → IsValid (set_play_state app body)
unfolding set_play_state
set_play_state-IsValid app body v =
    push_if-IsValid body.play play _
      (push_if-IsValid body.pause pause _ (push_if-IsValid body.stop stop app v))

decode_body-IsValid :
    (app : App) (msg_type : ℕ) (body : MsgBody)
    → IsValid app
    → IsValid (decode_body app msg_type body)
unfolding decode_body
decode_body-IsValid app msg_type (MsgBody.set_play_state body) v =
    if_both IsValid (msg_type == msgtype_ping) (push_simple-IsValid app ping v)
      (if_both IsValid (msg_type == msgtype_set_play_state) (set_play_state-IsValid app body v) v)
decode_body-IsValid app msg_type (MsgBody.set_disk_track body) v =
    if_both IsValid (msg_type == msgtype_ping) (push_simple-IsValid app ping v)
      (if_both IsValid (msg_type == msgtype_set_disk_track) (set_disk_track-IsValid app body v) v)
decode_body-IsValid app msg_type _ v =
    if_both IsValid (msg_type == msgtype_ping) (push_simple-IsValid app ping v) v

pub decode-IsValid :
    (app : App) (msg : RxMsg) → IsValid app → IsValid (decode_push_mbus_msg app msg)
unfolding decode_push_mbus_msg
decode-IsValid app msg v = if_both IsValid (not (msg.err_id == 0)) v (
    if_both IsValid (not msg.parsed.direction_h2c) v
      (decode_body-IsValid app msg.parsed.msg_type msg.parsed.body v))
