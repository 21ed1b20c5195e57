-- ===== src/App/Decode.antt =====
-- `app_decode_push_mbus_msg`: a message of the head unit as simple commands.
use diy_acura_bluetooth.Prelude.{
  ℕ, ◌+◌, ◌-◌, ◌/◌, ◌%◌, Bool, not, ◌&&◌, ltb, leb, ◌==◌, if◌then◌else◌,
}
use diy_acura_bluetooth.Prelude.Words.{u8}
use diy_acura_bluetooth.Fifo
use diy_acura_bluetooth.Link.Types.{
  RxMsg, MsgBody, SetPlayState, SetDiskTrack, msgtype_ping, msgtype_set_play_state,
  msgtype_set_disk_track,
}
use diy_acura_bluetooth.App.State.{App, ping, play, pause, stop, switch_disk1, next, prev}

-- `_app_push_simple_mbus_msg`
unfoldable pub push_simple_mbus_msg : App → ℕ → App
push_simple_mbus_msg app msg =
    if not (Fifo.is_full app.simple_mbus_msg_fifo)
    then record app { simple_mbus_msg_fifo = Fifo.push app.simple_mbus_msg_fifo msg }
    else app

abbrev push_if : Bool → ℕ → App → App
push_if b msg app = if b then push_simple_mbus_msg app msg else app

-- `(track - (wanted - 1)) % numTracks` as an `int`, and `numTracks` added to a negative result.
unfoldable pub track_offset : ℕ → ℕ → ℕ → ℕ
track_offset track wanted num_tracks =
    if leb wanted (track + 1)
    then (track + 1 - wanted) % num_tracks
    else (let r = (wanted - (track + 1)) % num_tracks in if r == 0 then 0 else num_tracks - r)

-- The branch of MSGTYPE_setDiskTrack that stays on the disk: one track on or back, whichever is nearer.
unfoldable pub move_track : App → ℕ → App
unfolding track_offset push_simple_mbus_msg
move_track app wanted =
    let offset = track_offset app.track wanted app.num_tracks in
    if ltb (app.num_tracks / 2) offset
    then (let app1 = push_simple_mbus_msg app next in
        let track = u8 (app1.track + 1) in
        record app1 { track = if leb app1.num_tracks track then 0 else track })
    else (let app1 = push_simple_mbus_msg app prev in
        if not (offset == 0)
        then record app1 {
          track = if app1.track == 0 then u8 (app1.num_tracks - 1) else app1.track - 1;
        }
        else app1)

unfoldable pub set_disk_track : App → SetDiskTrack → App
unfolding move_track push_simple_mbus_msg
set_disk_track app body =
    if not (body.disk == 0) && not (body.disk == app.disk)
    then push_simple_mbus_msg app (switch_disk1 - 1 + body.disk)
    else move_track app body.track

unfoldable pub set_play_state : App → SetPlayState → App
unfolding push_simple_mbus_msg
set_play_state app body =
    push_if body.play play (push_if body.pause pause (push_if body.stop stop app))

-- The `switch`. The body is read as the member that its type says, which is the member that the
-- parser wrote; the clauses that the parser does not give leave the application as it is.
unfoldable pub decode_body : App → ℕ → MsgBody → App
unfolding set_disk_track set_play_state push_simple_mbus_msg
decode_body app msg_type (MsgBody.set_play_state body) =
    if msg_type == msgtype_ping
    then push_simple_mbus_msg app ping
    else if msg_type == msgtype_set_play_state
    then set_play_state app body
    else app
decode_body app msg_type (MsgBody.set_disk_track body) =
    if msg_type == msgtype_ping
    then push_simple_mbus_msg app ping
    else if msg_type == msgtype_set_disk_track
    then set_disk_track app body
    else app
decode_body app msg_type _ = if msg_type == msgtype_ping then push_simple_mbus_msg app ping else app

-- `app_decode_push_mbus_msg`
unfoldable pub decode_push_mbus_msg : App → RxMsg → App
unfolding decode_body
decode_push_mbus_msg app msg =
    if not (msg.err_id == 0)
    then app
    else if not msg.parsed.direction_h2c
    then app
    else decode_body app msg.parsed.msg_type msg.parsed.body
