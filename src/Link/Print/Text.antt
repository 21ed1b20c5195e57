-- ===== src/Link/Print/Text.antt =====
-- What `msgParsedToStr` and `mbus_link_msgToStr` print of a message: the label of its type, the format
-- and the arguments of its body, the errors, and the columns of raw nibbles.
use diy_acura_bluetooth.Prelude.{ℕ, Bool, List, [], ◌∷◌, get_or, ltb, ◌==◌, if◌then◌else◌}
use diy_acura_bluetooth.Phy.Ascii.{rxnibble2ascii}
use diy_acura_bluetooth.Link.Types.{
  SetPlayState, SetDiskTrack, SetMode, Changing, PlayState, DiskInfo, MsgBody, RawNibbleList,
  err_id_signal, err_id_length, err_id_checksum, err_id_direction, msgtype_ping,
  msgtype_set_play_state, msgtype_head_power_on, msgtype_set_disk_track, msgtype_set_mode,
  msgtype_pong, msgtype_ack_wait, msgtype_cd_power_on, msgtype_changing, msgtype_play_state,
  msgtype_disk_info, msgtype_unknown_status,
}
use diy_acura_bluetooth.Link.Parse.Typed.{has_body}
use diy_acura_bluetooth.Link.Print.Format.{codes, of_bool, format}

-- The first argument of `_addStr` after the direction, on each branch.
unfoldable pub label : ℕ → List ℕ
label t =
    if t == msgtype_ping
    then codes "ping            "
    else if t == msgtype_set_play_state
    then codes "setPlayState    "
    else if t == msgtype_set_disk_track
    then codes "setDiskTrack    "
    else if t == msgtype_set_mode
    then codes "setMode         "
    else if t == msgtype_head_power_on
    then codes "headPowerOn     "
    else if t == msgtype_pong
    then codes "pong            "
    else if t == msgtype_ack_wait
    then codes "ackWait         "
    else if t == msgtype_cd_power_on
    then codes "cdPowerOn       "
    else if t == msgtype_changing
    then codes "changing        "
    else if t == msgtype_play_state
    then codes "playState       "
    else if t == msgtype_disk_info
    then codes "diskInfo        "
    else if t == msgtype_unknown_status
    then codes "unknownStatus   "
    else codes "STRIFY ERR      "

abbrev pub direction_text : Bool → List ℕ
direction_text h2c = if h2c then codes "H2C " else codes "C2H "

unfoldable pub set_play_state_text : SetPlayState → List ℕ
set_play_state_text b =
    format "resume%d stop%d scanStop%d fastReverse%d fastForward%d pause%d play%d" (
      of_bool b.resume
      ∷ of_bool b.stop
      ∷ of_bool b.scan_stop
      ∷ of_bool b.fast_reverse
      ∷ of_bool b.fast_forward
      ∷ of_bool b.pause
      ∷ of_bool b.play
      ∷ [])

unfoldable pub set_disk_track_text : SetDiskTrack → List ℕ
set_disk_track_text b =
    format "disk#%d track:%02d pause%d play%d random%d"
      (b.disk ∷ b.track ∷ of_bool b.pause ∷ of_bool b.play ∷ of_bool b.random ∷ [])

unfoldable pub set_mode_text : SetMode → List ℕ
set_mode_text b =
    format "repeatAll%d repeatOne%d introScan%d random%d"
      (of_bool b.repeat_all ∷ of_bool b.repeat_one ∷ of_bool b.intro_scan ∷ of_bool b.random ∷ [])

unfoldable pub changing_text : Changing → List ℕ
changing_text b =
    format "disk#%d Trk%02d eject%d noshuttle%d busy%d repeatAll%d repeatOne%d random%d done%d" (
      b.disk
      ∷ b.track
      ∷ of_bool b.eject
      ∷ of_bool b.noshuttle
      ∷ of_bool b.busy
      ∷ of_bool b.repeat_all
      ∷ of_bool b.repeat_one
      ∷ of_bool b.random
      ∷ of_bool b.done
      ∷ [])

unfoldable pub play_state_text : PlayState → List ℕ
play_state_text b =
    format
      "Trk:Idx %02u:%02u min:sec %02d:%02d repeatAll%d repeatOne%d introScan%d random%d stop%d pause%d play%d"
      (b.track
        ∷ b.index
        ∷ b.minute
        ∷ b.second
        ∷ of_bool b.repeat_all
        ∷ of_bool b.repeat_one
        ∷ of_bool b.intro_scan
        ∷ of_bool b.random
        ∷ of_bool b.stopped
        ∷ of_bool b.paused
        ∷ of_bool b.play
        ∷ [])

unfoldable pub disk_info_text : DiskInfo → List ℕ
disk_info_text b =
    format "disk#%d tracks %02d min:sec %02d:%02d flags %x"
      (b.disk ∷ b.tracks ∷ b.minutes ∷ b.seconds ∷ b.flags ∷ [])

-- What a branch prints after the label: nothing, by `snprintf`, or the bytes of a member of the union
-- that was not the last one written, of which the model does not know how they are laid out.
pub data BodyText : Type 0 where
  no_text foreign : BodyText
  formatted : List ℕ → BodyText

abbrev pub other_text : ℕ → BodyText
other_text t = if has_body t then foreign else no_text

unfoldable pub body_text : ℕ → MsgBody → BodyText
body_text t (MsgBody.set_play_state b) =
    if t == msgtype_set_play_state then formatted (set_play_state_text b) else other_text t
body_text t (MsgBody.set_disk_track b) =
    if t == msgtype_set_disk_track then formatted (set_disk_track_text b) else other_text t
body_text t (MsgBody.set_mode b) =
    if t == msgtype_set_mode then formatted (set_mode_text b) else other_text t
body_text t (MsgBody.changing b) =
    if t == msgtype_changing then formatted (changing_text b) else other_text t
body_text t (MsgBody.play_state b) =
    if t == msgtype_play_state then formatted (play_state_text b) else other_text t
body_text t (MsgBody.disk_info b) =
    if t == msgtype_disk_info then formatted (disk_info_text b) else other_text t

-- The format of the branch of an error. None of them has a directive.
unfoldable pub error_text : ℕ → List ℕ
error_text e =
    if e == err_id_signal
    then codes "ERROR: Bad bus signaling"
    else if e == err_id_length
    then codes "ERROR: Bad message length"
    else if e == err_id_checksum
    then codes "ERROR: CheckSum"
    else if e == err_id_direction
    then codes "ERROR: Unexpected Direction"
    else codes "ERROR: Unknown message type"

-- The character of one round of the loop over 18 columns.
abbrev pub column : RawNibbleList → ℕ → ℕ
column raw idx = if ltb idx raw.num_nibbles then rxnibble2ascii (get_or raw.nibbles idx 0) else b' '
