-- ===== src/Link/Types.antt =====
-- The message structures and the identifiers of mbus_link.h.
use diy_acura_bluetooth.Prelude.{ℕ, Bool, List}

abbrev pub err_id_signal : ℕ
err_id_signal = 0x1

abbrev pub err_id_length : ℕ
err_id_length = 0x2

abbrev pub err_id_checksum : ℕ
err_id_checksum = 0x3

abbrev pub err_id_direction : ℕ
err_id_direction = 0x4

abbrev pub err_id_unknown_type : ℕ
err_id_unknown_type = 0x5

abbrev pub msgtype_ping : ℕ
msgtype_ping = 0x10

abbrev pub msgtype_set_play_state : ℕ
msgtype_set_play_state = 0x11

abbrev pub msgtype_head_power_on : ℕ
msgtype_head_power_on = 0x12

abbrev pub msgtype_set_disk_track : ℕ
msgtype_set_disk_track = 0x13

abbrev pub msgtype_set_mode : ℕ
msgtype_set_mode = 0x14

abbrev pub msgtype_pong : ℕ
msgtype_pong = 0x20

abbrev pub msgtype_ack_wait : ℕ
msgtype_ack_wait = 0x21

abbrev pub msgtype_cd_power_on : ℕ
msgtype_cd_power_on = 0x22

abbrev pub msgtype_changing : ℕ
msgtype_changing = 0x23

abbrev pub msgtype_play_state : ℕ
msgtype_play_state = 0x24

abbrev pub msgtype_disk_info : ℕ
msgtype_disk_info = 0x25

abbrev pub msgtype_unknown_status : ℕ
msgtype_unknown_status = 0x26

abbrev pub nibble_array_size : ℕ
nibble_array_size = 32

-- `MbusRawNibbleListStruct`. The list is the array, of which the first `num_nibbles` count.
pub record RawNibbleList : Type 0 where
  pub nibbles : List ℕ
  pub num_nibbles : ℕ

-- `MbusPackedNibblesStruct`: a `uint64_t`, four bits to a nibble.
pub record PackedNibbles : Type 0 where
  pub pack_nibbles : ℕ
  pub num_nibbles : ℕ

pub record SetPlayState : Type 0 where
  pub resume : Bool
  pub stop : Bool
  pub scan_stop : Bool
  pub fast_reverse : Bool
  pub fast_forward : Bool
  pub pause : Bool
  pub play : Bool

pub record SetDiskTrack : Type 0 where
  pub disk : ℕ
  pub track : ℕ
  pub pause : Bool
  pub play : Bool
  pub random : Bool

pub record SetMode : Type 0 where
  pub repeat_all : Bool
  pub repeat_one : Bool
  pub intro_scan : Bool
  pub random : Bool

pub record Changing : Type 0 where
  pub disk : ℕ
  pub track : ℕ
  pub eject : Bool
  pub noshuttle : Bool
  pub busy : Bool
  pub repeat_all : Bool
  pub repeat_one : Bool
  pub random : Bool
  pub done : Bool

pub record PlayState : Type 0 where
  pub track : ℕ
  pub index : ℕ
  pub minute : ℕ
  pub second : ℕ
  pub repeat_all : Bool
  pub repeat_one : Bool
  pub intro_scan : Bool
  pub random : Bool
  pub stopped : Bool
  pub paused : Bool
  pub play : Bool

pub record DiskInfo : Type 0 where
  pub disk : ℕ
  pub tracks : ℕ
  pub minutes : ℕ
  pub seconds : ℕ
  pub flags : ℕ

-- `MbusMsgBodyUnion`, with the member that was written last.
pub data MsgBody : Type 0 where
  set_play_state : SetPlayState → MsgBody
  set_disk_track : SetDiskTrack → MsgBody
  set_mode : SetMode → MsgBody
  changing : Changing → MsgBody
  play_state : PlayState → MsgBody
  disk_info : DiskInfo → MsgBody

pub record MsgParsed : Type 0 where
  pub direction_h2c : Bool
  pub msg_type : ℕ
  pub body : MsgBody

pub record TxMsg : Type 0 where
  pub nibbles : PackedNibbles

pub record RxMsg : Type 0 where
  pub err_id : ℕ
  pub parsed : MsgParsed
  pub raw_nibbles : RawNibbleList
