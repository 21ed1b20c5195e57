-- ===== src/Link/Roundtrip.antt =====
-- The messages that the program builds, as the parser reads them.
pub mod Digits
pub mod Changing
pub mod DiskInfo
use diy_acura_bluetooth.Prelude.{
  ℕ, ◌+◌, ◌*◌, ◌/◌, ◌%◌, ◌^◌, ◌≤◌, ◌<◌, ◌≡◌, refl, ap, ◌∙◌, Bool, true, false, List, [], ◌∷◌, ◌++◌,
  some, arith, length, All, Returns, ◌==◌, if◌then◌else◌,
}
use diy_acura_bluetooth.Prelude.Words.{u8}
use diy_acura_bluetooth.Fifo
use diy_acura_bluetooth.Link.Types.{
  RxMsg, MsgBody, MsgParsed, PlayState, nibble_array_size, msgtype_play_state,
}
use diy_acura_bluetooth.Link.Build
use diy_acura_bluetooth.Link.Body.{parse_play_state}
use diy_acura_bluetooth.Link.Parse.{do_direction, parse_cd2head_body, parse_body, parse_msg, typed}
use diy_acura_bluetooth.Link.Parse.Checksum.{checksum, filled, parse_rest}
use diy_acura_bluetooth.Link.Core.{Link}
use diy_acura_bluetooth.Link.Core.Send.{framed, unpacked}
use diy_acura_bluetooth.Link.Core.Receive.{receive, IsReady}
use diy_acura_bluetooth.Link.Deliver.{CanReceive, GotMessage, delivered_as}
use Digits.{digits_read, play_state_digits, play_state_small, unpacked-play_state}

-- A play state message that says "playing", as the head unit reads it.
abbrev pub playing : ℕ → ℕ → ℕ → MsgParsed
playing track index seconds = record {
  direction_h2c = false;
  msg_type = msgtype_play_state;
  body = MsgBody.play_state (record {
    track = track + 1;
    index = index;
    minute = seconds / 60;
    second = seconds % 60;
    repeat_all = false;
    repeat_one = false;
    intro_scan = false;
    random = false;
    stopped = false;
    paused = false;
    play = true;
  });
}

parse_rest-play_state :
    (scratch : RxMsg) (track index seconds c : ℕ)
    → track < 99
    → index ≤ 99
    → seconds < 4800
    → let msg = filled scratch (play_state_digits track index seconds ++ c ∷ []) in
      parse_rest msg ≡ record msg { parsed = playing track index seconds }
unfolding do_direction parse_body parse_cd2head_body parse_play_state
parse_rest-play_state scratch track index seconds c ht hi hs = rw (
  parse_play_state,
  digits_read (track + 1) (omega arith),
  digits_read index hi,
  digits_read (seconds / 60) (omega arith),
  digits_read (seconds % 60) (omega arith),
)

-- The head unit's link reads back what `mbus_link_tx_playState` was given. The message that the one
-- link frames for a playing track (its nibbles, their checksum and the end code), handed to another
-- link nibble by nibble, queues one message with no error: a play state from the CD changer with the
-- track counted from 1, the index, and the time in minutes and seconds. Tracks below 99, indices
-- up to 99 and times below 80 minutes are covered; the receiving link is at rest with room.
pub play_state_delivered :
    (scratch : RxMsg) (link : Link) (track index seconds : ℕ)
    → CanReceive scratch link
    → track < 99
    → index ≤ 99
    → seconds < 4800
    → Returns (GotMessage link (playing track index seconds)) (
        receive scratch link
          (framed (unpacked (Build.play_state track index seconds true).nibbles)))
play_state_delivered scratch link track index seconds can ht hi hs =
    let ns = play_state_digits track index seconds in
    rw (unpacked-play_state track index seconds ht hi hs) (
      delivered_as scratch link ns (playing track index seconds) can (omega arith) (omega arith)
        (play_state_small track index seconds)
        (parse_rest-play_state scratch track index seconds (checksum ns) ht hi hs))
