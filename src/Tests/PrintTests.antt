-- ===== src/Tests/PrintTests.antt =====
-- Messages printed by `mbus_link_msgToStr`.
use diy_acura_bluetooth.Prelude.{
  ℕ, ◌+◌, ◌≤◌, ◌≡◌, refl, true, false, List, ◌∷◌, none, some, length, replicate, arith,
}
use diy_acura_bluetooth.Link.Types.{MsgBody, RxMsg, PlayState}
use diy_acura_bluetooth.Link.Parse.{parse_msg}
use diy_acura_bluetooth.Link.Parse.Typed.{HoldsBytes, IsParsed}
use diy_acura_bluetooth.Link.Parse.Stages
use diy_acura_bluetooth.Link.Print.Format.{codes, format}
use diy_acura_bluetooth.Phy.Ascii.{rxnibble2ascii}
use diy_acura_bluetooth.Link.Print.Text.{label, body_text, play_state_text}
use diy_acura_bluetooth.Link.Print.Buffer.{
  msg_to_str, column_loop, print_message, msg_parsed_to_str, end_str, write,
}
use diy_acura_bluetooth.Link.Print.Written
use diy_acura_bluetooth.Link.Print.Expected.{message_text, printed, columns}
use diy_acura_bluetooth.Link.Print.Overrun
use diy_acura_bluetooth.Link.Print.Logged

abbrev blank_parsed : RxMsg
blank_parsed = record {
  err_id = 0;
  parsed = record {
    direction_h2c = false;
    msg_type = 0;
    body = MsgBody.disk_info (record { disk = 0; tracks = 0; minutes = 0; seconds = 0; flags = 0 });
  };
  raw_nibbles = record { nibbles = replicate 32 0; num_nibbles = 0 };
}

-- Track 12, index 1, 1 minute and 5 seconds, played on.
abbrev playing_body : PlayState
playing_body = record {
  track = 12;
  index = 1;
  minute = 1;
  second = 5;
  repeat_all = false;
  repeat_one = false;
  intro_scan = false;
  random = false;
  stopped = false;
  paused = false;
  play = true;
}

abbrev playing_message : RxMsg
playing_message = record {
  err_id = 0;
  parsed = record {
    direction_h2c = false;
    msg_type = 0x24;
    body = MsgBody.play_state playing_body;
  };
  raw_nibbles = record { nibbles = replicate 32 9; num_nibbles = 2 };
}

abbrev ping_message : RxMsg
ping_message = record {
  err_id = 0;
  parsed = record { direction_h2c = true; msg_type = 0x10; body = MsgBody.play_state playing_body };
  raw_nibbles = record { nibbles = 1 ∷ 8 ∷ 10 ∷ replicate 29 0; num_nibbles = 3 };
}

playing_printed :
    message_text playing_message
    ≡ codes
        "99                 C2H playState       Trk:Idx 12:01 min:sec 01:05 repeatAll0 repeatOne0 introScan0 random0 stop0 pause0 play1"
unfolding message_text columns label body_text play_state_text format rxnibble2ascii
playing_printed = refl

ping_printed : message_text ping_message ≡ codes "18A                H2C ping            "
unfolding message_text columns label body_text rxnibble2ascii
ping_printed = refl

-- A buffer of 41 characters and what is left of it.
ping_run :
    msg_to_str ping_message (replicate 41 7) 41
    ≡ some (printed (replicate 41 7) 41 ping_message, 40)
unfolding msg_to_str write column_loop print_message msg_parsed_to_str label body_text end_str
    message_text columns
ping_run = refl

msg_to_str_fits_example :
    msg_to_str ping_message (replicate 64 7) 64
    ≡ some (printed (replicate 64 7) 64 ping_message, length (message_text ping_message) + 1)
unfolding message_text body_text columns label
msg_to_str_fits_example =
    Written.msg_to_str_fits ping_message (replicate 64 7) 64 (λ _. tt) (omega arith) (omega arith)
      (omega arith)

msg_to_str_overruns_example :
    msg_to_str playing_message (replicate 64 7) (length {A = ℕ} (replicate 64 7)) ≡ none
unfolding message_text body_text columns label play_state_text format
msg_to_str_overruns_example =
    Overrun.msg_to_str_overruns playing_message (play_state_text playing_body) (replicate 64 7) refl
      refl (omega arith) (omega arith) (omega arith) (omega arith)

abbrev pong_nibbles : List ℕ
pong_nibbles = 9 ∷ 8 ∷ 2 ∷ 18 ∷ replicate 28 0

blank-HoldsBytes : HoldsBytes blank_parsed
blank-HoldsBytes = record { raw = omega arith; body = omega arith }

parse_msg-IsParsed_example : IsParsed (parse_msg pong_nibbles 3 blank_parsed)
parse_msg-IsParsed_example =
    Stages.parse_msg-IsParsed pong_nibbles 3 blank_parsed (omega arith) blank-HoldsBytes

parsed_message_printed_example :
    (msg_to_str (parse_msg pong_nibbles 3 blank_parsed) (replicate 256 0) 256
      ≡ some (
        printed (replicate 256 0) 256 (parse_msg pong_nibbles 3 blank_parsed),
        length (message_text (parse_msg pong_nibbles 3 blank_parsed)) + 1,
      ))
    × (length (message_text (parse_msg pong_nibbles 3 blank_parsed)) + 1 ≤ 170)
parsed_message_printed_example =
    Logged.parsed_message_printed pong_nibbles 3 blank_parsed (replicate 256 0) (omega arith)
      blank-HoldsBytes refl
