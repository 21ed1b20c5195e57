-- ===== src/Link/Print/Logged.antt =====
-- The text of a message that `mbus_link_parseMsg` gave, as the programs print it.
use diy_acura_bluetooth.Prelude.{
  ℕ, ◌+◌, ◌≤◌, ◌≡◌, true, Bool-cases, inl, inr, List, some, arith, All, length, ◌==◌, ==→eq,
  if◌then◌else◌,
}
use diy_acura_bluetooth.Link.Types.{
  RxMsg, MsgBody, msgtype_set_play_state, msgtype_set_disk_track, msgtype_set_mode,
  msgtype_changing, msgtype_play_state, msgtype_disk_info,
}
use diy_acura_bluetooth.Link.Parse.{parse_msg}
use diy_acura_bluetooth.Link.Parse.Typed.{IsByte, IsParsed, HoldsBytes, tag, has_body}
use diy_acura_bluetooth.Link.Parse.Stages.{parse_msg-IsParsed}
use diy_acura_bluetooth.Link.Print.Text.{
  formatted, set_play_state_text, set_disk_track_text, set_mode_text, changing_text,
  play_state_text, disk_info_text, body_text, other_text,
}
use diy_acura_bluetooth.Link.Print.Buffer.{msg_to_str}
use diy_acura_bluetooth.Link.Print.Expected.{IsOwn, IsPrintable, message_text, printed}
use diy_acura_bluetooth.Link.Print.Bound.{msg_to_str_within}

chosen-IsOwn :
    (t own : ℕ) (text : List ℕ)
    → (has_body t ≡ true → own ≡ t)
    → IsOwn (if t == own then formatted text else other_text t)
chosen-IsOwn t own text h = elim (Bool-cases (t == own)) [
  | inl same ↦ rw same tt
  | inr other ↦ elim (Bool-cases (has_body t)) [
    | inl has ↦ absurd (ground (arith, h has))
    | inr lacks ↦ rw (other, lacks) tt
  ]
]

tagged-IsOwn : (t : ℕ) (b : MsgBody) → (has_body t ≡ true → tag b ≡ t) → IsOwn (body_text t b)
unfolding body_text
tagged-IsOwn t (MsgBody.set_play_state b) h =
    chosen-IsOwn t msgtype_set_play_state (set_play_state_text b) h
tagged-IsOwn t (MsgBody.set_disk_track b) h =
    chosen-IsOwn t msgtype_set_disk_track (set_disk_track_text b) h
tagged-IsOwn t (MsgBody.set_mode b) h = chosen-IsOwn t msgtype_set_mode (set_mode_text b) h
tagged-IsOwn t (MsgBody.changing b) h = chosen-IsOwn t msgtype_changing (changing_text b) h
tagged-IsOwn t (MsgBody.play_state b) h = chosen-IsOwn t msgtype_play_state (play_state_text b) h
tagged-IsOwn t (MsgBody.disk_info b) h = chosen-IsOwn t msgtype_disk_info (disk_info_text b) h

pub IsParsed-IsPrintable : (msg : RxMsg) → IsParsed msg → IsPrintable msg
IsParsed-IsPrintable msg p unknown = elim (Bool-cases (msg.err_id == 0)) [
  | inl sound ↦ tagged-IsOwn msg.parsed.msg_type msg.parsed.body (p.tagged (==→eq _ _ sound))
  | inr failed ↦ absurd (ground (arith, p.known failed))
]

-- Whatever bytes the receiver hands on as a message, the message that the parser makes of them is
-- printed whole into a buffer of 256 characters (MSG_STR_SIZE): every store is inside the buffer, and
-- the text and its ending zero take at most 170 characters of it. The structure that is filled in holds
-- bytes before.
pub parsed_message_printed :
    (seq : List ℕ) (n : ℕ) (out : RxMsg) (memory : List ℕ)
    → All IsByte seq
    → HoldsBytes out
    → length memory ≡ 256
    → (msg_to_str (parse_msg seq n out) memory 256
        ≡ some (
          printed memory 256 (parse_msg seq n out),
          length (message_text (parse_msg seq n out)) + 1,
        ))
      × (length (message_text (parse_msg seq n out)) + 1 ≤ 170)
parsed_message_printed seq n out memory h v size =
    let p = parse_msg-IsParsed seq n out h v in
    msg_to_str_within (parse_msg seq n out) memory (IsParsed-IsPrintable _ p) p.bytes size
