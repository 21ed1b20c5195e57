-- ===== src/Link/Print/Bound.antt =====
-- How long the text of a message is: a message of bytes fits into the buffers of 256 characters that
-- the programs print into.
use diy_acura_bluetooth.Prelude.{
  ℕ, zero, suc, ◌+◌, ◌≤◌, ◌≡◌, refl, ap, Bool, true, false, ◌&&◌, List, [], ◌∷◌, ◌++◌, some, arith,
  length, length-append, All, leb, if◌then◌else◌, if_both,
}
use Prim.Native.String.{String}
use diy_acura_bluetooth.Prelude.Words.{all_below, all_below_sound}
use diy_acura_bluetooth.Link.Types.{
  SetPlayState, SetDiskTrack, SetMode, Changing, PlayState, DiskInfo, MsgBody, MsgParsed,
  RawNibbleList, RxMsg,
}
use diy_acura_bluetooth.Link.Print.Format.{
  codes, decimal, hexadecimal, pad2, of_bool, Mode, plain, percent, zero_flag, width, next_mode,
  converts, rest_args, conversion, converted, format_from, format,
}
use diy_acura_bluetooth.Link.Parse.Typed.{is_known_error, IsByte, AreBytes}
use diy_acura_bluetooth.Link.Print.Text.{
  label, direction_text, set_play_state_text, set_disk_track_text, set_mode_text, changing_text,
  play_state_text, disk_info_text, formatted, body_text, error_text, other_text,
}
use diy_acura_bluetooth.Link.Print.Buffer.{msg_to_str}
use diy_acura_bluetooth.Link.Print.Expected.{
  columns, text_of, parsed_text, tail_text, message_text, IsPrintable, printed,
}
use diy_acura_bluetooth.Link.Print.Written.{msg_to_str_fits}

-- A byte takes three characters at most, in every conversion.
is_short : ℕ → Bool
is_short a =
    leb (length (decimal a)) 3
    && leb (length (pad2 (decimal a))) 3
    && leb (length (hexadecimal a)) 3

bytes_table : all_below 256 is_short ≡ true
unfolding all_below is_short decimal hexadecimal
bytes_table = refl

length-conversion : (mode : Mode) (c a : ℕ) → IsByte a → length (conversion mode c a) ≤ 3
unfolding is_short
length-conversion width c a h = ground (arith, all_below_sound 256 is_short a bytes_table h)
length-conversion plain c a h = ground (arith, all_below_sound 256 is_short a bytes_table h)
length-conversion percent c a h = ground (arith, all_below_sound 256 is_short a bytes_table h)
length-conversion zero_flag c a h = ground (arith, all_below_sound 256 is_short a bytes_table h)

-- The characters of a directive that are read already and have printed nothing.
abbrev pending : Mode → ℕ
pending plain = 0
pending percent = 1
pending zero_flag = 2
pending width = 3

length-converted :
    (mode : Mode) (c : ℕ) (args : List ℕ)
    → All IsByte args
    → length (converted (converts mode c) mode c args)
        + pending (next_mode mode c)
        + length (rest_args (converts mode c) args)
      ≤ 1 + length args + pending mode
length-converted plain c args h = ground arith
length-converted percent c [] h = ground arith
length-converted percent c (a ∷ args) h = ground (arith, length-conversion percent c a h.0)
length-converted zero_flag c args h = ground arith
length-converted width c [] h = ground arith
length-converted width c (a ∷ args) h = ground (arith, length-conversion width c a h.0)

All-rest_args : (b : Bool) (args : List ℕ) → All IsByte args → All IsByte (rest_args b args)
All-rest_args false args h = h
All-rest_args true [] h = h
All-rest_args true (a ∷ args) h = h.1

length-format_from :
    (fmt : List ℕ) (mode : Mode) (args : List ℕ)
    → All IsByte args
    → length (format_from mode fmt args) ≤ length fmt + length args + pending mode
unfolding format_from
length-format_from [] mode args h = omega arith
length-format_from (c ∷ fmt) mode args h = omega (
  arith,
  length-append (converted (converts mode c) mode c args)
      (format_from (next_mode mode c) fmt (rest_args (converts mode c) args)),
  length-converted mode c args h,
  length-format_from fmt (next_mode mode c) (rest_args (converts mode c) args)
      (All-rest_args (converts mode c) args h),
)

-- A format prints at most one character more than it has, for each argument.
length-format :
    (fmt : String) (args : List ℕ)
    → All IsByte args
    → length (codes fmt) + length args ≤ 130
    → length (format fmt args) ≤ 130
unfolding format
length-format fmt args h short = omega (arith, length-format_from (codes fmt) plain args h)

of_bool-IsByte : (b : Bool) → IsByte (of_bool b)
of_bool-IsByte true = omega arith
of_bool-IsByte false = omega arith

-- The six formats, of which that of a play state is the longest.
length-set_play_state_text : (b : SetPlayState) → length (set_play_state_text b) ≤ 130
unfolding set_play_state_text
length-set_play_state_text b = length-format _ _ (omega (arith, of_bool-IsByte)) (omega arith)

length-set_disk_track_text :
    (b : SetDiskTrack) → AreBytes (MsgBody.set_disk_track b) → length (set_disk_track_text b) ≤ 130
unfolding set_disk_track_text
length-set_disk_track_text b h = length-format _ _ (omega (arith, h, of_bool-IsByte)) (omega arith)

length-set_mode_text : (b : SetMode) → length (set_mode_text b) ≤ 130
unfolding set_mode_text
length-set_mode_text b = length-format _ _ (omega (arith, of_bool-IsByte)) (omega arith)

length-changing_text :
    (b : Changing) → AreBytes (MsgBody.changing b) → length (changing_text b) ≤ 130
unfolding changing_text
length-changing_text b h = length-format _ _ (omega (arith, h, of_bool-IsByte)) (omega arith)

length-play_state_text :
    (b : PlayState) → AreBytes (MsgBody.play_state b) → length (play_state_text b) ≤ 130
unfolding play_state_text
length-play_state_text b h = length-format _ _ (omega (arith, h, of_bool-IsByte)) (omega arith)

length-disk_info_text :
    (b : DiskInfo) → AreBytes (MsgBody.disk_info b) → length (disk_info_text b) ≤ 130
unfolding disk_info_text
length-disk_info_text b h = length-format _ _ (omega (arith, h)) (omega arith)

length-chosen :
    (own : Bool) (t : ℕ) (text : List ℕ)
    → length text ≤ 130
    → length (text_of (if own then formatted text else other_text t)) ≤ 130
length-chosen true t text h = h
length-chosen false t text h = ground arith

length-text_of : (t : ℕ) (b : MsgBody) → AreBytes b → length (text_of (body_text t b)) ≤ 130
unfolding body_text
length-text_of t (MsgBody.play_state b) h = length-chosen _ t _ (length-play_state_text b h)
length-text_of t (MsgBody.set_play_state b) h = length-chosen _ t _ (length-set_play_state_text b)
length-text_of t (MsgBody.set_disk_track b) h = length-chosen _ t _ (length-set_disk_track_text b h)
length-text_of t (MsgBody.set_mode b) h = length-chosen _ t _ (length-set_mode_text b)
length-text_of t (MsgBody.changing b) h = length-chosen _ t _ (length-changing_text b h)
length-text_of t (MsgBody.disk_info b) h = length-chosen _ t _ (length-disk_info_text b h)

pub length-label : (t : ℕ) → length (label t) ≡ 16
unfolding label
length-label t = ground arith

length-error_text : (e : ℕ) → length (error_text e) ≤ 27
unfolding error_text
length-error_text e = ground arith

pub length-direction_text : (b : Bool) → length (direction_text b) ≡ 4
length-direction_text true = refl
length-direction_text false = refl

length-parsed_text : (p : MsgParsed) → AreBytes p.body → length (parsed_text p) ≤ 150
length-parsed_text p h = omega (
  arith,
  length-append (direction_text p.direction_h2c)
      (label p.msg_type ++ text_of (body_text p.msg_type p.body)),
  length-append (label p.msg_type) (text_of (body_text p.msg_type p.body)),
  length-direction_text p.direction_h2c,
  length-label p.msg_type,
  length-text_of p.msg_type p.body h,
)

length-tail_text : (msg : RxMsg) → AreBytes msg.parsed.body → length (tail_text msg) ≤ 150
length-tail_text msg h =
    if_both (λ s. length s ≤ 150) (is_known_error msg.err_id)
      (omega (arith, length-error_text msg.err_id)) (length-parsed_text msg.parsed h)

pub length-columns :
    (rounds idx : ℕ) (raw : RawNibbleList) → length (columns rounds idx raw) ≡ rounds
unfolding columns
length-columns zero idx raw = refl
length-columns (suc rounds) idx raw = ap suc (length-columns rounds (suc idx) raw)

length-message_text : (msg : RxMsg) → AreBytes msg.parsed.body → length (message_text msg) ≤ 169
unfolding message_text
length-message_text msg h = omega (
  arith,
  length-append (columns 18 0 msg.raw_nibbles) (b' ' ∷ tail_text msg),
  length-columns 18 0 msg.raw_nibbles,
  length-tail_text msg h,
)

-- A message of bytes, whatever its type, its error and its nibbles, is printed whole into a buffer of
-- 256 characters (MSG_STR_SIZE): every store is inside it, the text and its ending zero take at most
-- 170 of them, and the returned count is that of the text with its zero.
pub msg_to_str_within :
    (msg : RxMsg) (memory : List ℕ)
    → IsPrintable msg
    → AreBytes msg.parsed.body
    → length memory ≡ 256
    → (msg_to_str msg memory 256 ≡ some (printed memory 256 msg, length (message_text msg) + 1))
      × (length (message_text msg) + 1 ≤ 170)
msg_to_str_within msg memory own bytes size =
    let short = length-message_text msg bytes in
    (
      msg_to_str_fits msg memory 256 own (omega (arith, short)) (omega arith) (omega arith),
      omega (arith, short),
    )
