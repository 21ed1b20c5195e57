-- ===== src/Link/Print/Expected.antt =====
-- The text that `mbus_link_msgToStr` means to print of a message, as a list of characters.
use diy_acura_bluetooth.Prelude.{
  ℕ, zero, suc, ◌-◌, ◌≡◌, false, List, [], ◌∷◌, ◌++◌, set, if◌then◌else◌,
}
use diy_acura_bluetooth.Link.Types.{MsgParsed, RawNibbleList, RxMsg}
use diy_acura_bluetooth.Link.Parse.Typed.{is_known_error}
use diy_acura_bluetooth.Link.Print.Text.{
  label, direction_text, BodyText, foreign, formatted, body_text, error_text, column,
}
use diy_acura_bluetooth.Link.Print.Buffer.{put}

-- The characters of the columns from `idx` on.
unfoldable pub columns : ℕ → ℕ → RawNibbleList → List ℕ
columns zero idx raw = []
columns (suc rounds) idx raw = column raw idx ∷ columns rounds (suc idx) raw

abbrev pub text_of : BodyText → List ℕ
text_of (formatted text) = text
text_of _ = []

abbrev pub parsed_text : MsgParsed → List ℕ
parsed_text parsed =
    direction_text parsed.direction_h2c
    ++ (label parsed.msg_type ++ text_of (body_text parsed.msg_type parsed.body))

-- What follows the columns.
abbrev pub tail_text : RxMsg → List ℕ
tail_text msg = if is_known_error msg.err_id then error_text msg.err_id else parsed_text msg.parsed

-- The whole text of a message.
unfoldable pub message_text : RxMsg → List ℕ
message_text msg = columns 18 0 msg.raw_nibbles ++ (b' ' ∷ tail_text msg)

-- The body is the member of the union that the type says.
abbrev pub IsOwn : BodyText → Type 0
IsOwn foreign = ⊥
IsOwn _ = Unit

abbrev pub IsPrintable : RxMsg → Type 0
IsPrintable msg =
    is_known_error msg.err_id ≡ false → IsOwn (body_text msg.parsed.msg_type msg.parsed.body)

-- The text of a message in a buffer.
abbrev pub printed : List ℕ → ℕ → RxMsg → List ℕ
printed memory max_size msg = put (set memory (max_size - 1) 0) 0 (message_text msg ++ 0 ∷ [])
