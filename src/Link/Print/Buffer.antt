-- ===== src/Link/Print/Buffer.antt =====
-- `_addChar`, `_addStr`, `snprintf`, `msgParsedToStr` and `mbus_link_msgToStr` on a buffer.
use diy_acura_bluetooth.Prelude.{
  ℕ, zero, suc, ◌+◌, ◌-◌, ◌^◌, List, [], ◌∷◌, ◌++◌, Option, none, some, length, set, ltb, leb,
  ◌>>=◌, if◌then◌else◌,
}
use diy_acura_bluetooth.Prelude.Words.{u32}
use diy_acura_bluetooth.Link.Types.{MsgParsed, RawNibbleList, RxMsg}
use diy_acura_bluetooth.Link.Parse.Typed.{is_known_error}
use diy_acura_bluetooth.Link.Print.Text.{
  label, direction_text, BodyText, no_text, foreign, formatted, body_text, error_text, column,
}

-- The buffer, the pointer as an offset into it, and the working maximum size, an `unsigned int`.
pub record Out : Type 0 where
  pub memory : List ℕ
  pub pos : ℕ
  pub room : ℕ

-- Characters stored one after the other.
unfoldable pub put : List ℕ → ℕ → List ℕ → List ℕ
put memory pos [] = memory
put memory pos (c ∷ text) = put (set memory pos c) (suc pos) text

-- The same, where a store outside the buffer is the end of the program.
unfoldable pub write : List ℕ → ℕ → List ℕ → Option (List ℕ)
unfolding put
write memory pos text =
    if leb (pos + length text) (length memory) then some (put memory pos text) else none

abbrev pub take : ℕ → List ℕ → List ℕ
take zero text = []
take (suc n) [] = []
take (suc n) (c ∷ text) = c ∷ take n text

abbrev pub sub32 : ℕ → ℕ → ℕ
sub32 a b = u32 (a + 2 ^ 32 - u32 b)

-- `_addChar`
unfoldable pub add_char : ℕ → Out → Option Out
unfolding write
add_char c out =
    if ltb 0 out.room
    then (write out.memory out.pos (c ∷ []) >>= λ memory.
        some (record { memory = memory; pos = out.pos + 1; room = out.room - 1 }))
    else some out

-- `_addStr`
unfoldable pub add_str : List ℕ → Out → Option Out
unfolding add_char
add_str [] out = some out
add_str (c ∷ text) out = add_char c out >>= λ out1. add_str text out1

-- `snprintf(strOut, workingMaxSize, ...)` of the C library, which cuts the text to the size with its
-- ending zero, and `workingMaxSize -=` the length of the text that was not cut.
unfoldable pub snprintf : List ℕ → Out → Option Out
unfolding write
snprintf text out =
    (if ltb 0 out.room
      then write out.memory out.pos (take (out.room - 1) text ++ 0 ∷ [])
      else some out.memory)
    >>= λ memory. some (record out { memory = memory; room = sub32 out.room (length text) })

unfoldable pub print_body : BodyText → Out → Option Out
unfolding snprintf
print_body no_text out = some out
print_body (formatted text) out = snprintf text out
print_body foreign out = none

-- `msgParsedToStr`. The pointer and the size are the function's own copies: what comes out is the
-- buffer and the size less what is left of it.
unfoldable pub msg_parsed_to_str : MsgParsed → Out → Option (List ℕ × ℕ)
unfolding add_str print_body
msg_parsed_to_str parsed out = add_str (direction_text parsed.direction_h2c) out >>= λ out1.
    add_str (label parsed.msg_type) out1 >>= λ out2.
    print_body (body_text parsed.msg_type parsed.body) out2 >>= λ out3.
    some (out3.memory, sub32 out.room out3.room)

-- The loop over the columns from `idx` on, with the rounds that are left.
unfoldable pub column_loop : ℕ → ℕ → RawNibbleList → Out → Option Out
unfolding add_char
column_loop zero idx raw out = some out
column_loop (suc rounds) idx raw out =
    add_char (column raw idx) out >>= λ out1. column_loop rounds (suc idx) raw out1

-- The branches on the error.
unfoldable pub print_message : RxMsg → Out → Option Out
print_message msg out =
    if is_known_error msg.err_id
    then snprintf (error_text msg.err_id) out
    else (msg_parsed_to_str msg.parsed out >>= λ (memory, printed).
        some (record out { memory = memory; room = sub32 out.room printed }))

-- The last two lines of `mbus_link_msgToStr`: the zero that ends the text, and the returned count.
unfoldable pub end_str : ℕ → Out → Option (List ℕ × ℕ)
end_str max_size out = write out.memory (sub32 (sub32 max_size out.room) 1) (0 ∷ []) >>= λ memory.
    some (memory, sub32 max_size out.room)

-- `mbus_link_msgToStr`: the buffer, and the returned count of characters with the ending zero.
unfoldable pub msg_to_str : RxMsg → List ℕ → ℕ → Option (List ℕ × ℕ)
msg_to_str msg str_out max_size = write str_out (sub32 max_size 1) (0 ∷ []) >>= λ memory.
    column_loop 18 0 msg.raw_nibbles (record { memory = memory; pos = 0; room = sub32 max_size 1 })
    >>= λ out1.
        add_char b' ' out1 >>= λ out2. print_message msg out2 >>= λ out3. end_str max_size out3
