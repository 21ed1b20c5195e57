-- ===== src/Link/Print/Overrun.antt =====
-- What `mbus_link_msgToStr` does where the text of a body does not fit: `snprintf` returns the length
-- of the text that it did not cut, the working maximum size wraps around, and the ending zero is
-- stored outside the buffer.
use diy_acura_bluetooth.Prelude.{
  ℕ, zero, suc, ◌+◌, ◌-◌, ◌^◌, ◌≤◌, ◌<◌, ◌≡◌, refl, ap, ◌∙◌, false, List, [], ◌∷◌, ◌++◌, none,
  arith, length, length-append, length-set, set, Returns, Returns-bind, Returns-eq,
}
use diy_acura_bluetooth.Link.Types.{MsgParsed, RxMsg}
use diy_acura_bluetooth.Link.Parse.Typed.{is_known_error}
use diy_acura_bluetooth.Link.Print.Text.{label, direction_text, formatted, body_text}
use diy_acura_bluetooth.Link.Print.Buffer.{
  Out, put, write, take, snprintf, print_body, msg_parsed_to_str, print_message, msg_to_str, sub32,
  end_str,
}
use diy_acura_bluetooth.Link.Print.Store.{
  length-put, write_fits, after, add_char-Fits, add_str-Fits,
}
use diy_acura_bluetooth.Link.Print.Expected.{columns, message_text}
use diy_acura_bluetooth.Link.Print.Written.{column_loop-eq}
use diy_acura_bluetooth.Link.Print.Bound.{length-columns, length-label, length-direction_text}

length-take : (n : ℕ) (text : List ℕ) → length (take n text) ≤ n
length-take zero text = omega arith
length-take (suc n) [] = omega arith
length-take (suc n) (c ∷ text) = omega (arith, length-take n text)

-- The room is less by the length of the whole text, of which only what fits is stored.
abbrev Cut : Out → List ℕ → Out → Type 0
Cut out text o = (o.room ≡ sub32 out.room (length text)) × (length o.memory ≡ length out.memory)

snprintf-Cut :
    (text : List ℕ) (out : Out)
    → out.pos + out.room ≤ length out.memory
    → Returns (Cut out text) (snprintf text out)
unfolding snprintf
snprintf-Cut text out h = ground (
  arith,
  length-append (take (out.room - 1) text) (0 ∷ []),
  length-take (out.room - 1) text,
  length-put (take (out.room - 1) text ++ 0 ∷ []) out.memory out.pos,
)

msg_parsed-Cut :
    (parsed : MsgParsed) (text : List ℕ) (out : Out)
    → body_text parsed.msg_type parsed.body ≡ formatted text
    → 20 ≤ out.room
    → out.room < 2 ^ 32
    → out.pos + out.room ≤ length out.memory
    → Returns
        (λ r.
          (sub32 out.room r.1 ≡ sub32 (out.room - 20) (length text))
          × (length r.0 ≡ length out.memory))
        (msg_parsed_to_str parsed out)
unfolding msg_parsed_to_str print_body
msg_parsed-Cut parsed text out body room word inside =
    let a : List ℕ = direction_text parsed.direction_h2c in
    let b : List ℕ = label parsed.msg_type in
    let la : length a ≡ 4 = length-direction_text parsed.direction_h2c in
    let lb : length b ≡ 16 = length-label parsed.msg_type in
    let lp : length (put out.memory out.pos a) ≡ length out.memory =
      length-put a out.memory out.pos in
    let lq : length (put (put out.memory out.pos a) (out.pos + length a) b) ≡ length out.memory =
      length-put b (put out.memory out.pos a) (out.pos + length a) ∙ lp in
    rw (add_str-Fits a out (omega (arith, la), omega (arith, la))) (
      rw (add_str-Fits b (after out a) (omega (arith, la, lb), omega (arith, la, lb, lp))) (
        rw body (
          Returns-bind (Cut (after (after out a) b) text) _ _ _
            (λ o e. (omega (arith, e.0, la, lb), omega (arith, e.1, lq)))
            (snprintf-Cut text (after (after out a) b) (omega (arith, la, lb, lq))))))

-- The characters before the body: 18 columns, a space, the direction and the label.
length-body :
    (msg : RxMsg) (text : List ℕ)
    → is_known_error msg.err_id ≡ false
    → body_text msg.parsed.msg_type msg.parsed.body ≡ formatted text
    → length (message_text msg) ≡ 39 + length text
unfolding message_text
length-body msg text sound body =
    rw (sound, body)
      (omega (
        arith,
        length-append (columns 18 0 msg.raw_nibbles)
            (b' ' ∷ direction_text msg.parsed.direction_h2c ++ (label msg.parsed.msg_type ++ text)),
        length-append (direction_text msg.parsed.direction_h2c) (label msg.parsed.msg_type ++ text),
        length-append (label msg.parsed.msg_type) text,
        length-columns 18 0 msg.raw_nibbles,
        length-direction_text msg.parsed.direction_h2c,
        length-label msg.parsed.msg_type,
      ))

write_outside :
    (memory text : List ℕ) (pos : ℕ)
    → length memory < pos + length text
    → write memory pos text ≡ none
unfolding write
write_outside memory text pos h = ground arith

end_str-outside :
    (max_size n : ℕ) (o : Out)
    → 40 ≤ max_size
    → max_size < 2 ^ 32
    → 39 + n < 2 ^ 32
    → max_size ≤ 39 + n
    → length o.memory ≡ max_size
    → o.room ≡ sub32 (max_size - 40) n
    → end_str max_size o ≡ none
unfolding end_str
end_str-outside max_size n o long word text_word over memory room =
    let idx : sub32 (sub32 max_size o.room) 1 ≡ 39 + n = omega (arith, room) in
    rw (idx, write_outside o.memory (0 ∷ []) (39 + n) (omega (arith, memory))) refl

print_message-Cut :
    (msg : RxMsg) (text : List ℕ) (out : Out)
    → is_known_error msg.err_id ≡ false
    → body_text msg.parsed.msg_type msg.parsed.body ≡ formatted text
    → 20 ≤ out.room
    → out.room < 2 ^ 32
    → out.pos + out.room ≤ length out.memory
    → Returns
        (λ o.
          (o.room ≡ sub32 (out.room - 20) (length text)) × (length o.memory ≡ length out.memory))
        (print_message msg out)
unfolding print_message
print_message-Cut msg text out sound body room word inside = rw sound (
    Returns-bind _ _ (msg_parsed_to_str msg.parsed out) _ (λ r e. e)
      (msg_parsed-Cut msg.parsed text out body room word inside))

-- A message with a body that is printed into a buffer of 40 characters or more, but of no more than
-- its text has, is the end of the program: the ending zero is stored outside the buffer.
pub msg_to_str_overruns :
    (msg : RxMsg) (text memory : List ℕ)
    → is_known_error msg.err_id ≡ false
    → body_text msg.parsed.msg_type msg.parsed.body ≡ formatted text
    → 40 ≤ length memory
    → length memory < 2 ^ 32
    → length (message_text msg) < 2 ^ 32
    → length memory ≤ length (message_text msg)
    → msg_to_str msg memory (length memory) ≡ none
unfolding msg_to_str put
msg_to_str_overruns msg text memory sound body long word text_word over =
    let size : ℕ = length memory in
    let total = length-body msg text sound body in
    let one : sub32 size 1 ≡ size - 1 = omega arith in
    let memory0 : List ℕ = set memory (size - 1) 0 in
    let kept : length memory0 ≡ length memory = length-set memory (size - 1) 0 in
    let out : Out = record { memory = memory0; pos = 0; room = size - 1 } in
    let cols : List ℕ = columns 18 0 msg.raw_nibbles in
    let lc : length cols ≡ 18 = length-columns 18 0 msg.raw_nibbles in
    let lp : length (put memory0 0 cols) ≡ length memory0 = length-put cols memory0 0 in
    let lq : length (put (put memory0 0 cols) (0 + length cols) (b' ' ∷ []))
        ≡ length (put memory0 0 cols) =
      length-put (b' ' ∷ []) (put memory0 0 cols) (0 + length cols) in
    rw (one, write_fits memory (0 ∷ []) (size - 1) (omega arith))
      (rw
        (
          column_loop-eq 18 0 msg.raw_nibbles out,
          add_str-Fits cols out (omega (arith, lc), omega (arith, lc, kept)),
        )
        (rw (add_char-Fits b' ' (after out cols) (omega (arith, lc), omega (arith, lc, kept, lp))) (
          Returns-eq _ _ _ none
            (λ o e.
              end_str-outside size (length text) o long word (omega (arith, total))
                (omega (arith, total)) (e.1 ∙ lq ∙ lp ∙ kept)
                (e.0 ∙ ap (λ r. sub32 r (length text)) (omega (arith, lc))))
            (print_message-Cut msg text _ sound body (omega (arith, lc)) (omega (arith, lc))
              (omega (arith, lc, kept, lp, lq))))))
