-- ===== src/Link/Print/Written.antt =====
-- What `mbus_link_msgToStr` leaves in a buffer that has room for the text.
use diy_acura_bluetooth.Prelude.{
  ℕ, zero, suc, ◌+◌, ◌-◌, ◌^◌, ◌≤◌, ◌<◌, ◌≡◌, refl, sym, ap, ◌∙◌, Bool-cases, inl, inr, List, [],
  ◌∷◌, ◌++◌, some, arith, length, length-append, length-set, set, Returns, Returns-bind, Returns-eq,
  ◌>>=◌,
}
use diy_acura_bluetooth.Link.Types.{MsgParsed, RawNibbleList, RxMsg}
use diy_acura_bluetooth.Link.Parse.Typed.{is_known_error}
use diy_acura_bluetooth.Link.Print.Text.{
  label, direction_text, BodyText, no_text, foreign, formatted, body_text, error_text, column,
}
use diy_acura_bluetooth.Link.Print.Buffer.{
  Out, put, add_char, add_str, snprintf, print_body, msg_parsed_to_str, column_loop, print_message,
  msg_to_str, sub32, end_str,
}
use mathlib.Core.Path.{fun_ext}
use mathlib.Core.List.{append_assoc}
use diy_acura_bluetooth.Link.Print.Expected.{
  columns, text_of, parsed_text, tail_text, message_text, IsOwn, IsPrintable, printed,
}
use diy_acura_bluetooth.Link.Print.Store.{
  length-put, put_at, put-append, put_zero_again, take_all, write_fits, after, Fits, add_char-Fits,
  add_str-Fits,
}

-- What is left by a part of the text that ends it: the room that is left, and the text with its zero
-- once the zero is stored after it.
abbrev pub Ends : Out → List ℕ → Out → Type 0
Ends out text o =
    (o.room ≡ out.room - length text)
    × (length o.memory ≡ length out.memory)
    × (put o.memory (out.pos + length text) (0 ∷ []) ≡ put out.memory out.pos (text ++ 0 ∷ []))

abbrev pub FitsEnded : Out → List ℕ → Type 0
FitsEnded out text =
    (length text < out.room) × (out.pos + length text < length out.memory) × (out.room < 2 ^ 32)

-- What `snprintf` leaves of a text that it does not cut.
abbrev ended : Out → List ℕ → Out
ended out text = record out {
  memory = put out.memory out.pos (text ++ 0 ∷ []);
  room = out.room - length text;
}

snprintf_fits :
    (text : List ℕ) (out : Out) → FitsEnded out text → snprintf text out ≡ some (ended out text)
unfolding snprintf
snprintf_fits text out h =
    rw (take_all (out.room - 1) text (omega (arith, h.0)))
      (ground (arith, h.0, h.1, h.2, length-append text (0 ∷ [])))

snprintf-Ends :
    (text : List ℕ) (out : Out) → FitsEnded out text → Returns (Ends out text) (snprintf text out)
snprintf-Ends text out h =
    rw (snprintf_fits text out h)
      (refl, length-put (text ++ 0 ∷ []) out.memory out.pos, put_zero_again text out.memory out.pos)

print_body-Ends :
    (b : BodyText) (out : Out)
    → IsOwn b
    → FitsEnded out (text_of b)
    → Returns (Ends out (text_of b)) (print_body b out)
unfolding print_body
print_body-Ends no_text out own h =
    (omega arith, refl, put_at (0 ∷ []) out.memory _ out.pos (omega arith))
print_body-Ends (formatted text) out own h = snprintf-Ends text out h
print_body-Ends foreign out own h = absurd own

-- A text in two parts, of which `add_str` has stored the first one.
FitsEnded-append :
    (out : Out) (s text : List ℕ)
    → FitsEnded out (s ++ text)
    → Fits out s × FitsEnded (after out s) text
FitsEnded-append out s text h =
    let l = length-append s text in
    let m = length-put s out.memory out.pos in
    (
      (omega (arith, l, h.0), omega (arith, l, h.1)),
      (omega (arith, l, h.0), omega (arith, l, m, h.1), omega (arith, h.2)),
    )

Ends-after : (out o : Out) (s text : List ℕ) → Ends (after out s) text o → Ends out (s ++ text) o
Ends-after out o s text e =
    let l = length-append s text in
    (
      omega (arith, l, e.0),
      e.1 ∙ length-put s out.memory out.pos,
      put_at (0 ∷ []) o.memory _ (out.pos + length s + length text) (omega (arith, l))
          ∙ e.2
          ∙ sym (put-append s (text ++ 0 ∷ []) out.memory out.pos)
          ∙ ap (put out.memory out.pos) (sym (append_assoc s text (0 ∷ []))),
    )

-- The size less what is left, taken from the size, is what is left.
sub32_twice : (a b : ℕ) → b ≤ a → a < 2 ^ 32 → sub32 a (sub32 a b) ≡ b
sub32_twice a b h k = omega arith

-- The room that is left, as a caller computes it from the returned count.
Ends-kept :
    (out o : Out) (text : List ℕ)
    → out.room < 2 ^ 32
    → Ends out text o
    → Ends out text
        (record out { memory = o.memory; room = sub32 out.room (sub32 out.room o.room) })
Ends-kept out o text h e = (sub32_twice out.room o.room (omega (arith, e.0)) h ∙ e.0, e.1, e.2)

msg_parsed-Ends :
    (parsed : MsgParsed) (out : Out)
    → IsOwn (body_text parsed.msg_type parsed.body)
    → FitsEnded out (parsed_text parsed)
    → Returns
        (λ r.
          Ends out (parsed_text parsed) (record out { memory = r.0; room = sub32 out.room r.1 }))
        (msg_parsed_to_str parsed out)
unfolding msg_parsed_to_str
msg_parsed-Ends parsed out own h =
    let a : List ℕ = direction_text parsed.direction_h2c in
    let b : List ℕ = label parsed.msg_type in
    let t : List ℕ = text_of (body_text parsed.msg_type parsed.body) in
    let (fits, h1) = FitsEnded-append out a (b ++ t) h in
    let (fits1, h2) = FitsEnded-append (after out a) b t h1 in
    rw (add_str-Fits a out fits) (
      rw (add_str-Fits b (after out a) fits1) (
        Returns-bind (Ends (after (after out a) b) t) _ _ _
          (λ o e.
            Ends-kept out o (parsed_text parsed) (omega (arith, h.2))
              (Ends-after out o a (b ++ t) (Ends-after (after out a) o b t e)))
          (print_body-Ends (body_text parsed.msg_type parsed.body) (after (after out a) b) own h2)))

print_message-Ends :
    (msg : RxMsg) (out : Out)
    → IsPrintable msg
    → FitsEnded out (tail_text msg)
    → Returns (Ends out (tail_text msg)) (print_message msg out)
unfolding print_message
print_message-Ends msg out own h = elim (Bool-cases (is_known_error msg.err_id)) [
  | inl known ↦ rw known (snprintf-Ends (error_text msg.err_id) out (rw known at h))
  | inr sound ↦ rw sound (
      Returns-bind _ _ (msg_parsed_to_str msg.parsed out) _ (λ r e. e)
        (msg_parsed-Ends msg.parsed out (own sound) (rw sound at h)))
]

pub column_loop-eq :
    (rounds idx : ℕ) (raw : RawNibbleList) (out : Out)
    → column_loop rounds idx raw out ≡ add_str (columns rounds idx raw) out
unfolding column_loop add_str columns
column_loop-eq zero idx raw out = refl
column_loop-eq (suc rounds) idx raw out =
    ap (λ f. add_char (column raw idx) out >>= f) (fun_ext (column_loop-eq rounds (suc idx) raw))

-- The end of the call, on a buffer that is `max_size` long.
closing :
    (text memory : List ℕ) (max_size : ℕ) (o : Out)
    → length text + 1 < max_size
    → max_size ≤ length memory
    → max_size < 2 ^ 32
    → Ends (record { memory = memory; pos = 0; room = max_size - 1 }) text o
    → end_str max_size o ≡ some (put memory 0 (text ++ 0 ∷ []), length text + 1)
unfolding end_str
closing text memory max_size o short inside word e =
    let used : sub32 max_size o.room ≡ length text + 1 = omega (arith, e.0) in
    let last : sub32 (sub32 max_size o.room) 1 ≡ length text = omega (arith, e.0) in
    rw (last, used)
      (rw (write_fits o.memory (0 ∷ []) (length text) (omega (arith, e.1))) (
        ap (λ m. some (m, length text + 1))
          (put_at (0 ∷ []) o.memory (length text) (0 + length text) (omega arith) ∙ e.2)))

-- Where the text of a message is shorter than the buffer by two characters, printing it succeeds: the
-- buffer holds the text from its start, ended by a zero, and a zero in its last place, nothing else of
-- it is written, and the count of characters with the ending zero is returned.
pub msg_to_str_fits :
    (msg : RxMsg) (memory : List ℕ) (max_size : ℕ)
    → IsPrintable msg
    → length (message_text msg) + 1 < max_size
    → max_size ≤ length memory
    → max_size < 2 ^ 32
    → msg_to_str msg memory max_size
      ≡ some (printed memory max_size msg, length (message_text msg) + 1)
unfolding msg_to_str message_text put
msg_to_str_fits msg memory max_size own short inside word =
    let one : sub32 max_size 1 ≡ max_size - 1 = omega arith in
    let memory0 : List ℕ = set memory (max_size - 1) 0 in
    let kept : length memory0 ≡ length memory = length-set memory (max_size - 1) 0 in
    let out : Out = record { memory = memory0; pos = 0; room = max_size - 1 } in
    let cols : List ℕ = columns 18 0 msg.raw_nibbles in
    let (fits, h1) =
      FitsEnded-append out cols (b' ' ∷ tail_text msg)
        (omega (arith, kept), omega (arith, kept), omega arith) in
    let (fits1, h2) = FitsEnded-append (after out cols) (b' ' ∷ []) (tail_text msg) h1 in
    rw (one, write_fits memory (0 ∷ []) (max_size - 1) (omega arith))
      (rw (column_loop-eq 18 0 msg.raw_nibbles out, add_str-Fits cols out fits)
        (rw (add_char-Fits b' ' (after out cols) fits1) (
          Returns-eq (Ends (after (after out cols) (b' ' ∷ [])) (tail_text msg)) _ _ _
            (λ o e.
              closing (cols ++ (b' ' ∷ tail_text msg)) memory0 max_size o short
                (omega (arith, kept)) word
                (Ends-after out o cols (b' ' ∷ tail_text msg)
                  (Ends-after (after out cols) o (b' ' ∷ []) (tail_text msg) e)))
            (print_message-Ends msg _ own h2))))
