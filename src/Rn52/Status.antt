-- ===== src/Rn52/Status.antt =====
-- The connection status that the module answers with: four hexadecimal digits and the end of a line.
use diy_acura_bluetooth.Prelude.{
  ℕ, ◌+◌, ◌*◌, ◌^◌, ◌<◌, ◌≡◌, ◌≢◌, refl, ap, ◌∙◌, bit_or, Bool, true, List, some, [], ◌∷◌, ◌++◌,
  arith, length, All, ltb, ◌==◌, ==→eq, ne_test, if◌then◌else◌, Returns,
}
use diy_acura_bluetooth.Prelude.Words.{u16, all_below, all_below_sound}
use diy_acura_bluetooth.Prelude.Bits.{bit_or_above}
use diy_acura_bluetooth.Rn52.State.{Rn52, Rn52State, rx_str_size}
use diy_acura_bluetooth.Rn52.Chars.{hex_char2nibble, hex_loop}
use diy_acura_bluetooth.Rn52.Line.{Heard, InLine, IsWaiting, chars, hear, hear-line}

-- The digit that stands for a nibble.
abbrev pub digit_of : ℕ → ℕ
digit_of n = if ltb n 10 then n + b'0' else n + 55

digit_table : all_below 16 (λ n. hex_char2nibble (digit_of n) == n) ≡ true
unfolding all_below hex_char2nibble
digit_table = refl

pub digit_read : (n : ℕ) → n < 16 → hex_char2nibble (digit_of n) ≡ n
digit_read n h =
    ==→eq _ _ (all_below_sound 16 (λ n. hex_char2nibble (digit_of n) == n) n digit_table h)

-- One round of the loop appends a digit to a word of at most three.
next_digit :
    (acc n : ℕ)
    → acc < 4096
    → n < 16
    → bit_or (u16 (acc * 16)) (hex_char2nibble (digit_of n)) ≡ acc * 16 + n
next_digit acc n ha hn =
    let fits : u16 (acc * 16) ≡ acc * 2 ^ 4 = omega arith in
    rw (fits, digit_read n hn) (bit_or_above 4 acc n hn ∙ omega arith)

pub word_read :
    (d3 d2 d1 d0 : ℕ) (rest : List ℕ)
    → d3 < 16
    → d2 < 16
    → d1 < 16
    → d0 < 16
    → hex_loop 4 0 (digit_of d3 ∷ digit_of d2 ∷ digit_of d1 ∷ digit_of d0 ∷ rest) 0
      ≡ ((d3 * 16 + d2) * 16 + d1) * 16 + d0
unfolding hex_loop
word_read d3 d2 d1 d0 rest h3 h2 h1 h0 =
    let e3 : bit_or (u16 (0 * 16)) (hex_char2nibble (digit_of d3)) ≡ d3 =
      next_digit 0 d3 (omega arith) h3 ∙ omega arith in
    rw (
      e3,
      next_digit d3 d2 (omega arith) h2,
      next_digit (d3 * 16 + d2) d1 (omega arith) h1,
      next_digit ((d3 * 16 + d2) * 16 + d1) d0 (omega arith) h0,
    )

-- The driver reads the connection status that the module answers with. While it waits with nothing
-- held, it is polled any number of times before the time-out, with or without a character, and once
-- more, at any time, when the line feed comes. If the characters are the four digits of a word and a
-- carriage return, that word is then the connection status, nothing is held, nothing was put out, and
-- the driver is in the state in which it wanted to go on.
pub status_heard :
    (rn52 : Rn52) (d3 d2 d1 d0 : ℕ) (ps : List Heard) (ms : ℕ) (event pin : Bool)
    → IsWaiting rn52
    → d3 < 16
    → d2 < 16
    → d1 < 16
    → d0 < 16
    → chars ps ≡ digit_of d3 ∷ digit_of d2 ∷ digit_of d1 ∷ digit_of d0 ∷ 13 ∷ []
    → All (InLine rn52.reply_milli_sec_time_stamp) ps
    → Returns
        (λ (rn52', out).
          (rn52'.connection_status ≡ ((d3 * 16 + d2) * 16 + d1) * 16 + d0)
          × (rn52'.state ≡ rn52.return_state)
          × (rn52'.rx_str_len ≡ 0)
          × (out ≡ []))
        (hear rn52 event pin (ps ++ (ms, some 10) ∷ []))
status_heard rn52 d3 d2 d1 d0 ps ms event pin w h3 h2 h1 h0 line times =
    let (old, heard) = hear-line rn52 ps ms event pin w (omega (arith, ap length line)) times in
    rw (heard, line) (word_read d3 d2 d1 d0 (13 ∷ 10 ∷ old) h3 h2 h1 h0, refl, refl, refl)

-- A line of any other length is refused. While the driver waits with nothing held, it is polled any
-- number of times before the time-out, with or without a character, and once more, at any time, when
-- the line feed comes. If the characters before it are not five, and fewer than the buffer holds, the
-- driver is about to ask again, with nothing held, the connection status as it was, and nothing put out.
pub line_refused :
    (rn52 : Rn52) (ps : List Heard) (ms : ℕ) (event pin : Bool)
    → IsWaiting rn52
    → length (chars ps) ≢ 5
    → length (chars ps) < rx_str_size
    → All (InLine rn52.reply_milli_sec_time_stamp) ps
    → Returns
        (λ (rn52', out).
          (rn52'.connection_status ≡ rn52.connection_status)
          × (rn52'.state ≡ Rn52State.query_constat)
          × (rn52'.rx_str_len ≡ 0)
          × (out ≡ []))
        (hear rn52 event pin (ps ++ (ms, some 10) ∷ []))
line_refused rn52 ps ms event pin w ne short times =
    let (old, heard) = hear-line rn52 ps ms event pin w short times in
    rw (heard, ne_test (length (chars ps)) 5 ne) (refl, refl, refl, refl)
