-- ===== src/Rn52/Chars.antt =====
-- The characters of rn52.c: hexadecimal digits, and the functions of the C library that it calls on
-- its two buffers. A `char` is its code.
use diy_acura_bluetooth.Prelude.{
  ℕ, zero, suc, ◌+◌, ◌-◌, ◌*◌, bit_or, Bool, true, false, not, ◌&&◌, List, [], ◌∷◌, ◌++◌, Option,
  none, some, length, drop, get_or, ltb, leb, ◌==◌, ◌>>=◌, if◌then◌else◌,
}
use diy_acura_bluetooth.Prelude.Words.{u16}

unfoldable pub nibble2hex_char : ℕ → ℕ
nibble2hex_char nibble_arg =
    if ltb nibble_arg 0xA
    then nibble_arg + b'0'
    else if leb nibble_arg 0xF
    then nibble_arg + b'A'
    else b'X'

unfoldable pub hex_char2nibble : ℕ → ℕ
hex_char2nibble char_arg =
    if leb b'0' char_arg && leb char_arg b'9'
    then char_arg - b'0'
    else if leb b'a' char_arg && leb char_arg b'f'
    then char_arg - b'a' + 10
    else if leb b'A' char_arg && leb char_arg b'F'
    then char_arg - b'A' + 10
    else 0xff

-- The loop that reads four digits from `idx` on into a `uint16_t`, with the rounds that are left.
unfoldable pub hex_loop : ℕ → ℕ → List ℕ → ℕ → ℕ
hex_loop zero idx chars acc = acc
hex_loop (suc rounds) idx chars acc =
    hex_loop rounds (suc idx) chars (bit_or (u16 (acc * 16)) (hex_char2nibble (get_or chars idx 0)))

-- What a buffer holds after a text and its ending zero are copied to its start.
abbrev pub copied : List ℕ → List ℕ → List ℕ
copied buffer text = text ++ 0 ∷ drop (suc (length text)) buffer

-- `strcpy` of a literal. It faults where the text with its zero is longer than the buffer.
unfoldable pub strcpy : List ℕ → List ℕ → Option (List ℕ)
strcpy buffer text = if ltb (length text) (length buffer) then some (copied buffer text) else none

-- `strcmp(buffer, text) != 0`, for a literal `text`.
unfoldable pub strcmp : List ℕ → List ℕ → Bool
strcmp [] text = true
strcmp (c ∷ buffer) [] = not (c == 0)
strcmp (c ∷ buffer) (t ∷ text) = if c == t then strcmp buffer text else true

-- `strncmp(buffer, text, n) != 0`, for a literal of at least `n` characters.
unfoldable pub strncmp : List ℕ → List ℕ → ℕ → Bool
strncmp buffer text zero = false
strncmp (c ∷ buffer) (t ∷ text) (suc n) = if c == t then strncmp buffer text n else true
strncmp _ _ (suc n) = true

-- The characters up to the zero that ends them. Without one the read goes past the buffer.
unfoldable pub c_string : List ℕ → Option (List ℕ)
c_string [] = none
c_string (c ∷ chars) = if c == 0 then some [] else (c_string chars >>= λ text. some (c ∷ text))
