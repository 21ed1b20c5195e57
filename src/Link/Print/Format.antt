-- ===== src/Link/Print/Format.antt =====
-- The C library's `snprintf` for the directives that mbus_link.c uses: `%d`, `%02d`, `%02u` and `%x`,
-- each of a byte or a truth value.
use Prim.Native.Char.{code}
use Prim.Native.String.{String}
use diy_acura_bluetooth.Prelude.{
  ℕ, zero, suc, ◌+◌, ◌-◌, ◌/◌, ◌%◌, Bool, true, false, List, [], ◌∷◌, ◌++◌, ltb, ◌==◌,
  if◌then◌else◌,
}

-- The characters of a literal.
abbrev pub codes : String → List ℕ
codes String.[] = []
codes (String.◌∷◌ c s) = code c ∷ codes s

abbrev pub digit : ℕ → ℕ
digit d = if ltb d 10 then d + b'0' else d - 10 + b'a'

-- The digits of a number, at most `fuel` of them, the first one first.
pub digits : ℕ → ℕ → ℕ → List ℕ
digits zero base n = []
digits (suc fuel) base n =
    let rest = digits fuel base (n / base) in
    if ltb n base then digit n ∷ [] else rest ++ digit (n % base) ∷ []

-- An `unsigned int` has ten decimal digits at most.
unfoldable pub decimal : ℕ → List ℕ
unfolding digits
decimal n = digits 10 10 n

unfoldable pub hexadecimal : ℕ → List ℕ
unfolding digits
hexadecimal n = digits 8 16 n

abbrev pub pad2 : List ℕ → List ℕ
pad2 [] = b'0' ∷ b'0' ∷ []
pad2 (c ∷ []) = b'0' ∷ c ∷ []
pad2 (c ∷ d ∷ s) = c ∷ d ∷ s

abbrev pub of_bool : Bool → ℕ
of_bool true = 1
of_bool false = 0

-- Where the format is read: in plain text, after `%`, after `%0`, after `%02`.
pub data Mode : Type 0 where
  plain percent zero_flag width : Mode

abbrev pub next_mode : Mode → ℕ → Mode
next_mode plain c = if c == b'%' then percent else plain
next_mode percent c = if c == b'0' then zero_flag else plain
next_mode zero_flag c = width
next_mode width c = plain

abbrev pub converts : Mode → ℕ → Bool
converts plain c = false
converts percent c = if c == b'0' then false else true
converts zero_flag c = false
converts width c = true

abbrev pub rest_args : Bool → List ℕ → List ℕ
rest_args false args = args
rest_args true [] = []
rest_args true (a ∷ args) = args

abbrev pub conversion : Mode → ℕ → ℕ → List ℕ
conversion width c a = pad2 (decimal a)
conversion _ c a = if c == b'x' then hexadecimal a else decimal a

abbrev pub converted : Bool → Mode → ℕ → List ℕ → List ℕ
converted true mode c (a ∷ args) = conversion mode c a
converted true mode c [] = []
converted false plain c args = if c == b'%' then [] else c ∷ []
converted false _ c args = []

unfoldable pub format_from : Mode → List ℕ → List ℕ → List ℕ
format_from mode [] args = []
format_from mode (c ∷ fmt) args =
    let used = converts mode c in
    converted used mode c args ++ format_from (next_mode mode c) fmt (rest_args used args)

-- The whole text, which `snprintf` cuts to the room that there is.
unfoldable pub format : String → List ℕ → List ℕ
unfolding format_from decimal hexadecimal
format fmt args = format_from plain (codes fmt) args
