-- ===== src/Phy/Ascii.antt =====
-- `mbus_phy_rxnibble2ascii` and `mbus_phy_ascii2txnibble`: received codes as characters, and back.
-- A `case` chain is a chain of tests, and a character is its ASCII code.
use diy_acura_bluetooth.Prelude.{
  ℕ, ◌<◌, ◌≡◌, ◌⊎◌, inl, inr, refl, true, ◌||◌, arith, ◌==◌, ==→eq, if◌then◌else◌,
}
use diy_acura_bluetooth.Prelude.Words.{all_below, all_below_sound}
use diy_acura_bluetooth.Phy.State.{mbus_low_too_long_code, mbus_timeout_code, mbus_end_msg_code}

unfoldable pub rxnibble2ascii : ℕ → ℕ
rxnibble2ascii nib =
    if nib == 0
    then b'0'
    else if nib == 1
    then b'1'
    else if nib == 2
    then b'2'
    else if nib == 3
    then b'3'
    else if nib == 4
    then b'4'
    else if nib == 5
    then b'5'
    else if nib == 6
    then b'6'
    else if nib == 7
    then b'7'
    else if nib == 8
    then b'8'
    else if nib == 9
    then b'9'
    else if nib == 10
    then b'A'
    else if nib == 11
    then b'B'
    else if nib == 12
    then b'C'
    else if nib == 13
    then b'D'
    else if nib == 14
    then b'E'
    else if nib == 15
    then b'F'
    else if nib == mbus_low_too_long_code
    then b'L'
    else if nib == mbus_timeout_code
    then b'T'
    else if nib == mbus_end_msg_code
    then 10
    else b'X'

unfoldable pub ascii2txnibble : ℕ → ℕ
ascii2txnibble ascii_char =
    if ascii_char == b'0'
    then 0
    else if ascii_char == b'1'
    then 1
    else if ascii_char == b'2'
    then 2
    else if ascii_char == b'3'
    then 3
    else if ascii_char == b'4'
    then 4
    else if ascii_char == b'5'
    then 5
    else if ascii_char == b'6'
    then 6
    else if ascii_char == b'7'
    then 7
    else if ascii_char == b'8'
    then 8
    else if ascii_char == b'9'
    then 9
    else if ascii_char == b'A'
    then 10
    else if ascii_char == b'B'
    then 11
    else if ascii_char == b'C'
    then 12
    else if ascii_char == b'D'
    then 13
    else if ascii_char == b'E'
    then 14
    else if ascii_char == b'F'
    then 15
    else if ascii_char == 10
    then mbus_end_msg_code
    else 0x80

-- What a transmitter accepts: a nibble, or the code that ends a message.
abbrev pub IsTxCode : ℕ → Type 0
IsTxCode c = (c < 16) ⊎ (c ≡ mbus_end_msg_code)

codes_table : all_below 16 (λ c. ascii2txnibble (rxnibble2ascii c) == c) ≡ true
unfolding all_below ascii2txnibble rxnibble2ascii
codes_table = refl

chars_table :
    all_below 256 (λ c. (ascii2txnibble c == 0x80) || (rxnibble2ascii (ascii2txnibble c) == c))
    ≡ true
unfolding all_below ascii2txnibble rxnibble2ascii
chars_table = refl

-- A nibble or an end-of-message code survives the way to ASCII and back.
pub ascii2txnibble-rxnibble2ascii : (c : ℕ) → IsTxCode c → ascii2txnibble (rxnibble2ascii c) ≡ c
ascii2txnibble-rxnibble2ascii c (inl h) =
    ==→eq _ _ (all_below_sound 16 (λ c. ascii2txnibble (rxnibble2ascii c) == c) c codes_table h)
ascii2txnibble-rxnibble2ascii c (inr e) = rw e (unfold ascii2txnibble rxnibble2ascii in refl)

-- A character is refused (the code 0x80), or it is the one that its code prints as.
pub rxnibble2ascii-ascii2txnibble :
    (c : ℕ) → c < 256 → (ascii2txnibble c ≡ 0x80) ⊎ (rxnibble2ascii (ascii2txnibble c) ≡ c)
rxnibble2ascii-ascii2txnibble c h = ground (
  arith,
  all_below_sound 256 (λ c. (ascii2txnibble c == 0x80) || (rxnibble2ascii (ascii2txnibble c) == c))
      c chars_table h,
)
