-- ===== src/Link/Build.antt =====
-- The messages that the CD changer's side sends, packed into 64 bits, and the digits that they use.
-- Each function gives what its C counterpart leaves in `gTxMsg` before it pushes it.
use diy_acura_bluetooth.Prelude.{ℕ, ◌+◌, ◌-◌, ◌*◌, ◌/◌, ◌%◌, ◌^◌, bit_or, Bool, ltb, if◌then◌else◌}
use diy_acura_bluetooth.Prelude.Words.{u8, u16, u32, u64}
use diy_acura_bluetooth.Link.Types.{TxMsg}

unfoldable pub to_bcd_nibbles : ℕ → ℕ
to_bcd_nibbles arg = u8 (bit_or (arg / 10 * 2 ^ 4) (arg % 10))

-- `toBcdNibbles` takes a `uint8_t`, so the minutes are cut to a byte.
unfoldable pub to_min_sec_nibbles : ℕ → ℕ
unfolding to_bcd_nibbles
to_min_sec_nibbles seconds =
    let minutes = seconds / 60 in
    let remaning_seconds = seconds % 60 in
    u16 (bit_or (to_bcd_nibbles (u8 minutes) * 2 ^ 8) (to_bcd_nibbles (u8 remaning_seconds)))

-- An `int` of 32 bits where an operand of 64 bits is wanted: the sign is carried up.
unfoldable pub int_to_u64 : ℕ → ℕ
int_to_u64 x = let w = u32 x in if ltb w (2 ^ 31) then w else w + (2 ^ 64 - 2 ^ 32)

abbrev pub packed : ℕ → ℕ → TxMsg
packed pack_nibbles num_nibbles = record {
  nibbles = record { pack_nibbles = pack_nibbles; num_nibbles = num_nibbles };
}

unfoldable pub ping : TxMsg
ping = packed 0x98 2

unfoldable pub play_state : ℕ → ℕ → ℕ → Bool → TxMsg
play_state track index seconds playing_not_stopped =
    packed
      (if playing_not_stopped
        then bit_or 0x994000000000001 (
            bit_or
              (bit_or (u64 (to_bcd_nibbles (u8 (track + 1)) * 2 ^ 40))
                (u64 (to_bcd_nibbles index * 2 ^ 32)))
              (int_to_u64 (to_min_sec_nibbles seconds * 2 ^ 16)))
        else 0x992000000000009)
      15

unfoldable pub changing : ℕ → ℕ → TxMsg
changing disk track =
    packed
      (bit_or (bit_or 0x9B900000001 (int_to_u64 (disk * 2 ^ 28)))
        (int_to_u64 (to_bcd_nibbles (u8 (track + 1)) * 2 ^ 20)))
      11

unfoldable pub ack_wait : TxMsg
ack_wait = packed 0x9F00000 7

unfoldable pub disk_info : ℕ → ℕ → ℕ → TxMsg
disk_info disk num_tracks seconds =
    packed
      (bit_or
        (bit_or (bit_or 0x9C001007502F (u64 (disk * 2 ^ 36)))
          (int_to_u64 (to_bcd_nibbles num_tracks * 2 ^ 20)))
        (int_to_u64 (to_min_sec_nibbles seconds * 2 ^ 4)))
      12

unfoldable pub cd_power_on : TxMsg
cd_power_on = packed 0x9A0000000000 12

unfoldable pub unknown_status : TxMsg
unknown_status = packed 0x9D00000000 10
