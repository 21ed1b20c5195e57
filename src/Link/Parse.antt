-- ===== src/Link/Parse.antt =====
-- `mbus_link_parseMsg`: size and signal checks while the nibbles are copied, then the checksum, the
-- direction, and the type by the first nibbles. The structure that is filled in goes in and comes
-- out, since an early return leaves the rest of it as it was.
pub mod Checksum
pub mod Typed
pub mod Stages
use diy_acura_bluetooth.Prelude.{
  ℕ, zero, suc, ◌+◌, ◌-◌, ◌%◌, bit_xor, Bool, true, false, not, ◌&&◌, ◌||◌, List, get_or, set, drop,
  ltb, ◌==◌, if◌then◌else◌,
}
use diy_acura_bluetooth.Link.Types.{
  RxMsg, err_id_signal, err_id_length, err_id_checksum, err_id_direction, err_id_unknown_type,
  nibble_array_size, msgtype_ping, msgtype_set_play_state, msgtype_head_power_on,
  msgtype_set_disk_track, msgtype_set_mode, msgtype_pong, msgtype_ack_wait, msgtype_cd_power_on,
  msgtype_changing, msgtype_play_state, msgtype_disk_info, msgtype_unknown_status,
}
use diy_acura_bluetooth.Link.Body.{
  parse_set_play_state, parse_set_disk_track, parse_set_mode, parse_changing, parse_play_state,
  parse_disk_info,
}

unfoldable pub length_check : RxMsg → Bool → RxMsg
length_check msg length_ok = if not length_ok then record msg { err_id = err_id_length } else msg

abbrev pub is_bad_signal : ℕ → Bool
is_bad_signal n = n == b'T' || n == b'L' || n == b'X'

-- One round of the copying loop.
unfoldable pub copy_nibble : ℕ → ℕ → RxMsg → RxMsg
copy_nibble index n msg = record msg {
  err_id = if is_bad_signal n then err_id_signal else msg.err_id;
  raw_nibbles = record msg.raw_nibbles { nibbles = set msg.raw_nibbles.nibbles index n };
}

-- The loop from `index` on, with the rounds that are left.
unfoldable pub copy_loop : ℕ → ℕ → List ℕ → RxMsg → RxMsg
unfolding copy_nibble
copy_loop zero index seq msg = msg
copy_loop (suc rounds) index seq msg =
    copy_loop rounds (suc index) seq (copy_nibble index (get_or seq index 0) msg)

unfoldable pub xor_loop : ℕ → ℕ → List ℕ → ℕ → ℕ
xor_loop zero index nibbles acc = acc
xor_loop (suc rounds) index nibbles acc =
    xor_loop rounds (suc index) nibbles (bit_xor acc (get_or nibbles index 0))

unfoldable pub do_check_sum : RxMsg → RxMsg
do_check_sum msg =
    let raw = msg.raw_nibbles in
    let actual = get_or raw.nibbles (raw.num_nibbles - 1) 0 in
    let expected = (xor_loop (raw.num_nibbles - 1) 0 raw.nibbles 0 + 1) % 16 in
    if not (actual == expected) then record msg { err_id = err_id_checksum } else msg

unfoldable pub do_direction : RxMsg → RxMsg
do_direction msg =
    let dir_nibble = get_or msg.raw_nibbles.nibbles 0 0 in
    if dir_nibble == 1
    then record msg { parsed = record msg.parsed { direction_h2c = true } }
    else if dir_nibble == 9
    then record msg { parsed = record msg.parsed { direction_h2c = false } }
    else record msg { err_id = err_id_direction }

-- The body of one type of message: its length is checked, and if there is no error its type is set
-- and its body is parsed.
unfoldable pub typed : RxMsg → ℕ → ℕ → (RxMsg → RxMsg) → RxMsg
unfolding length_check
typed msg len msg_type parse_body =
    let msg1 = length_check msg (msg.raw_nibbles.num_nibbles == len) in
    if msg1.err_id == 0
    then parse_body (record msg1 { parsed = record msg1.parsed { msg_type = msg_type } })
    else msg1

abbrev pub no_body : RxMsg → RxMsg
no_body msg = msg

unfoldable pub parse_head2cd_body : RxMsg → RxMsg
unfolding typed
parse_head2cd_body msg =
    let nibbles = msg.raw_nibbles.nibbles in
    let cmd0 = get_or nibbles 1 0 in
    let cmd1 = get_or nibbles 2 0 in
    if cmd0 == 0x8
    then typed msg 3 msgtype_ping no_body
    else if cmd0 == 0x1 && cmd1 == 0x1
    then typed msg 6 msgtype_set_play_state (λ m. parse_set_play_state m (drop 3 nibbles))
    else if cmd0 == 0x1 && cmd1 == 0x3
    then typed msg 9 msgtype_set_disk_track (λ m. parse_set_disk_track m (drop 3 nibbles))
    else if cmd0 == 0x1 && cmd1 == 0x4
    then typed msg 9 msgtype_set_mode (λ m. parse_set_mode m (drop 3 nibbles))
    else if cmd0 == 0x9
    then typed msg 3 msgtype_head_power_on no_body
    else record msg { err_id = err_id_unknown_type }

unfoldable pub parse_cd2head_body : RxMsg → RxMsg
unfolding typed
parse_cd2head_body msg =
    let nibbles = msg.raw_nibbles.nibbles in
    let cmd0 = get_or nibbles 1 0 in
    if cmd0 == 0x8
    then typed msg 3 msgtype_pong no_body
    else if cmd0 == 0x9
    then typed msg 16 msgtype_play_state (λ m. parse_play_state m (drop 2 nibbles))
    else if cmd0 == 0xA
    then typed msg 13 msgtype_cd_power_on no_body
    else if cmd0 == 0xB
    then typed msg 12 msgtype_changing (λ m. parse_changing m (drop 2 nibbles))
    else if cmd0 == 0xC
    then typed msg 13 msgtype_disk_info (λ m. parse_disk_info m (drop 2 nibbles))
    else if cmd0 == 0xD
    then typed msg 11 msgtype_unknown_status no_body
    else if cmd0 == 0xF
    then typed msg 8 msgtype_ack_wait no_body
    else record msg { err_id = err_id_unknown_type }

-- The part before the first `return`: sizes, the copy and its signal check.
unfoldable pub take_in : List ℕ → ℕ → RxMsg → RxMsg
unfolding copy_loop length_check
take_in nibble_sequence num_nibbles out =
    let too_long = ltb nibble_array_size num_nibbles in
    let n = if too_long then nibble_array_size else num_nibbles in
    let msg = record out {
      err_id = if too_long then err_id_length else 0;
      raw_nibbles = record out.raw_nibbles { num_nibbles = n };
    } in
    length_check (copy_loop n 0 nibble_sequence msg) (ltb 2 n)

-- The part behind the direction's check.
unfoldable pub parse_body : RxMsg → RxMsg
parse_body msg = if msg.parsed.direction_h2c then parse_head2cd_body msg else parse_cd2head_body msg

unfoldable pub parse_msg : List ℕ → ℕ → RxMsg → RxMsg
parse_msg nibble_sequence num_nibbles out =
    let msg1 = take_in nibble_sequence num_nibbles out in
    let msg2 = do_check_sum msg1 in
    let msg3 = do_direction msg2 in
    if not (msg1.err_id == 0)
    then msg1
    else if not (msg2.err_id == 0)
    then msg2
    else if not (msg3.err_id == 0)
    then msg3
    else parse_body msg3
