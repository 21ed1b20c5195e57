-- ===== src/Link/Body.antt =====
-- The bodies of the messages: flags by bit, two-digit numbers by pairs of nibbles. A pointer into
-- the nibbles is the list from there on; a read past its end, which the length checks rule out, is 0.
use diy_acura_bluetooth.Prelude.{ℕ, ◌+◌, ◌*◌, ◌^◌, Bool, List, get_or}
use diy_acura_bluetooth.Prelude.Words.{u8, has_bit}
use diy_acura_bluetooth.Link.Types.{
  RxMsg, MsgBody, set_play_state, set_disk_track, set_mode, changing, play_state, disk_info,
}

-- `nibbleSeq[i]`
abbrev pub nib : List ℕ → ℕ → ℕ
nib seq i = get_or seq i 0

-- `(nibbleSeq[i] & (1 << b)) != 0`
abbrev pub flag : List ℕ → ℕ → ℕ → Bool
flag seq i b = has_bit (nib seq i) (2 ^ b)

unfoldable pub nibble_pair_to_bcd : ℕ → ℕ → ℕ
nibble_pair_to_bcd nib_hi nib_lo = u8 (nib_hi * 10 + nib_lo)

abbrev pub with_body : RxMsg → MsgBody → RxMsg
with_body msg body = record msg { parsed = record msg.parsed { body = body } }

unfoldable pub parse_set_play_state : RxMsg → List ℕ → RxMsg
parse_set_play_state msg seq = with_body msg (
    set_play_state (record {
      resume = flag seq 0 3;
      stop = flag seq 0 2;
      scan_stop = flag seq 0 0;
      fast_reverse = flag seq 1 3;
      fast_forward = flag seq 1 2;
      pause = flag seq 1 1;
      play = flag seq 1 0;
    }))

unfoldable pub parse_set_disk_track : RxMsg → List ℕ → RxMsg
parse_set_disk_track msg seq = with_body msg (
    set_disk_track (record {
      disk = nib seq 0;
      track = nibble_pair_to_bcd (nib seq 1) (nib seq 2);
      pause = flag seq 3 1;
      play = flag seq 3 0;
      random = flag seq 4 2;
    }))

-- The source tests bit 4 of the second nibble for `introScan`.
unfoldable pub parse_set_mode : RxMsg → List ℕ → RxMsg
parse_set_mode msg seq = with_body msg (
    set_mode (record {
      repeat_one = flag seq 0 2;
      repeat_all = flag seq 0 3;
      random = flag seq 1 1;
      intro_scan = flag seq 1 4;
    }))

unfoldable pub parse_changing : RxMsg → List ℕ → RxMsg
parse_changing msg seq = with_body msg (
    changing (record {
      disk = nib seq 1;
      track = nibble_pair_to_bcd (nib seq 2) (nib seq 3);
      eject = flag seq 4 3;
      noshuttle = flag seq 4 1;
      busy = flag seq 4 0;
      repeat_all = flag seq 5 3;
      repeat_one = flag seq 5 2;
      random = flag seq 6 1;
      done = flag seq 8 0;
    }))

unfoldable pub parse_play_state : RxMsg → List ℕ → RxMsg
parse_play_state msg seq = with_body msg (
    play_state (record {
      track = nibble_pair_to_bcd (nib seq 1) (nib seq 2);
      index = nibble_pair_to_bcd (nib seq 3) (nib seq 4);
      minute = nibble_pair_to_bcd (nib seq 5) (nib seq 6);
      second = nibble_pair_to_bcd (nib seq 7) (nib seq 8);
      repeat_all = flag seq 9 3;
      repeat_one = flag seq 9 2;
      intro_scan = flag seq 10 3;
      random = flag seq 10 1;
      stopped = flag seq 12 3;
      paused = flag seq 12 1;
      play = flag seq 12 0;
    }))

unfoldable pub parse_disk_info : RxMsg → List ℕ → RxMsg
parse_disk_info msg seq = with_body msg (
    disk_info (record {
      disk = nib seq 0;
      tracks = nibble_pair_to_bcd (nib seq 3) (nib seq 4);
      minutes = nibble_pair_to_bcd (nib seq 5) (nib seq 6);
      seconds = nibble_pair_to_bcd (nib seq 7) (nib seq 8);
      flags = nib seq 9;
    }))
