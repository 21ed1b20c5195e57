-- ===== src/Link/Roundtrip/Changing.antt =====
-- `mbus_link_tx_changing`, as `parseChanging` reads it.
use diy_acura_bluetooth.Prelude.{ℕ, ◌+◌, ◌<◌, ◌≡◌, true, false, [], ◌∷◌, ◌++◌, arith, Returns}
use diy_acura_bluetooth.Link.Types.{RxMsg, MsgBody, MsgParsed, msgtype_changing}
use diy_acura_bluetooth.Link.Build
use diy_acura_bluetooth.Link.Body.{parse_changing}
use diy_acura_bluetooth.Link.Parse.{do_direction, parse_cd2head_body, parse_body}
use diy_acura_bluetooth.Link.Parse.Checksum.{checksum, filled, parse_rest}
use diy_acura_bluetooth.Link.Core.{Link}
use diy_acura_bluetooth.Link.Core.Send.{framed, unpacked}
use diy_acura_bluetooth.Link.Core.Receive.{receive}
use diy_acura_bluetooth.Link.Deliver.{CanReceive, GotMessage, delivered_as}
use diy_acura_bluetooth.Link.Roundtrip.Digits.{changing_digits, digits_read, unpacked-changing}

-- The change to a track of a disk, done.
abbrev pub changed_to : ℕ → ℕ → MsgParsed
changed_to disk track = record {
  direction_h2c = false;
  msg_type = msgtype_changing;
  body = MsgBody.changing (record {
    disk = disk;
    track = track + 1;
    eject = false;
    noshuttle = false;
    busy = false;
    repeat_all = false;
    repeat_one = false;
    random = false;
    done = true;
  });
}

parse_rest-changing :
    (scratch : RxMsg) (disk track c : ℕ)
    → track < 99
    → let msg = filled scratch (changing_digits disk track ++ c ∷ []) in
      parse_rest msg ≡ record msg { parsed = changed_to disk track }
unfolding do_direction parse_body parse_cd2head_body parse_changing
parse_rest-changing scratch disk track c ht =
    rw (parse_changing, digits_read (track + 1) (omega arith))

-- The head unit's link reads back what `mbus_link_tx_changing` was given: the framed message queues
-- one message with no error, a finished change to that disk and to that track, counted from 1. Disks
-- below 8 and tracks below 99 are covered; the receiving link is at rest with room.
pub changing_delivered :
    (scratch : RxMsg) (link : Link) (disk track : ℕ)
    → CanReceive scratch link
    → disk < 8
    → track < 99
    → Returns
        (GotMessage link (changed_to disk track))
        (receive scratch link (framed (unpacked (Build.changing disk track).nibbles)))
changing_delivered scratch link disk track can hd ht =
    let ns = changing_digits disk track in
    rw (unpacked-changing disk track hd ht) (
      delivered_as scratch link ns (changed_to disk track) can (omega arith) (omega arith)
        (omega arith) (parse_rest-changing scratch disk track (checksum ns) ht))
