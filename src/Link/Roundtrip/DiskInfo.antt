-- ===== src/Link/Roundtrip/DiskInfo.antt =====
-- `mbus_link_tx_diskInfo`, as `parseDiskInfo` reads it. The constant of the source holds the digits
-- 7502 where the time goes, and the time is joined to them by `|`.
use diy_acura_bluetooth.Prelude.{
  ℕ, ◌+◌, ◌*◌, ◌/◌, ◌%◌, ◌^◌, ◌≤◌, ◌<◌, ◌≡◌, refl, ap, ◌∙◌, bit_or, true, false, List, [], ◌∷◌,
  ◌++◌, arith, Returns, All, leb, ◌&&◌,
}
use mathlib.Core.Path.{ap₂}
use diy_acura_bluetooth.Prelude.Bits.{bit_or_fields, bit_or_above, bit_or-zero, zero-bit_or}
use diy_acura_bluetooth.Prelude.Words.{u64, all_below, all_below_sound}
use diy_acura_bluetooth.Link.Types.{RxMsg, MsgBody, MsgParsed, msgtype_disk_info}
use diy_acura_bluetooth.Link.Build
use diy_acura_bluetooth.Link.Build.{to_bcd_nibbles, to_min_sec_nibbles, disk_info}
use diy_acura_bluetooth.Link.Body.{nibble_pair_to_bcd, parse_disk_info}
use diy_acura_bluetooth.Link.Parse.{do_direction, parse_cd2head_body, parse_body}
use diy_acura_bluetooth.Link.Parse.Checksum.{checksum, filled, parse_rest}
use diy_acura_bluetooth.Link.Core.{Link}
use diy_acura_bluetooth.Link.Core.Pack.{value, unpacked-value}
use diy_acura_bluetooth.Link.Core.Send.{framed, unpacked}
use diy_acura_bluetooth.Link.Core.Receive.{receive}
use diy_acura_bluetooth.Link.Deliver.{CanReceive, GotMessage, delivered_as}
use diy_acura_bluetooth.Link.Roundtrip.Digits.{
  tens, ones, bcd_lem, min_sec_lem, small_int, digits_read,
}

-- A disk number, two digits, and four digits that fall on those which the constant holds.
join_disk_info :
    (d b m : ℕ)
    → d < 16
    → b < 2 ^ 8
    → m < 2 ^ 16
    → bit_or (bit_or (bit_or 0x9C001007502F (d * 2 ^ 36)) (b * 2 ^ 20)) (m * 2 ^ 4)
      ≡ (0x9C0 + d) * 2 ^ 36 + 2 ^ 28 + b * 2 ^ 20 + bit_or 0x7502 m * 2 ^ 4 + 15
join_disk_info d b m hd hb hm =
    let h = 0x9C0 + d in
    let c = (h * 2 ^ 8 + 1) * 2 ^ 8 + b in
    let j1 : bit_or 0x9C001007502F (d * 2 ^ 36) ≡ h * 2 ^ 16 * 2 ^ 20 + 0x1007502F =
      ap₂ bit_or {v = d * 2 ^ 36 + 0} refl (omega arith)
      ∙ bit_or_fields 36 0x9C0 d 0x1007502F 0 (omega arith) (omega arith)
      ∙ omega (arith, bit_or_above 4 0x9C d hd) in
    let j2 : bit_or (h * 2 ^ 16 * 2 ^ 20 + 0x1007502F) (b * 2 ^ 20) ≡ c * 2 ^ 20 + 0x7502F =
      ap₂ bit_or {y = (h * 2 ^ 8 + 1) * 2 ^ 8 * 2 ^ 20 + 0x7502F} {v = b * 2 ^ 20 + 0} (omega arith)
        (omega arith)
      ∙ bit_or_fields 20 ((h * 2 ^ 8 + 1) * 2 ^ 8) b 0x7502F 0 (omega arith) (omega arith)
      ∙ omega (arith, bit_or_above 8 (h * 2 ^ 8 + 1) b hb) in
    let j3 : bit_or (c * 2 ^ 20 + 0x7502F) (m * 2 ^ 4)
        ≡ bit_or (c * 2 ^ 16 + 0x7502) m * 2 ^ 4 + 15 =
      ap₂ bit_or {y = (c * 2 ^ 16 + 0x7502) * 2 ^ 4 + 15} {v = m * 2 ^ 4 + 0} (omega arith)
        (omega arith)
      ∙ bit_or_fields 4 (c * 2 ^ 16 + 0x7502) m 15 0 (omega arith) (omega arith) in
    let j4 : bit_or (c * 2 ^ 16 + 0x7502) m ≡ c * 2 ^ 16 + bit_or 0x7502 m =
      ap₂ bit_or {v = 0 * 2 ^ 16 + m} refl (omega arith)
      ∙ bit_or_fields 16 c 0 0x7502 m (omega arith) hm
      ∙ omega (arith, bit_or-zero c) in
    rw (j1, j2, j3, j4) (omega arith)

-- The four digits of 0x7502, each joined to a digit.
join_seven_five :
    (m3 m2 m1 m0 : ℕ)
    → m3 < 16
    → m2 < 16
    → m1 < 16
    → m0 < 16
    → bit_or 0x7502 ((m3 * 16 + m2) * 256 + (m1 * 16 + m0))
      ≡ ((bit_or 7 m3 * 16 + bit_or 5 m2) * 16 + m1) * 16 + bit_or 2 m0
join_seven_five m3 m2 m1 m0 h3 h2 h1 h0 =
    ap₂ bit_or {v = ((m3 * 16 + m2) * 16 + m1) * 2 ^ 4 + m0} refl (omega arith)
    ∙ bit_or_fields 4 0x750 ((m3 * 16 + m2) * 16 + m1) 2 m0 (omega arith) h0
    ∙ omega (
      arith,
      bit_or_fields 4 0x75 (m3 * 16 + m2) 0 m1 (omega arith) h1,
      bit_or_fields 4 7 m3 5 m2 (omega arith) h2,
      zero-bit_or m1,
    )

or_table :
    all_below 10 (λ d. leb (bit_or 7 d) 15 && leb (bit_or 5 d) 15 && leb (bit_or 2 d) 15) ≡ true
unfolding all_below
or_table = refl

or_small : (d : ℕ) → d < 10 → (bit_or 7 d ≤ 15) × (bit_or 5 d ≤ 15) × (bit_or 2 d ≤ 15)
or_small d h = ground (
  arith,
  all_below_sound 10 (λ d. leb (bit_or 7 d) 15 && leb (bit_or 5 d) 15 && leb (bit_or 2 d) 15) d
      or_table h,
)

abbrev disk_info_digits : ℕ → ℕ → ℕ → List ℕ
disk_info_digits disk tracks seconds =
    9
    ∷ 12
    ∷ disk
    ∷ 0
    ∷ 1
    ∷ tens tracks
    ∷ ones tracks
    ∷ bit_or 7 (tens (seconds / 60))
    ∷ bit_or 5 (ones (seconds / 60))
    ∷ tens (seconds % 60)
    ∷ bit_or 2 (ones (seconds % 60))
    ∷ 15
    ∷ []

disk_info_packed :
    (disk tracks seconds : ℕ)
    → disk < 16
    → tracks ≤ 99
    → seconds < 6000
    → (disk_info disk tracks seconds).nibbles.pack_nibbles
      ≡ value 0 (disk_info_digits disk tracks seconds)
unfolding disk_info
disk_info_packed disk tracks seconds hd ht hs =
    let b = to_bcd_nibbles tracks in
    let m = to_min_sec_nibbles seconds in
    let eb = bcd_lem tracks ht in
    let em = min_sec_lem seconds hs in
    let wd : u64 (disk * 2 ^ 36) ≡ disk * 2 ^ 36 = omega arith in
    let wb = small_int (b * 2 ^ 20) (omega (arith, eb)) in
    let wm = small_int (m * 2 ^ 4) (omega (arith, em)) in
    let t =
      ap (bit_or 0x7502) em
      ∙ join_seven_five (seconds / 60 / 10) (seconds / 60 % 10) (seconds % 60 / 10)
          (seconds % 60 % 10) (omega arith) (omega arith) (omega arith) (omega arith) in
    let d3 : seconds / 60 / 10 % 10 ≡ seconds / 60 / 10 = omega arith in
    let d1 : seconds % 60 / 10 % 10 ≡ seconds % 60 / 10 = omega arith in
    rw (wd, wb, wm, d3, d1)
      (join_disk_info disk b m hd (omega (arith, eb)) (omega (arith, em)) ∙ omega (arith, eb, t))

disk_info_small :
    (disk tracks seconds : ℕ) → disk < 16 → All (λ d. d < 16) (disk_info_digits disk tracks seconds)
disk_info_small disk tracks seconds hd = omega (
  arith,
  hd,
  or_small (tens (seconds / 60)) (omega arith),
  or_small (ones (seconds / 60)) (omega arith),
  or_small (ones (seconds % 60)) (omega arith),
)

unpacked-disk_info :
    (disk tracks seconds : ℕ)
    → disk < 16
    → tracks ≤ 99
    → seconds < 6000
    → unpacked (disk_info disk tracks seconds).nibbles ≡ disk_info_digits disk tracks seconds
unpacked-disk_info disk tracks seconds hd ht hs =
    unpacked-value (disk_info_digits disk tracks seconds) (disk_info disk tracks seconds).nibbles
      (disk_info_small disk tracks seconds hd) (disk_info_packed disk tracks seconds hd ht hs)
      (unfold disk_info in refl)

-- What is read: the disk and the tracks as given, the digits of the time joined to 7, 5, 0 and 2.
abbrev pub info_of : ℕ → ℕ → ℕ → MsgParsed
info_of disk tracks seconds = record {
  direction_h2c = false;
  msg_type = msgtype_disk_info;
  body = MsgBody.disk_info (record {
    disk = disk;
    tracks = tracks;
    minutes = bit_or 7 (tens (seconds / 60)) * 10 + bit_or 5 (ones (seconds / 60));
    seconds = tens (seconds % 60) * 10 + bit_or 2 (ones (seconds % 60));
    flags = 15;
  });
}

pair_small : (a b : ℕ) → a < 16 → b < 16 → nibble_pair_to_bcd a b ≡ a * 10 + b
unfolding nibble_pair_to_bcd
pair_small a b ha hb = omega arith

parse_rest-disk_info :
    (scratch : RxMsg) (disk tracks seconds c : ℕ)
    → tracks ≤ 99
    → let msg = filled scratch (disk_info_digits disk tracks seconds ++ c ∷ []) in
      parse_rest msg ≡ record msg { parsed = info_of disk tracks seconds }
unfolding do_direction parse_body parse_cd2head_body parse_disk_info
parse_rest-disk_info scratch disk tracks seconds c ht =
    let m3 = or_small (tens (seconds / 60)) (omega arith) in
    let m2 = or_small (ones (seconds / 60)) (omega arith) in
    let s0 = or_small (ones (seconds % 60)) (omega arith) in
    rw (
      parse_disk_info,
      digits_read tracks ht,
      pair_small (bit_or 7 (tens (seconds / 60))) (bit_or 5 (ones (seconds / 60)))
          (omega (arith, m3)) (omega (arith, m2)),
      pair_small (tens (seconds % 60)) (bit_or 2 (ones (seconds % 60))) (omega arith)
          (omega (arith, s0)),
    )

-- The head unit's link reads the disk and the number of tracks that `mbus_link_tx_diskInfo` was
-- given, but not the time: its digits come out joined by `|` to the digits 7, 5, 0 and 2 that the
-- constant of the source holds. Disks below 16, up to 99 tracks and times below 100 minutes are
-- covered; the receiving link is at rest with room.
pub disk_info_delivered :
    (scratch : RxMsg) (link : Link) (disk tracks seconds : ℕ)
    → CanReceive scratch link
    → disk < 16
    → tracks ≤ 99
    → seconds < 6000
    → Returns
        (GotMessage link (info_of disk tracks seconds))
        (receive scratch link (framed (unpacked (Build.disk_info disk tracks seconds).nibbles)))
disk_info_delivered scratch link disk tracks seconds can hd ht hs =
    let ns = disk_info_digits disk tracks seconds in
    rw (unpacked-disk_info disk tracks seconds hd ht hs) (
      delivered_as scratch link ns (info_of disk tracks seconds) can (omega arith) (omega arith)
        (disk_info_small disk tracks seconds hd)
        (parse_rest-disk_info scratch disk tracks seconds (checksum ns) ht))
