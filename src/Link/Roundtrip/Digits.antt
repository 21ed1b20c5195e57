-- ===== src/Link/Roundtrip/Digits.antt =====
-- The builders as lists of nibbles: two decimal digits to a field.
use diy_acura_bluetooth.Prelude.{
  ℕ, ◌+◌, ◌*◌, ◌/◌, ◌%◌, ◌^◌, ◌≤◌, ◌<◌, ◌≡◌, refl, ◌∙◌, bit_or, true, List, [], ◌∷◌, All, arith,
}
use mathlib.Core.Path.{ap₂}
use diy_acura_bluetooth.Prelude.Bits.{bit_or_fields, bit_or_above}
use diy_acura_bluetooth.Prelude.Words.{u8, u64}
use diy_acura_bluetooth.Link.Body.{nibble_pair_to_bcd}
use diy_acura_bluetooth.Link.Build.{
  to_bcd_nibbles, to_min_sec_nibbles, int_to_u64, play_state, changing,
}
use diy_acura_bluetooth.Link.Core.Pack.{value, unpacked-value}
use diy_acura_bluetooth.Link.Core.Send.{unpacked}

-- Two decimal digits.
abbrev pub tens : ℕ → ℕ
tens n = n / 10 % 10

abbrev pub ones : ℕ → ℕ
ones n = n % 10

-- Two digits are read back as the number that they spell.
pub digits_read : (n : ℕ) → n ≤ 99 → nibble_pair_to_bcd (tens n) (ones n) ≡ n
unfolding nibble_pair_to_bcd
digits_read n h = omega arith

pub bcd_lem : (n : ℕ) → n ≤ 99 → to_bcd_nibbles n ≡ n / 10 * 16 + n % 10
unfolding to_bcd_nibbles
bcd_lem n h = rw (bit_or_above 4 (n / 10) (n % 10) (omega arith)) (omega arith)

pub min_sec_lem :
    (s : ℕ)
    → s < 6000
    → to_min_sec_nibbles s
      ≡ (s / 60 / 10 * 16 + s / 60 % 10) * 256 + (s % 60 / 10 * 16 + s % 60 % 10)
unfolding to_min_sec_nibbles
min_sec_lem s h =
    let m : u8 (s / 60) ≡ s / 60 = omega arith in
    let r : u8 (s % 60) ≡ s % 60 = omega arith in
    rw (m, r, bcd_lem (s / 60) (omega arith), bcd_lem (s % 60) (omega arith))
      (rw
        (bit_or_above 8 (s / 60 / 10 * 16 + s / 60 % 10) (s % 60 / 10 * 16 + s % 60 % 10)
          (omega arith))
        (omega arith))

pub small_int : (x : ℕ) → x < 2 ^ 31 → int_to_u64 x ≡ x
unfolding int_to_u64
small_int x h = ground arith

-- Two fields of a byte and one of two bytes, above 16 bits that hold a one.
join_play :
    (b c m : ℕ)
    → b < 2 ^ 8
    → c < 2 ^ 8
    → m < 2 ^ 16
    → bit_or 0x994000000000001 (bit_or (bit_or (b * 2 ^ 40) (c * 2 ^ 32)) (m * 2 ^ 16))
      ≡ 0x994 * 2 ^ 48 + b * 2 ^ 40 + c * 2 ^ 32 + m * 2 ^ 16 + 1
join_play b c m hb hc hm =
    let j1 : bit_or (b * 2 ^ 40) (c * 2 ^ 32) ≡ (b * 2 ^ 8 + c) * 2 ^ 32 =
      bit_or_above 40 b (c * 2 ^ 32) (omega arith) ∙ omega arith in
    let j2 : bit_or ((b * 2 ^ 8 + c) * 2 ^ 32) (m * 2 ^ 16)
        ≡ ((b * 2 ^ 8 + c) * 2 ^ 16 + m) * 2 ^ 16 + 0 =
      bit_or_above 32 (b * 2 ^ 8 + c) (m * 2 ^ 16) (omega arith) ∙ omega arith in
    let f = (b * 2 ^ 8 + c) * 2 ^ 16 + m in
    rw (j1, j2)
      (bit_or_fields 16 0x99400000000 f 1 0 (omega arith) (omega arith)
        ∙ omega (arith, bit_or_above 32 0x994 f (omega arith)))

abbrev pub play_state_digits : ℕ → ℕ → ℕ → List ℕ
play_state_digits track index seconds =
    9
    ∷ 9
    ∷ 4
    ∷ tens (track + 1)
    ∷ ones (track + 1)
    ∷ tens index
    ∷ ones index
    ∷ tens (seconds / 60)
    ∷ ones (seconds / 60)
    ∷ tens (seconds % 60)
    ∷ ones (seconds % 60)
    ∷ 0
    ∷ 0
    ∷ 0
    ∷ 1
    ∷ []

play_state_packed :
    (track index seconds : ℕ)
    → track < 99
    → index ≤ 99
    → seconds < 4800
    → (play_state track index seconds true).nibbles.pack_nibbles
      ≡ value 0 (play_state_digits track index seconds)
unfolding play_state
play_state_packed track index seconds ht hi hs =
    let b = to_bcd_nibbles (u8 (track + 1)) in
    let c = to_bcd_nibbles index in
    let m = to_min_sec_nibbles seconds in
    let t : u8 (track + 1) ≡ track + 1 = omega arith in
    let eb : b ≡ (track + 1) / 10 * 16 + (track + 1) % 10 =
      rw t (bcd_lem (track + 1) (omega arith)) in
    let ec = bcd_lem index hi in
    let em = min_sec_lem seconds (omega arith) in
    let wb : u64 (b * 2 ^ 40) ≡ b * 2 ^ 40 = omega (arith, eb) in
    let wc : u64 (c * 2 ^ 32) ≡ c * 2 ^ 32 = omega (arith, ec) in
    let wm = small_int (m * 2 ^ 16) (omega (arith, em)) in
    rw (wb, wc, wm)
      (join_play b c m (omega (arith, eb)) (omega (arith, ec)) (omega (arith, em))
        ∙ omega (arith, eb, ec, em))

pub play_state_small :
    (track index seconds : ℕ) → All (λ d. d < 16) (play_state_digits track index seconds)
play_state_small track index seconds = omega arith

pub unpacked-play_state :
    (track index seconds : ℕ)
    → track < 99
    → index ≤ 99
    → seconds < 4800
    → unpacked (play_state track index seconds true).nibbles ≡ play_state_digits track index seconds
unpacked-play_state track index seconds ht hi hs =
    unpacked-value (play_state_digits track index seconds)
      (play_state track index seconds true).nibbles (play_state_small track index seconds)
      (play_state_packed track index seconds ht hi hs) (unfold play_state in refl)

-- A disk number and two digits above 20 bits that hold a one.
join_changing :
    (d b : ℕ)
    → d < 16
    → b < 2 ^ 8
    → bit_or (bit_or 0x9B900000001 (d * 2 ^ 28)) (b * 2 ^ 20)
      ≡ 0x9B9 * 2 ^ 32 + d * 2 ^ 28 + b * 2 ^ 20 + 1
join_changing d b hd hb =
    let j1 : bit_or 0x9B900000001 (d * 2 ^ 28) ≡ (0x9B90 + d) * 2 ^ 28 + 1 =
      ap₂ bit_or {v = d * 2 ^ 28 + 0} refl (omega arith)
      ∙ bit_or_fields 28 0x9B90 d 1 0 (omega arith) (omega arith)
      ∙ omega (arith, bit_or_above 4 0x9B9 d hd) in
    let low : (0x9B90 + d) * 2 ^ 28 + 1 ≡ (0x9B90 + d) * 2 ^ 8 * 2 ^ 20 + 1 = omega arith in
    let high : b * 2 ^ 20 ≡ b * 2 ^ 20 + 0 = omega arith in
    rw (j1, low, high)
      (bit_or_fields 20 ((0x9B90 + d) * 2 ^ 8) b 1 0 (omega arith) (omega arith)
        ∙ omega (arith, bit_or_above 8 (0x9B90 + d) b hb))

abbrev pub changing_digits : ℕ → ℕ → List ℕ
changing_digits disk track =
    9 ∷ 11 ∷ 9 ∷ disk ∷ tens (track + 1) ∷ ones (track + 1) ∷ 0 ∷ 0 ∷ 0 ∷ 0 ∷ 1 ∷ []

changing_packed :
    (disk track : ℕ)
    → disk < 8
    → track < 99
    → (changing disk track).nibbles.pack_nibbles ≡ value 0 (changing_digits disk track)
unfolding changing
changing_packed disk track hd ht =
    let b = to_bcd_nibbles (u8 (track + 1)) in
    let t : u8 (track + 1) ≡ track + 1 = omega arith in
    let eb : b ≡ (track + 1) / 10 * 16 + (track + 1) % 10 =
      rw t (bcd_lem (track + 1) (omega arith)) in
    let wd = small_int (disk * 2 ^ 28) (omega arith) in
    let wb = small_int (b * 2 ^ 20) (omega (arith, eb)) in
    rw (wd, wb) (join_changing disk b (omega arith) (omega (arith, eb)) ∙ omega (arith, eb))

pub unpacked-changing :
    (disk track : ℕ)
    → disk < 8
    → track < 99
    → unpacked (changing disk track).nibbles ≡ changing_digits disk track
unpacked-changing disk track hd ht =
    unpacked-value (changing_digits disk track) (changing disk track).nibbles (omega arith)
      (changing_packed disk track hd ht) (unfold changing in refl)
