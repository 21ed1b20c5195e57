-- ===== src/Link/Parse/Typed.antt =====
-- What every message that `mbus_link_parseMsg` gives has: an error of the five, or the member of the
-- union that its type says, and bytes in the fields of the body.
use diy_acura_bluetooth.Prelude.{
  ℕ, zero, suc, ◌<◌, ◌≡◌, refl, Bool, true, false, Bool-cases, inl, inr, ◌||◌, ◌&&◌, List, [], ◌∷◌,
  arith, All, get_or, set, drop, ◌==◌, if_both,
}
use diy_acura_bluetooth.Link.Types.{
  RxMsg, MsgBody, err_id_signal, err_id_length, err_id_checksum, err_id_direction,
  err_id_unknown_type, msgtype_ping, msgtype_set_play_state, msgtype_head_power_on,
  msgtype_set_disk_track, msgtype_set_mode, msgtype_pong, msgtype_ack_wait, msgtype_cd_power_on,
  msgtype_changing, msgtype_play_state, msgtype_disk_info, msgtype_unknown_status,
}
use diy_acura_bluetooth.Link.Body.{
  nib, nibble_pair_to_bcd, parse_set_play_state, parse_set_disk_track, parse_set_mode,
  parse_changing, parse_play_state, parse_disk_info,
}
use diy_acura_bluetooth.Link.Parse.{typed, no_body, parse_head2cd_body, parse_cd2head_body}

-- The type of message that a member of the union belongs to.
abbrev pub tag : MsgBody → ℕ
tag (MsgBody.set_play_state b) = msgtype_set_play_state
tag (MsgBody.set_disk_track b) = msgtype_set_disk_track
tag (MsgBody.set_mode b) = msgtype_set_mode
tag (MsgBody.changing b) = msgtype_changing
tag (MsgBody.play_state b) = msgtype_play_state
tag (MsgBody.disk_info b) = msgtype_disk_info

-- The types that have a member of their own.
abbrev pub has_body : ℕ → Bool
has_body t =
    t == msgtype_set_play_state
    || t == msgtype_set_disk_track
    || t == msgtype_set_mode
    || t == msgtype_changing
    || t == msgtype_play_state
    || t == msgtype_disk_info

abbrev pub is_known_error : ℕ → Bool
is_known_error e =
    e == err_id_signal
    || e == err_id_length
    || e == err_id_checksum
    || e == err_id_direction
    || e == err_id_unknown_type

abbrev pub IsByte : ℕ → Type 0
IsByte n = n < 256

-- The numbers of a body are bytes, as its fields are declared.
abbrev pub AreBytes : MsgBody → Type 0
AreBytes (MsgBody.set_disk_track b) = IsByte b.disk × IsByte b.track
AreBytes (MsgBody.changing b) = IsByte b.disk × IsByte b.track
AreBytes (MsgBody.play_state b) =
    IsByte b.track × IsByte b.index × IsByte b.minute × IsByte b.second
AreBytes (MsgBody.disk_info b) =
    IsByte b.disk × IsByte b.tracks × IsByte b.minutes × IsByte b.seconds × IsByte b.flags
AreBytes _ = Unit

pub record IsParsed (msg : RxMsg) : Type 0 where
  pub known : (msg.err_id == 0) ≡ false → is_known_error msg.err_id ≡ true
  pub tagged :
      msg.err_id ≡ 0
      → has_body msg.parsed.msg_type ≡ true
      → tag msg.parsed.body ≡ msg.parsed.msg_type
  pub bytes : AreBytes msg.parsed.body

-- Bytes in the arrays and in the body: what the memory of the program holds.
pub record HoldsBytes (msg : RxMsg) : Type 0 where
  pub raw : All IsByte msg.raw_nibbles.nibbles
  pub body : AreBytes msg.parsed.body

pub get_or-IsByte : (xs : List ℕ) (i : ℕ) → All IsByte xs → IsByte (get_or xs i 0)
get_or-IsByte [] i h = omega arith
get_or-IsByte (x ∷ xs) zero h = h.0
get_or-IsByte (x ∷ xs) (suc i) h = get_or-IsByte xs i h.1

All-drop : (n : ℕ) (xs : List ℕ) → All IsByte xs → All IsByte (drop n xs)
All-drop zero xs h = h
All-drop (suc n) [] h = h
All-drop (suc n) (x ∷ xs) h = All-drop n xs h.1

pub All-set : (xs : List ℕ) (i v : ℕ) → All IsByte xs → IsByte v → All IsByte (set xs i v)
All-set [] i v h b = h
All-set (x ∷ xs) zero v h b = (b, h.1)
All-set (x ∷ xs) (suc i) v h b = (h.0, All-set xs i v h.1 b)

pair-IsByte : (a b : ℕ) → IsByte (nibble_pair_to_bcd a b)
unfolding nibble_pair_to_bcd
pair-IsByte a b = omega arith

-- An error, whichever body is left.
pub failed-IsParsed :
    (msg : RxMsg) (e : ℕ)
    → is_known_error e ≡ true
    → AreBytes msg.parsed.body
    → IsParsed (record msg { err_id = e })
failed-IsParsed msg e k b = record { known = λ _. k; tagged = λ z. ground arith; bytes = b }

-- One branch on the type: its length is wrong, or its body is parsed.
typed-IsParsed :
    (msg : RxMsg) (len t : ℕ) (f : RxMsg → RxMsg)
    → msg.err_id ≡ 0
    → AreBytes msg.parsed.body
    → IsParsed (f (record msg { parsed = record msg.parsed { msg_type = t } }))
    → IsParsed (typed msg len t f)
unfolding typed
typed-IsParsed msg len t f sound b parsed = elim (Bool-cases (msg.raw_nibbles.num_nibbles == len)) [
  | inl fits ↦ let passed : (msg.err_id == 0) ≡ true = ground arith in rw (fits, passed) parsed
  | inr wrong ↦ rw wrong (failed-IsParsed msg err_id_length refl b)
]

no_body-IsParsed :
    (msg : RxMsg) (t : ℕ)
    → msg.err_id ≡ 0
    → AreBytes msg.parsed.body
    → has_body t ≡ false
    → IsParsed (record msg { parsed = record msg.parsed { msg_type = t } })
no_body-IsParsed msg t sound b none = record {
  known = λ e. ground arith;
  tagged = λ _ own. cc;
  bytes = b;
}

abbrev with_type : RxMsg → ℕ → RxMsg
with_type msg t = record msg { parsed = record msg.parsed { msg_type = t } }

-- The branches that parse a body.
module _ (msg : RxMsg) (sound : msg.err_id ≡ 0) (seq : List ℕ) where
  set_play_state-IsParsed :
      IsParsed (parse_set_play_state (with_type msg msgtype_set_play_state) seq)
  unfolding parse_set_play_state
  set_play_state-IsParsed = record { known = λ e. ground arith; tagged = λ _ own. refl; bytes = tt }

  set_mode-IsParsed : IsParsed (parse_set_mode (with_type msg msgtype_set_mode) seq)
  unfolding parse_set_mode
  set_mode-IsParsed = record { known = λ e. ground arith; tagged = λ _ own. refl; bytes = tt }

module _ (msg : RxMsg) (sound : msg.err_id ≡ 0) (seq : List ℕ) (h : All IsByte seq) where
  set_disk_track-IsParsed :
      IsParsed (parse_set_disk_track (with_type msg msgtype_set_disk_track) seq)
  unfolding parse_set_disk_track
  set_disk_track-IsParsed = record {
    known = λ e. ground arith;
    tagged = λ _ own. refl;
    bytes = (get_or-IsByte seq 0 h, pair-IsByte _ _);
  }

  changing-IsParsed : IsParsed (parse_changing (with_type msg msgtype_changing) seq)
  unfolding parse_changing
  changing-IsParsed = record {
    known = λ e. ground arith;
    tagged = λ _ own. refl;
    bytes = (get_or-IsByte seq 1 h, pair-IsByte _ _);
  }

  play_state-IsParsed : IsParsed (parse_play_state (with_type msg msgtype_play_state) seq)
  unfolding parse_play_state
  play_state-IsParsed = record {
    known = λ e. ground arith;
    tagged = λ _ own. refl;
    bytes = (pair-IsByte _ _, pair-IsByte _ _, pair-IsByte _ _, pair-IsByte _ _);
  }

  disk_info-IsParsed : IsParsed (parse_disk_info (with_type msg msgtype_disk_info) seq)
  unfolding parse_disk_info
  disk_info-IsParsed = record {
    known = λ e. ground arith;
    tagged = λ _ own. refl;
    bytes = (
      get_or-IsByte seq 0 h,
      pair-IsByte _ _,
      pair-IsByte _ _,
      pair-IsByte _ _,
      get_or-IsByte seq 9 h,
    );
  }

pub parse_head2cd-IsParsed :
    (msg : RxMsg) → msg.err_id ≡ 0 → HoldsBytes msg → IsParsed (parse_head2cd_body msg)
unfolding parse_head2cd_body
parse_head2cd-IsParsed msg sound h =
    let seq : List ℕ = drop 3 msg.raw_nibbles.nibbles in
    let small : All IsByte seq = All-drop 3 msg.raw_nibbles.nibbles h.raw in
    let plain = λ (len t : ℕ) (own : has_body t ≡ false).
      typed-IsParsed msg len t no_body sound h.body (no_body-IsParsed msg t sound h.body own) in
    let bodied = λ (len t : ℕ) (f : RxMsg → RxMsg) (p : IsParsed (f (with_type msg t))).
      typed-IsParsed msg len t f sound h.body p in
    let cmd0 : ℕ = nib msg.raw_nibbles.nibbles 1 in
    let cmd1 : ℕ = nib msg.raw_nibbles.nibbles 2 in
    if_both IsParsed (cmd0 == 0x8) (plain 3 msgtype_ping refl) (
      if_both IsParsed (cmd0 == 0x1 && cmd1 == 0x1)
        (bodied 6 msgtype_set_play_state (λ m. parse_set_play_state m seq)
          (set_play_state-IsParsed msg sound seq))
        (if_both IsParsed (cmd0 == 0x1 && cmd1 == 0x3)
          (bodied 9 msgtype_set_disk_track (λ m. parse_set_disk_track m seq)
            (set_disk_track-IsParsed msg sound seq small))
          (if_both IsParsed (cmd0 == 0x1 && cmd1 == 0x4)
            (bodied 9 msgtype_set_mode (λ m. parse_set_mode m seq)
              (set_mode-IsParsed msg sound seq))
            (if_both IsParsed (cmd0 == 0x9) (plain 3 msgtype_head_power_on refl)
              (failed-IsParsed msg err_id_unknown_type refl h.body)))))

pub parse_cd2head-IsParsed :
    (msg : RxMsg) → msg.err_id ≡ 0 → HoldsBytes msg → IsParsed (parse_cd2head_body msg)
unfolding parse_cd2head_body
parse_cd2head-IsParsed msg sound h =
    let seq : List ℕ = drop 2 msg.raw_nibbles.nibbles in
    let small : All IsByte seq = All-drop 2 msg.raw_nibbles.nibbles h.raw in
    let plain = λ (len t : ℕ) (own : has_body t ≡ false).
      typed-IsParsed msg len t no_body sound h.body (no_body-IsParsed msg t sound h.body own) in
    let bodied = λ (len t : ℕ) (f : RxMsg → RxMsg) (p : IsParsed (f (with_type msg t))).
      typed-IsParsed msg len t f sound h.body p in
    let cmd0 : ℕ = nib msg.raw_nibbles.nibbles 1 in
    if_both IsParsed (cmd0 == 0x8) (plain 3 msgtype_pong refl) (
      if_both IsParsed (cmd0 == 0x9)
        (bodied 16 msgtype_play_state (λ m. parse_play_state m seq)
          (play_state-IsParsed msg sound seq small))
        (if_both IsParsed (cmd0 == 0xA) (plain 13 msgtype_cd_power_on refl) (
          if_both IsParsed (cmd0 == 0xB)
            (bodied 12 msgtype_changing (λ m. parse_changing m seq)
              (changing-IsParsed msg sound seq small))
            (if_both IsParsed (cmd0 == 0xC)
              (bodied 13 msgtype_disk_info (λ m. parse_disk_info m seq)
                (disk_info-IsParsed msg sound seq small))
              (if_both IsParsed (cmd0 == 0xD) (plain 11 msgtype_unknown_status refl) (
                if_both IsParsed (cmd0 == 0xF) (plain 8 msgtype_ack_wait refl)
                  (failed-IsParsed msg err_id_unknown_type refl h.body)))))))
