-- ===== src/Link/Parse/Stages.antt =====
-- `mbus_link_parseMsg` stage by stage: the nibbles taken in, the checksum, the direction, the body.
use diy_acura_bluetooth.Prelude.{
  ℕ, zero, suc, ◌≡◌, refl, Bool, true, false, Bool-cases, inl, inr, not, ==→eq, List, arith, All,
  get_or, ltb, ◌==◌, if◌then◌else◌, if_both,
}
use diy_acura_bluetooth.Link.Types.{
  RxMsg, err_id_length, err_id_checksum, err_id_direction, nibble_array_size,
}
use diy_acura_bluetooth.Link.Parse.{
  is_bad_signal, copy_nibble, copy_loop, length_check, do_check_sum, do_direction, take_in,
  parse_body, parse_msg,
}
use diy_acura_bluetooth.Link.Parse.Typed.{
  IsByte, IsParsed, HoldsBytes, is_known_error, get_or-IsByte, All-set, parse_head2cd-IsParsed,
  parse_cd2head-IsParsed,
}

-- The error is none or one of the five, and the arrays hold bytes, while the parse goes on.
record GoesOn (msg : RxMsg) : Type 0 where
  known : (msg.err_id == 0) ≡ false → is_known_error msg.err_id ≡ true
  holds : HoldsBytes msg

with_error-GoesOn :
    (msg : RxMsg) (e : ℕ)
    → is_known_error e ≡ true
    → HoldsBytes msg
    → GoesOn (record msg { err_id = e })
with_error-GoesOn msg e k h = record {
  known = λ _. k;
  holds = record { raw = h.raw; body = h.body };
}

copy_loop-GoesOn :
    (rounds idx : ℕ) (seq : List ℕ) (msg : RxMsg)
    → All IsByte seq
    → GoesOn msg
    → GoesOn (copy_loop rounds idx seq msg)
unfolding copy_loop
copy_loop-GoesOn zero idx seq msg h v = v
copy_loop-GoesOn (suc rounds) idx seq msg h v =
    let n : ℕ = get_or seq idx 0 in
    copy_loop-GoesOn rounds (suc idx) seq (copy_nibble idx n msg) h (record {
      known =
          if_both (λ e. (e == 0) ≡ false → is_known_error e ≡ true) (is_bad_signal n) (λ _. refl)
            v.known;
      holds = record {
        raw = All-set msg.raw_nibbles.nibbles idx n v.holds.raw (get_or-IsByte seq idx h);
        body = v.holds.body;
      };
    })

length_check-GoesOn : (msg : RxMsg) (b : Bool) → GoesOn msg → GoesOn (length_check msg b)
unfolding length_check
length_check-GoesOn msg b v =
    if_both GoesOn (not b) (with_error-GoesOn msg err_id_length refl v.holds) v

too_long-known :
    (b : Bool)
    → ((if b then err_id_length else 0) == 0) ≡ false
    → is_known_error (if b then err_id_length else 0) ≡ true
too_long-known true e = refl
too_long-known false e = cc

take_in-GoesOn :
    (seq : List ℕ) (n : ℕ) (out : RxMsg)
    → All IsByte seq
    → HoldsBytes out
    → GoesOn (take_in seq n out)
unfolding take_in
take_in-GoesOn seq n out h v =
    let too_long : Bool = ltb nibble_array_size n in
    let rounds : ℕ = if too_long then nibble_array_size else n in
    let msg : RxMsg = record out {
      err_id = if too_long then err_id_length else 0;
      raw_nibbles = record out.raw_nibbles { num_nibbles = rounds };
    } in
    length_check-GoesOn (copy_loop rounds 0 seq msg) (ltb 2 rounds) (
      copy_loop-GoesOn rounds 0 seq msg h
        (record { known = too_long-known too_long; holds = record { raw = v.raw; body = v.body } }))

do_check_sum-GoesOn : (msg : RxMsg) → GoesOn msg → GoesOn (do_check_sum msg)
unfolding do_check_sum
do_check_sum-GoesOn msg v = if_both GoesOn _ (with_error-GoesOn msg err_id_checksum refl v.holds) v

with_direction-GoesOn :
    (msg : RxMsg) (h2c : Bool)
    → GoesOn msg
    → GoesOn (record msg { parsed = record msg.parsed { direction_h2c = h2c } })
with_direction-GoesOn msg h2c v = record {
  known = v.known;
  holds = record { raw = v.holds.raw; body = v.holds.body };
}

do_direction-GoesOn : (msg : RxMsg) → GoesOn msg → GoesOn (do_direction msg)
unfolding do_direction
do_direction-GoesOn msg v = if_both GoesOn _ (with_direction-GoesOn msg true v) (
    if_both GoesOn _ (with_direction-GoesOn msg false v)
      (with_error-GoesOn msg err_id_direction refl v.holds))

-- An early return, or the rest of the parse with no error.
returned-IsParsed :
    (msg rest : RxMsg)
    → GoesOn msg
    → (msg.err_id ≡ 0 → IsParsed rest)
    → IsParsed (if not (msg.err_id == 0) then msg else rest)
returned-IsParsed msg rest v more = elim (Bool-cases (msg.err_id == 0)) [
  | inl sound ↦ rw sound (more (==→eq _ _ sound))
  | inr failed ↦
      rw failed (record { known = v.known; tagged = λ e own. ground arith; bytes = v.holds.body })
]

-- Whatever bytes it is given, the parser gives a message with an error of the five, or one in which
-- the member of the union that was written is the one that the type says, if the type has a member;
-- and the numbers of the body are bytes, if they were before the call.
pub parse_msg-IsParsed :
    (seq : List ℕ) (n : ℕ) (out : RxMsg)
    → All IsByte seq
    → HoldsBytes out
    → IsParsed (parse_msg seq n out)
unfolding parse_msg parse_body
parse_msg-IsParsed seq n out h v =
    let v1 : GoesOn (take_in seq n out) = take_in-GoesOn seq n out h v in
    let v2 = do_check_sum-GoesOn _ v1 in
    let v3 = do_direction-GoesOn _ v2 in
    returned-IsParsed _ _ v1 (λ _. returned-IsParsed _ _ v2 (λ _. returned-IsParsed _ _ v3 (λ sound.
      if_both IsParsed _ (parse_head2cd-IsParsed _ sound v3.holds)
        (parse_cd2head-IsParsed _ sound v3.holds))))
