-- ===== src/Demos/Station/Heard.antt =====
-- What the link of a listening station makes of the next code of the receiver.
use diy_acura_bluetooth.Prelude.{
  ℕ, ◌+◌, ◌-◌, ◌<◌, ◌≡◌, refl, ◌∙◌, ap, false, List, [], ◌∷◌, ◌++◌, arith, length, set, drop,
  Returns, Returns-bind, Returns-both, Returns-map, Bool-cases, inl, inr, if_both, lt→ltb, ltb,
  ◌==◌, if◌then◌else◌,
}
use diy_acura_bluetooth.Prelude.Words.{u8, u32}
use diy_acura_bluetooth.Fifo
use diy_acura_bluetooth.Fifo.{Fifo}
use diy_acura_bluetooth.Fifo.Many.{contents-push}
use diy_acura_bluetooth.Phy.State.{mbus_end_msg_code}
use diy_acura_bluetooth.Phy.Rx
use diy_acura_bluetooth.Phy.Tx
use diy_acura_bluetooth.Phy.Tx.Inv.{update_total}
use diy_acura_bluetooth.Phy.Join.{mbus_phy_update, mbus_phy_rx_is_empty, mbus_phy_rx_pop}
use diy_acura_bluetooth.Link.Types.{RxMsg, RawNibbleList, nibble_array_size}
use diy_acura_bluetooth.Link.Parse.{parse_msg}
use diy_acura_bluetooth.Link.Core.{Link, rx_push_nibble, rx_msg_push}
use diy_acura_bluetooth.Demos.Station.{Station, Inputs, pass_time, blink, poll_phy, hand_on_nibble}
use diy_acura_bluetooth.Demos.Station.Inv.{IsSilent, Goes, pass_time-blink-Goes, poll_phy-Goes}

-- The nibbles held and the message, if any, after the code `n`: it is kept behind the nibbles held, and
-- the end code makes a message of those nibbles and starts the next one.
abbrev pub gather : RxMsg → RawNibbleList → ℕ → RawNibbleList × List RxMsg
gather scratch raw n =
    let kept = set raw.nibbles raw.num_nibbles n in
    if n == mbus_end_msg_code
    then (record { nibbles = kept; num_nibbles = 0 }, parse_msg kept raw.num_nibbles scratch ∷ [])
    else (record { nibbles = kept; num_nibbles = raw.num_nibbles + 1 }, [])

-- The same for the codes that the receiver holds, of which only the oldest one is taken.
abbrev pub gathered : RxMsg → RawNibbleList → List ℕ → RawNibbleList × List RxMsg
gathered scratch raw [] = (raw, [])
gathered scratch raw (n ∷ _) = gather scratch raw n

abbrev Holds : RawNibbleList × List RxMsg → Link → Type 0
Holds (raw, msgs) link = (link.nibbles ≡ raw) × (Fifo.Refine.contents link.rx_msg_fifo ≡ msgs)

rx_msg_push-first :
    (scratch : RxMsg) (link : Link)
    → Fifo.Inv.IsValid link.rx_msg_fifo
    → Fifo.Refine.contents link.rx_msg_fifo ≡ []
    → Holds
        (link.nibbles, parse_msg link.nibbles.nibbles (link.nibbles.num_nibbles - 1) scratch ∷ [])
        (rx_msg_push scratch link)
unfolding rx_msg_push
rx_msg_push-first scratch link v none_held =
    let msg = parse_msg link.nibbles.nibbles (link.nibbles.num_nibbles - 1) scratch in
    let empty : length (Fifo.Refine.contents link.rx_msg_fifo) ≡ 0 = ap length none_held in
    let free : Fifo.is_full link.rx_msg_fifo ≡ false =
      Fifo.Refine.is_full_lem v ∙ ground (arith, empty, v.cap_pos) in
    rw free (
      refl,
      contents-push msg v (omega (arith, empty, v.cap_pos)) ∙ ap (λ l. l ++ msg ∷ []) none_held,
    )

rx_push_nibble-gather :
    (scratch : RxMsg) (link : Link) (n : ℕ)
    → link.nibbles.num_nibbles < nibble_array_size
    → Fifo.Inv.IsValid link.rx_msg_fifo
    → Fifo.Refine.contents link.rx_msg_fifo ≡ []
    → Returns (Holds (gather scratch link.nibbles n)) (rx_push_nibble scratch link n)
unfolding rx_push_nibble
rx_push_nibble-gather scratch link n room v none_held =
    let raw = link.nibbles in
    let kept = set raw.nibbles raw.num_nibbles n in
    let link1 : Link = record link {
      nibbles = record { nibbles = kept; num_nibbles = u8 (raw.num_nibbles + 1) };
    } in
    let (same, queued) = rx_msg_push-first scratch link1 v none_held in
    let count : u8 (raw.num_nibbles + 1) ≡ raw.num_nibbles + 1 = omega (arith, room) in
    let before : u8 (raw.num_nibbles + 1) - 1 ≡ raw.num_nibbles = omega (arith, room) in
    elim (Bool-cases (n == mbus_end_msg_code)) [
      | inl ends ↦
          rw (lt→ltb raw.num_nibbles nibble_array_size room, ends)
            (
              ap (λ (r : RawNibbleList). record r { num_nibbles = 0 }) same,
              queued ∙ ap (λ k. parse_msg kept k scratch ∷ []) before,
            )
      | inr goes_on ↦
          rw (lt→ltb raw.num_nibbles nibble_array_size room, goes_on)
            (ap (λ (k : ℕ). record { nibbles = kept; num_nibbles = k }) count, none_held)
    ]

-- What the beginning of a round leaves as it is.
record Keeps (m m' : Station) : Type 0 where
  pub same_rx : m'.phy.rx ≡ m.phy.rx
  pub same_link : m'.link ≡ m.link
  pub same_str : m'.msg_str ≡ m.msg_str

pass_time-blink-Keeps : (m : Station) (passed : ℕ) → Keeps m (blink (pass_time m passed))
unfolding pass_time blink
pass_time-blink-Keeps m passed =
    let n = u32 (m.blink_milli_sec_elapsed + passed) in
    if_both (Keeps m) (ltb 1000 n) (record { same_rx = refl; same_link = refl; same_str = refl })
      (record { same_rx = refl; same_link = refl; same_str = refl })

-- The station after a poll of the physical layer.
pub record Polls (m : Station) (inputs : Inputs) (m' : Station) : Type 0 where
  pub goes : Goes inputs m'
  pub rx_polled : m'.phy.rx ≡ Rx.update m.phy.rx inputs.micros inputs.mbus_sense_pin
  pub same_link : m'.link ≡ m.link
  pub same_str : m'.msg_str ≡ m.msg_str

poll_phy-rx :
    (m : Station) (inputs : Inputs)
    → IsSilent m
    → Returns
        (λ m'.
          (m'.phy.rx ≡ Rx.update m.phy.rx inputs.micros inputs.mbus_sense_pin)
          × (m'.link ≡ m.link)
          × (m'.msg_str ≡ m.msg_str))
        (poll_phy inputs m)
unfolding poll_phy mbus_phy_update
poll_phy-rx m inputs s =
    let rx = Rx.update m.phy.rx inputs.micros inputs.mbus_sense_pin in
    Returns-bind (λ q. q.0.rx ≡ rx) _ _ _ (λ q e. (e, refl, refl))
      (Returns-bind (λ q. Tx.Inv.IsValid q.0 q.1) _
        (Tx.update m.phy.tx inputs.micros m.drive_mbus_pin_lo) _ (λ q h. refl)
        (update_total m.phy.tx inputs.micros m.drive_mbus_pin_lo s.tx))

pub poll-Polls :
    (m : Station) (inputs : Inputs)
    → Goes inputs m
    → Returns (Polls m inputs) (poll_phy inputs (blink (pass_time m inputs.passed)))
poll-Polls m inputs g =
    let m0 = blink (pass_time m inputs.passed) in
    let k = pass_time-blink-Keeps m inputs.passed in
    let g0 = pass_time-blink-Goes m inputs g in
    Returns-map _ (Polls m inputs) (poll_phy inputs m0)
      (λ m' q. record {
        goes = q.0;
        rx_polled = q.1.0 ∙ ap (λ rx. Rx.update rx inputs.micros inputs.mbus_sense_pin) k.same_rx;
        same_link = q.1.1 ∙ k.same_link;
        same_str = q.1.2 ∙ k.same_str;
      })
      (Returns-both (Goes inputs) _ (poll_phy inputs m0) (poll_phy-Goes m0 inputs g0)
        (poll_phy-rx m0 inputs g0.0))

abbrev pub codes_held : Station → List ℕ
codes_held m = Fifo.Refine.contents m.phy.rx.byte_fifo

-- The station after the oldest code that it holds was handed to the link.
abbrev pub HandsOn : RxMsg → Station → Station → Type 0
HandsOn scratch m m' =
    let (raw, msgs) = gathered scratch m.link.nibbles (codes_held m) in
    (m'.link.nibbles ≡ raw)
    × (Fifo.Refine.contents m'.link.rx_msg_fifo ≡ msgs)
    × (codes_held m' ≡ drop 1 (codes_held m))
    × (m'.msg_str ≡ m.msg_str)

pub hand_on_nibble-gathered :
    (m : Station) (inputs : Inputs)
    → Goes inputs m
    → Fifo.Refine.contents m.link.rx_msg_fifo ≡ []
    → Returns (HandsOn inputs.scratch m) (hand_on_nibble inputs m)
unfolding hand_on_nibble mbus_phy_rx_is_empty mbus_phy_rx_pop Rx.is_empty Rx.pop
hand_on_nibble-gathered m inputs (s, f) none_held =
    elim (Bool-cases (Fifo.is_empty m.phy.rx.byte_fifo)) [
      | inl none_left ↦
          let e : codes_held m ≡ [] = Fifo.Refine.is_empty_nil s.rx.fifo.valid none_left in
          rw (none_left, e) (refl, none_held, refl, refl)
      | inr some_left ↦
          let (c, g, p, e) = Fifo.Refine.pop_total m.phy.rx.byte_fifo s.rx.fifo.valid some_left in
          rw (some_left, p)
            (Returns-bind (Holds (gather inputs.scratch m.link.nibbles c)) _
              (rx_push_nibble inputs.scratch m.link c) _ (λ link q. rw e (q.0, q.1, refl, refl))
              (rx_push_nibble-gather inputs.scratch m.link c f.nibble s.link.messages none_held))
    ]
