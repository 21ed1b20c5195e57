-- ===== src/Demos/Station/Inv.antt =====
-- A station that only listens: what the beginning of a round keeps.
use mathlib.Core.Path.{subst}
use diy_acura_bluetooth.Prelude.{
  ℕ, ◌+◌, ◌-◌, ◌≤◌, ◌<◌, ◌≡◌, refl, ◌∙◌, Bool, true, not, [], ◌∷◌, arith, length, set, Returns,
  Returns-bind, Bool-cases, inl, inr, All, All-append, if_both, lt→ltb, ltb, leb, ◌==◌,
}
use diy_acura_bluetooth.Prelude.Words.{u8, u32}
use diy_acura_bluetooth.Queue
use diy_acura_bluetooth.Fifo
use diy_acura_bluetooth.Fifo.{Fifo}
use diy_acura_bluetooth.Phy.State.{mbus_end_msg_code}
use diy_acura_bluetooth.Phy.Rx
use diy_acura_bluetooth.Phy.Rx.{Rx}
use diy_acura_bluetooth.Phy.Tx
use diy_acura_bluetooth.Phy.Tx.Inv.{is_off}
use diy_acura_bluetooth.Phy.Join.{mbus_phy_rx_is_empty, mbus_phy_rx_pop}
use diy_acura_bluetooth.Link.Types.{RxMsg, nibble_array_size}
use diy_acura_bluetooth.Link.Parse.{parse_msg}
use diy_acura_bluetooth.Link.Parse.Typed.{IsByte, IsParsed, HoldsBytes, All-set}
use diy_acura_bluetooth.Link.Parse.Stages.{parse_msg-IsParsed}
use diy_acura_bluetooth.Link.Core.{Link, rx_push_nibble, rx_msg_push}
use diy_acura_bluetooth.Phy.Join.Polled.{Polled, mbus_phy_update-Polled, popped-IsValid}
use diy_acura_bluetooth.Demos.Station.{
  Station, Inputs, pass_time, blink, poll_phy, hand_on_nibble, msg_str_size,
}

-- A link that receives and has nothing to send, with parsed messages in its queue.
pub record Listens (link : Link) : Type 0 where
  pub receives : link.rx_not_tx_mode ≡ true
  pub none_pending : Fifo.is_empty link.tx_msg_fifo ≡ true
  pub messages : Fifo.Inv.IsValid link.rx_msg_fifo
  pub parsed : All IsParsed (Fifo.Refine.contents link.rx_msg_fifo)
  pub codes : All IsByte link.nibbles.nibbles

-- The transmitter is disabled, and the pin does not drive the bus.
pub record IsSilent (m : Station) : Type 0 where
  pub rx : Rx.Inv.IsValid m.phy.rx
  pub tx : Tx.Inv.IsValid m.phy.tx m.drive_mbus_pin_lo
  pub off : is_off m.phy.tx.state ≡ true
  pub pin : m.mbus_drive_lo_pin ≡ m.drive_mbus_pin_lo
  pub link : Listens m.link
  pub buffer : length m.msg_str ≡ msg_str_size

-- What a round must find: a place for the nibble that may come, and bytes on the stack.
pub record Fits (m : Station) (inputs : Inputs) : Type 0 where
  pub nibble : m.link.nibbles.num_nibbles < nibble_array_size
  pub scratch : HoldsBytes inputs.scratch

abbrev pub Goes : Inputs → Station → Type 0
Goes inputs m = IsSilent m × Fits m inputs

ticked :
    (m : Station) (inputs : Inputs) (led : Bool) (n : ℕ)
    → Goes inputs m
    → Goes inputs (record m { led_pin = led; blink_milli_sec_elapsed = n })
ticked m inputs led n (s, f) = (
  record { rx = s.rx; tx = s.tx; off = s.off; pin = s.pin; link = s.link; buffer = s.buffer },
  record { nibble = f.nibble; scratch = f.scratch },
)

pub pass_time-blink-Goes :
    (m : Station) (inputs : Inputs)
    → Goes inputs m
    → Goes inputs (blink (pass_time m inputs.passed))
unfolding pass_time blink
pass_time-blink-Goes m inputs g =
    let n = u32 (m.blink_milli_sec_elapsed + inputs.passed) in
    if_both (Goes inputs) (ltb 1000 n) (ticked m inputs (not m.led_pin) 0 g)
      (ticked m inputs m.led_pin n g)

pub poll_phy-Goes :
    (m : Station) (inputs : Inputs) → Goes inputs m → Returns (Goes inputs) (poll_phy inputs m)
unfolding poll_phy
poll_phy-Goes m inputs (s, f) =
    Returns-bind (Polled m.phy) (Goes inputs) _ _
      (λ q h. (
        record {
          rx = h.0;
          tx = h.1;
          off = h.2 ∙ s.off;
          pin = refl;
          link = s.link;
          buffer = s.buffer;
        },
        record { nibble = f.nibble; scratch = f.scratch },
      ))
      (mbus_phy_update-Polled m.phy inputs.micros inputs.mbus_sense_pin m.drive_mbus_pin_lo s.rx
        s.tx)

push-All :
    (P : RxMsg → Type 0) (f : Fifo RxMsg) (x : RxMsg)
    → Fifo.Inv.IsValid f
    → All P (Fifo.Refine.contents f)
    → P x
    → All P (Fifo.Refine.contents (Fifo.push f x))
unfolding Queue.push
push-All P f x v h p =
    let q = Fifo.Refine.contents f in
    rw (Fifo.Refine.push_refines x v)
      (if_both (All P) (leb f.capacity (length q)) h (All-append P q (x ∷ []) h (p, tt)))

-- A message more is a parsed one.
rx_msg_push-Listens :
    (scratch : RxMsg) (link : Link)
    → HoldsBytes scratch
    → Listens link
    → Listens (rx_msg_push scratch link)
unfolding rx_msg_push
rx_msg_push-Listens scratch link b l =
    let msg = parse_msg link.nibbles.nibbles (link.nibbles.num_nibbles - 1) scratch in
    let p =
      parse_msg-IsParsed link.nibbles.nibbles (link.nibbles.num_nibbles - 1) scratch l.codes b in
    elim (Bool-cases (Fifo.is_full link.rx_msg_fifo)) [
      | inl full ↦ rw full l
      | inr room ↦ rw room (record {
        receives = l.receives;
        none_pending = l.none_pending;
        messages = Fifo.Inv.push-IsValid msg l.messages;
        parsed = push-All IsParsed link.rx_msg_fifo msg l.messages l.parsed p;
        codes = l.codes;
      })
    ]

pub rx_push_nibble-Listens :
    (scratch : RxMsg) (link : Link) (n : ℕ)
    → link.nibbles.num_nibbles < nibble_array_size
    → HoldsBytes scratch
    → IsByte n
    → Listens link
    → Returns Listens (rx_push_nibble scratch link n)
unfolding rx_push_nibble
rx_push_nibble-Listens scratch link n room b byte l =
    let raw = link.nibbles in
    let link1 : Link = record link {
      nibbles = record {
        nibbles = set raw.nibbles raw.num_nibbles n;
        num_nibbles = u8 (raw.num_nibbles + 1);
      };
    } in
    let l1 : Listens link1 = record {
      receives = l.receives;
      none_pending = l.none_pending;
      messages = l.messages;
      parsed = l.parsed;
      codes = All-set raw.nibbles raw.num_nibbles n l.codes byte;
    } in
    let l2 = rx_msg_push-Listens scratch link1 b l1 in
    rw (lt→ltb raw.num_nibbles nibble_array_size room) (
      if_both (Returns Listens) (n == mbus_end_msg_code)
        (record {
          receives = l2.receives;
          none_pending = l2.none_pending;
          messages = l2.messages;
          parsed = l2.parsed;
          codes = l2.codes;
        })
        l1)

pub hand_on_nibble-IsSilent :
    (m : Station) (inputs : Inputs) → Goes inputs m → Returns IsSilent (hand_on_nibble inputs m)
unfolding hand_on_nibble mbus_phy_rx_is_empty mbus_phy_rx_pop Rx.is_empty Rx.pop
hand_on_nibble-IsSilent m inputs (s, f) = elim (Bool-cases (Fifo.is_empty m.phy.rx.byte_fifo)) [
  | inl none_left ↦ rw none_left s
  | inr some_left ↦
      let (c, g, p, e) = Fifo.Refine.pop_total m.phy.rx.byte_fifo s.rx.fifo.valid some_left in
      let code = (subst (All (λ n. n ≤ mbus_end_msg_code)) e s.rx.fifo.codes).0 in
      rw (some_left, p)
        (Returns-bind Listens IsSilent (rx_push_nibble inputs.scratch m.link c) _
          (λ link l. record {
            rx = popped-IsValid m.phy.rx c g s.rx p e;
            tx = s.tx;
            off = s.off;
            pin = s.pin;
            link = l;
            buffer = s.buffer;
          })
          (rx_push_nibble-Listens inputs.scratch m.link c f.nibble f.scratch (omega arith) s.link))
]
