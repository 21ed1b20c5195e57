-- ===== src/Demos/Sniffer/Listening.antt =====
-- What mbus_msg_sniffer.cpp prints.
use mathlib.Core.Path.{ap₂}
use diy_acura_bluetooth.Prelude.{
  ℕ, ◌≡◌, refl, ap, ◌∙◌, false, List, [], ◌∷◌, some, drop, Returns, Returns-bind, Returns-both,
  Returns-map, Bool-cases, inl, inr, ◌==◌, ◌>>=◌,
}
use diy_acura_bluetooth.Fifo
use diy_acura_bluetooth.Phy.State.{mbus_end_msg_code}
use diy_acura_bluetooth.Phy.Rx
use diy_acura_bluetooth.Phy.Tx.Inv.{off-quiet}
use diy_acura_bluetooth.Phy.Join.{mbus_phy_rx_is_busy, mbus_phy_tx_is_busy}
use diy_acura_bluetooth.Link.Types.{RxMsg, RawNibbleList}
use diy_acura_bluetooth.Link.Print.Expected.{printed}
use diy_acura_bluetooth.Link.Core.{rx_is_empty}
use diy_acura_bluetooth.Link.Core.Keeps.{update-rests}
use diy_acura_bluetooth.Demos.Station.{Station, Inputs, hand_on_nibble}
use diy_acura_bluetooth.Demos.Station.Inv.{IsSilent, Fits, hand_on_nibble-IsSilent}
use diy_acura_bluetooth.Demos.Station.Message.{rx_pop-Listens, msg_to_str-printed}
use diy_acura_bluetooth.Demos.Station.Start.{IsListening}
use diy_acura_bluetooth.Demos.Station.Heard.{
  gathered, codes_held, HandsOn, Polls, poll-Polls, hand_on_nibble-gathered,
}
use diy_acura_bluetooth.Demos.Sniffer.{round, poll_link, take_message}

poll_link-rests : (m : Station) → IsSilent m → poll_link m ≡ some m
unfolding poll_link
poll_link-rests m s =
    rw
      (update-rests m.link (mbus_phy_rx_is_busy m.phy) (mbus_phy_tx_is_busy m.phy)
        m.phy.tx.byte_fifo s.link.receives s.link.none_pending)
      refl

-- The texts of the messages that are held, of which there is one at most, over what the buffer held.
abbrev pub texts : List ℕ → List RxMsg → List (List ℕ)
texts memory [] = []
texts memory (msg ∷ _) = printed memory 256 msg ∷ []

-- A message that is held is printed and dropped, and the rest of the station stays as it is.
abbrev Prints : Station → Station × List (List ℕ) → Type 0
Prints m (m', said) =
    IsSilent m'
    × (said ≡ texts m.msg_str (Fifo.Refine.contents m.link.rx_msg_fifo))
    × (Fifo.Refine.contents m'.link.rx_msg_fifo ≡ drop 1 (Fifo.Refine.contents m.link.rx_msg_fifo))
    × (m'.link.nibbles ≡ m.link.nibbles)
    × (m'.phy ≡ m.phy)

take_message-Prints : (m : Station) → IsSilent m → Returns (Prints m) (take_message m)
unfolding take_message rx_is_empty
take_message-Prints m s = elim (Bool-cases (Fifo.is_empty m.link.rx_msg_fifo)) [
  | inl none_left ↦
      let e = Fifo.Refine.is_empty_nil s.link.messages none_left in
      rw (none_left, e) (s, refl, refl, refl, refl)
  | inr some_left ↦
      let (msg, link, p, l, parsed, e, same) = rx_pop-Listens m.link s.link some_left in
      let (shown, size) = msg_to_str-printed msg m.msg_str parsed s.buffer in
      rw (some_left, p, shown, e)
        (
          record { rx = s.rx; tx = s.tx; off = s.off; pin = s.pin; link = l; buffer = size },
          refl,
          refl,
          same,
          refl,
        )
]

-- What a round of a listening sniffer comes to.
abbrev Sniffs : Station → Inputs → Station × List (List ℕ) → Type 0
Sniffs m inputs (m', said) =
    let codes =
      Fifo.Refine.contents (Rx.update m.phy.rx inputs.micros inputs.mbus_sense_pin).byte_fifo in
    let (raw, msgs) = gathered inputs.scratch m.link.nibbles codes in
    IsListening m'
    × (said ≡ texts m.msg_str msgs)
    × (m'.link.nibbles ≡ raw)
    × (codes_held m' ≡ drop 1 codes)
    × (m'.mbus_drive_lo_pin ≡ false)

gathered-one :
    (scratch : RxMsg) (raw : RawNibbleList) (codes : List ℕ)
    → drop 1 (gathered scratch raw codes).1 ≡ []
gathered-one scratch raw [] = refl
gathered-one scratch raw (c ∷ cs) = elim (Bool-cases (c == mbus_end_msg_code)) [
  | inl ends ↦ rw ends refl
  | inr goes_on ↦ rw goes_on refl
]

-- After the poll of the physical layer.
round-rest :
    (m m1 : Station) (inputs : Inputs)
    → IsListening m
    → Polls m inputs m1
    → Returns
        (Sniffs m inputs)
        (hand_on_nibble inputs m1 >>= λ m2. poll_link m2 >>= λ m3. take_message m3)
round-rest m m1 inputs (s, none_held) p =
    let held = ap (λ l. Fifo.Refine.contents l.rx_msg_fifo) p.same_link ∙ none_held in
    let heard = ap (λ rx. Fifo.Refine.contents rx.byte_fifo) p.rx_polled in
    let got = ap₂ (gathered inputs.scratch) (ap (λ l. l.nibbles) p.same_link) heard in
    Returns-bind (λ m2. IsSilent m2 × HandsOn inputs.scratch m1 m2) (Sniffs m inputs)
      (hand_on_nibble inputs m1) _
      (λ m2 (s2, (raw2, msgs2, codes2, str2)). rw (poll_link-rests m2 s2) (
        Returns-map (Prints m2) (Sniffs m inputs) (take_message m2)
          (λ (m', said) (s', says, none_left, raw', phy'). (
            (
              s',
              none_left
                  ∙ ap (drop 1) msgs2
                  ∙ gathered-one inputs.scratch m1.link.nibbles (codes_held m1),
            ),
            says ∙ ap₂ texts (str2 ∙ p.same_str) (msgs2 ∙ ap (λ q. q.1) got),
            raw' ∙ raw2 ∙ ap (λ q. q.0) got,
            ap (λ phy. Fifo.Refine.contents phy.rx.byte_fifo) phy' ∙ codes2 ∙ ap (drop 1) heard,
            s'.pin ∙ s'.tx.driven ∙ off-quiet m'.phy.tx.state s'.off,
          ))
          (take_message-Prints m2 s2)))
      (Returns-both IsSilent _ (hand_on_nibble inputs m1) (hand_on_nibble-IsSilent m1 inputs p.goes)
        (hand_on_nibble-gathered m1 inputs p.goes held))

-- What a round of the sniffer prints and keeps. In a station with valid queues and buffers, whose
-- transmitter is disabled, whose link receives and has nothing to send, and which has printed every
-- message, a round that finds fewer than 32 nibbles held, and bytes on the stack, comes to its end, with
-- no failed assertion. The oldest code that the receiver holds after the poll is taken
-- and kept behind the nibbles held. If it is the end code, the sniffer prints one text, that of the
-- message which those nibbles, without the end code, are parsed as, written over what the buffer held,
-- and no nibble is held any more; after any other code, or none, it prints nothing. The later codes
-- stay in order, the pin does not drive the bus, and the station is again as it was required to be.
pub sniffer_prints :
    (m : Station) (inputs : Inputs)
    → IsListening m
    → Fits m inputs
    → Returns
        (λ (m', said).
          let codes =
            Fifo.Refine.contents
              (Rx.update m.phy.rx inputs.micros inputs.mbus_sense_pin).byte_fifo in
          let (raw, msgs) = gathered inputs.scratch m.link.nibbles codes in
          IsListening m'
          × (said ≡ texts m.msg_str msgs)
          × (m'.link.nibbles ≡ raw)
          × (codes_held m' ≡ drop 1 codes)
          × (m'.mbus_drive_lo_pin ≡ false))
        (round inputs m)
unfolding round
sniffer_prints m inputs s fits =
    Returns-bind (Polls m inputs) (Sniffs m inputs) _ _ (λ m1 p. round-rest m m1 inputs s p)
      (poll-Polls m inputs (s.0, fits))
