-- ===== src/Bus.antt =====
-- Two sides of the bus as one: the link of common/mbus/mbus_link.c that sends, its transmitter, the bus,
-- the receiver of common/mbus/mbus_phy.c on the other side, and the link there.
use mathlib.Core.List.{append_assoc}
use diy_acura_bluetooth.Prelude.{
  ℕ, zero, suc, ◌≤◌, ◌<◌, ◌≡◌, sym, ap, ◌∙◌, Bool, true, false, List, [], ◌∷◌, ◌++◌, Option, none,
  some, arith, length, Returns, ◌>>=◌,
}
use diy_acura_bluetooth.Fifo
use diy_acura_bluetooth.Fifo.Many.{push_all, push_all-IsValid, contents-push_all, contents-push}
use diy_acura_bluetooth.Phy.State.{RxState, TxState, mbus_end_msg_code}
use diy_acura_bluetooth.Phy.Rx
use diy_acura_bluetooth.Phy.Rx.{Rx}
use diy_acura_bluetooth.Phy.Rx.Decode.{Poll, run}
use diy_acura_bluetooth.Phy.Tx.{Tx}
use diy_acura_bluetooth.Phy.Tx.Bit.{emit}
use diy_acura_bluetooth.Phy.Loop.{seen}
use diy_acura_bluetooth.Phy.Loop.Message.{Sending, IsSent, Follow, nibbles, all_times, last_release}
use diy_acura_bluetooth.Phy.Loop.Ending.{Ending, EndsAfter, end_times, message_carried}
use diy_acura_bluetooth.Link.Types.{RxMsg, TxMsg}
use diy_acura_bluetooth.Link.Build
use diy_acura_bluetooth.Link.Parse.Checksum.{checksum}
use diy_acura_bluetooth.Link.Core.{Link, rx_push_nibble, tx_play_state, tx_push, update}
use diy_acura_bluetooth.Link.Core.Send.{framed, unpacked}
use diy_acura_bluetooth.Link.Core.Direction.{update-sends}
use diy_acura_bluetooth.Link.Core.Receive.{receive}
use diy_acura_bluetooth.Link.Deliver.{CanReceive, GotMessage}
use diy_acura_bluetooth.Link.Roundtrip.{playing, play_state_delivered}
use diy_acura_bluetooth.Link.Roundtrip.Digits.{play_state_digits, unpacked-play_state}

-- Codes that the receiver queued are handed to the link, one after the other.
unfoldable pub hand_over : ℕ → RxMsg → Rx → Link → Option Link
hand_over zero scratch rx link = some link
hand_over (suc codes) scratch rx link = Rx.pop rx >>= λ (code, rx1).
    rx_push_nibble scratch link code >>= λ link1. hand_over codes scratch rx1 link1

-- A message on its way: the link hands it to the transmitter `tx`, which is polled at the times `times`
-- and drives the bus; the receiver `rx` is polled at the same times, and hands on `codes` codes.
unfoldable pub travel :
    Link → Bool → Bool → Tx → Bool → List ℕ → Rx → ℕ → RxMsg → Link → Option Link
travel sender rx_busy tx_busy tx drive_lo times rx codes scratch receiver =
    update sender rx_busy tx_busy tx.byte_fifo >>= λ (sender1, fifo, turned).
    emit (record tx { byte_fifo = fifo }) drive_lo times >>= λ (tx1, drives).
    hand_over codes scratch (run rx (seen drives)) receiver

Returns-same {ℓ κ} :
    {A : Type ℓ} {B : Type κ} (P : B → Type 0) (m : Option A) (f g : A → Option B)
    → ((a : A) → Returns P (f a) → Returns P (g a))
    → Returns P (m >>= f)
    → Returns P (m >>= g)
Returns-same P none f g h p = p
Returns-same P (some a) f g h p = h a p

-- What the link makes of the codes of a list it makes of them when they come from a queue.
hand_over-receive :
    (P : Link → Type 0) (codes : List ℕ) (scratch : RxMsg) (rx : Rx) (link : Link)
    → Fifo.Inv.IsValid rx.byte_fifo
    → Fifo.Refine.contents rx.byte_fifo ≡ codes
    → Returns P (receive scratch link codes)
    → Returns P (hand_over (length codes) scratch rx link)
unfolding hand_over receive Rx.pop
hand_over-receive P [] scratch rx link v e p = p
hand_over-receive P (c ∷ codes) scratch rx link v e p =
    let (f, pops, rest) = Fifo.Refine.pop_cons rx.byte_fifo v e in
    rw pops (
      Returns-same P (rx_push_nibble scratch link c) (λ l. receive scratch l codes) _
        (λ l h.
          hand_over-receive P codes scratch (record rx { byte_fifo = f }) l
            (Fifo.Inv.pop-IsValid {r = (c, f)} v pops) rest h)
        p)

run-IsValid : (polls : List Poll) {rx : Rx} → Rx.Inv.IsValid rx → Rx.Inv.IsValid (run rx polls)
unfolding run
run-IsValid [] v = v
run-IsValid ((us, pin_hi) ∷ polls) v = run-IsValid polls (Rx.Inv.update-IsValid us pin_hi v)

-- A transmitter and a receiver at rest with nothing queued, and room for `size` codes.
pub record IsQuiet (size : ℕ) (tx : Tx) (rx : Rx) : Type 0 where
  pub tx_valid : Fifo.Inv.IsValid tx.byte_fifo
  pub tx_idle : tx.state ≡ TxState.idle
  pub tx_empty : Fifo.Refine.contents tx.byte_fifo ≡ []
  pub tx_room : size ≤ tx.byte_fifo.capacity
  pub rx_valid : Rx.Inv.IsValid rx
  pub rx_idle : rx.state ≡ RxState.idle
  pub rx_start : rx.bit_shifter ≡ 8
  pub rx_empty : Fifo.Refine.contents rx.byte_fifo ≡ []
  pub rx_room : size ≤ rx.byte_fifo.capacity

-- The polls are those of the nibbles `ns`, in time, and those of the end.
pub record Spells (ns : List ℕ) (s : Sending) (ss : List Sending) (e : Ending) : Type 0 where
  pub letters : nibbles (s ∷ ss) ≡ ns
  pub sent : IsSent s
  pub follow : Follow s.bits.bit0.release ss
  pub ends : EndsAfter (last_release s.bits.bit0.release ss) e

-- A pending message reaches the link on the other side as the same nibbles, framed.
pub message_travels :
    (P : Link → Type 0) (m : TxMsg) (q : List TxMsg) (ns : List ℕ) (sender receiver : Link)
    (rx_busy tx_busy : Bool) (tx : Tx) (d : Bool) (rx : Rx) (s : Sending) (ss : List Sending)
    (e : Ending) (scratch : RxMsg)
    → Fifo.Inv.IsValid sender.tx_msg_fifo
    → sender.rx_not_tx_mode ≡ false
    → Fifo.Refine.contents sender.tx_msg_fifo ≡ m ∷ q
    → unpacked m.nibbles ≡ ns
    → IsQuiet (length (framed ns)) tx rx
    → Spells (ns ++ checksum ns ∷ []) s ss e
    → Returns P (receive scratch receiver (framed ns))
    → Returns P (
        travel sender rx_busy tx_busy tx d
          (all_times (s ∷ ss) ++ end_times e)
          rx
          (length (framed ns))
          scratch
          receiver)
unfolding travel
message_travels P m q ns sender receiver rx_busy tx_busy tx d rx s ss e scratch v mode pending u
      quiet spells got =
    let (g, sends, rest, valid) =
      update-sends sender rx_busy tx_busy tx.byte_fifo m q v mode pending in
    let tx1 = record tx { byte_fifo = push_all tx.byte_fifo (framed ns) } in
    let whole : nibbles (s ∷ ss) ++ mbus_end_msg_code ∷ [] ≡ framed ns =
      ap (λ l. l ++ mbus_end_msg_code ∷ []) spells.letters
      ∙ append_assoc ns (checksum ns ∷ []) (mbus_end_msg_code ∷ []) in
    let none_yet = ap length quiet.tx_empty in
    let none_here = ap length quiet.rx_empty in
    let queued =
      contents-push_all (framed ns) quiet.tx_valid (omega (arith, none_yet, quiet.tx_room))
      ∙ ap (λ l. l ++ framed ns) quiet.tx_empty
      ∙ sym whole in
    let (tx2, drives, drove, waits, left, heard, idle) =
      message_carried s ss e tx1 d [] rx (push_all-IsValid (framed ns) quiet.tx_valid) quiet.tx_idle
        queued quiet.rx_valid.fifo.valid quiet.rx_idle quiet.rx_start
        (omega (arith, none_here, quiet.rx_room, ap length whole)) spells.sent spells.follow
        spells.ends in
    let codes =
      heard ∙ ap (λ l. l ++ (nibbles (s ∷ ss) ++ mbus_end_msg_code ∷ [])) quiet.rx_empty ∙ whole in
    rw (sends, u, drove)
      (hand_over-receive P (framed ns) scratch (run rx (seen drives)) receiver
        (run-IsValid (seen drives) quiet.rx_valid).fifo.valid codes got)

-- A play state message goes all the way. The link, already in its sending mode, is asked to send one,
-- with nothing else pending, and is polled once; its transmitter, polled in time, drives the bus; the receiver, polled at the same
-- times, queues what it hears; and the link there, given those codes, has exactly one message more,
-- without an error, which says the same track, index and time, and is ready for the next one. All
-- four parts must be at rest with room before; the track is below 99, the index at most 99, and the
-- time below 80 minutes.
pub play_state_travels :
    (sender receiver : Link) (rx_busy tx_busy : Bool) (tx : Tx) (d : Bool) (rx : Rx) (s : Sending)
    (ss : List Sending) (e : Ending) (scratch : RxMsg) (track index seconds : ℕ)
    → Fifo.Inv.IsValid sender.tx_msg_fifo
    → sender.rx_not_tx_mode ≡ false
    → Fifo.Refine.contents sender.tx_msg_fifo ≡ []
    → 1 ≤ sender.tx_msg_fifo.capacity
    → CanReceive scratch receiver
    → track < 99
    → index ≤ 99
    → seconds < 4800
    → let ns = play_state_digits track index seconds in
      IsQuiet (length (framed ns)) tx rx
      → Spells (ns ++ checksum ns ∷ []) s ss e
      → Returns (GotMessage receiver (playing track index seconds)) (
          travel
            (tx_play_state sender track index seconds true)
            rx_busy
            tx_busy
            tx
            d
            (all_times (s ∷ ss) ++ end_times e)
            rx
            (length (framed ns))
            scratch
            receiver)
unfolding tx_play_state tx_push
play_state_travels sender receiver rx_busy tx_busy tx d rx s ss e scratch track index seconds v mode
      none_pending room can ht hi hs quiet spells =
    let ns = play_state_digits track index seconds in
    let m = Build.play_state track index seconds true in
    let u = unpacked-play_state track index seconds ht hi hs in
    let pending =
      contents-push m v (omega (arith, ap length none_pending))
      ∙ ap (λ l. l ++ m ∷ []) none_pending in
    message_travels (GotMessage receiver (playing track index seconds)) m [] ns
      (record sender { tx_msg_fifo = Fifo.push sender.tx_msg_fifo m }) receiver rx_busy tx_busy tx d
      rx s ss e scratch (Fifo.Inv.push-IsValid m v) mode pending u quiet spells
      (rw u at (play_state_delivered scratch receiver track index seconds can ht hi hs))
