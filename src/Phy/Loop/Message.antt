-- ===== src/Phy/Loop/Message.antt =====
-- A whole message on the bus, from the queue of the transmitter to that of the receiver.
use mathlib.Core.List.{append_assoc, append-nil}
use mathlib.Core.Path.{subst}
use diy_acura_bluetooth.Prelude.{
  ℕ, ◌≤◌, ◌<◌, ◌≡◌, refl, sym, ap, ◌∙◌, Bool, true, false, not, List, [], ◌∷◌, ◌++◌, some,
}
use diy_acura_bluetooth.Prelude.Words.{elapsed}
use diy_acura_bluetooth.Fifo
use diy_acura_bluetooth.Fifo.{Fifo}
use diy_acura_bluetooth.Fifo.Many.{push_all, push_all-append}
use diy_acura_bluetooth.Phy.State.{RxState, TxState, interbit_timeout_time}
use diy_acura_bluetooth.Phy.Rx
use diy_acura_bluetooth.Phy.Rx.{Rx}
use diy_acura_bluetooth.Phy.Rx.Decode.{run, run-append, is_ready, update-high}
use diy_acura_bluetooth.Phy.Tx.{Tx}
use diy_acura_bluetooth.Phy.Tx.Bit.{Drive, emit, emit-nil}
use diy_acura_bluetooth.Phy.Tx.Nibble.{NibbleTimes, TimesOf, nibble_times, nibble_wave, nibble_sent}
use diy_acura_bluetooth.Phy.Loop.{seen, ArePrompt, run-seen_nibble}
use diy_acura_bluetooth.Phy.Loop.Emit.{GoesOn, followed, emit-append}

-- A nibble, the poll at which the transmitter takes it, and the polls of its bits.
pub record Sending : Type 0 where
  pub nibble : ℕ
  pub pick : ℕ
  pub bits : NibbleTimes

abbrev pub nibbles : List Sending → List ℕ
nibbles [] = []
nibbles (s ∷ ss) = s.nibble ∷ nibbles ss

abbrev pub all_times : List Sending → List ℕ
all_times [] = []
all_times (s ∷ ss) = (s.pick ∷ nibble_times s.bits) ++ all_times ss

pub record IsSent (s : Sending) : Type 0 where
  pub small : s.nibble < 16
  pub times : TimesOf s.nibble s.bits
  pub prompt : ArePrompt s.nibble s.bits

-- The nibbles follow each other before the receiver takes the message for ended: `released` is when
-- the bus was released last.
abbrev pub Follow : ℕ → List Sending → Type 0
Follow released [] = Unit
Follow released (s ∷ ss) =
    IsSent s × (elapsed s.pick released ≤ interbit_timeout_time) × Follow s.bits.bit0.release ss

abbrev pub last_release : ℕ → List Sending → ℕ
last_release released [] = released
last_release released (s ∷ ss) = last_release s.bits.bit0.release ss

pub seen-append : (ds es : List Drive) → seen (ds ++ es) ≡ seen ds ++ seen es
seen-append [] es = refl
seen-append ((us, d) ∷ ds) es = ap (λ l. (us, not d) ∷ l) (seen-append ds es)

-- The receiver after nibbles of which the last one rose at `us`.
abbrev pub after_nibbles : Rx → ℕ → List ℕ → Rx
after_nibbles rx us ns = record rx {
  state = RxState.nibble_ended;
  bit_shifter = 8;
  micro_sec_time_stamp = us;
  byte_fifo = push_all rx.byte_fifo ns;
}

-- The receiver is past the poll at which a nibble is taken, and hears it.
run-sending :
    (rx : Rx) (s : Sending)
    → Rx.update rx s.pick true ≡ rx
    → is_ready rx.state ≡ true
    → rx.bit_shifter ≡ 8
    → IsSent s
    → run rx (seen ((s.pick, false) ∷ nibble_wave s.bits))
      ≡ after_nibbles rx s.bits.bit0.release (s.nibble ∷ [])
unfolding run push_all
run-sending rx s still ready e h =
    ap (λ r. run r (seen (nibble_wave s.bits))) still
    ∙ run-seen_nibble rx s.nibble s.bits ready e h.small h.times h.prompt

-- What the transmitter sends of its queue, and what a receiver makes of it.
pub record Carried (tx : Tx) (d : Bool) (q : List ℕ) (rx rx' : Rx) (times : List ℕ) : Type 0 where
  pub sender : Tx
  pub drives : List Drive
  pub sends : emit tx d times ≡ some (sender, drives)
  pub rests : sender.state ≡ TxState.idle
  pub left : Fifo.Refine.contents sender.byte_fifo ≡ q
  pub valid : Fifo.Inv.IsValid sender.byte_fifo
  pub hears : run rx (seen drives) ≡ rx'

pub nibble_before :
    (s : Sending) (ss : List Sending) (tx : Tx) (d : Bool) (q : List ℕ) (rx rx1 rx' : Rx)
    → Carried tx d (nibbles ss ++ q) rx rx1 (s.pick ∷ nibble_times s.bits)
    → ((tx1 : Tx) (d1 : Bool)
        → Fifo.Inv.IsValid tx1.byte_fifo
        → tx1.state ≡ TxState.idle
        → Fifo.Refine.contents tx1.byte_fifo ≡ nibbles ss ++ q
        → Carried tx1 d1 q rx1 rx' (all_times ss))
    → Carried tx d q rx rx' (all_times (s ∷ ss))
unfolding GoesOn
nibble_before s ss tx d q rx rx1 rx' c more =
    let (d1, joined) =
      emit-append (s.pick ∷ nibble_times s.bits) (all_times ss) tx d c.sender c.drives c.sends in
    let m = more c.sender d1 c.valid c.rests c.left in
    record {
      sender = m.sender;
      drives = c.drives ++ m.drives;
      sends = joined ∙ ap (followed c.drives) m.sends;
      rests = m.rests;
      left = m.left;
      valid = m.valid;
      hears =
          ap (run rx) (seen-append c.drives m.drives)
          ∙ run-append (seen c.drives) (seen m.drives) rx
          ∙ ap (λ r. run r (seen m.drives)) c.hears
          ∙ m.hears;
    }

pub one_nibble :
    (s : Sending) (tx : Tx) (d : Bool) (q : List ℕ) (rx : Rx)
    → Fifo.Inv.IsValid tx.byte_fifo
    → tx.state ≡ TxState.idle
    → Fifo.Refine.contents tx.byte_fifo ≡ s.nibble ∷ q
    → Rx.update rx s.pick true ≡ rx
    → is_ready rx.state ≡ true
    → rx.bit_shifter ≡ 8
    → IsSent s
    → Carried tx d q rx
        (after_nibbles rx s.bits.bit0.release (s.nibble ∷ []))
        (s.pick ∷ nibble_times s.bits)
one_nibble s tx d q rx v idle c still ready e h =
    let (tx', sends, rests, left, valid) =
      nibble_sent tx s.pick d s.nibble q s.bits v idle c h.small h.times in
    record {
      sender = tx';
      drives = (s.pick, false) ∷ nibble_wave s.bits;
      sends = sends;
      rests = rests;
      left = left;
      valid = valid;
      hears = run-sending rx s still ready e h;
    }

pub more_nibbles :
    (ss : List Sending) (tx : Tx) (d : Bool) (q : List ℕ) (rx : Rx) (ns : List ℕ) (released : ℕ)
    → Fifo.Inv.IsValid tx.byte_fifo
    → tx.state ≡ TxState.idle
    → Fifo.Refine.contents tx.byte_fifo ≡ nibbles ss ++ q
    → Follow released ss
    → Carried tx d q
        (after_nibbles rx released ns)
        (after_nibbles rx (last_release released ss) (ns ++ nibbles ss))
        (all_times ss)
more_nibbles [] tx d q rx ns released v idle c f = record {
  sender = tx;
  drives = [];
  sends = emit-nil tx d;
  rests = idle;
  left = c;
  valid = v;
  hears = unfold run in ap (after_nibbles rx released) (sym (append-nil ns));
}
more_nibbles (s ∷ ss) tx d q rx ns released v idle c f =
    let rx0 = after_nibbles rx released ns in
    let rel = s.bits.bit0.release in
    let one =
      one_nibble s tx d (nibbles ss ++ q) rx0 v idle c (update-high rx0 s.pick refl f.1) refl refl
        f.0 in
    let held : after_nibbles rx0 rel (s.nibble ∷ []) ≡ after_nibbles rx rel (ns ++ s.nibble ∷ []) =
      ap (λ b. record (after_nibbles rx rel ns) { byte_fifo = b })
        (sym (push_all-append rx.byte_fifo ns (s.nibble ∷ []))) in
    let more : (tx1 : Tx) (d1 : Bool)
        → Fifo.Inv.IsValid tx1.byte_fifo
        → tx1.state ≡ TxState.idle
        → Fifo.Refine.contents tx1.byte_fifo ≡ nibbles ss ++ q
        → Carried tx1 d1 q (after_nibbles rx rel (ns ++ s.nibble ∷ []))
            (after_nibbles rx (last_release rel ss) ((ns ++ s.nibble ∷ []) ++ nibbles ss))
            (all_times ss) =
      λ tx1 d1 v1 i1 c1. more_nibbles ss tx1 d1 q rx (ns ++ s.nibble ∷ []) rel v1 i1 c1 f.2 in
    let whole =
      ap (after_nibbles rx (last_release rel ss)) (append_assoc ns (s.nibble ∷ []) (nibbles ss)) in
    nibble_before s ss tx d q rx0 (after_nibbles rx rel (ns ++ s.nibble ∷ []))
      (after_nibbles rx (last_release rel ss) (ns ++ s.nibble ∷ nibbles ss))
      (subst (λ r. Carried tx d (nibbles ss ++ q) rx0 r (s.pick ∷ nibble_times s.bits)) held one)
      (λ tx1 d1 v1 i1 c1.
        subst (λ r. Carried tx1 d1 q (after_nibbles rx rel (ns ++ s.nibble ∷ [])) r (all_times ss))
          whole (more tx1 d1 v1 i1 c1))
