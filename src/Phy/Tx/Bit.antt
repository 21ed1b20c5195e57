-- ===== src/Phy/Tx/Bit.antt =====
-- The waveform of one bit that is sent: a low time that spells the bit, within one bit time.
use diy_acura_bluetooth.Prelude.{
  ℕ, ◌*◌, ◌/◌, ◌%◌, ◌≤◌, ◌<◌, ◌≡◌, refl, Bool, true, false, List, [], ◌∷◌, ◌++◌, Option, some,
  arith, ◌==◌, ◌>>=◌, if◌then◌else◌, All, All-map,
}
use diy_acura_bluetooth.Prelude.Bits.{bit_and_fifteen}
use diy_acura_bluetooth.Prelude.Words.{u8, elapsed, has_bit, all_below, all_below_sound}
use diy_acura_bluetooth.Phy.State.{TxState, bit_time, bit_zero_low_time, bit_one_low_time}
use diy_acura_bluetooth.Phy.Tx.{Tx, update}

-- A time and whether the bus is driven low from then on.
abbrev pub Drive : Type 0
Drive = ℕ × Bool

-- The transmitter polled at a list of times, with what it drives at each.
unfoldable pub emit : Tx → Bool → List ℕ → Option (Tx × List Drive)
emit tx drive_lo [] = some (tx, [])
emit tx drive_lo (us ∷ times) = update tx us drive_lo >>= λ (tx1, drive1).
    emit tx1 drive1 times >>= λ (tx2, out). some (tx2, (us, drive1) ∷ out)

-- The polls of one bit: the one that starts it, those that find the low time not over, the one that
-- ends it, those that find the bit time not over, and the one that ends the bit.
pub record BitTimes : Type 0 where
  pub start : ℕ
  pub low : List ℕ
  pub release : ℕ
  pub gap : List ℕ
  pub finish : ℕ

abbrev pub times : BitTimes → List ℕ → List ℕ
times b rest = b.start ∷ b.low ++ b.release ∷ (b.gap ++ b.finish ∷ rest)

abbrev pub driven : Bool → List ℕ → List Drive → List Drive
driven d [] rest = rest
driven d (us ∷ ts) rest = (us, d) ∷ driven d ts rest

-- Low from the start of the bit to its release, and high from there to its end.
abbrev pub wave : BitTimes → List Drive → List Drive
wave b rest =
    (b.start, true)
    ∷ driven true b.low ((b.release, false) ∷ driven false b.gap ((b.finish, false) ∷ rest))

abbrev pub low_time : ℕ → ℕ
low_time bit = if bit == 0 then bit_zero_low_time else bit_one_low_time

-- The polls are those of a bit `bit`: each list ends where the code's test first succeeds.
pub record Times (bit : ℕ) (b : BitTimes) : Type 0 where
  pub low_on : All (λ us. elapsed us b.start ≤ low_time bit) b.low
  pub low_over : low_time bit < elapsed b.release b.start
  pub bit_on : All (λ us. elapsed us b.start ≤ bit_time) b.gap
  pub bit_over : bit_time < elapsed b.finish b.start

abbrev pub top_bit : ℕ → ℕ
top_bit shifter = shifter / 128

-- The transmitter after the bit that stands at the top of its shifter.
abbrev pub after_bit : Tx → BitTimes → Tx
after_bit tx b = record tx {
  state = if u8 (tx.bit_shifter * 2) % 16 == 0 then TxState.idle else TxState.sending;
  bit_shifter = u8 (tx.bit_shifter * 2);
  micro_sec_time_stamp = b.start;
}

pub emit-step :
    (tx : Tx) (d : Bool) (us : ℕ) (ts : List ℕ) {tx1 tx2 : Tx} {d1 : Bool} {out : List Drive}
    → update tx us d ≡ some (tx1, d1)
    → emit tx1 d1 ts ≡ some (tx2, out)
    → emit tx d (us ∷ ts) ≡ some (tx2, (us, d1) ∷ out)
unfolding emit
emit-step tx d us ts p q = rw (p, q)

pub emit-nil : (tx : Tx) (d : Bool) → emit tx d [] ≡ some (tx, [])
unfolding emit
emit-nil tx d = refl

-- Polls that leave the transmitter as it is, with the bus at one level.
pub emit-still :
    (tx : Tx) (d : Bool) (ts rest : List ℕ) {tx2 : Tx} {out : List Drive}
    → All (λ us. update tx us d ≡ some (tx, d)) ts
    → emit tx d rest ≡ some (tx2, out)
    → emit tx d (ts ++ rest) ≡ some (tx2, driven d ts out)
emit-still tx d [] rest still q = q
emit-still tx d (us ∷ ts) rest still q =
    emit-step tx d us (ts ++ rest) still.0 (emit-still tx d ts rest still.1 q)

abbrev low_state : ℕ → TxState
low_state bit = if bit == 0 then TxState.sending_zero else TxState.sending_one

update-low :
    (bit : ℕ) (tx : Tx) (us : ℕ)
    → tx.state ≡ low_state bit
    → elapsed us tx.micro_sec_time_stamp ≤ low_time bit
    → update tx us true ≡ some (tx, true)
unfolding update
update-low bit tx us s h = ground arith

update-release :
    (bit : ℕ) (tx : Tx) (us : ℕ)
    → tx.state ≡ low_state bit
    → low_time bit < elapsed us tx.micro_sec_time_stamp
    → update tx us true ≡ some (record tx { state = TxState.send_bit_gap }, false)
unfolding update
update-release bit tx us s h = ground arith

update-gap :
    (tx : Tx) (us : ℕ)
    → tx.state ≡ TxState.send_bit_gap
    → elapsed us tx.micro_sec_time_stamp ≤ bit_time
    → update tx us false ≡ some (tx, false)
unfolding update
update-gap tx us s h = ground arith

update-finish :
    (tx : Tx) (us : ℕ) (d : Bool)
    → tx.state ≡ TxState.send_bit_gap
    → bit_time < elapsed us tx.micro_sec_time_stamp
    → update tx us d
      ≡ some (
        record tx { state = if tx.bit_shifter % 16 == 0 then TxState.idle else TxState.sending },
        false,
      )
unfolding update
update-finish tx us d s h = ground (arith, bit_and_fifteen tx.bit_shifter)

top_table : all_below 256 (λ s. if has_bit s 0x80 then s / 128 == 1 else s / 128 == 0) ≡ true
unfolding all_below
top_table = refl

update-start :
    (tx : Tx) (us : ℕ) (d : Bool)
    → tx.state ≡ TxState.sending
    → tx.bit_shifter < 256
    → update tx us d
      ≡ some (
        record tx {
          state = low_state (top_bit tx.bit_shifter);
          bit_shifter = u8 (tx.bit_shifter * 2);
          micro_sec_time_stamp = us;
        },
        true,
      )
unfolding update
update-start tx us d s h =
    let t =
      all_below_sound 256 (λ s. if has_bit s 0x80 then s / 128 == 1 else s / 128 == 0)
        tx.bit_shifter top_table h in
    ground arith

emit-bit :
    (tx : Tx) (d : Bool) (b : BitTimes) (rest : List ℕ) {tx2 : Tx} {out : List Drive}
    → tx.state ≡ TxState.sending
    → tx.bit_shifter < 256
    → Times (top_bit tx.bit_shifter) b
    → emit (after_bit tx b) false rest ≡ some (tx2, out)
    → emit tx d (times b rest) ≡ some (tx2, wave b out)
emit-bit tx d b rest s h t q =
    let bit = top_bit tx.bit_shifter in
    let tx_low = record tx {
      state = low_state bit;
      bit_shifter = u8 (tx.bit_shifter * 2);
      micro_sec_time_stamp = b.start;
    } in
    let tx_gap = record tx_low { state = TxState.send_bit_gap } in
    emit-step tx d b.start (b.low ++ b.release ∷ (b.gap ++ b.finish ∷ rest))
      (update-start tx b.start d s h)
      (emit-still tx_low true b.low (b.release ∷ (b.gap ++ b.finish ∷ rest))
        (All-map (λ us. elapsed us b.start ≤ low_time bit) _ (λ us. update-low bit tx_low us refl)
          b.low t.low_on)
        (emit-step tx_low true b.release (b.gap ++ b.finish ∷ rest)
          (update-release bit tx_low b.release refl t.low_over)
          (emit-still tx_gap false b.gap (b.finish ∷ rest)
            (All-map (λ us. elapsed us b.start ≤ bit_time) _ (λ us. update-gap tx_gap us refl) b.gap
              t.bit_on)
            (emit-step tx_gap false b.finish rest
              (update-finish tx_gap b.finish false refl t.bit_over) q))))

-- The same with the bit, the next shifter and the next state named.
pub emit-bit_as :
    (tx : Tx) (d : Bool) (bit shifter : ℕ) (st : TxState) (b : BitTimes) (rest : List ℕ) {tx2 : Tx}
    {out : List Drive}
    → tx.state ≡ TxState.sending
    → tx.bit_shifter < 256
    → tx.bit_shifter / 128 ≡ bit
    → u8 (tx.bit_shifter * 2) ≡ shifter
    → (if shifter % 16 == 0 then TxState.idle else TxState.sending) ≡ st
    → Times bit b
    → emit
        (record tx { state = st; bit_shifter = shifter; micro_sec_time_stamp = b.start })
        false
        rest
      ≡ some (tx2, out)
    → emit tx d (times b rest) ≡ some (tx2, wave b out)
emit-bit_as tx d bit shifter st b rest s h top next state t q =
    let landed : after_bit tx b
        ≡ record tx { state = st; bit_shifter = shifter; micro_sec_time_stamp = b.start } =
      ground arith in
    emit-bit tx d b rest s h (rw top t) (rw landed q)
