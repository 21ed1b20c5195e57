-- ===== src/Phy/Tx/Nibble.antt =====
-- A nibble that is sent: four bits, most significant first.
use diy_acura_bluetooth.Prelude.{
  ℕ, ◌≤◌, ◌+◌, ◌*◌, ◌/◌, ◌%◌, ◌<◌, ◌≡◌, refl, ap, ◌∙◌, Bool, false, List, [], ◌∷◌, some, arith,
}
use diy_acura_bluetooth.Prelude.Words.{elapsed}
use diy_acura_bluetooth.Fifo
use diy_acura_bluetooth.Fifo.{Fifo}
use diy_acura_bluetooth.Phy.State.{TxState, tx_msg2msg_wait}
use diy_acura_bluetooth.Phy.Tx.{Tx, load, update}
use diy_acura_bluetooth.Phy.Tx.Inv.{load_lem}
use diy_acura_bluetooth.Phy.Tx.Bit.{
  Drive, emit, emit-nil, emit-step, emit-bit_as, BitTimes, Times, times, wave,
}

-- The polls of the four bits of a nibble, most significant first.
pub record NibbleTimes : Type 0 where
  pub bit3 : BitTimes
  pub bit2 : BitTimes
  pub bit1 : BitTimes
  pub bit0 : BitTimes

pub record TimesOf (n : ℕ) (t : NibbleTimes) : Type 0 where
  pub times3 : Times (n / 8) t.bit3
  pub times2 : Times (n / 4 % 2) t.bit2
  pub times1 : Times (n / 2 % 2) t.bit1
  pub times0 : Times (n % 2) t.bit0

abbrev pub nibble_times : NibbleTimes → List ℕ
nibble_times t = times t.bit3 (times t.bit2 (times t.bit1 (times t.bit0 [])))

abbrev pub nibble_wave : NibbleTimes → List Drive
nibble_wave t = wave t.bit3 (wave t.bit2 (wave t.bit1 (wave t.bit0 [])))

-- The marker that is loaded below the nibble leaves the low half of the shifter after four bits.
emit-nibble :
    (tx : Tx) (d : Bool) (n : ℕ) (t : NibbleTimes)
    → tx.state ≡ TxState.sending
    → n < 16
    → tx.bit_shifter ≡ n * 16 + 1
    → TimesOf n t
    → emit tx d (nibble_times t)
      ≡ some (
        record tx { state = TxState.idle; bit_shifter = 16; micro_sec_time_stamp = t.bit0.start },
        nibble_wave t,
      )
emit-nibble tx d n t s small e h =
    let s1 : ℕ = n % 8 * 32 + 2 in
    let s2 : ℕ = n % 4 * 64 + 4 in
    let s3 : ℕ = n % 2 * 128 + 8 in
    let sending = TxState.sending in
    let tx3 = record tx {
      state = sending;
      bit_shifter = s1;
      micro_sec_time_stamp = t.bit3.start;
    } in
    let tx2 = record tx {
      state = sending;
      bit_shifter = s2;
      micro_sec_time_stamp = t.bit2.start;
    } in
    let tx1 = record tx {
      state = sending;
      bit_shifter = s3;
      micro_sec_time_stamp = t.bit1.start;
    } in
    let rest0 = times t.bit0 [] in
    let rest1 = times t.bit1 rest0 in
    let rest2 = times t.bit2 rest1 in
    emit-bit_as tx d (n / 8) s1 sending t.bit3 rest2 s (omega arith) (omega arith) (omega arith)
      (ground arith) h.times3
      (emit-bit_as tx3 false (n / 4 % 2) s2 sending t.bit2 rest1 refl (omega arith) (omega arith)
        (omega arith) (ground arith) h.times2
        (emit-bit_as tx2 false (n / 2 % 2) s3 sending t.bit1 rest0 refl (omega arith) (omega arith)
          (omega arith) (ground arith) h.times1
          (emit-bit_as tx1 false (n % 2) 16 TxState.idle t.bit0 [] refl (omega arith) (omega arith)
            (omega arith) refl h.times0 (emit-nil _ _))))

pub update-next :
    (tx : Tx) (us : ℕ) (d : Bool) (n : ℕ) {q : List ℕ}
    → Fifo.Inv.IsValid tx.byte_fifo
    → tx.state ≡ TxState.idle
    → Fifo.Refine.contents tx.byte_fifo ≡ n ∷ q
    → (f : Fifo ℕ) × (update tx us d ≡ some (load (record tx { byte_fifo = f }) n, false))
      × (Fifo.Refine.contents f ≡ q)
      × Fifo.Inv.IsValid f
unfolding update
update-next tx us d n v s c =
    let (f, p, rest) = Fifo.Refine.pop_cons tx.byte_fifo v c in
    (f, rw (s, Fifo.Refine.is_empty_cons v c, p), rest, Fifo.Inv.pop-IsValid {r = (n, f)} v p)

-- A nibble at the head of the queue of an idle transmitter is taken from it and goes out on the bus
-- as four bits, most significant first: from the start of each the bus is low until the low time of
-- the bit is over, and high until the bit time is over. The transmitter is then idle again and holds
-- the rest of the queue, which is valid. The polls may come at any rate.
pub nibble_sent :
    (tx : Tx) (us : ℕ) (d : Bool) (n : ℕ) (q : List ℕ) (t : NibbleTimes)
    → Fifo.Inv.IsValid tx.byte_fifo
    → tx.state ≡ TxState.idle
    → Fifo.Refine.contents tx.byte_fifo ≡ n ∷ q
    → n < 16
    → TimesOf n t
    → (tx' : Tx) × (emit tx d (us ∷ nibble_times t) ≡ some (tx', (us, false) ∷ nibble_wave t))
      × (tx'.state ≡ TxState.idle)
      × (Fifo.Refine.contents tx'.byte_fifo ≡ q)
      × Fifo.Inv.IsValid tx'.byte_fifo
nibble_sent tx us d n q t v s c small h =
    let (f, step, rest, valid) = update-next tx us d n v s c in
    let loaded = record tx {
      byte_fifo = f;
      bit_shifter = n % 16 * 16 + 1;
      state = TxState.sending;
    } in
    let is_loaded : load (record tx { byte_fifo = f }) n ≡ loaded =
      ground (arith, load_lem (record tx { byte_fifo = f }) n) in
    let sent = emit-nibble loaded false n t refl small (omega arith) h in
    (
      record loaded { state = TxState.idle; bit_shifter = 16; micro_sec_time_stamp = t.bit0.start },
      emit-step tx d us (nibble_times t) (step ∙ ap (λ r. some (r, false)) is_loaded) sent,
      refl,
      rest,
      valid,
    )

-- The wait after a message begins at the first poll behind the end code, and goes on.
pub update-begin :
    (tx : Tx) (us : ℕ)
    → tx.state ≡ TxState.msg2msg_gap
    → update tx us false
      ≡ some (record tx { state = TxState.msg2msg_wait; micro_sec_time_stamp = us }, false)
unfolding update
update-begin tx us s = ground arith

pub update-wait :
    (tx : Tx) (us : ℕ)
    → tx.state ≡ TxState.msg2msg_wait
    → elapsed us tx.micro_sec_time_stamp ≤ tx_msg2msg_wait
    → update tx us false ≡ some (tx, false)
unfolding update
update-wait tx us s h = ground arith
