-- ===== src/Phy/Loop/Ending.antt =====
-- The end of a message on the bus: the transmitter waits after the end code, long enough for the
-- receiver to find that the message is over.
use diy_acura_bluetooth.Prelude.{
  ℕ, ◌+◌, ◌≤◌, ◌<◌, ◌≡◌, refl, sym, ap, ◌∙◌, Bool, true, false, List, [], ◌∷◌, ◌++◌, some, length,
  All, All-map,
}
use diy_acura_bluetooth.Prelude.Words.{elapsed}
use diy_acura_bluetooth.Fifo
use diy_acura_bluetooth.Fifo.Many.{push_all, push_all-append, contents-push_all}
use diy_acura_bluetooth.Phy.State.{
  RxState, TxState, mbus_end_msg_code, interbit_timeout_time, nibble_end_gap_time, tx_msg2msg_wait,
}
use diy_acura_bluetooth.Phy.Rx.{Rx}
use diy_acura_bluetooth.Phy.Rx.Decode.{run, run-append, held, is_ready, run-high}
use diy_acura_bluetooth.Phy.Rx.Frame.{update-gap}
use diy_acura_bluetooth.Phy.Rx.Missing.{update-rest}
use diy_acura_bluetooth.Phy.Tx
use diy_acura_bluetooth.Phy.Tx.{Tx}
use diy_acura_bluetooth.Phy.Tx.Inv.{load_lem}
use diy_acura_bluetooth.Phy.Tx.Bit.{Drive, emit, emit-step, emit-nil, emit-still, driven}
use diy_acura_bluetooth.Phy.Tx.Nibble.{update-next, update-begin, update-wait}
use diy_acura_bluetooth.Phy.Loop.{seen, seen-driven}
use diy_acura_bluetooth.Phy.Loop.Message.{
  Sending, IsSent, Follow, nibbles, all_times, last_release, after_nibbles, seen-append, one_nibble,
  more_nibbles, nibble_before,
}
use diy_acura_bluetooth.Phy.Loop.Emit.{GoesOn, followed, emit-append}

-- The polls after the last nibble: the end code is taken, the wait begins, goes on, and is still on
-- when the receiver finds the bus quiet.
pub record Ending : Type 0 where
  pub take : ℕ
  pub begin : ℕ
  pub waits : List ℕ
  pub quiet : ℕ

abbrev pub end_times : Ending → List ℕ
end_times e = e.take ∷ e.begin ∷ e.waits ++ e.quiet ∷ []

abbrev pub end_wave : Ending → List Drive
end_wave e = (e.take, false) ∷ (e.begin, false) ∷ driven false e.waits ((e.quiet, false) ∷ [])

pub record EndsAfter (released : ℕ) (e : Ending) : Type 0 where
  pub taken : elapsed e.take released ≤ interbit_timeout_time
  pub begun : elapsed e.begin released ≤ interbit_timeout_time
  pub early : All (λ us. elapsed us released ≤ interbit_timeout_time) e.waits
  pub waiting : All (λ us. elapsed us e.begin ≤ tx_msg2msg_wait) e.waits
  pub late : nibble_end_gap_time < elapsed e.quiet released
  pub in_wait : elapsed e.quiet e.begin ≤ tx_msg2msg_wait

emit-end :
    (tx : Tx) (d : Bool) (q : List ℕ) (e : Ending) (released : ℕ)
    → Fifo.Inv.IsValid tx.byte_fifo
    → tx.state ≡ TxState.idle
    → Fifo.Refine.contents tx.byte_fifo ≡ mbus_end_msg_code ∷ q
    → EndsAfter released e
    → (tx' : Tx) × (emit tx d (end_times e) ≡ some (tx', end_wave e))
      × (tx'.state ≡ TxState.msg2msg_wait)
      × (Fifo.Refine.contents tx'.byte_fifo ≡ q)
emit-end tx d q e released v idle c h =
    let (f, step, rest, valid) = update-next tx e.take d mbus_end_msg_code v idle c in
    let tx1 = record tx { byte_fifo = f; state = TxState.msg2msg_gap } in
    let tx2 = record tx1 { state = TxState.msg2msg_wait; micro_sec_time_stamp = e.begin } in
    let first : Tx.update tx e.take d ≡ some (tx1, false) =
      step ∙ ap (λ r. some (r, false)) (load_lem (record tx { byte_fifo = f }) mbus_end_msg_code) in
    (
      tx2,
      emit-step tx d e.take (e.begin ∷ e.waits ++ e.quiet ∷ []) first (
          emit-step tx1 false e.begin (e.waits ++ e.quiet ∷ []) (update-begin tx1 e.begin refl) (
            emit-still tx2 false e.waits (e.quiet ∷ [])
              (All-map (λ us. elapsed us e.begin ≤ tx_msg2msg_wait) _
                (λ us. update-wait tx2 us refl) e.waits h.waiting)
              (emit-step tx2 false e.quiet [] (update-wait tx2 e.quiet refl h.in_wait)
                (emit-nil tx2 false)))),
      refl,
      rest,
    )

seen-end_wave :
    (e : Ending)
    → seen (end_wave e) ≡ held true (e.take ∷ e.begin ∷ e.waits) ++ (e.quiet, true) ∷ []
seen-end_wave e =
    ap (λ l. (e.take, true) ∷ (e.begin, true) ∷ l)
      (seen-driven false e.waits ((e.quiet, false) ∷ []))

-- The receiver finds the message over.
run-end :
    (rx : Rx) (ns : List ℕ) (released : ℕ) (e : Ending)
    → EndsAfter released e
    → run (after_nibbles rx released ns) (seen (end_wave e)) ≡ record rx {
      state = RxState.idle;
      bit_shifter = 8;
      micro_sec_time_stamp = released;
      byte_fifo = push_all rx.byte_fifo (ns ++ mbus_end_msg_code ∷ []);
    }
unfolding run push_all
run-end rx ns released e h =
    let heard = after_nibbles rx released ns in
    let high = held true (e.take ∷ e.begin ∷ e.waits) in
    let last = (e.quiet, true) ∷ [] in
    ap (run heard) (seen-end_wave e)
    ∙ run-append high last heard
    ∙ ap (λ r. run r last)
        (run-high (e.take ∷ e.begin ∷ e.waits) heard refl (h.taken, (h.begun, h.early)))
    ∙ update-gap heard e.quiet refl h.late
    ∙ ap
        (λ b. record rx {
          state = RxState.idle;
          bit_shifter = 8;
          micro_sec_time_stamp = released;
          byte_fifo = b;
        })
        (sym (push_all-append rx.byte_fifo ns (mbus_end_msg_code ∷ [])))

-- What one side sends the other receives. A message in the queue of an idle transmitter, nibbles and
-- then the end code, is driven on the bus, and a receiver at rest that is polled at the same times
-- queues the same nibbles and the same code and is at rest again; the transmitter keeps the rest of
-- its queue. The polls may come at any rate that releases each bit at most 600 microseconds late
-- and lets the receiver's time-outs find nothing but the end; its queue must have room.
pub message_carried :
    (s : Sending) (ss : List Sending) (e : Ending) (tx : Tx) (d : Bool) (q : List ℕ) (rx : Rx)
    → Fifo.Inv.IsValid tx.byte_fifo
    → tx.state ≡ TxState.idle
    → Fifo.Refine.contents tx.byte_fifo ≡ nibbles (s ∷ ss) ++ mbus_end_msg_code ∷ q
    → Fifo.Inv.IsValid rx.byte_fifo
    → rx.state ≡ RxState.idle
    → rx.bit_shifter ≡ 8
    → length (Fifo.Refine.contents rx.byte_fifo)
        + length (nibbles (s ∷ ss) ++ mbus_end_msg_code ∷ [])
      ≤ rx.byte_fifo.capacity
    → IsSent s
    → Follow s.bits.bit0.release ss
    → EndsAfter (last_release s.bits.bit0.release ss) e
    → (tx' : Tx) × (drives : List Drive) × (emit tx d (all_times (s ∷ ss) ++ end_times e)
        ≡ some (tx', drives))
      × (tx'.state ≡ TxState.msg2msg_wait)
      × (Fifo.Refine.contents tx'.byte_fifo ≡ q)
      × (Fifo.Refine.contents (run rx (seen drives)).byte_fifo
          ≡ Fifo.Refine.contents rx.byte_fifo ++ (nibbles (s ∷ ss) ++ mbus_end_msg_code ∷ []))
      × ((run rx (seen drives)).state ≡ RxState.idle)
unfolding GoesOn
message_carried s ss e tx d q rx v idle c w rest_state shifter room sent follow ends =
    let rel = s.bits.bit0.release in
    let stop = last_release rel ss in
    let q1 = mbus_end_msg_code ∷ q in
    let ns = nibbles (s ∷ ss) in
    let one =
      one_nibble s tx d (nibbles ss ++ q1) rx v idle c (update-rest rx s.pick rest_state)
        (ap is_ready rest_state) shifter sent in
    let all =
      nibble_before s ss tx d q1 rx (after_nibbles rx rel (s.nibble ∷ []))
        (after_nibbles rx stop ns) one
        (λ tx1 d1 v1 i1 c1. more_nibbles ss tx1 d1 q1 rx (s.nibble ∷ []) rel v1 i1 c1 follow) in
    let (d1, joined) =
      emit-append (all_times (s ∷ ss)) (end_times e) tx d all.sender all.drives all.sends in
    let (tx', ended, waits, left) =
      emit-end all.sender d1 q e stop all.valid all.rests all.left ends in
    let heard =
      ap (run rx) (seen-append all.drives (end_wave e))
      ∙ run-append (seen all.drives) (seen (end_wave e)) rx
      ∙ ap (λ r. run r (seen (end_wave e))) all.hears
      ∙ run-end rx ns stop e ends in
    (
      tx',
      all.drives ++ end_wave e,
      joined ∙ ap (followed all.drives) ended,
      waits,
      left,
      ap (λ r. Fifo.Refine.contents r.byte_fifo) heard
          ∙ contents-push_all (ns ++ mbus_end_msg_code ∷ []) w room,
      ap (λ r. r.state) heard,
    )
