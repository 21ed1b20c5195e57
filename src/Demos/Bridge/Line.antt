-- ===== src/Demos/Bridge/Line.antt =====
-- A line that is typed to mbus_nibble_bridge.cpp.
use mathlib.Core.List.{append_assoc}
use mathlib.Core.Path.{ap₂}
use diy_acura_bluetooth.Prelude.{
  ℕ, suc, ◌+◌, ◌≤◌, ◌<◌, ◌≡◌, refl, sym, ap, ◌∙◌, ◌==◌, ==→eq, true, false, not, Bool-cases, inl,
  inr, List, [], ◌∷◌, ◌++◌, Option, some, arith, length, length-append, set, get_or-append_here,
  set-append_here, All, Returns, lt→ltb, ◌>>=◌,
}
use diy_acura_bluetooth.Prelude.Words.{has_bit, all_below, all_below_sound}
use diy_acura_bluetooth.Fifo
use diy_acura_bluetooth.Fifo.Many.{push_all, contents-push_all}
use diy_acura_bluetooth.Phy.State.{TxState, mbus_end_msg_code}
use diy_acura_bluetooth.Phy.Tx
use diy_acura_bluetooth.Phy.Ascii.{ascii2txnibble}
use diy_acura_bluetooth.Phy.Join.{
  MbusPhy, mbus_phy_tx_push, mbus_phy_tx_enable, mbus_phy_rx_is_busy,
}
use diy_acura_bluetooth.Demos.Bridge.{
  Bridge, typed_nibble, push_loop, send_line, queue_nibble, take_char,
}

-- Characters that are typed one after the other, with the bus left alone.
unfoldable pub type_line : List ℕ → Bridge → Option Bridge
type_line [] m = some m
type_line (c ∷ cs) m = take_char c m >>= λ m1. type_line cs m1

abbrev pub IsDigit : ℕ → Type 0
IsDigit c = ascii2txnibble c < 16

abbrev pub nibbles : List ℕ → List ℕ
nibbles [] = []
nibbles (c ∷ cs) = ascii2txnibble c ∷ nibbles cs

return_key : ascii2txnibble 13 ≡ 128
unfolding ascii2txnibble
return_key = refl

typed_digit : (c : ℕ) → IsDigit c → typed_nibble c ≡ ascii2txnibble c
unfolding typed_nibble
typed_digit c h = elim (Bool-cases (c == 13)) [
  | inl e ↦ absurd (omega (arith, ap ascii2txnibble (==→eq c 13 e) ∙ return_key))
  | inr e ↦ rw e refl
]

no_flag_table : all_below 32 (λ n. not (has_bit n 0x80)) ≡ true
unfolding all_below
no_flag_table = refl

no_flag : (n : ℕ) → n < 32 → has_bit n 0x80 ≡ false
no_flag n h =
    let e : not (has_bit n 0x80) ≡ true =
      all_below_sound 32 (λ n. not (has_bit n 0x80)) n no_flag_table h in
    ground (arith, e)

-- The bridge with nibbles queued.
abbrev pub holding : Bridge → List ℕ → ℕ → Bridge
holding m queue n = record m { tx_nib_queue = queue; tx_nib_queue_last_idx = n }

take_char-digit :
    (c o : ℕ) (pre old : List ℕ) (m : Bridge)
    → IsDigit c
    → m.tx_nib_queue ≡ pre ++ o ∷ old
    → m.tx_nib_queue_last_idx ≡ length pre
    → length pre < 32
    → take_char c m ≡ some (holding m (pre ++ ascii2txnibble c ∷ old) (length pre + 1))
unfolding take_char queue_nibble
take_char-digit c o pre old m digit held count room =
    let n = ascii2txnibble c in
    let inside : (n == mbus_end_msg_code) ≡ false = ground arith in
    let there = lt→ltb m.tx_nib_queue_last_idx 32 (omega arith) in
    let stored : set m.tx_nib_queue m.tx_nib_queue_last_idx n ≡ pre ++ n ∷ old =
      ap (λ q. set q m.tx_nib_queue_last_idx n) held ∙ set-append_here pre o n old _ count in
    rw (typed_digit c digit, no_flag n (omega arith), there, inside, stored, count) refl

push_loop_lem :
    (ns pre old : List ℕ) (idx : ℕ) (phy : MbusPhy)
    → idx ≡ length pre
    → push_loop (length ns) idx (pre ++ (ns ++ old)) phy
      ≡ record phy { tx = record phy.tx { byte_fifo = push_all phy.tx.byte_fifo ns } }
unfolding push_loop push_all mbus_phy_tx_push Tx.push
push_loop_lem [] pre old idx phy e = refl
push_loop_lem (n ∷ ns) pre old idx phy e =
    let phy1 = mbus_phy_tx_push phy n in
    ap (λ x. push_loop (length ns) (suc idx) (pre ++ n ∷ (ns ++ old)) (mbus_phy_tx_push phy x))
      (get_or-append_here pre n 0 (ns ++ old) idx e)
    ∙ ap (λ q. push_loop (length ns) (suc idx) q phy1) (sym (append_assoc pre (n ∷ []) (ns ++ old)))
    ∙ push_loop_lem ns (pre ++ n ∷ []) old (suc idx) phy1
        (omega (arith, length-append pre (n ∷ [])))

-- Digits are queued, one after the other.
type_line-digits :
    (cs rest pre old : List ℕ) (m : Bridge)
    → All IsDigit cs
    → m.tx_nib_queue ≡ pre ++ old
    → m.tx_nib_queue_last_idx ≡ length pre
    → length pre + length old ≡ 32
    → length cs ≤ length old
    → (left : List ℕ) × (length cs + length left ≡ length old)
      × (type_line (cs ++ rest) m
          ≡ type_line rest (holding m (pre ++ (nibbles cs ++ left)) (length pre + length cs)))
unfolding type_line
type_line-digits [] rest pre old m digits held count size room =
    let e : length pre + 0 ≡ m.tx_nib_queue_last_idx = omega (arith, count) in
    (old, omega arith, sym (ap (type_line rest) (ap₂ (holding m) (sym held) e)))
type_line-digits (c ∷ cs) rest pre [] m digits held count size room = absurd (omega arith)
type_line-digits (c ∷ cs) rest pre (o ∷ old) m digits held count size room =
    let n = ascii2txnibble c in
    let longer = length-append pre (n ∷ []) in
    let m1 = holding m (pre ++ n ∷ old) (length pre + 1) in
    let (left, size1, run) =
      type_line-digits cs rest (pre ++ n ∷ []) old m1 digits.1 (sym (append_assoc pre (n ∷ []) old))
        (omega (arith, longer)) (omega (arith, longer)) (omega arith) in
    let first = take_char-digit c o pre old m digits.0 held count (omega arith) in
    (
      left,
      omega (arith, size1),
      ap (λ r. r >>= λ m2. type_line (cs ++ rest) m2) first
          ∙ run
          ∙ ap (type_line rest) (
              ap₂ (holding m) (append_assoc pre (n ∷ []) (nibbles cs ++ left))
                (omega (arith, longer))),
    )

nonempty : (l : List ℕ) → 0 < length l → (o : ℕ) × (old : List ℕ) × (l ≡ o ∷ old)
nonempty [] h = elim h [ ]
nonempty (o ∷ old) h = (o, old, refl)

length-nibbles : (cs : List ℕ) → length (nibbles cs) ≡ length cs
length-nibbles [] = refl
length-nibbles (c ∷ cs) = omega (arith, length-nibbles cs)

-- The return key with a line queued, and a place left for the end code.
take_char-return :
    (ns left : List ℕ) (o : ℕ) (m : Bridge)
    → m.tx_nib_queue ≡ ns ++ o ∷ left
    → m.tx_nib_queue_last_idx ≡ length ns
    → length ns < 32
    → mbus_phy_rx_is_busy m.phy ≡ false
    → m.transmitting ≡ false
    → let fifo = push_all m.phy.tx.byte_fifo (ns ++ mbus_end_msg_code ∷ []) in
      take_char 13 m
      ≡ some (record m {
        tx_nib_queue = ns ++ mbus_end_msg_code ∷ left;
        tx_nib_queue_last_idx = 0;
        transmitting = true;
        phy = record m.phy { tx = record m.phy.tx { byte_fifo = fifo; state = TxState.enable } };
      })
unfolding take_char queue_nibble typed_nibble send_line mbus_phy_tx_enable
take_char-return ns left o m held count room free rests =
    let line = ns ++ mbus_end_msg_code ∷ [] in
    let there = lt→ltb m.tx_nib_queue_last_idx 32 (omega (arith, count)) in
    let stored : set m.tx_nib_queue m.tx_nib_queue_last_idx mbus_end_msg_code
        ≡ ns ++ mbus_end_msg_code ∷ left =
      ap (λ q. set q m.tx_nib_queue_last_idx mbus_end_msg_code) held
      ∙ set-append_here ns o mbus_end_msg_code left _ count in
    let phy1 = mbus_phy_tx_enable m.phy in
    let size : m.tx_nib_queue_last_idx + 1 ≡ length line =
      omega (arith, count, length-append ns (mbus_end_msg_code ∷ [])) in
    let sent =
      ap₂ (λ k q. push_loop k 0 q phy1) size (sym (append_assoc ns (mbus_end_msg_code ∷ []) left))
      ∙ push_loop_lem line [] left 0 phy1 refl in
    rw (there, stored, free, rests, sent) refl

-- A line that is typed is sent. With nothing queued, on a free bus, digits and then the return key leave
-- the transmitter enabled with the nibbles of the digits and the end code at the end of its queue, and
-- the line empty again. There must be room: at most 31 digits, and the line fits into the queue.
pub line_sent :
    (cs : List ℕ) (m : Bridge)
    → All IsDigit cs
    → length cs < 32
    → length m.tx_nib_queue ≡ 32
    → m.tx_nib_queue_last_idx ≡ 0
    → mbus_phy_rx_is_busy m.phy ≡ false
    → m.transmitting ≡ false
    → Fifo.Inv.IsValid m.phy.tx.byte_fifo
    → length (Fifo.Refine.contents m.phy.tx.byte_fifo) + length cs + 1 ≤ m.phy.tx.byte_fifo.capacity
    → Returns
        (λ m'.
          (Fifo.Refine.contents m'.phy.tx.byte_fifo
            ≡ Fifo.Refine.contents m.phy.tx.byte_fifo ++ (nibbles cs ++ mbus_end_msg_code ∷ []))
          × (m'.phy.tx.state ≡ TxState.enable)
          × (m'.transmitting ≡ true)
          × (m'.tx_nib_queue_last_idx ≡ 0))
        (type_line (cs ++ 13 ∷ []) m)
unfolding type_line
line_sent cs m digits short size start free rests v room =
    let ns = nibbles cs in
    let line = ns ++ mbus_end_msg_code ∷ [] in
    let count = length-nibbles cs in
    let whole = length-append ns (mbus_end_msg_code ∷ []) in
    let (left, size1, run) =
      type_line-digits cs (13 ∷ []) [] m.tx_nib_queue m digits refl start (omega (arith, size))
        (omega (arith, size)) in
    let (o, old, e) : (o : ℕ) × (old : List ℕ) × (left ≡ o ∷ old) =
      nonempty left (omega (arith, size1)) in
    let m1 = holding m (ns ++ left) (0 + length cs) in
    let key =
      take_char-return ns old o m1 (ap (λ l. ns ++ l) e) (omega (arith, count))
        (omega (arith, count)) free rests in
    let queued = contents-push_all line v (omega (arith, whole, count)) in
    rw (run, key) (queued, refl, refl, refl)
