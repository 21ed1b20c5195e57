-- ===== src/Link/Core/Receive.antt =====
-- What the link makes of the nibbles that `mbus_link_rx_push_nibble` is given one by one.
use native.Mathlib.Nat.{zero-add}
use mathlib.Core.Path.{ap₂}
use mathlib.Core.List.{append_assoc}
use diy_acura_bluetooth.Prelude.{
  ℕ, suc, ◌+◌, ◌≤◌, ◌<◌, ◌≡◌, ◌≢◌, refl, sym, ap, ◌∙◌, false, List, [], ◌∷◌, ◌++◌, Option, some,
  arith, length, length-append, set, drop_cons, All, set-append_here, ◌==◌, ◌>>=◌,
}
use diy_acura_bluetooth.Fifo
use diy_acura_bluetooth.Phy.State.{mbus_end_msg_code}
use diy_acura_bluetooth.Link.Types.{RxMsg, nibble_array_size}
use diy_acura_bluetooth.Link.Parse.{parse_msg}
use diy_acura_bluetooth.Link.Parse.Checksum.{overwritten}
use diy_acura_bluetooth.Link.Core.{Link, rx_push_nibble}

-- The link after several nibbles. `scratch` stands for the uninitialised local structure.
unfoldable pub receive : RxMsg → Link → List ℕ → Option Link
receive scratch link [] = some link
receive scratch link (n ∷ ns) = rx_push_nibble scratch link n >>= λ link1. receive scratch link1 ns

abbrev with_array : Link → List ℕ → ℕ → Link
with_array link nibbles n = record link { nibbles = record { nibbles = nibbles; num_nibbles = n } }

rx_push_nibble-stored :
    (scratch : RxMsg) (link : Link) (pre old : List ℕ) (o n : ℕ)
    → link.nibbles.nibbles ≡ pre ++ o ∷ old
    → link.nibbles.num_nibbles ≡ length pre
    → length pre < nibble_array_size
    → n ≢ mbus_end_msg_code
    → rx_push_nibble scratch link n ≡ some (with_array link (pre ++ n ∷ old) (suc (length pre)))
unfolding rx_push_nibble
rx_push_nibble-stored scratch link pre old o n held count room ne = ground (
  arith,
  ap (λ l. set l link.nibbles.num_nibbles n) held,
  set-append_here pre o n old link.nibbles.num_nibbles count,
)

receive-stored :
    (scratch : RxMsg) (ns rest pre old : List ℕ) (link : Link)
    → link.nibbles.nibbles ≡ pre ++ old
    → link.nibbles.num_nibbles ≡ length pre
    → length ns ≤ length old
    → length pre + length ns ≤ nibble_array_size
    → All (λ n. n ≢ mbus_end_msg_code) ns
    → receive scratch link (ns ++ rest)
      ≡ receive scratch (with_array link (pre ++ overwritten ns old) (length pre + length ns)) rest
unfolding receive
receive-stored scratch [] rest pre old link held count space room ne =
    ap (λ l. receive scratch l rest) (ap₂ (with_array link) held (omega (arith, count)))
receive-stored scratch (n ∷ ns) rest pre [] link held count space room ne = absurd (omega arith)
receive-stored scratch (n ∷ ns) rest pre (o ∷ old) link held count space room ne =
    let pre1 = pre ++ n ∷ [] in
    let longer = length-append pre (n ∷ []) in
    let link1 = with_array link (pre ++ n ∷ old) (suc (length pre)) in
    ap (λ m. m >>= λ link1. receive scratch link1 (ns ++ rest))
      (rx_push_nibble-stored scratch link pre old o n held count (omega arith) ne.0)
    ∙ receive-stored scratch ns rest pre1 old link1 (sym (append_assoc pre (n ∷ []) old))
        (omega (arith, longer)) (omega arith) (omega (arith, longer)) ne.1
    ∙ ap (λ l. receive scratch l rest)
        (ap₂ (with_array link) (append_assoc pre (n ∷ []) (overwritten ns old))
          (omega (arith, longer)))

rx_push_nibble-end :
    (scratch : RxMsg) (link : Link) (pre old : List ℕ) (o : ℕ)
    → link.nibbles.nibbles ≡ pre ++ o ∷ old
    → link.nibbles.num_nibbles ≡ length pre
    → length pre < nibble_array_size
    → Fifo.is_full link.rx_msg_fifo ≡ false
    → rx_push_nibble scratch link mbus_end_msg_code
      ≡ some (record link {
        rx_msg_fifo =
            Fifo.push link.rx_msg_fifo
              (parse_msg (pre ++ mbus_end_msg_code ∷ old) (length pre) scratch);
        nibbles = record { nibbles = pre ++ mbus_end_msg_code ∷ old; num_nibbles = 0 };
      })
unfolding rx_push_nibble
rx_push_nibble-end scratch link pre old o held count room free = ground (
  arith,
  ap (λ l. set l link.nibbles.num_nibbles mbus_end_msg_code) held,
  set-append_here pre o mbus_end_msg_code old link.nibbles.num_nibbles count,
)

-- At rest: no nibble of a message is held, and the array is whole.
pub record IsReady (link : Link) : Type 0 where
  pub valid : Fifo.Inv.IsValid link.rx_msg_fifo
  pub array : length link.nibbles.nibbles ≡ nibble_array_size
  pub at_start : link.nibbles.num_nibbles ≡ 0

not_full : (n m : ℕ) → n + 1 ≤ m → (n == m) ≡ false
not_full n m h = ground arith

-- The nibbles of a message that is not too long, and the end code, queue what the parser makes of
-- the nibbles, and leave the link at rest.
pub receive-message :
    (scratch : RxMsg) (link : Link) (ns : List ℕ)
    → IsReady link
    → length ns < nibble_array_size
    → length (Fifo.Refine.contents link.rx_msg_fifo) + 1 ≤ link.rx_msg_fifo.capacity
    → All (λ n. n ≢ mbus_end_msg_code) ns
    → (tail : List ℕ) × (array : List ℕ) × (receive scratch link (ns ++ mbus_end_msg_code ∷ [])
        ≡ some (record link {
          rx_msg_fifo = Fifo.push link.rx_msg_fifo (parse_msg (ns ++ tail) (length ns) scratch);
          nibbles = record { nibbles = array; num_nibbles = 0 };
        }))
      × (length array ≡ nibble_array_size)
unfolding receive
receive-message scratch link ns r fits room ne =
    let raw = link.nibbles in
    let (o, old, cut, count) = drop_cons (length ns) raw.nibbles (omega (arith, r.array)) in
    let free = Fifo.Refine.is_full_lem r.valid ∙ not_full _ _ room in
    let held = with_array link (ns ++ o ∷ old) (length ns) in
    let stored =
      receive-stored scratch ns (mbus_end_msg_code ∷ []) [] raw.nibbles link refl r.at_start
        (omega (arith, r.array)) (omega arith) ne
      ∙ ap₂ (λ l n. receive scratch (with_array link l n) (mbus_end_msg_code ∷ []))
          (ap (λ l. ns ++ l) cut) (zero-add (length ns)) in
    let ended = rx_push_nibble-end scratch held ns old o refl refl fits free in
    (
      mbus_end_msg_code ∷ old,
      ns ++ mbus_end_msg_code ∷ old,
      stored ∙ ap (λ m. m >>= λ link1. some link1) ended,
      omega (arith, count, r.array, length-append ns (mbus_end_msg_code ∷ old)),
    )
