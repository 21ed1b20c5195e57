-- ===== src/Link/Core/Direction.antt =====
-- `mbus_link_update`: when the link changes its direction, and how it empties its queue.
use mathlib.Core.List.{append_assoc, append-nil}
use diy_acura_bluetooth.Prelude.{
  ℕ, ◌+◌, ◌≤◌, ◌≡◌, sym, ap, ◌∙◌, Bool, true, false, not, ◌&&◌, List, [], ◌∷◌, ◌++◌, Option, some,
  arith, length, length-append, Returns, Returns-map, Bool-cases, inl, inr, ◌>>=◌, if◌then◌else◌,
}
use diy_acura_bluetooth.Fifo
use diy_acura_bluetooth.Fifo.{Fifo}
use diy_acura_bluetooth.Fifo.Many.{push_all, contents-push_all, push_all-IsValid, capacity-push_all}
use diy_acura_bluetooth.Link.Types.{TxMsg}
use diy_acura_bluetooth.Link.Core.{Link, tx_is_empty, send_pending, update}
use diy_acura_bluetooth.Link.Core.Send.{framed, unpacked, send_pending_lem}

-- A link is turned round when it receives, nothing is coming in and a message is pending, and back
-- when it sends, nothing is going out and no message is pending.
abbrev pub is_turned : Link → Bool → Bool → Bool
is_turned link phy_rx_busy phy_tx_busy =
    if link.rx_not_tx_mode
    then not phy_rx_busy && not (Fifo.is_empty link.tx_msg_fifo)
    else not phy_tx_busy && Fifo.is_empty link.tx_msg_fifo

-- The receiving side is as it was.
abbrev pub SameRx : Link → Link → Type 0
SameRx link link' = (link'.rx_msg_fifo ≡ link.rx_msg_fifo) × (link'.nibbles ≡ link.nibbles)

abbrev pub flip_if : Bool → Bool → Bool
flip_if true b = not b
flip_if false b = b

sent :
    (link : Link) (f : Fifo ℕ)
    → Fifo.Inv.IsValid link.tx_msg_fifo
    → Fifo.is_empty link.tx_msg_fifo ≡ false
    → (g : Fifo TxMsg) × (f' : Fifo ℕ) × (send_pending link f
        ≡ some (record link { tx_msg_fifo = g }, f'))
      × Fifo.Inv.IsValid g
sent link f v ne =
    let (m, g, p, c) = Fifo.Refine.pop_total link.tx_msg_fifo v ne in
    let (h, run, rest, valid) = send_pending_lem link f m (Fifo.Refine.contents g) v c in
    (h, push_all f (framed (unpacked m.nibbles)), run, valid)

-- `mbus_link_update` on every branch. It returns, and changes the direction exactly when the link is
-- turned by its condition; the flag says whether it did. The receiving side is left alone, and the
-- queue of pending messages stays valid.
pub update_lem :
    (link : Link) (phy_rx_busy phy_tx_busy : Bool) (f : Fifo ℕ)
    → Fifo.Inv.IsValid link.tx_msg_fifo
    → Returns
        (λ (link', f', changed).
          (changed ≡ is_turned link phy_rx_busy phy_tx_busy)
          × (link'.rx_not_tx_mode ≡ flip_if changed link.rx_not_tx_mode)
          × SameRx link link'
          × Fifo.Inv.IsValid link'.tx_msg_fifo)
        (update link phy_rx_busy phy_tx_busy f)
unfolding update tx_is_empty
update_lem link phy_rx_busy phy_tx_busy f v = elim (Bool-cases (Fifo.is_empty link.tx_msg_fifo)) [
  | inl none_left ↦ rw none_left (ground arith)
  | inr some_left ↦
      let (g, f', run, valid) = sent link f v some_left in rw (some_left, run) (ground arith)
]

-- Polls of `mbus_link_update`, each with whether the receiver and the transmitter are busy.
unfoldable pub polled : Link → List (Bool × Bool) → Fifo ℕ → Option (Link × Fifo ℕ)
polled link [] f = some (link, f)
polled link ((rx_busy, tx_busy) ∷ polls) f =
    (update link rx_busy tx_busy f >>= λ (link1, f1, changed). polled link1 polls f1)

-- What pending messages are on the wire, one after the other.
abbrev pub all_framed : List TxMsg → List ℕ
all_framed [] = []
all_framed (m ∷ ms) = framed (unpacked m.nibbles) ++ all_framed ms

pub update-sends :
    (link : Link) (rx_busy tx_busy : Bool) (f : Fifo ℕ) (m : TxMsg) (q : List TxMsg)
    → Fifo.Inv.IsValid link.tx_msg_fifo
    → link.rx_not_tx_mode ≡ false
    → Fifo.Refine.contents link.tx_msg_fifo ≡ m ∷ q
    → (g : Fifo TxMsg) × (update link rx_busy tx_busy f
        ≡ some (record link { tx_msg_fifo = g }, push_all f (framed (unpacked m.nibbles)), false))
      × (Fifo.Refine.contents g ≡ q)
      × Fifo.Inv.IsValid g
unfolding update tx_is_empty
update-sends link rx_busy tx_busy f m q v mode c =
    let (g, run, rest, valid) = send_pending_lem link f m q v c in
    (g, ground (arith, Fifo.Refine.is_empty_cons v c, run), rest, valid)

-- A link that sends empties its queue: as many polls as there are messages pending hand them all to
-- the transmitter, oldest first, each framed. The transmitter's queue must have room for all of them;
-- whether the receiver and the transmitter are busy does not matter.
pub pending_sent :
    (polls : List (Bool × Bool)) (link : Link) (f : Fifo ℕ) (ms : List TxMsg)
    → Fifo.Inv.IsValid link.tx_msg_fifo
    → Fifo.Inv.IsValid f
    → link.rx_not_tx_mode ≡ false
    → Fifo.Refine.contents link.tx_msg_fifo ≡ ms
    → length polls ≡ length ms
    → length (Fifo.Refine.contents f) + length (all_framed ms) ≤ f.capacity
    → Returns
        (λ (link', f').
          (Fifo.Refine.contents f' ≡ Fifo.Refine.contents f ++ all_framed ms)
          × (Fifo.Refine.contents link'.tx_msg_fifo ≡ [])
          × (link'.rx_not_tx_mode ≡ false))
        (polled link polls f)
unfolding polled
pending_sent [] link f [] v w mode c n room = (sym (append-nil _), c, mode)
pending_sent [] link f (m ∷ ms) v w mode c n room = absurd (omega arith)
pending_sent (p ∷ polls) link f [] v w mode c n room = absurd (omega arith)
pending_sent ((rx_busy, tx_busy) ∷ polls) link f (m ∷ ms) v w mode c n room =
    let (g, run, rest, valid) = update-sends link rx_busy tx_busy f m ms v mode c in
    let out = framed (unpacked m.nibbles) in
    let size = length-append out (all_framed ms) in
    let here = contents-push_all out w (omega arith) in
    let f1 = push_all f out in
    let held = ap length here ∙ length-append (Fifo.Refine.contents f) out in
    let more =
      pending_sent polls (record link { tx_msg_fifo = g }) f1 ms valid (push_all-IsValid out w) mode
        rest (omega arith) (omega (arith, size, held, capacity-push_all f out)) in
    let joined =
      ap (λ l. l ++ all_framed ms) here
      ∙ append_assoc (Fifo.Refine.contents f) out (all_framed ms) in
    rw run (
      Returns-map _ _ (polled (record link { tx_msg_fifo = g }) polls f1)
        (λ r q. (q.0 ∙ joined, q.1, q.2)) more)
