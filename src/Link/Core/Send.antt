-- ===== src/Link/Core/Send.antt =====
-- What `_sendPendingTxMsg` hands to the transmitter, and the direction of the link.
use diy_acura_bluetooth.Prelude.{ℕ, zero, suc, ◌≡◌, refl, bit_xor, List, [], ◌∷◌, ◌++◌, some}
use diy_acura_bluetooth.Fifo
use diy_acura_bluetooth.Fifo.{Fifo}
use diy_acura_bluetooth.Fifo.Many.{push_all, push_all-append}
use diy_acura_bluetooth.Phy.State.{mbus_end_msg_code}
use diy_acura_bluetooth.Link.Types.{PackedNibbles, TxMsg}
use diy_acura_bluetooth.Link.Parse.Checksum.{xor_all, checksum}
use diy_acura_bluetooth.Link.Core.{Link, nibble_at, send_loop, send_pending}

-- The nibbles of a packed message from `idx` on.
abbrev pub nibbles_from : ℕ → ℕ → PackedNibbles → List ℕ
nibbles_from zero idx p = []
nibbles_from (suc rounds) idx p = nibble_at p idx ∷ nibbles_from rounds (suc idx) p

abbrev pub unpacked : PackedNibbles → List ℕ
unpacked p = nibbles_from p.num_nibbles 0 p

send_loop_lem :
    (rounds idx : ℕ) (p : PackedNibbles) (acc : ℕ) (f : Fifo ℕ)
    → send_loop rounds idx p acc f
      ≡ (xor_all acc (nibbles_from rounds idx p), push_all f (nibbles_from rounds idx p))
unfolding send_loop push_all
send_loop_lem zero idx p acc f = refl
send_loop_lem (suc rounds) idx p acc f =
    send_loop_lem rounds (suc idx) p (bit_xor acc (nibble_at p idx)) (Fifo.push f (nibble_at p idx))

-- The message on the wire: its nibbles, their checksum and the end code.
abbrev pub framed : List ℕ → List ℕ
framed ns = ns ++ checksum ns ∷ mbus_end_msg_code ∷ []

pub send_pending_lem :
    (link : Link) (f : Fifo ℕ) (m : TxMsg) (q : List TxMsg)
    → Fifo.Inv.IsValid link.tx_msg_fifo
    → Fifo.Refine.contents link.tx_msg_fifo ≡ m ∷ q
    → (g : Fifo TxMsg) × (send_pending link f
        ≡ some (record link { tx_msg_fifo = g }, push_all f (framed (unpacked m.nibbles))))
      × (Fifo.Refine.contents g ≡ q)
      × Fifo.Inv.IsValid g
unfolding send_pending checksum push_all
send_pending_lem link f m q v c =
    let (g, p, rest) = Fifo.Refine.pop_cons link.tx_msg_fifo v c in
    let ns = unpacked m.nibbles in
    (
      g,
      rw (
        p,
        send_loop_lem m.nibbles.num_nibbles 0 m.nibbles 0 f,
        push_all-append f ns (checksum ns ∷ mbus_end_msg_code ∷ []),
      ),
      rest,
      Fifo.Inv.pop-IsValid {r = (m, g)} v p,
    )
