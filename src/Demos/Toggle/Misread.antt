-- ===== src/Demos/Toggle/Misread.antt =====
-- What the head unit makes of the answers of app_demo_toggle_sniffer.cpp.
use mathlib.Core.Path.{subst}
use diy_acura_bluetooth.Prelude.{
  ℕ, ◌≤◌, ◌<◌, ◌≡◌, refl, ◌==◌, ◌&&◌, List, [], ◌∷◌, ◌++◌, Option, none, some, arith, length, All,
  Returns, Returns-map, if_both,
}
use diy_acura_bluetooth.Fifo
use diy_acura_bluetooth.Link.Types.{
  RxMsg, TxMsg, err_id_length, msgtype_ping, msgtype_set_play_state, msgtype_head_power_on,
}
use diy_acura_bluetooth.Link.Parse.{do_direction, parse_body, parse_cd2head_body, typed}
use diy_acura_bluetooth.Link.Parse.Checksum.{checksum, filled, parse_rest}
use diy_acura_bluetooth.Link.Core.{Link}
use diy_acura_bluetooth.Link.Core.Pack.{unpacked-value}
use diy_acura_bluetooth.Link.Core.Send.{framed, unpacked}
use diy_acura_bluetooth.Link.Core.Receive.{receive, IsReady}
use diy_acura_bluetooth.Link.Deliver.{IsNibble, CanReceive, delivered}
use diy_acura_bluetooth.Demos.Toggle.{reply, says_play, packed}

-- One message more is queued, with a length error.
abbrev pub GotError : Link → Link → Type 0
GotError link link' =
    (m : RxMsg) × (Fifo.Refine.contents link'.rx_msg_fifo
      ≡ Fifo.Refine.contents link.rx_msg_fifo ++ m ∷ [])
    × (m.err_id ≡ err_id_length)
    × IsReady link'

misread :
    (scratch : RxMsg) (link : Link) (m : TxMsg) (ns : List ℕ)
    → CanReceive scratch link
    → unpacked m.nibbles ≡ ns
    → 2 ≤ length ns
    → length ns < 31
    → All IsNibble ns
    → (parse_rest (filled scratch (ns ++ checksum ns ∷ []))).err_id ≡ err_id_length
    → Returns (GotError link) (receive scratch link (framed (unpacked m.nibbles)))
misread scratch link m ns can u long short small wrong = rw u (
    Returns-map _ (GotError link) (receive scratch link (framed ns))
      (λ link' q. (parse_rest (filled scratch (ns ++ checksum ns ∷ [])), q.0, wrong, q.1))
      (delivered scratch link ns can.ready can.room can.space long (omega arith) small))

-- What holds of a message, if there is one.
abbrev IfAny : (TxMsg → Type 0) → Option TxMsg → Type 0
IfAny P none = Unit
IfAny P (some m) = P m

module _ (scratch : RxMsg) (link : Link) (can : CanReceive scratch link) where
  abbrev IsMisread : TxMsg → Type 0
  IsMisread m = Returns (GotError link) (receive scratch link (framed (unpacked m.nibbles)))

  pong-IsMisread : IsMisread (packed 0x982 3)
  unfolding checksum do_direction parse_body parse_cd2head_body typed
  pong-IsMisread =
      let ns = 9 ∷ 8 ∷ 2 ∷ [] in
      misread scratch link (packed 0x982 3) ns can
        (unpacked-value ns (packed 0x982 3).nibbles (omega arith) refl refl) (omega arith)
        (omega arith) (omega arith) refl

  play-IsMisread : IsMisread (packed 0x9940201014300011 16)
  unfolding checksum do_direction parse_body parse_cd2head_body typed
  play-IsMisread =
      let ns = 9 ∷ 9 ∷ 4 ∷ 0 ∷ 2 ∷ 0 ∷ 1 ∷ 0 ∷ 1 ∷ 4 ∷ 3 ∷ 0 ∷ 0 ∷ 0 ∷ 1 ∷ 1 ∷ [] in
      misread scratch link (packed 0x9940201014300011 16) ns can
        (unpacked-value ns (packed 0x9940201014300011 16).nibbles (omega arith) refl refl)
        (omega arith) (omega arith) (omega arith) refl

  power_on-IsMisread : IsMisread (packed 0x9A00000000004 13)
  unfolding checksum do_direction parse_body parse_cd2head_body typed
  power_on-IsMisread =
      let ns = 9 ∷ 10 ∷ 0 ∷ 0 ∷ 0 ∷ 0 ∷ 0 ∷ 0 ∷ 0 ∷ 0 ∷ 0 ∷ 0 ∷ 4 ∷ [] in
      misread scratch link (packed 0x9A00000000004 13) ns can
        (unpacked-value ns (packed 0x9A00000000004 13).nibbles (omega arith) refl refl)
        (omega arith) (omega arith) (omega arith) refl

  reply-IsMisread : (msg : RxMsg) → IfAny IsMisread (reply msg)
  unfolding reply
  reply-IsMisread msg =
      let T : Option TxMsg → Type 0 = IfAny IsMisread in
      if_both T ((msg.err_id == 0) && msg.parsed.direction_h2c)
        (if_both T (msg.parsed.msg_type == msgtype_ping) pong-IsMisread (
          if_both T ((msg.parsed.msg_type == msgtype_set_play_state) && says_play msg.parsed.body)
            play-IsMisread
            (if_both T (msg.parsed.msg_type == msgtype_head_power_on) power_on-IsMisread tt)))
        tt

-- No answer of this program is understood. The messages are written out with their checksum, and the
-- link adds one; so whatever message is answered, the answer, framed and handed to a link that has
-- room, is queued there with a length error.
pub reply_misread :
    (scratch : RxMsg) (link : Link) (msg : RxMsg) (m : TxMsg)
    → CanReceive scratch link
    → reply msg ≡ some m
    → Returns (GotError link) (receive scratch link (framed (unpacked m.nibbles)))
reply_misread scratch link msg m can e =
    subst (IfAny (IsMisread scratch link can)) e (reply-IsMisread scratch link can msg)
