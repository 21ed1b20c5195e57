-- ===== src/Demos/Station/Message.antt =====
-- A message that is taken from the link's queue and printed.
use mathlib.Core.Path.{subst}
use diy_acura_bluetooth.Prelude.{
  ℕ, ◌+◌, ◌≡◌, refl, ◌∙◌, false, List, ◌∷◌, some, length, length-set, All,
}
use diy_acura_bluetooth.Fifo
use diy_acura_bluetooth.Fifo.{Fifo}
use diy_acura_bluetooth.Link.Types.{RxMsg}
use diy_acura_bluetooth.Link.Parse.Typed.{IsParsed}
use diy_acura_bluetooth.Link.Print.Buffer.{msg_to_str}
use diy_acura_bluetooth.Link.Print.Store.{length-put}
use diy_acura_bluetooth.Link.Print.Expected.{printed, message_text}
use diy_acura_bluetooth.Link.Print.Bound.{msg_to_str_within}
use diy_acura_bluetooth.Link.Print.Logged.{IsParsed-IsPrintable}
use diy_acura_bluetooth.Link.Core.{Link, rx_is_empty, rx_pop}
use diy_acura_bluetooth.Demos.Station.Inv.{Listens}

pub rx_pop-Listens :
    (link : Link)
    → Listens link
    → rx_is_empty link ≡ false
    → (msg : RxMsg) × (link' : Link) × (rx_pop link ≡ some (msg, link'))
      × Listens link'
      × IsParsed msg
      × (Fifo.Refine.contents link.rx_msg_fifo ≡ msg ∷ Fifo.Refine.contents link'.rx_msg_fifo)
      × (link'.nibbles ≡ link.nibbles)
unfolding rx_pop rx_is_empty
rx_pop-Listens link l some_left =
    let (msg, f, p, e) = Fifo.Refine.pop_total link.rx_msg_fifo l.messages some_left in
    let all = subst (All IsParsed) e l.parsed in
    (
      msg,
      record link { rx_msg_fifo = f },
      rw p refl,
      record {
        receives = l.receives;
        none_pending = l.none_pending;
        messages = Fifo.Inv.pop-IsValid {r = (msg, f)} l.messages p;
        parsed = all.1;
        codes = l.codes;
      },
      all.0,
      e,
      refl,
    )

pub msg_to_str-printed :
    (msg : RxMsg) (memory : List ℕ)
    → IsParsed msg
    → length memory ≡ 256
    → (msg_to_str msg memory 256 ≡ some (printed memory 256 msg, length (message_text msg) + 1))
      × (length (printed memory 256 msg) ≡ 256)
msg_to_str-printed msg memory p size = (
  (msg_to_str_within msg memory (IsParsed-IsPrintable msg p) p.bytes size).0,
  length-put _ _ _ ∙ length-set memory _ _ ∙ size,
)
