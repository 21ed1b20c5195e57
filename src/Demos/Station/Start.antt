-- ===== src/Demos/Station/Start.antt =====
-- The stations that the set-up and rounds of the loop lead to.
use native.Mathlib.Nat.{mul-div_cancel}
use mathlib.Core.Path.{subst}
use diy_acura_bluetooth.Prelude.{
  ℕ, ◌*◌, ◌<◌, ◌≤◌, ◌≡◌, refl, sym, ◌∙◌, List, [], Option, some, arith, length, Returns, All,
}
use diy_acura_bluetooth.Fifo
use diy_acura_bluetooth.Phy.State.{mbus_end_msg_code}
use diy_acura_bluetooth.Phy.Rx
use diy_acura_bluetooth.Phy.Tx
use diy_acura_bluetooth.Phy.Join.{mbus_phy_init, mbus_phy_rx_enable}
use diy_acura_bluetooth.Link.Parse.Typed.{IsByte, IsParsed}
use diy_acura_bluetooth.Link.Core.{init as link_init}
use diy_acura_bluetooth.Demos.Station.{
  Station, Inputs, Memory, set_up, byte_mem_size, msg_mem_size, msg_str_size,
}
use diy_acura_bluetooth.Demos.Station.Inv.{IsSilent, Fits}

-- The buffers are as long as they are declared, and hold bytes.
pub record IsDeclared (memory : Memory) : Type 0 where
  pub rx_bytes : length memory.rx_bytes ≡ byte_mem_size
  pub tx_bytes : length memory.tx_bytes ≡ byte_mem_size
  pub rx_msgs : length memory.rx_msgs ≡ msg_mem_size
  pub tx_msgs : length memory.tx_msgs ≡ msg_mem_size
  pub nibbles : All IsByte memory.nibbles.nibbles
  pub msg_str : length memory.msg_str ≡ msg_str_size

-- A station that only listens, with every message printed.
abbrev pub IsListening : Station → Type 0
IsListening m = IsSilent m × (Fifo.Refine.contents m.link.rx_msg_fifo ≡ [])

set_up-IsListening :
    (rx_msg_size tx_msg_size : ℕ) (memory : Memory)
    → 0 < rx_msg_size
    → 0 < tx_msg_size
    → IsDeclared memory
    → Returns IsListening (set_up rx_msg_size tx_msg_size memory)
unfolding set_up mbus_phy_init Rx.init Tx.init link_init mbus_phy_rx_enable
set_up-IsListening rx_msg_size tx_msg_size memory rp tp d =
    let (f1, e1, v1, c1) =
      Fifo.Refine.nomalloc_init-starts "mbusPhyRx" memory.rx_bytes byte_mem_size 1 64 refl
        (omega arith) (omega arith) (omega (arith, d.rx_bytes)) in
    let (f2, e2, v2, c2) =
      Fifo.Refine.nomalloc_init-starts "mbusPhyTx" memory.tx_bytes byte_mem_size 1 64 refl
        (omega arith) (omega arith) (omega (arith, d.tx_bytes)) in
    let (f3, e3, v3, c3) =
      Fifo.Refine.nomalloc_init-starts "mbusLinkRx" memory.rx_msgs (msg_mem_size * rx_msg_size)
        rx_msg_size 2 (mul-div_cancel 2 rp) (omega arith) (omega arith)
        (omega (arith, d.rx_msgs)) in
    let (f4, e4, v4, c4) =
      Fifo.Refine.nomalloc_init-starts "mbusLinkTx" memory.tx_msgs (msg_mem_size * tx_msg_size)
        tx_msg_size 2 (mul-div_cancel 2 tp) (omega arith) (omega arith)
        (omega (arith, d.tx_msgs)) in
    rw (e1, e2)
      (rw (e3, e4)
        (
          record {
            rx = record {
              fifo = record {
                valid = v1;
                codes = subst (All (λ c. c ≤ mbus_end_msg_code)) (sym c1) tt;
              };
              shifter_low = omega arith;
              shifter_high = omega arith;
            };
            tx = record { fifo = v2; shifter = omega arith; driven = refl };
            off = refl;
            pin = refl;
            link = record {
              receives = refl;
              none_pending = Fifo.Refine.is_empty_lem v4 ∙ rw c4 refl;
              messages = v3;
              parsed = subst (All IsParsed) (sym c3) tt;
              codes = d.nibbles;
            };
            buffer = d.msg_str;
          },
          c3,
        ))

abbrev pub Round : Type 0
Round = Inputs → Station → Option (Station × List (List ℕ))

-- What a loop of such rounds comes to, with rounds that overrun no array.
pub data Reach (round : Round) (first : Station) : Station → Type 0 where
  here : Reach round first first
  later :
      {m m' : Station} (inputs : Inputs) (said : List (List ℕ))
      → Reach round first m
      → Fits m inputs
      → round inputs m ≡ some (m', said)
      → Reach round first m'

pub data Started (first : Station) : Type 0 where
  started :
      (rx_msg_size tx_msg_size : ℕ) (memory : Memory)
      → 0 < rx_msg_size
      → 0 < tx_msg_size
      → IsDeclared memory
      → set_up rx_msg_size tx_msg_size memory ≡ some first
      → Started first

pub Started-IsListening : {first : Station} → Started first → IsListening first
Started-IsListening (started rx_msg_size tx_msg_size memory rp tp d e) =
    subst (Returns IsListening) e (set_up-IsListening rx_msg_size tx_msg_size memory rp tp d)

-- Rounds that keep a station silent lead to silent stations only.
pub Reach-IsSilent :
    (round : Round)
    → ((m : Station) (inputs : Inputs)
        → IsSilent m
        → Fits m inputs
        → Returns (λ q. IsSilent q.0) (round inputs m))
    → {first m : Station} → Started first
    → Reach round first m
    → IsSilent m
Reach-IsSilent round keeps st here = (Started-IsListening st).0
Reach-IsSilent round keeps st (later inputs said r fits e) =
    subst (Returns (λ q. IsSilent q.0)) e (keeps _ inputs (Reach-IsSilent round keeps st r) fits)
