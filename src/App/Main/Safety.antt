-- ===== src/App/Main/Safety.antt =====
-- The machines that `main` can reach from its set-up.
use native.Mathlib.Nat.{mul-div_cancel}
use mathlib.Core.Path.{subst}
use diy_acura_bluetooth.Prelude.{
  ℕ, ◌*◌, ◌≤◌, ◌<◌, ◌≡◌, refl, sym, ◌∙◌, true, false, not, List, [], ◌∷◌, some, arith, length,
  length-set, set, Returns, Returns-map, All, if_both,
}
use diy_acura_bluetooth.Fifo
use diy_acura_bluetooth.Fifo.{Fifo}
use diy_acura_bluetooth.Phy.State.{mbus_end_msg_code}
use diy_acura_bluetooth.Phy.Rx
use diy_acura_bluetooth.Phy.Tx
use diy_acura_bluetooth.Phy.Tx.Inv.{drives, is_off, off-quiet}
use diy_acura_bluetooth.Phy.Join.{mbus_phy_init, mbus_phy_rx_enable}
use diy_acura_bluetooth.Link.Core.{init as link_init}
use diy_acura_bluetooth.Rn52.State.{Rn52, Rn52State, rx_str_size, rn52_avrcp_cmd_reconnect_last}
use diy_acura_bluetooth.Rn52.Chars.{c_string}
use diy_acura_bluetooth.Rn52.Commands.{init as rn52_init, reconnect_last, avrcp_cmd_fifo_push}
use diy_acura_bluetooth.Rn52.Total
use diy_acura_bluetooth.Rn52.Text.{IsString}
use diy_acura_bluetooth.App.State.{init as app_init, simple_mbus_msg_num}
use diy_acura_bluetooth.App.Main.{
  Machine, Inputs, Memory, set_up, round, byte_mem_size, rx_msg_mem_num, tx_msg_mem_num,
  rn52_avrcp_cmd_mem_size,
}
use diy_acura_bluetooth.App.Main.Inv.{IsSound, Fits}
use diy_acura_bluetooth.App.Main.Round.{round-IsSound}

-- The buffers are as long as they are declared.
pub record IsDeclared (memory : Memory) : Type 0 where
  pub rx_bytes : length memory.rx_bytes ≡ byte_mem_size
  pub tx_bytes : length memory.tx_bytes ≡ byte_mem_size
  pub rx_msgs : length memory.rx_msgs ≡ rx_msg_mem_num
  pub tx_msgs : length memory.tx_msgs ≡ tx_msg_mem_num
  pub commands : length memory.commands ≡ rn52_avrcp_cmd_mem_size
  pub simple_msgs : length memory.simple_msgs ≡ simple_mbus_msg_num
  pub rx_str : length memory.rn52.rx_str ≡ rx_str_size
  pub tx_cmd : length memory.rn52.tx_cmd ≡ 16

-- A string that is empty, in a buffer.
cleared-IsString : (chars : List ℕ) → 0 < length chars → IsString (set chars 0 0)
unfolding c_string
cleared-IsString [] h = elim h [ ]
cleared-IsString (c ∷ chars) h = tt

queued-IsValid : (rn52 : Rn52) → Total.IsValid rn52 → Total.IsValid (reconnect_last rn52)
unfolding reconnect_last avrcp_cmd_fifo_push
queued-IsValid rn52 v =
    if_both Total.IsValid (not (Fifo.is_full rn52.avrcp_cmd_fifo))
      (record {
        fifo = Fifo.Inv.push-IsValid rn52_avrcp_cmd_reconnect_last v.fifo;
        buffer = v.buffer;
        len = v.len;
        command = v.command;
        cmd_size = v.cmd_size;
      })
      v

set_up-IsSound :
    (rx_msg_size tx_msg_size : ℕ) (memory : Memory)
    → 0 < rx_msg_size
    → 0 < tx_msg_size
    → IsDeclared memory
    → Returns IsSound (set_up rx_msg_size tx_msg_size memory)
unfolding set_up mbus_phy_init Rx.init Tx.init link_init rn52_init app_init mbus_phy_rx_enable
set_up-IsSound rx_msg_size tx_msg_size memory rp tp d =
    let (f1, e1, v1, c1) =
      Fifo.Refine.nomalloc_init-starts "mbusPhyRx" memory.rx_bytes byte_mem_size 1 256 refl
        (omega arith) (omega arith) (omega (arith, d.rx_bytes)) in
    let (f2, e2, v2, c2) =
      Fifo.Refine.nomalloc_init-starts "mbusPhyTx" memory.tx_bytes byte_mem_size 1 256 refl
        (omega arith) (omega arith) (omega (arith, d.tx_bytes)) in
    let (f3, e3, v3, c3) =
      Fifo.Refine.nomalloc_init-starts "mbusLinkRx" memory.rx_msgs (rx_msg_mem_num * rx_msg_size)
        rx_msg_size 4 (mul-div_cancel 4 rp) (omega arith) (omega arith)
        (omega (arith, d.rx_msgs)) in
    let (f4, e4, v4, c4) =
      Fifo.Refine.nomalloc_init-starts "mbusLinkTx" memory.tx_msgs (tx_msg_mem_num * tx_msg_size)
        tx_msg_size 16 (mul-div_cancel 16 tp) (omega arith) (omega arith)
        (omega (arith, d.tx_msgs)) in
    let (f5, e5, v5, c5) =
      Fifo.Refine.nomalloc_init-starts "rn52AvrcpCmdFifo" memory.commands rn52_avrcp_cmd_mem_size 1
        16 refl (omega arith) (omega arith) (omega (arith, d.commands)) in
    let (f6, e6, v6, c6) =
      Fifo.Refine.nomalloc_init-starts "simpleMbusMsg" memory.simple_msgs simple_mbus_msg_num 1 32
        refl (omega arith) (omega arith) (omega (arith, d.simple_msgs)) in
    let driver =
      queued-IsValid
        (record memory.rn52 {
          state = Rn52State.starting_up;
          mode_cmd_not_data = false;
          connection_status = 0;
          return_state = Rn52State.starting_up;
          rx_str_len = 0;
          rx_str = set memory.rn52.rx_str 0 0;
          tx_cmd = set memory.rn52.tx_cmd 0 0;
          reply_milli_sec_time_stamp = 0;
          cmd2cmd_milli_sec_time_stamp = 0;
          avrcp_cmd_fifo = f5;
        })
        (record {
          fifo = v5;
          buffer = length-set memory.rn52.rx_str 0 0 ∙ d.rx_str;
          len = omega arith;
          command = cleared-IsString memory.rn52.tx_cmd (omega (arith, d.tx_cmd));
          cmd_size = length-set memory.rn52.tx_cmd 0 0 ∙ d.tx_cmd;
        }) in
    rw (e1, e2, e3)
      (rw (e4, e5, e6)
        (record {
          rx = record {
            fifo = record {
              valid = v1;
              codes = subst (All (λ c. c ≤ mbus_end_msg_code)) (sym c1) tt;
            };
            shifter_low = omega arith;
            shifter_high = omega arith;
          };
          tx = record { fifo = v2; shifter = omega arith; driven = refl };
          pin = refl;
          app = record {
            simple = v6;
            rx = v3;
            tx = v4;
            commands = driver.fifo;
            tracks = omega arith;
            track_in = omega arith;
          };
          driver = driver;
          mode = refl;
        }))

-- What the main loop can come to from a machine that has been set up, with rounds that overrun no
-- array.
pub data Reach (first : Machine) : Machine → Type 0 where
  here : Reach first first
  later :
      {m m' : Machine} (inputs : Inputs) (sent : List ℕ)
      → Reach first m
      → Fits m inputs
      → round inputs m ≡ some (m', sent)
      → Reach first m'

Reach-IsSound : {first m : Machine} → IsSound first → Reach first m → IsSound m
Reach-IsSound sound here = sound
Reach-IsSound sound (later inputs sent r fits e) =
    subst (Returns (λ q. IsSound q.0)) e (round-IsSound _ inputs (Reach-IsSound sound r) fits)

-- A machine that `main` has set up, in memory as it is declared.
pub data Started (first : Machine) : Type 0 where
  started :
      (rx_msg_size tx_msg_size : ℕ) (memory : Memory)
      → 0 < rx_msg_size
      → 0 < tx_msg_size
      → IsDeclared memory
      → set_up rx_msg_size tx_msg_size memory ≡ some first
      → Started first

Started-IsSound : {first : Machine} → Started first → IsSound first
Started-IsSound (started rx_msg_size tx_msg_size memory rp tp d e) =
    subst (Returns IsSound) e (set_up-IsSound rx_msg_size tx_msg_size memory rp tp d)

-- In every state that the set-up leads to by rounds of the main loop, each of which begins with fewer
-- than 32 nibbles held, whether one comes or not, and with room for a serial character that comes
-- (`Fits`), whenever the link receives, the transmitter is disabled and the pin does not drive the bus:
-- the adapter never talks while it listens.
pub quiet_while_receiving :
    (first m : Machine)
    → Started first
    → Reach first m
    → m.app.link.rx_not_tx_mode ≡ true
    → (m.mbus_drive_lo_pin ≡ false) × (is_off m.phy.tx.state ≡ true)
quiet_while_receiving first m st r receives =
    let s = Reach-IsSound (Started-IsSound st) r in
    let off : is_off m.phy.tx.state ≡ true = sym s.mode ∙ receives in
    (s.pin ∙ s.tx.driven ∙ off-quiet m.phy.tx.state off, off)

-- From the set-up on, a round that overruns no array comes to its end, with no failed assertion, in a
-- machine that is sound again: every queue is valid, and the pin drives the bus exactly when the
-- transmitter sends a bit.
pub main_goes_on :
    (first m : Machine) (inputs : Inputs)
    → Started first
    → Reach first m
    → Fits m inputs
    → Returns
        (λ q. IsSound q.0 × (q.0.mbus_drive_lo_pin ≡ drives q.0.phy.tx.state))
        (round inputs m)
main_goes_on first m inputs st r fits =
    Returns-map (λ q. IsSound q.0) _ (round inputs m) (λ q s. (s, s.pin ∙ s.tx.driven))
      (round-IsSound m inputs (Reach-IsSound (Started-IsSound st) r) fits)
