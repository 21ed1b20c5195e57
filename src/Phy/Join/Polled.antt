-- ===== src/Phy/Join/Polled.antt =====
-- What `mbus_phy_update` and a pop of the receiver's queue keep valid.
use mathlib.Core.Path.{subst}
use diy_acura_bluetooth.Prelude.{
  ℕ, ◌≤◌, ◌≡◌, Bool, ◌∷◌, some, Returns, Returns-both, Returns-bind, All,
}
use diy_acura_bluetooth.Fifo
use diy_acura_bluetooth.Fifo.{Fifo}
use diy_acura_bluetooth.Phy.State.{mbus_end_msg_code}
use diy_acura_bluetooth.Phy.Rx
use diy_acura_bluetooth.Phy.Rx.{Rx}
use diy_acura_bluetooth.Phy.Tx
use diy_acura_bluetooth.Phy.Tx.Inv.{is_off, update_total, update-is_off}
use diy_acura_bluetooth.Phy.Join.{MbusPhy, mbus_phy_update}

-- A poll of both state machines.
abbrev pub Polled : MbusPhy → MbusPhy × Bool → Type 0
Polled phy r =
    Rx.Inv.IsValid r.0.rx × Tx.Inv.IsValid r.0.tx r.1 × (is_off r.0.tx.state ≡ is_off phy.tx.state)

pub mbus_phy_update-Polled :
    (phy : MbusPhy) (us : ℕ) (pin_hi drive_lo : Bool)
    → Rx.Inv.IsValid phy.rx
    → Tx.Inv.IsValid phy.tx drive_lo
    → Returns (Polled phy) (mbus_phy_update phy us pin_hi drive_lo)
unfolding mbus_phy_update
mbus_phy_update-Polled phy us pin_hi drive_lo r t =
    Returns-bind _ (Polled phy) (Tx.update phy.tx us drive_lo) _
      (λ q h. (Rx.Inv.update-IsValid us pin_hi r, h.0, h.1))
      (Returns-both (λ q. Tx.Inv.IsValid q.0 q.1) _ (Tx.update phy.tx us drive_lo)
        (update_total phy.tx us drive_lo t) (update-is_off phy.tx us drive_lo t.fifo))

-- The receiver without the oldest code of its queue.
pub popped-IsValid :
    (rx : Rx) (c : ℕ) (f : Fifo ℕ)
    → Rx.Inv.IsValid rx
    → Fifo.pop rx.byte_fifo ≡ some (c, f)
    → Fifo.Refine.contents rx.byte_fifo ≡ c ∷ Fifo.Refine.contents f
    → Rx.Inv.IsValid (record rx { byte_fifo = f })
popped-IsValid rx c f v p e = record {
  fifo = record {
    valid = Fifo.Inv.pop-IsValid {r = (c, f)} v.fifo.valid p;
    codes = (subst (All (λ n. n ≤ mbus_end_msg_code)) e v.fifo.codes).1;
  };
  shifter_low = v.shifter_low;
  shifter_high = v.shifter_high;
}
