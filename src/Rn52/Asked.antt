-- ===== src/Rn52/Asked.antt =====
-- What the `rn52_avrcp_*` functions queue.
use diy_acura_bluetooth.Prelude.{
  ℕ, ◌+◌, ◌≤◌, ◌≡◌, sym, ◌∙◌, false, Bool-cases, inl, inr, List, [], ◌∷◌, ◌++◌, arith, length, ◌==◌,
  if◌then◌else◌,
}
use mathlib.Core.List.{append-nil}
use diy_acura_bluetooth.Fifo
use diy_acura_bluetooth.Fifo.Many.{contents-push}
use diy_acura_bluetooth.Rn52.State.{Rn52}
use diy_acura_bluetooth.Rn52.Commands.{is_connected, avrcp_cmd_fifo_push, push_if_connected}

-- The commands that wait for the module, oldest first.
abbrev pub commands : Rn52 → List ℕ
commands rn52 = Fifo.Refine.contents rn52.avrcp_cmd_fifo

abbrev pub HasPlace : Rn52 → Type 0
HasPlace rn52 = length (commands rn52) + 1 ≤ rn52.avrcp_cmd_fifo.capacity

not_full : (n m : ℕ) → n + 1 ≤ m → (n == m) ≡ false
not_full n m h = ground arith

-- With room a command is queued behind the others while the far end is connected, and none while not.
pub push_if_connected_lem :
    (rn52 : Rn52) (cmd : ℕ)
    → Fifo.Inv.IsValid rn52.avrcp_cmd_fifo
    → HasPlace rn52
    → commands (push_if_connected rn52 cmd)
      ≡ commands rn52 ++ (if is_connected rn52 then cmd ∷ [] else [])
unfolding avrcp_cmd_fifo_push
push_if_connected_lem rn52 cmd v room = elim (Bool-cases (is_connected rn52)) [
  | inl connected ↦
      rw (connected, Fifo.Refine.is_full_lem v ∙ not_full _ _ room) (contents-push cmd v room)
  | inr away ↦ rw away (sym (append-nil (commands rn52)))
]
