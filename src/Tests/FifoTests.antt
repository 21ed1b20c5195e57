-- ===== src/Tests/FifoTests.antt =====
-- The FIFO of common/fifo.c at concrete inputs.
use diy_acura_bluetooth.Prelude.{ℕ, ◌≡◌, refl, [], ◌∷◌, arith}
use diy_acura_bluetooth.Queue
use diy_acura_bluetooth.Fifo
use diy_acura_bluetooth.Fifo.{Fifo}
use diy_acura_bluetooth.Fifo.Trace.{push_call, pop_call}

-- 8 and then 9, round the end of a buffer of three.
abbrev wrapped : Fifo ℕ
wrapped = record {
  id = "test";
  buffer = 9 ∷ 7 ∷ 8 ∷ [];
  buffer_end = 3;
  capacity = 3;
  count = 2;
  element_size = 1;
  head = 1;
  tail = 2;
}

wrapped-IsValid : Fifo.Inv.IsValid wrapped
wrapped-IsValid = omega arith

contents-wrapped : Fifo.Refine.contents wrapped ≡ 8 ∷ 9 ∷ []
contents-wrapped = refl

push_refines_example : Fifo.Refine.contents (Fifo.push wrapped 5) ≡ Queue.push 3 (8 ∷ 9 ∷ []) 5
push_refines_example = Fifo.Refine.push_refines 5 wrapped-IsValid

pop_refines_example : Fifo.Refine.seen (Fifo.pop wrapped) ≡ Queue.pop (8 ∷ 9 ∷ [])
pop_refines_example = Fifo.Refine.pop_refines wrapped-IsValid

run_refines_example :
    Fifo.Trace.run wrapped (push_call 5 ∷ push_call 6 ∷ pop_call ∷ [])
    ≡ Fifo.Trace.run_queue 3 (8 ∷ 9 ∷ []) (push_call 5 ∷ push_call 6 ∷ pop_call ∷ [])
run_refines_example =
    Fifo.Trace.run_refines (push_call 5 ∷ push_call 6 ∷ pop_call ∷ []) wrapped wrapped-IsValid
