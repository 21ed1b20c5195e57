-- ===== src/Fifo/Trace.antt =====
-- A FIFO through a whole script of calls, against the bounded queue.
use mathlib.Core.Path.{ap₂}
use diy_acura_bluetooth.Prelude.{ℕ, ◌≡◌, refl, ap, ◌∙◌, List, [], ◌∷◌, Option, none, some, ◌>>=◌}
use diy_acura_bluetooth.Queue
use diy_acura_bluetooth.Fifo.{Fifo, reset, push, pop}
use diy_acura_bluetooth.Fifo.Inv.{
  IsValid, push-IsValid, pop-IsValid, reset-IsValid, capacity-push, capacity-pop, capacity-reset,
}
use diy_acura_bluetooth.Fifo.Refine.{contents, push_refines, pop_refines, contents-reset, seen}

pub data Call {ℓ} (A : Type ℓ) : Type ℓ where
  push_call : A → Call A
  pop_call : Call A
  reset_call : Call A

module _ {ℓ} {A : Type ℓ} where
  abbrev with_item : A → Option (List A × List A) → Option (List A × List A)
  with_item x none = none
  with_item x (some (outs, q)) = some (x ∷ outs, q)

  -- The items that a script of calls pops, and what the FIFO then holds; `none` is a failed assertion.
  unfoldable pub run : Fifo A → List (Call A) → Option (List A × List A)
  run f [] = some ([], contents f)
  run f (push_call x ∷ calls) = run (push f x) calls
  run f (pop_call ∷ calls) = pop f >>= λ (x, g). with_item x (run g calls)
  run f (reset_call ∷ calls) = run (reset f) calls

  -- The same script on the bounded queue.
  unfoldable pub run_queue : ℕ → List A → List (Call A) → Option (List A × List A)
  run_queue cap q [] = some ([], q)
  run_queue cap q (push_call x ∷ calls) = run_queue cap (Queue.push cap q x) calls
  run_queue cap q (pop_call ∷ calls) = Queue.pop q >>= λ (x, r). with_item x (run_queue cap r calls)
  run_queue cap q (reset_call ∷ calls) = run_queue cap [] calls

  popped :
      (f : Fifo A) (calls : List (Call A)) (r : Option (A × Fifo A))
      → pop f ≡ r
      → ((x : A) (g : Fifo A)
          → pop f ≡ some (x, g)
          → run g calls ≡ run_queue f.capacity (contents g) calls)
      → (r >>= λ (x, g). with_item x (run g calls))
        ≡ (seen r >>= λ (x, q). with_item x (run_queue f.capacity q calls))
  popped f calls none p ih = refl
  popped f calls (some (x, g)) p ih = ap (with_item x) (ih x g p)

  -- Any script of pushes, pops and resets on a valid FIFO gives the items that the bounded queue gives,
  -- leaves what it leaves, and fails an assertion where the queue has nothing to pop.
  pub run_refines :
      (calls : List (Call A)) (f : Fifo A)
      → IsValid f
      → run f calls ≡ run_queue f.capacity (contents f) calls
  unfolding run run_queue
  run_refines [] f v = refl
  run_refines (push_call x ∷ calls) f v =
      run_refines calls (push f x) (push-IsValid x v)
      ∙ ap₂ (λ cap q. run_queue cap q calls) (capacity-push f x) (push_refines x v)
  run_refines (pop_call ∷ calls) f v =
      popped f calls (pop f) refl (λ x g p.
        run_refines calls g (pop-IsValid {r = (x, g)} v p)
        ∙ ap (λ cap. run_queue cap (contents g) calls) (capacity-pop f {r = (x, g)} p))
      ∙ ap (λ m. m >>= λ (x, q). with_item x (run_queue f.capacity q calls)) (pop_refines v)
  run_refines (reset_call ∷ calls) f v =
      run_refines calls (reset f) (reset-IsValid v)
      ∙ ap₂ (λ cap q. run_queue cap q calls) (capacity-reset f) (contents-reset f)
