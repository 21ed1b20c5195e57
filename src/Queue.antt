-- ===== src/Queue.antt =====
-- What common/fifo.h promises its users: a queue of at most `cap` items, oldest first, that drops
-- what does not fit. There is no pop from an empty queue.
use diy_acura_bluetooth.Prelude.{
  ℕ, List, [], ◌∷◌, ◌++◌, Option, none, some, length, leb, if◌then◌else◌,
}

module _ {ℓ} {A : Type ℓ} where
  unfoldable pub push : ℕ → List A → A → List A
  push cap q x = if leb cap (length q) then q else q ++ (x ∷ [])

  unfoldable pub pop : List A → Option (A × List A)
  pop [] = none
  pop (x ∷ q) = some (x, q)
