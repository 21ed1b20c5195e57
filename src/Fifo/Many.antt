-- ===== src/Fifo/Many.antt =====
-- Several pushes in a row, as the link layer and the receiver make them: with room for all of them
-- the items are appended in order.
use diy_acura_bluetooth.Prelude.{
  ℕ, ◌+◌, ◌≤◌, ◌≡◌, refl, sym, ap, ◌∙◌, List, [], ◌∷◌, ◌++◌, arith, length, length-append, leb,
  false,
}
use mathlib.Core.List.{append-nil, append_assoc}
use diy_acura_bluetooth.Queue
use diy_acura_bluetooth.Fifo.{Fifo, push}
use diy_acura_bluetooth.Fifo.Inv.{IsValid, push-IsValid, capacity-push}
use diy_acura_bluetooth.Fifo.Refine.{contents, push_refines}

-- A decision on numbers that `rw` can use at any level.
has_room : (size n : ℕ) → n + 1 ≤ size → leb size n ≡ false
has_room size n h = ground arith

module _ {ℓ} {A : Type ℓ} where
  unfoldable pub push_all : Fifo A → List A → Fifo A
  push_all f [] = f
  push_all f (x ∷ xs) = push_all (push f x) xs

  pub push_all-append :
      (f : Fifo A) (xs ys : List A) → push_all f (xs ++ ys) ≡ push_all (push_all f xs) ys
  unfolding push_all
  push_all-append f [] ys = refl
  push_all-append f (x ∷ xs) ys = push_all-append (push f x) xs ys

  pub push_all-IsValid : {f : Fifo A} (xs : List A) → IsValid f → IsValid (push_all f xs)
  unfolding push_all
  push_all-IsValid {f} [] v = v
  push_all-IsValid {f} (x ∷ xs) v = push_all-IsValid {f = push f x} xs (push-IsValid x v)

  pub capacity-push_all : (f : Fifo A) (xs : List A) → (push_all f xs).capacity ≡ f.capacity
  unfolding push_all
  capacity-push_all f [] = refl
  capacity-push_all f (x ∷ xs) = capacity-push_all (push f x) xs ∙ capacity-push f x

  -- With room the item is appended.
  pub contents-push :
      {f : Fifo A} (x : A)
      → IsValid f
      → length (contents f) + 1 ≤ f.capacity
      → contents (push f x) ≡ contents f ++ (x ∷ [])
  unfolding Queue.push
  contents-push {f} x v room =
      push_refines x v ∙ rw (has_room f.capacity (length (contents f)) room)

  -- With room for all of them the items are appended in order.
  pub contents-push_all :
      {f : Fifo A} (xs : List A)
      → IsValid f
      → length (contents f) + length xs ≤ f.capacity
      → contents (push_all f xs) ≡ contents f ++ xs
  unfolding push_all
  contents-push_all {f} [] v room = sym (append-nil _)
  contents-push_all {f} (x ∷ xs) v room =
      let step = contents-push x v (omega arith) in
      contents-push_all {f = push f x} xs (push-IsValid x v)
        (omega (arith, capacity-push f x, ap length step, length-append (contents f) (x ∷ [])))
      ∙ ap (λ l. l ++ xs) step
      ∙ append_assoc (contents f) (x ∷ []) xs
