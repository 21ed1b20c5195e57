-- ===== src/Fifo/Refine.antt =====
-- A valid FIFO behaves as the bounded queue of the items that it holds.
use diy_acura_bluetooth.Prelude.{
  ℕ, zero, suc, ◌+◌, ◌-◌, ◌/◌, ◌^◌, ◌≤◌, ◌<◌, ◌≡◌, ◌≢◌, refl, ap, ◌∙◌, List, [], ◌∷◌, ◌++◌, Option,
  none, some, arith, length, set, get_elem?, get_elem?-set_self, get_elem?-set_ne, get_elem?_total,
  ◌==◌, ==→eq, leb, if◌then◌else◌, Bool-cases, inl, inr, sym, true, false, true_not_false,
}
use Prim.Native.String.{String}
use diy_acura_bluetooth.Prelude.Words.{u32}
use diy_acura_bluetooth.Queue
use diy_acura_bluetooth.Fifo.{Fifo, nomalloc_init, reset, push, pop, is_full, is_empty}
use diy_acura_bluetooth.Fifo.Inv.{IsValid, head_of}

abbrev next : ℕ → ℕ → ℕ
next size i = if i + 1 == size then 0 else i + 1

suc_ne_zero : (n : ℕ) → (suc n == 0) ≡ false
suc_ne_zero n = ground arith

empty_count : ((0 == 0) ≡ false) → ⊥
empty_count e = cc

module _ {ℓ} {A : Type ℓ} where
  abbrev pub cons? : Option A → List A → List A
  cons? none xs = xs
  cons? (some x) xs = x ∷ xs

  -- The `n` items from `i` on, going round at `size`.
  abbrev pub window : List A → ℕ → ℕ → ℕ → List A
  window buf size i zero = []
  window buf size i (suc n) =
      cons? (get_elem? buf i) (window buf size (if i + 1 == size then 0 else i + 1) n)

  abbrev pub contents : Fifo A → List A
  contents f = window f.buffer f.capacity f.tail f.count

  length-window :
      (buf : List A) (size i n : ℕ)
      → size ≤ length buf
      → i < size
      → length (window buf size i n) ≡ n
  length-window buf size i zero s h = refl
  length-window buf size i (suc n) s h =
      let (x, e) = get_elem?_total buf i (omega arith) in
      rw e (ap suc (length-window buf size (next size i) n s (ground arith)))

  -- A write just past the window extends it by that item.
  window-set :
      (buf : List A) (size : ℕ) (x : A) (n i j : ℕ)
      → size ≤ length buf
      → i < size
      → n < size
      → j ≡ head_of size i n
      → window (set buf j x) size i (suc n) ≡ window buf size i n ++ (x ∷ [])
  window-set buf size x zero i j s hi hn e =
      let e' : j ≡ i = ground arith in rw (e', get_elem?-set_self buf i x (omega arith))
  window-set buf size x (suc n) i j s hi hn e =
      let (y, here) = get_elem?_total buf i (omega arith) in
      rw (get_elem?-set_ne buf {i = j} {j = i} x (ground arith), here)
        (ap (λ l. y ∷ l)
          (window-set buf size x n (next size i) j s (ground arith) (omega arith) (ground arith)))

  pub length-contents : {f : Fifo A} → IsValid f → length (contents f) ≡ f.count
  length-contents {f} v = length-window f.buffer f.capacity f.tail f.count v.storage v.tail_in

  window_of_ne_zero :
      (buf : List A) (size i n : ℕ)
      → n ≢ 0
      → window buf size i n ≡ cons? (get_elem? buf i) (window buf size (next size i) (n - 1))
  window_of_ne_zero buf size i zero ne = absurd (ne refl)
  window_of_ne_zero buf size i (suc n) ne =
      ap (λ k. cons? (get_elem? buf i) (window buf size (next size i) k)) (omega arith)

  -- `fifo_push` on a valid FIFO is the push of the bounded queue: it appends the item, and drops it
  -- when `capacity` items are held.
  pub push_refines :
      {f : Fifo A} (x : A) → IsValid f → contents (push f x) ≡ Queue.push f.capacity (contents f) x
  unfolding push Queue.push
  push_refines {f} x v = elim (Bool-cases (leb f.capacity f.count)) [
    | inl full ↦ rw (length-contents v, full)
    | inr room ↦
        let fits : u32 (f.count + 1) ≡ suc f.count = ground (arith, v.cap_word) in
        rw (length-contents v, room, fits)
          (window-set f.buffer f.capacity x f.count f.tail f.head v.storage v.tail_in (ground arith)
            v.head_eq)
  ]

  -- What `fifo_pop` gives on a valid FIFO, in terms of the items held: `none` (the assertion fails)
  -- exactly when there are none.
  abbrev pub seen : Option (A × Fifo A) → Option (A × List A)
  seen none = none
  seen (some (x, f)) = some (x, contents f)

  -- `fifo_pop` on a valid FIFO is the pop of the queue: it takes the oldest item, and fails its
  -- assertion exactly when there is none.
  pub pop_refines : {f : Fifo A} → IsValid f → seen (pop f) ≡ Queue.pop (contents f)
  unfolding pop Queue.pop
  pop_refines {f} v = elim (Bool-cases (f.count == 0)) [
    | inl none_left ↦
        let zero_left : f.count ≡ 0 = ==→eq f.count 0 none_left in rw (none_left, zero_left)
    | inr some_left ↦
        let (x, e) = get_elem?_total f.buffer f.tail (omega (arith, v.storage, v.tail_in)) in
        let split = window_of_ne_zero f.buffer f.capacity f.tail f.count (ground arith) in
        rw (some_left, split, e, v.end_eq)
  ]

  pub contents-reset : (f : Fifo A) → contents (reset f) ≡ []
  unfolding reset
  contents-reset f = refl

  -- `fifo_is_empty` and `fifo_is_full` on a valid FIFO are the tests on the items held.
  pub is_empty_lem : {f : Fifo A} → IsValid f → is_empty f ≡ (length (contents f) == 0)
  unfolding is_empty
  is_empty_lem v = rw (length-contents v)

  pub is_full_lem : {f : Fifo A} → IsValid f → is_full f ≡ (length (contents f) == f.capacity)
  unfolding is_full
  is_full_lem v = rw (length-contents v)

  -- A valid FIFO that holds `x` and then `q` pops `x` and goes on holding `q`.
  pub pop_cons :
      (f : Fifo A) {x : A} {q : List A}
      → IsValid f
      → contents f ≡ x ∷ q
      → (g : Fifo A) × (pop f ≡ some (x, g)) × (contents g ≡ q)
  unfolding Queue.pop
  pop_cons f {x} {q} v e = go (pop f) refl (pop_refines v ∙ ap Queue.pop e)
    where
      go :
          (r : Option (A × Fifo A))
          → pop f ≡ r
          → seen r ≡ some (x, q)
          → (g : Fifo A) × (pop f ≡ some (x, g)) × (contents g ≡ q)
      go none p s = cc
      go (some (y, g)) p s = (g, p ∙ cc, cc)

  -- A pop that `fifo_is_empty` has allowed does not fail its assertion.
  pub pop_total :
      (f : Fifo A)
      → IsValid f
      → is_empty f ≡ false
      → (x : A) × (g : Fifo A) × (pop f ≡ some (x, g)) × (contents f ≡ x ∷ contents g)
  pop_total f v ne = go (contents f) refl
    where
      go :
          (l : List A)
          → contents f ≡ l
          → (x : A) × (g : Fifo A) × (pop f ≡ some (x, g)) × (contents f ≡ x ∷ contents g)
      go [] e = absurd (empty_count (rw (is_empty_lem v, e) at ne))
      go (x ∷ q) e = let (g, p, c) = pop_cons f v e in (x, g, p, e ∙ ap (λ l. x ∷ l) (sym c))

  pub is_empty_cons :
      {f : Fifo A} {x : A} {q : List A} → IsValid f → contents f ≡ x ∷ q → is_empty f ≡ false
  is_empty_cons {f} {x} {q} v e =
      is_empty_lem v ∙ ap (λ l. length l == 0) e ∙ suc_ne_zero (length q)

  -- A FIFO on memory for `capacity` items is set up, and holds nothing.
  pub nomalloc_init-starts :
      (id : String) (buf : List A) (buf_size element_size capacity : ℕ)
      → buf_size / element_size ≡ capacity
      → 0 < capacity
      → capacity < 2 ^ 32
      → capacity ≤ length buf
      → (f : Fifo A) × (nomalloc_init id (some buf) buf_size element_size ≡ some f)
        × IsValid f
        × (contents f ≡ [])
  unfolding nomalloc_init
  nomalloc_init-starts id buf buf_size element_size capacity e p w s = (
    record {
      id = id;
      buffer = buf;
      buffer_end = buf_size / element_size;
      capacity = buf_size / element_size;
      count = 0;
      element_size = element_size;
      head = 0;
      tail = 0;
    },
    refl,
    ground arith,
    refl,
  )

  length-nil : (l : List A) → (length l == 0) ≡ true → l ≡ []
  length-nil [] e = refl
  length-nil (x ∷ xs) e = absurd (true_not_false (sym e ∙ suc_ne_zero (length xs)))

  pub is_empty_nil : {f : Fifo A} → IsValid f → is_empty f ≡ true → contents f ≡ []
  is_empty_nil {f} v none_left = length-nil (contents f) (sym (is_empty_lem v) ∙ none_left)
