-- ===== src/Fifo/Inv.antt =====
-- The representation invariant of a FIFO, kept by every function of common/fifo.c.
use Prim.Native.String.{String}
use diy_acura_bluetooth.Prelude.{
  ℕ, ◌+◌, ◌-◌, ◌/◌, ◌^◌, ◌≤◌, ◌<◌, ◌≡◌, refl, List, some, arith, length, length-set, ltb,
  if◌then◌else◌,
}
use diy_acura_bluetooth.Fifo.{Fifo, malloc_init, nomalloc_init, reset, push, pop}

-- Where `head` stands in a buffer of `size` items when `n` of them begin at `tail`.
abbrev pub head_of : ℕ → ℕ → ℕ → ℕ
head_of size tail n = if ltb (tail + n) size then tail + n else tail + n - size

module _ {ℓ} {A : Type ℓ} where
  pub record IsValid (f : Fifo A) : Type 0 where
    pub cap_pos : 0 < f.capacity
    pub cap_word : f.capacity < 2 ^ 32
    pub end_eq : f.buffer_end ≡ f.capacity
    pub storage : f.capacity ≤ length f.buffer
    pub count_in : f.count ≤ f.capacity
    pub tail_in : f.tail < f.capacity
    pub head_eq : f.head ≡ head_of f.capacity f.tail f.count

  -- Both pointers stay inside the buffer.
  pub head_in : {f : Fifo A} → IsValid f → f.head < length f.buffer
  head_in v = ground arith

  pub nomalloc_init-IsValid :
      (id : String) (buf : List A) (buf_size element_size : ℕ) {f : Fifo A}
      → 0 < buf_size / element_size
      → buf_size / element_size < 2 ^ 32
      → buf_size / element_size ≤ length buf
      → nomalloc_init id (some buf) buf_size element_size ≡ some f
      → IsValid f
  unfolding nomalloc_init
  nomalloc_init-IsValid id buf buf_size element_size p w s e = ground arith

  pub malloc_init-IsValid :
      (id : String) (buf : List A) (capacity element_size : ℕ) {f : Fifo A}
      → 0 < capacity
      → capacity < 2 ^ 32
      → capacity ≤ length buf
      → malloc_init id (some buf) capacity element_size ≡ some f
      → IsValid f
  unfolding malloc_init
  malloc_init-IsValid id buf capacity element_size p w s e = ground arith

  pub reset-IsValid : {f : Fifo A} → IsValid f → IsValid (reset f)
  unfolding reset
  reset-IsValid v = ground arith

  pub push-IsValid : {f : Fifo A} (x : A) → IsValid f → IsValid (push f x)
  unfolding push
  push-IsValid {f} x v = ground (arith, length-set f.buffer f.head x)

  pub pop-IsValid : {f : Fifo A} {r : A × Fifo A} → IsValid f → pop f ≡ some r → IsValid r.1
  unfolding pop
  pop-IsValid {f} v e = ground arith

  pub capacity-push : (f : Fifo A) (x : A) → (push f x).capacity ≡ f.capacity
  unfolding push
  capacity-push f x = ground arith

  pub capacity-pop : (f : Fifo A) {r : A × Fifo A} → pop f ≡ some r → r.1.capacity ≡ f.capacity
  unfolding pop
  capacity-pop f e = ground arith

  pub capacity-reset : (f : Fifo A) → (reset f).capacity ≡ f.capacity
  unfolding reset
  capacity-reset f = refl
