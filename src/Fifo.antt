-- ===== src/Fifo.antt =====
-- common/fifo.c and common/fifo.h: the ring buffer under every queue of the program.
-- The buffer is the list of its items. A pointer into it (`head`, `tail`, `bufferEnd`) is the number
-- of the item at which it points, since the C code moves pointers by whole items only. `none` is a
-- failed assertion, at which the target halts. What a dropped push prints is left out.
-- The functions are sealed: a client has the theorems of the modules below.
pub mod Inv
pub mod Refine
pub mod Many
pub mod Trace
use Prim.Native.String.{String}
use diy_acura_bluetooth.Prelude.{
  ℕ, ◌+◌, ◌-◌, ◌/◌, List, [], Option, none, some, Bool, set, get_elem?, leb, ◌==◌, ◌>>=◌,
  if◌then◌else◌,
}
use diy_acura_bluetooth.Prelude.Words.{u32}

-- `fifo`. A `size_t` of the target has 32 bits.
pub record Fifo {ℓ} (A : Type ℓ) : Type ℓ where
  pub id : String
  pub buffer : List A
  pub buffer_end : ℕ
  pub capacity : ℕ
  pub count : ℕ
  pub element_size : ℕ
  pub head : ℕ
  pub tail : ℕ

module _ {ℓ} {A : Type ℓ} where
  -- `memory` is what `malloc` returns: `none` is NULL.
  pub malloc_init : String → Option (List A) → ℕ → ℕ → Option (Fifo A)
  malloc_init id memory capacity element_size = do
    buffer ← memory
    some (record {
      id = id;
      buffer = buffer;
      buffer_end = capacity;
      capacity = capacity;
      count = 0;
      element_size = element_size;
      head = 0;
      tail = 0;
    })

  -- The memory is given back: no item can be read any more.
  pub malloc_free : Fifo A → Fifo A
  malloc_free f = record f { buffer = [] }

  -- `buf` is what the caller's pointer refers to, and `none` is NULL. `buf_size` is in bytes.
  unfoldable pub nomalloc_init : String → Option (List A) → ℕ → ℕ → Option (Fifo A)
  nomalloc_init id buf buf_size element_size = do
    buffer ← buf
    some (record {
      id = id;
      buffer = buffer;
      buffer_end = buf_size / element_size;
      capacity = buf_size / element_size;
      count = 0;
      element_size = element_size;
      head = 0;
      tail = 0;
    })

  pub reset : Fifo A → Fifo A
  reset f = record f { count = 0; head = 0; tail = 0 }

  -- A pointer moved on by one item, and back to the start at `bufferEnd`.
  abbrev pub advance : Fifo A → ℕ → ℕ
  advance f p = if p + 1 == f.buffer_end then 0 else p + 1

  unfoldable pub push : Fifo A → A → Fifo A
  push f item = if leb f.capacity f.count then f else record f {
    buffer = set f.buffer f.head item;
    head = advance f f.head;
    count = u32 (f.count + 1);
  }

  -- `assert(cb->count > 0)`; the subtraction stands behind it. The item is what goes through
  -- `item`; a read outside the buffer is `none` too, and `Refine.pop_refines` rules it out.
  pub pop : Fifo A → Option (A × Fifo A)
  pop f =
      if f.count == 0
      then none
      else get_elem? f.buffer f.tail >>= λ item.
          some (item, record f { tail = advance f f.tail; count = f.count - 1 })

  unfoldable pub is_full : Fifo A → Bool
  is_full f = f.count == f.capacity

  unfoldable pub is_empty : Fifo A → Bool
  is_empty f = f.count == 0
