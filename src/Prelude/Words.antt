-- ===== src/Prelude/Words.antt =====
-- C words of the 32-bit target as native numbers.
use Prim.Native.Nat.{ℕ, zero, suc, ◌+◌, ◌-◌, ◌%◌, ◌^◌, ◌<◌, bit_and}
use mathlib.Core.Path.{◌≡◌}
use mathlib.Core.Bool.{Bool, true, not, ◌&&◌}
use native.Mathlib.Omega.{arith}
use diy_acura_bluetooth.Prelude.Tests.{◌==◌}

-- A value stored in a `uint8_t`, a `uint16_t`, an `unsigned long`, a `uint64_t`.
abbrev pub u8 : ℕ → ℕ
u8 n = n % 2 ^ 8

abbrev pub u16 : ℕ → ℕ
u16 n = n % 2 ^ 16

abbrev pub u32 : ℕ → ℕ
u32 n = n % 2 ^ 32

abbrev pub u64 : ℕ → ℕ
u64 n = n % 2 ^ 64

-- `now - then` of two time stamps of type `unsigned long`.
abbrev pub elapsed : ℕ → ℕ → ℕ
elapsed now stamp = u32 (now + 2 ^ 32 - stamp)

-- `(x & mask) != 0`
abbrev pub has_bit : ℕ → ℕ → Bool
has_bit x mask = not (bit_and x mask == 0)

-- A property of every number below a bound, by evaluation.
unfoldable pub all_below : ℕ → (ℕ → Bool) → Bool
all_below zero test = true
all_below (suc last) test = all_below last test && test last

pub all_below_sound :
    (bound : ℕ) (test : ℕ → Bool) (k : ℕ) → all_below bound test ≡ true → k < bound → test k ≡ true
unfolding all_below
all_below_sound (suc last) test k passed below = ground (arith, all_below_sound last test k)
all_below_sound zero test k passed below = absurd (omega arith)
