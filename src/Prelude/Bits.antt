-- ===== src/Prelude/Bits.antt =====
-- Laws of `&` and `|` at every width: the lowest digit, low masks, and fields that are joined.
use Prim.Native.Nat.{
  ℕ, zero, suc, ◌+◌, ◌*◌, ◌/◌, ◌%◌, ◌^◌, ◌≤◌, ◌<◌, min, max, bit_and, bit_or, digits,
  bit_and-bitwise, bit_or-bitwise,
}
use mathlib.Core.Path.{◌≡◌, refl, sym, ap, ap₂, ◌∙◌}
use mathlib.Core.Bool.{true}
use native.Mathlib.Nat.{pow-suc}
use native.Mathlib.Omega.{arith}
use diy_acura_bluetooth.Prelude.Tests.{◌==◌, ==→eq}
use diy_acura_bluetooth.Prelude.Words.{all_below, all_below_sound}

-- The digit by digit recursion gives one result on any fuel that is enough.
module _ (z : ℕ → ℕ) (f : ℕ → ℕ → ℕ) where
  digits-zero : (fuel b : ℕ) → digits z f fuel 0 b ≡ z b
  digits-zero zero b = refl
  digits-zero (suc fuel) b = refl

  digits_enough :
      (fuel more a b : ℕ) → a ≤ fuel → fuel ≤ more → digits z f more a b ≡ digits z f fuel a b
  digits_enough fuel more zero b p q = digits-zero more b ∙ sym (digits-zero fuel b)
  digits_enough (suc fuel) (suc more) (suc a) b p q =
      let half = digits_enough fuel more (suc a / 2) (b / 2) (omega arith) (omega arith) in
      ap (λ (t : ℕ). t * 2 + f (suc a % 2) (b % 2)) half
  digits_enough zero more (suc a) b p q = absurd (omega arith)
  digits_enough (suc fuel) zero (suc a) b p q = absurd (omega arith)

bit_or_step : (a b : ℕ) → bit_or a b ≡ bit_or (a / 2) (b / 2) * 2 + max (a % 2) (b % 2)
bit_or_step zero b = omega (arith, bit_or-bitwise 0 b, bit_or-bitwise 0 (b / 2))
bit_or_step (suc a) b =
    let halves = digits_enough (λ y. y) max (suc a / 2) a (suc a / 2) (b / 2) in
    omega (
      arith,
      halves (omega arith) (omega arith),
      bit_or-bitwise (suc a / 2) (b / 2),
      bit_or-bitwise (suc a) b,
    )

bit_and_step : (a b : ℕ) → bit_and a b ≡ bit_and (a / 2) (b / 2) * 2 + min (a % 2) (b % 2)
bit_and_step zero b = omega (arith, bit_and-bitwise 0 b, bit_and-bitwise 0 (b / 2))
bit_and_step (suc a) b =
    let halves = digits_enough (λ _. 0) min (suc a / 2) a (suc a / 2) (b / 2) in
    omega (
      arith,
      halves (omega arith) (omega arith),
      bit_and-bitwise (suc a / 2) (b / 2),
      bit_and-bitwise (suc a) b,
    )

no_digits_left : (fuel a : ℕ) → digits (λ _. 0) min fuel a 0 ≡ 0
no_digits_left zero a = refl
no_digits_left (suc fuel) zero = refl
no_digits_left (suc fuel) (suc a) = omega (arith, no_digits_left fuel (suc a / 2))

bit_and-nothing : (a : ℕ) → bit_and a 0 ≡ 0
bit_and-nothing a = bit_and-bitwise a 0 ∙ no_digits_left a a

-- `x & 0x0F` is the low nibble, whatever the width of `x`.
pub bit_and_fifteen : (a : ℕ) → bit_and a 15 ≡ a % 16
bit_and_fifteen a = omega (
  arith,
  bit_and_step a 15,
  bit_and_step (a / 2) 7,
  bit_and_step (a / 2 / 2) 3,
  bit_and_step (a / 2 / 2 / 2) 1,
  bit_and-nothing (a / 2 / 2 / 2 / 2),
)

double_field : (a k : ℕ) → a * 2 ^ suc k ≡ 2 * (a * 2 ^ k)
double_field a k = omega (arith, ap (λ (t : ℕ). a * t) (pow-suc 2 k))

-- `|` works on the bits from `k` up and on those below `k` apart.
pub bit_or_fields :
    (k a b x y : ℕ)
    → x < 2 ^ k
    → y < 2 ^ k
    → bit_or (a * 2 ^ k + x) (b * 2 ^ k + y) ≡ bit_or a b * 2 ^ k + bit_or x y
bit_or_fields zero a b zero zero p q =
    ap₂ bit_or {y = a} {v = b} (omega arith) (omega arith) ∙ omega arith
bit_or_fields zero a b (suc x) y p q = absurd (omega arith)
bit_or_fields zero a b zero (suc y) p q = absurd (omega arith)
bit_or_fields (suc k) a b x y p q = ground (
  arith,
  pow-suc 2 k,
  double_field a k,
  double_field b k,
  double_field (bit_or a b) k,
  bit_or_step (a * 2 ^ suc k + x) (b * 2 ^ suc k + y),
  bit_or_step x y,
  bit_or_fields k a b (x / 2) (y / 2),
)

-- The masks of the bit shifters, on a byte.
or_one_table : all_below 128 (λ x. bit_or (x * 2) 1 == x * 2 + 1) ≡ true
unfolding all_below
or_one_table = refl

pub bit_or_one : (x : ℕ) → x < 128 → bit_or (x * 2) 1 ≡ x * 2 + 1
bit_or_one x h = ==→eq _ _ (all_below_sound 128 _ x or_one_table h)

digits_kept : (fuel a : ℕ) → a ≤ fuel → digits (λ y. y) max fuel a 0 ≡ a
digits_kept fuel zero h = digits-zero (λ y. y) max fuel 0
digits_kept zero (suc a) h = absurd (omega arith)
digits_kept (suc fuel) (suc a) h = omega (arith, digits_kept fuel (suc a / 2) (omega arith))

pub bit_or-zero : (a : ℕ) → bit_or a 0 ≡ a
bit_or-zero a = bit_or-bitwise a 0 ∙ digits_kept a a (omega arith)

pub zero-bit_or : (a : ℕ) → bit_or 0 a ≡ a
zero-bit_or a = bit_or-bitwise 0 a

-- A field above `k` bits, joined to what is below.
pub bit_or_above : (k a y : ℕ) → y < 2 ^ k → bit_or (a * 2 ^ k) y ≡ a * 2 ^ k + y
bit_or_above k a y h =
    ap₂ bit_or {x = a * 2 ^ k} {u = y} (omega arith) (omega arith)
    ∙ bit_or_fields k a 0 0 y (omega arith) h
    ∙ omega (arith, zero-bit_or y, ap (λ (t : ℕ). t * 2 ^ k) (bit_or-zero a))
