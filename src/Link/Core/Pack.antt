-- ===== src/Link/Core/Pack.antt =====
-- Nibbles packed into a number come out of it again in order.
use native.Mathlib.Nat.{pow-suc, mul-add-div_right, div-eq_of_lt}
use diy_acura_bluetooth.Prelude.{
  ℕ, suc, ◌+◌, ◌-◌, ◌*◌, ◌/◌, ◌^◌, ◌<◌, ◌≡◌, refl, ap, ◌∙◌, List, [], ◌∷◌, arith, length, All,
}
use mathlib.Core.Path.{ap₂}
use diy_acura_bluetooth.Prelude.Bits.{bit_and_fifteen}
use diy_acura_bluetooth.Link.Types.{PackedNibbles}
use diy_acura_bluetooth.Link.Core.Send.{nibbles_from, unpacked}

-- `acc` and then the digits, in base 16.
abbrev pub value : ℕ → List ℕ → ℕ
value acc [] = acc
value acc (d ∷ ds) = value (acc * 16 + d) ds

sixteen_pow : (n : ℕ) → 2 ^ (4 * suc n) ≡ 16 * 2 ^ (4 * n)
sixteen_pow n =
    let e : 4 * suc n ≡ suc (suc (suc (suc (4 * n)))) = omega arith in
    rw e (
      omega (
        arith,
        pow-suc 2 (4 * n),
        pow-suc 2 (suc (4 * n)),
        pow-suc 2 (suc (suc (4 * n))),
        pow-suc 2 (suc (suc (suc (4 * n)))),
      ))

digit_lt : (d m r : ℕ) → d < 16 → r < m → d * m + r < 16 * m
digit_lt d m r h k = grind arith

-- What follows `acc` takes up its digits and no more.
value_split :
    (acc : ℕ) (ds : List ℕ)
    → All (λ d. d < 16) ds
    → (r : ℕ) × (value acc ds ≡ acc * 2 ^ (4 * length ds) + r) × (r < 2 ^ (4 * length ds))
value_split acc [] small = (0, omega arith, omega arith)
value_split acc (d ∷ ds) small =
    let (r, e, h) = value_split (acc * 16 + d) ds small.1 in
    let p = sixteen_pow (length ds) in
    (
      d * 2 ^ (4 * length ds) + r,
      omega (arith, e, ap (λ (t : ℕ). acc * t) p),
      omega (arith, p, digit_lt d (2 ^ (4 * length ds)) r small.0 h),
    )

div_split : (a m r : ℕ) → r < m → (a * m + r) / m ≡ a
div_split a m r h = mul-add-div_right (omega arith) a r ∙ omega (arith, div-eq_of_lt h)

-- The nibbles of packed digits are the digits.
nibbles_from-value :
    (acc idx : ℕ) (ds : List ℕ) (p : PackedNibbles)
    → All (λ d. d < 16) ds
    → p.pack_nibbles ≡ value acc ds
    → p.num_nibbles ≡ idx + length ds
    → nibbles_from (length ds) idx p ≡ ds
nibbles_from-value acc idx [] p small e n = refl
nibbles_from-value acc idx (d ∷ ds) p small e n =
    let (r, split, h) = value_split (acc * 16 + d) ds small.1 in
    let left : p.num_nibbles - idx - 1 ≡ length ds = omega arith in
    let top : p.pack_nibbles / 2 ^ (4 * length ds) ≡ acc * 16 + d =
      rw (e, split) (div_split (acc * 16 + d) (2 ^ (4 * length ds)) r h) in
    ap₂ ◌∷◌ (rw (left, top) (bit_and_fifteen (acc * 16 + d) ∙ omega (arith, small.0)))
      (nibbles_from-value (acc * 16 + d) (suc idx) ds p small.1 e (omega arith))

pub unpacked-value :
    (ds : List ℕ) (p : PackedNibbles)
    → All (λ d. d < 16) ds
    → p.pack_nibbles ≡ value 0 ds
    → p.num_nibbles ≡ length ds
    → unpacked p ≡ ds
unpacked-value ds p small e n =
    ap (λ k. nibbles_from k 0 p) n ∙ nibbles_from-value 0 0 ds p small e (omega arith)
