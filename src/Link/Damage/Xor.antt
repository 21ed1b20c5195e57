-- ===== src/Link/Damage/Xor.antt =====
-- The exclusive or of nibbles, by evaluation over all of them, and what it makes the checksum find.
use diy_acura_bluetooth.Prelude.{
  ℕ, ◌<◌, ◌≡◌, ◌≢◌, refl, true, ◌&&◌, List, [], ◌∷◌, ◌++◌, arith, bit_xor, ltb, ◌==◌, All,
  All-append, sym, ap, ◌∙◌,
}
use diy_acura_bluetooth.Prelude.Words.{all_below, all_below_sound}
use diy_acura_bluetooth.Link.Parse.Checksum.{xor_all, checksum}

abbrev IsNibble : ℕ → Type 0
IsNibble n = n < 16

small_table : all_below 16 (λ x. all_below 16 (λ y. ltb (bit_xor x y) 16)) ≡ true
unfolding all_below
small_table = refl

bit_xor-lt : (x y : ℕ) → x < 16 → y < 16 → bit_xor x y < 16
bit_xor-lt x y hx hy = ground (
  arith,
  all_below_sound 16 (λ y. ltb (bit_xor x y) 16) y
      (all_below_sound 16 (λ x. all_below 16 (λ y. ltb (bit_xor x y) 16)) x small_table hx) hy,
)

-- Applying a nibble twice undoes it, from either side.
undo_table :
    all_below 16
      (λ x. all_below 16 (λ y. (bit_xor x (bit_xor x y) == y) && (bit_xor (bit_xor x y) y == x)))
    ≡ true
unfolding all_below
undo_table = refl

bit_xor_undo :
    (x y : ℕ) → x < 16 → y < 16 → (bit_xor x (bit_xor x y) ≡ y) × (bit_xor (bit_xor x y) y ≡ x)
bit_xor_undo x y hx hy = ground (
  arith,
  all_below_sound 16 (λ y. (bit_xor x (bit_xor x y) == y) && (bit_xor (bit_xor x y) y == x)) y
      (all_below_sound 16
        (λ x. all_below 16 (λ y. (bit_xor x (bit_xor x y) == y) && (bit_xor (bit_xor x y) y == x)))
        x undo_table hx)
      hy,
)

xor_all-lt : (acc : ℕ) (ns : List ℕ) → acc < 16 → All IsNibble ns → xor_all acc ns < 16
xor_all-lt acc [] h hs = h
xor_all-lt acc (n ∷ ns) h hs = xor_all-lt (bit_xor acc n) ns (bit_xor-lt acc n h hs.0) hs.1

xor_all-ne :
    (x y : ℕ) (ns : List ℕ)
    → x < 16
    → y < 16
    → All IsNibble ns
    → x ≢ y
    → xor_all x ns ≢ xor_all y ns
xor_all-ne x y [] hx hy hs ne = ne
xor_all-ne x y (n ∷ ns) hx hy hs ne =
    xor_all-ne (bit_xor x n) (bit_xor y n) ns (bit_xor-lt x n hx hs.0) (bit_xor-lt y n hy hs.0) hs.1
      (λ e.
        ne (
          sym (bit_xor_undo x n hx hs.0).1
          ∙ ap (λ t. bit_xor t n) e
          ∙ (bit_xor_undo y n hy hs.0).1))

xor_all-changed :
    (acc : ℕ) (pre : List ℕ) (a b : ℕ) (post : List ℕ)
    → acc < 16
    → All IsNibble pre
    → a < 16
    → b < 16
    → All IsNibble post
    → a ≢ b
    → xor_all acc (pre ++ a ∷ post) ≢ xor_all acc (pre ++ b ∷ post)
xor_all-changed acc [] a b post h hpre ha hb hpost ne =
    xor_all-ne (bit_xor acc a) (bit_xor acc b) post (bit_xor-lt acc a h ha) (bit_xor-lt acc b h hb)
      hpost
      (λ e. ne (sym (bit_xor_undo acc a h ha).0 ∙ ap (bit_xor acc) e ∙ (bit_xor_undo acc b h hb).0))
xor_all-changed acc (n ∷ pre) a b post h hpre ha hb hpost ne =
    xor_all-changed (bit_xor acc n) pre a b post (bit_xor-lt acc n h hpre.0) hpre.1 ha hb hpost ne

-- One nibble more or less in the exclusive or changes the checksum.
pub checksum-ne :
    (pre : List ℕ) (a b : ℕ) (post : List ℕ)
    → All IsNibble pre
    → a < 16
    → b < 16
    → All IsNibble post
    → a ≢ b
    → checksum (pre ++ a ∷ post) ≢ checksum (pre ++ b ∷ post)
unfolding checksum
checksum-ne pre a b post hpre ha hb hpost ne =
    let differ = xor_all-changed 0 pre a b post (omega arith) hpre ha hb hpost ne in
    let low =
      xor_all-lt 0 (pre ++ a ∷ post) (omega arith)
        (All-append IsNibble pre (a ∷ post) hpre (ha, hpost)) in
    let low' =
      xor_all-lt 0 (pre ++ b ∷ post) (omega arith)
        (All-append IsNibble pre (b ∷ post) hpre (hb, hpost)) in
    omega (arith, differ, low, low')
