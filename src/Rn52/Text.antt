-- ===== src/Rn52/Text.antt =====
-- What the functions of the C library do with the two buffers of rn52.c.
use diy_acura_bluetooth.Prelude.{
  true_not_false, ℕ, zero, suc, ◌+◌, ◌≤◌, ◌<◌, ◌≡◌, refl, false, List, [], ◌∷◌, ◌++◌, Option, none,
  some, arith, length, length-append, drop, All, lt→ltb, Bool-cases, inl, inr, ◌==◌, ==→eq, eq_test,
  ◌>>=◌, Returns, Returns-bind,
}
use diy_acura_bluetooth.Rn52.State.{tx_cmd_size}
use diy_acura_bluetooth.Rn52.Chars.{c_string, copied, strcpy, strcmp}

-- A buffer that holds a string: a zero ends it.
abbrev pub IsString : List ℕ → Type 0
IsString chars = Returns (λ _. Unit) (c_string chars)

length-drop : (n : ℕ) (xs : List ℕ) → n ≤ length xs → n + length (drop n xs) ≡ length xs
length-drop zero xs h = omega arith
length-drop (suc n) [] h = absurd (omega arith)
length-drop (suc n) (x ∷ xs) h = omega (arith, length-drop n xs (omega arith))

copied-IsString :
    (buffer text : List ℕ) → All (λ c. (c == 0) ≡ false) text → IsString (copied buffer text)
unfolding c_string
copied-IsString buffer [] h = tt
copied-IsString buffer (c ∷ text) h =
    let rest = text ++ 0 ∷ drop (suc (suc (length text))) buffer in
    rw (h.0) (
      Returns-bind (λ _. Unit) (λ _. Unit) (c_string rest) (λ cs. some (c ∷ cs)) (λ _ _. tt)
        (ended text (drop (suc (suc (length text))) buffer) h.1))
  where
    ended : (text rest : List ℕ) → All (λ c. (c == 0) ≡ false) text → IsString (text ++ 0 ∷ rest)
    ended [] rest h = tt
    ended (c ∷ text) rest h = rw (h.0) (
        Returns-bind (λ _. Unit) (λ _. Unit) (c_string (text ++ 0 ∷ rest)) (λ cs. some (c ∷ cs))
          (λ _ _. tt) (ended text rest h.1))

-- What `txCmd` holds: a string, in its 16 characters.
abbrev pub IsCommand : List ℕ → Type 0
IsCommand tx_cmd = IsString tx_cmd × (length tx_cmd ≡ tx_cmd_size)

-- A text that is shorter than the buffer is copied inside it.
pub strcpy-IsCommand :
    (buffer text : List ℕ)
    → length buffer ≡ tx_cmd_size
    → length text < tx_cmd_size
    → All (λ c. (c == 0) ≡ false) text
    → Returns IsCommand (strcpy buffer text)
unfolding strcpy
strcpy-IsCommand buffer text size short plain =
    let rest = drop (suc (length text)) buffer in
    let whole = length-append text (0 ∷ rest) in
    let left = length-drop (suc (length text)) buffer (omega (arith, size)) in
    rw (lt→ltb (length text) (length buffer) (omega (arith, size)))
      (copied-IsString buffer text plain, omega (arith, whole, left, size))

no_head : (c : ℕ) (m : Option (List ℕ)) → (m >>= λ text. some (c ∷ text)) ≡ some [] → ⊥
no_head c none e = cc
no_head c (some text) e = cc

same_head :
    (c t : ℕ) (text : List ℕ) (m : Option (List ℕ))
    → (m >>= λ rest. some (c ∷ rest)) ≡ some (t ∷ text)
    → (c ≡ t) × (m ≡ some text)
same_head c t text none e = cc
same_head c t text (some rest) e = (cc, cc)

-- `strcmp` gives 0 exactly where the buffer holds the text, which has no zero in it.
pub strcmp-same : (text buffer : List ℕ) → c_string buffer ≡ some text → strcmp buffer text ≡ false
unfolding strcmp c_string
strcmp-same text [] e = cc
strcmp-same [] (c ∷ buffer) e = elim (Bool-cases (c == 0)) [
  | inl zero_here ↦ rw zero_here refl
  | inr more ↦ absurd (no_head c (c_string buffer) (rw more at e))
]
strcmp-same (t ∷ text) (c ∷ buffer) e = elim (Bool-cases (c == 0)) [
  | inl zero_here ↦ absurd (no_text t text (rw zero_here at e))
  | inr more ↦
      let (same, rest) = same_head c t text (c_string buffer) (rw more at e) in
      rw (same, eq_test t) (strcmp-same text buffer rest)
]
  where
    no_text : (t : ℕ) (text : List ℕ) → some [] ≡ some (t ∷ text) → ⊥
    no_text t text e = cc

pub strcmp-other :
    (text buffer : List ℕ)
    → All (λ c. (c == 0) ≡ false) text
    → strcmp buffer text ≡ false
    → c_string buffer ≡ some text
unfolding strcmp c_string
strcmp-other text [] plain e = cc
strcmp-other [] (c ∷ buffer) plain e = elim (Bool-cases (c == 0)) [
  | inl zero_here ↦ rw zero_here refl
  | inr more ↦ absurd (ground (arith, more, e))
]
strcmp-other (t ∷ text) (c ∷ buffer) plain e = elim (Bool-cases (c == t)) [
  | inl same ↦
      let c_is = ==→eq c t same in
      let rest = strcmp-other text buffer plain.1 (rw same at e) in rw (c_is, plain.0, rest) refl
  | inr differs ↦ absurd (true_not_false (rw differs at e))
]
