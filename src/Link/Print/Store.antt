-- ===== src/Link/Print/Store.antt =====
-- Characters stored in a buffer: one after the other, and where they fit.
use diy_acura_bluetooth.Prelude.{
  ℕ, zero, suc, ◌+◌, ◌-◌, ◌≤◌, ◌≡◌, refl, ap, ◌∙◌, List, [], ◌∷◌, ◌++◌, some, arith, length,
  length-append, length-set, set,
}
use diy_acura_bluetooth.Link.Print.Buffer.{Out, put, write, take, add_char, add_str}

pub length-put : (text memory : List ℕ) (pos : ℕ) → length (put memory pos text) ≡ length memory
unfolding put
length-put [] memory pos = refl
length-put (c ∷ text) memory pos =
    length-put text (set memory pos c) (suc pos) ∙ length-set memory pos c

-- A position that is only equal, not the same term.
pub put_at :
    (text memory : List ℕ) (pos at : ℕ) → pos ≡ at → put memory pos text ≡ put memory at text
put_at text memory pos at e = ap (λ p. put memory p text) e

pub put-append :
    (s text memory : List ℕ) (pos : ℕ)
    → put memory pos (s ++ text) ≡ put (put memory pos s) (pos + length s) text
unfolding put
put-append [] text memory pos = put_at text memory pos (pos + 0) (omega arith)
put-append (c ∷ s) text memory pos =
    put-append s text (set memory pos c) (suc pos)
    ∙ put_at text _ (suc pos + length s) (pos + suc (length s)) (omega arith)

set-set : (memory : List ℕ) (pos v : ℕ) → set (set memory pos v) pos v ≡ set memory pos v
set-set [] pos v = refl
set-set (x ∷ memory) zero v = refl
set-set (x ∷ memory) (suc pos) v = ap (λ l. x ∷ l) (set-set memory pos v)

-- The zero that ends a text is stored once more with no effect.
pub put_zero_again :
    (text memory : List ℕ) (pos : ℕ)
    → put (put memory pos (text ++ 0 ∷ [])) (pos + length text) (0 ∷ [])
      ≡ put memory pos (text ++ 0 ∷ [])
put_zero_again text memory pos =
    rw (put-append text (0 ∷ []) memory pos) (unfold put in set-set _ _ _)

pub take_all : (n : ℕ) (text : List ℕ) → length text ≤ n → take n text ≡ text
take_all zero [] h = refl
take_all zero (c ∷ text) h = absurd (omega arith)
take_all (suc n) [] h = refl
take_all (suc n) (c ∷ text) h = ap (λ l. c ∷ l) (take_all n text (omega arith))

pub write_fits :
    (memory text : List ℕ) (pos : ℕ)
    → pos + length text ≤ length memory
    → write memory pos text ≡ some (put memory pos text)
unfolding write
write_fits memory text pos h = ground arith

-- What a text that fits leaves: it is stored, and pointer and room have moved by its length.
abbrev pub after : Out → List ℕ → Out
after out text = record {
  memory = put out.memory out.pos text;
  pos = out.pos + length text;
  room = out.room - length text;
}

abbrev pub Fits : Out → List ℕ → Type 0
Fits out text = (length text ≤ out.room) × (out.pos + length text ≤ length out.memory)

pub add_char-Fits :
    (c : ℕ) (out : Out) → Fits out (c ∷ []) → add_char c out ≡ some (after out (c ∷ []))
unfolding add_char
add_char-Fits c out h = ground (arith, write_fits out.memory (c ∷ []) out.pos)

pub after-after : (out : Out) (s text : List ℕ) → after (after out s) text ≡ after out (s ++ text)
after-after out s text = ground (arith, put-append s text out.memory out.pos, length-append s text)

Fits-rest :
    (c : ℕ) (text : List ℕ) (out : Out) → Fits out (c ∷ text) → Fits (after out (c ∷ [])) text
Fits-rest c text out h = omega (arith, h.0, h.1, length-put (c ∷ []) out.memory out.pos)

pub add_str-Fits :
    (text : List ℕ) (out : Out) → Fits out text → add_str text out ≡ some (after out text)
unfolding add_str
add_str-Fits [] out h = unfold put in ground arith
add_str-Fits (c ∷ text) out h = rw (add_char-Fits c out (omega arith)) (
    add_str-Fits text (after out (c ∷ [])) (Fits-rest c text out h)
    ∙ ap some (after-after out (c ∷ []) text))
