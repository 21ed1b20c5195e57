-- ===== src/Phy/Loop/Emit.antt =====
-- Runs of the transmitter put together.
use diy_acura_bluetooth.Prelude.{
  ℕ, ◌≡◌, refl, ap, ◌∙◌, Bool, List, [], ◌∷◌, ◌++◌, Option, none, some, ◌>>=◌,
}
use diy_acura_bluetooth.Phy.Tx
use diy_acura_bluetooth.Phy.Tx.{Tx}
use diy_acura_bluetooth.Phy.Tx.Bit.{Drive, emit}

abbrev pub Sent : Type 0
Sent = Tx × List Drive

abbrev with_drive : Drive → Option Sent → Option Sent
with_drive o m = m >>= λ (tx2, out). some (tx2, o ∷ out)

abbrev pub followed : List Drive → Option (Tx × List Drive) → Option (Tx × List Drive)
followed out1 m = m >>= λ (tx2, out2). some (tx2, out1 ++ out2)

followed-cons :
    (o : Drive) (out1 : List Drive) (m : Option (Tx × List Drive))
    → (followed out1 m >>= λ (tx2, out). some (tx2, o ∷ out)) ≡ followed (o ∷ out1) m
followed-cons o out1 none = refl
followed-cons o out1 (some r) = refl

followed-nil : (m : Option (Tx × List Drive)) → m ≡ followed [] m
followed-nil none = refl
followed-nil (some r) = refl

-- `ys` goes on from the level at which `xs` ended.
unfoldable pub GoesOn : List ℕ → List ℕ → Tx → Bool → Tx → List Drive → Type 0
GoesOn xs ys tx d tx1 out1 = (d1 : Bool) × (emit tx d (xs ++ ys) ≡ followed out1 (emit tx1 d1 ys))

emit-append_cons :
    (us : ℕ) (xs ys : List ℕ) (tx : Tx) (d : Bool) (tx1 : Tx) (out1 : List Drive) (r : Tx × Bool)
    (m : Option (Tx × List Drive))
    → ((tx2 : Tx) (out : List Drive) → m ≡ some (tx2, out) → GoesOn xs ys r.0 r.1 tx2 out)
    → Tx.update tx us d ≡ some r
    → with_drive (us, r.1) m ≡ some (tx1, out1)
    → GoesOn (us ∷ xs) ys tx d tx1 out1
unfolding emit GoesOn
emit-append_cons us xs ys tx d tx1 out1 r none ih p h = cc
emit-append_cons us xs ys tx d tx1 out1 r (some (tx2, out)) ih p h =
    let (d1, rest) = ih tx2 out refl in
    let here : Sent = (tx2, (us, r.1) ∷ out) in
    let same : here ≡ (tx1, out1) = cc in
    (
      d1,
      rw p (
          ap (with_drive (us, r.1)) rest
          ∙ followed-cons (us, r.1) out (emit tx2 d1 ys)
          ∙ ap (λ r. followed r.1 (emit r.0 d1 ys)) same),
    )

emit-append_step :
    (us : ℕ) (xs ys : List ℕ) (tx : Tx) (d : Bool) (tx1 : Tx) (out1 : List Drive)
    (r : Option (Tx × Bool))
    → ((t : Tx) (b : Bool) (tx2 : Tx) (out : List Drive)
        → emit t b xs ≡ some (tx2, out)
        → GoesOn xs ys t b tx2 out)
    → Tx.update tx us d ≡ r
    → (r >>= λ (t, b). with_drive (us, b) (emit t b xs)) ≡ some (tx1, out1)
    → GoesOn (us ∷ xs) ys tx d tx1 out1
emit-append_step us xs ys tx d tx1 out1 none ih p h = cc
emit-append_step us xs ys tx d tx1 out1 (some r) ih p h =
    emit-append_cons us xs ys tx d tx1 out1 r (emit r.0 r.1 xs) (ih r.0 r.1) p h

pub emit-append :
    (xs ys : List ℕ) (tx : Tx) (d : Bool) (tx1 : Tx) (out1 : List Drive)
    → emit tx d xs ≡ some (tx1, out1)
    → GoesOn xs ys tx d tx1 out1
unfolding emit GoesOn
emit-append [] ys tx d tx1 out1 e =
    let here : Sent = (tx, []) in
    let same : here ≡ (tx1, out1) = cc in
    (d, followed-nil (emit tx d ys) ∙ ap (λ r. followed r.1 (emit r.0 d ys)) same)
emit-append (us ∷ xs) ys tx d tx1 out1 e =
    emit-append_step us xs ys tx d tx1 out1 (Tx.update tx us d) (emit-append xs ys) refl e
