-- ===== src/Base/Go.antt =====
-- How a call of a Go function ends, and calls that read and change a state.
use mathlib.Core.Path.{◌≡◌, refl}
use mathlib.Core.Logic.{◌⊎◌, inl, inr}
use hermet.Base.Errors.{Error}

-- A call returns a value, returns an error, panics, or is still waiting when the run ends.
pub data Outcome {ℓ} (A : Type ℓ) : Type ℓ where
  ok : A → Outcome A
  err : Error → Outcome A
  panic : Outcome A
  pending : Outcome A

abbrev pub then_do {ℓ κ} : {A : Type ℓ} {B : Type κ} → Outcome A → (A → Outcome B) → Outcome B
then_do (ok a) f = f a
then_do (err e) f = err e
then_do panic f = panic
then_do pending f = pending

pub then_do-eq-ok {ℓ κ} :
    {A : Type ℓ} {B : Type κ} (r : Outcome A) (f : A → Outcome B) {b : B}
    → then_do r f ≡ ok b
    → (a : A) × (r ≡ ok a) × (f a ≡ ok b)
then_do-eq-ok (ok a) f h = (a, refl, h)
then_do-eq-ok (err e) f h = cc
then_do-eq-ok panic f h = cc
then_do-eq-ok pending f h = cc

-- What a call changed stays changed beside an error too.
abbrev pub Exec {ℓ} : Type 0 → Type ℓ → Type ℓ
Exec S A = S → Outcome A × S

module _ {S : Type 0} where
  module _ {ℓ} {A : Type ℓ} where
    abbrev pub return : A → Exec S A
    return a s = (ok a, s)

    abbrev pub fail : Error → Exec S A
    fail e s = (err e, s)

    abbrev pub lift : Outcome A → Exec S A
    lift r s = (r, s)

  module _ {ℓ κ} {A : Type ℓ} {B : Type κ} where
    -- `v, err := m(); if err != nil { on_err } ; on_ok`
    abbrev pub resume : Outcome A → (Error → Exec S B) → (A → Exec S B) → Exec S B
    resume (ok a) on_err on_ok s = on_ok a s
    resume (err e) on_err on_ok s = on_err e s
    resume panic on_err on_ok s = (panic, s)
    resume pending on_err on_ok s = (pending, s)

    abbrev pub check : Exec S A → (Error → Exec S B) → (A → Exec S B) → Exec S B
    check m on_err on_ok s = resume (m s).0 on_err on_ok (m s).1

    infixl 5 ◌>>=◌
    abbrev pub ◌>>=◌ : Exec S A → (A → Exec S B) → Exec S B
    m >>= f = check m fail f

module _ {ℓ κ} {S : Type 0} {A : Type ℓ} {B : Type κ} where
  -- A call that returned a value went on from the value and the state of its first part.
  pub resume-eq-ok :
      (r : Outcome A) (f : A → Exec S B) (s : S) {b : B} {s'' : S}
      → resume r fail f s ≡ (ok b, s'')
      → (a : A) × (r ≡ ok a) × (f a s ≡ (ok b, s''))
  resume-eq-ok (ok a) f s h = (a, refl, h)
  resume-eq-ok (err e) f s h = cc
  resume-eq-ok panic f s h = cc
  resume-eq-ok pending f s h = cc

  pub >>=-eq-ok :
      (m : Exec S A) (f : A → Exec S B) (s : S) {b : B} {s'' : S}
      → (m >>= f) s ≡ (ok b, s'')
      → (a : A) × (s' : S) × (m s ≡ (ok a, s')) × (f a s' ≡ (ok b, s''))
  >>=-eq-ok m f s h =
      let (a, e, k) = resume-eq-ok (m s).0 f (m s).1 h in (a, (m s).1, λ i. (e i, (m s).1), k)

module _ {ℓ κ} {S : Type 0} {A : Type ℓ} {B : Type κ} where
  -- A checked call that returned a value went on from its first part's value or from its error.
  pub resume-cases :
      (r : Outcome A) (f : Error → Exec S B) (g : A → Exec S B) (s : S) {b : B} {s'' : S}
      → resume r f g s ≡ (ok b, s'')
      → ((a : A) × (r ≡ ok a) × (g a s ≡ (ok b, s'')))
        ⊎ ((e : Error) × (r ≡ err e) × (f e s ≡ (ok b, s'')))
  resume-cases (ok a) f g s h = inl (a, refl, h)
  resume-cases (err e) f g s h = inr (e, refl, h)
  resume-cases panic f g s h = cc
  resume-cases pending f g s h = cc

  pub check-cases :
      (m : Exec S A) (f : Error → Exec S B) (g : A → Exec S B) (s : S) {b : B} {s'' : S}
      → check m f g s ≡ (ok b, s'')
      → ((a : A) × (s' : S) × (m s ≡ (ok a, s')) × (g a s' ≡ (ok b, s'')))
        ⊎ ((e : Error) × (s' : S) × (m s ≡ (err e, s')) × (f e s' ≡ (ok b, s'')))
  check-cases m f g s h = elim (resume-cases (m s).0 f g (m s).1 h) [
    | inl (a, e, k) ↦ inl (a, (m s).1, λ i. (e i, (m s).1), k)
    | inr (e, k, l) ↦ inr (e, (m s).1, λ i. (k i, (m s).1), l)
  ]

  -- The same where the way on from an error never returns a value.
  pub check-eq-ok :
      (m : Exec S A) (f : Error → Exec S B) (g : A → Exec S B) (s : S) {b : B} {s'' : S}
      → ((e : Error) (s' : S) → f e s' ≡ (ok b, s'') → ⊥)
      → check m f g s ≡ (ok b, s'')
      → (a : A) × (s' : S) × (m s ≡ (ok a, s')) × (g a s' ≡ (ok b, s''))
  check-eq-ok m f g s never h = elim (check-cases m f g s h) [
    | inl x ↦ x
    | inr (e, s', k, l) ↦ absurd (never e s' l)
  ]

module _ {ℓ κ} {S : Type 0} {A : Type ℓ} {B : Type κ} where
  -- A call whose last step computes its value from that of `m`.
  resume-last :
      (r : Outcome A) (k : A → B) (s : S) {b : B} {s'' : S}
      → resume r fail (λ a. return (k a)) s ≡ (ok b, s'')
      → (a : A) × (r ≡ ok a) × (s ≡ s'') × (k a ≡ b)
  resume-last (ok a) k s h = (a, refl, cc, cc)
  resume-last (err e) k s h = cc
  resume-last panic k s h = cc
  resume-last pending k s h = cc

  pub last-eq-ok :
      (m : Exec S A) (k : A → B) (s : S) {b : B} {s'' : S}
      → (m >>= (λ a. return (k a))) s ≡ (ok b, s'')
      → (a : A) × (m s ≡ (ok a, s'')) × (k a ≡ b)
  last-eq-ok m k s h = let (a, e, j, l) = resume-last (m s).0 k (m s).1 h in (a, λ i. (e i, j i), l)

-- A call that neither fails nor panics: it returns, or it is still waiting.
abbrev pub Calm {ℓ} : {A : Type ℓ} → Outcome A → Type 0
Calm (ok a) = Unit
Calm (err e) = ⊥
Calm panic = ⊥
Calm pending = Unit

module _ {ℓ κ} {S : Type 0} {A : Type ℓ} {B : Type κ} where
  resume-Calm :
      (r : Outcome A) (f : A → Exec S B) (s : S)
      → Calm r
      → ((a : A) → Calm (f a s).0)
      → Calm (resume r fail f s).0
  resume-Calm (ok a) f s c k = k a
  resume-Calm (err e) f s c k = absurd c
  resume-Calm panic f s c k = absurd c
  resume-Calm pending f s c k = tt

  pub Calm-bind :
      (m : Exec S A) (f : A → Exec S B) (s : S)
      → Calm (m s).0
      → ((a : A) (s' : S) → Calm (f a s').0)
      → Calm ((m >>= f) s).0
  Calm-bind m f s c k = resume-Calm (m s).0 f (m s).1 c (λ a. k a (m s).1)
