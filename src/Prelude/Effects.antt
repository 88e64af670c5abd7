-- ===== src/Prelude/Effects.antt =====
-- Results that may be an exception, and methods that mutate an object and may raise: what was
-- written before a raise stays written, so the state comes back beside the error too.
use mathlib.Core.Path.{◌≡◌, refl, sym, ap}
use mathlib.Core.Logic.{◌⊎◌, inl, inr}
use mathlib.Core.Bool.{Bool, true, false}

pub data Result {ℓ κ} (E : Type ℓ) (A : Type κ) : Type (ℓ ⊔ κ) where
  ok : A → Result E A
  err : E → Result E A

abbrev pub Exec {ℓ κ μ} : Type ℓ → Type κ → Type μ → Type (ℓ ⊔ κ ⊔ μ)
Exec E S A = S → Result E A × S

module _ {ℓ κ μ} {E : Type ℓ} {S : Type κ} {A : Type μ} where
  abbrev pub pure : A → Exec E S A
  pure a s = (ok a, s)

  abbrev pub raise : E → Exec E S A
  raise x s = (err x, s)

  abbrev pub gets : (S → A) → Exec E S A
  gets f s = (ok (f s), s)

  abbrev pub lift : Result E A → Exec E S A
  lift r s = (r, s)

  -- What is left to do after a step that has returned `r`.
  abbrev pub continue {ν} : {B : Type ν} → Result E A → (A → Exec E S B) → Exec E S B
  continue (ok a) f s = f a s
  continue (err x) f s = (err x, s)

module _ {ℓ κ} {E : Type ℓ} {S : Type κ} where
  abbrev pub modify : (S → S) → Exec E S (Unit {0})
  modify f s = (ok tt, f s)

  abbrev pub raise_if : Bool → E → Exec E S (Unit {0})
  raise_if true x s = (err x, s)
  raise_if false x s = (ok tt, s)

infixl 5 ◌>>=◌ ◌>>◌
abbrev pub ◌>>=◌ {ℓ κ μ ν} :
    {E : Type ℓ} {S : Type κ} {A : Type μ} {B : Type ν} → Exec E S A → (A → Exec E S B) → Exec E S B
◌>>=◌ m f s = let (r, s') = m s in continue r f s'

abbrev pub ◌>>◌ {ℓ κ μ} :
    {E : Type ℓ} {S : Type κ} {A : Type μ} → Exec E S (Unit {0}) → Exec E S A → Exec E S A
m >> k = m >>= λ _. k

pub Result-cases {ℓ κ} :
    {E : Type ℓ} {A : Type κ} (r : Result E A) → ((a : A) × (r ≡ ok a)) ⊎ ((x : E) × (r ≡ err x))
Result-cases (ok a) = inl (a, refl)
Result-cases (err x) = inr (x, refl)

module _ {ℓ κ μ} {E : Type ℓ} {S : Type κ} {A : Type μ} where
  -- A sequence that returns has a first part that returns.
  pub bind_ok {ν} :
      {B : Type ν} (m : Exec E S A) (f : A → Exec E S B) (s : S) {b : B} {t : S}
      → (m >>= f) s ≡ (ok b, t)
      → (a : A) × ((u : S) × ((m s ≡ (ok a, u)) × (f a u ≡ (ok b, t))))
  bind_ok {B} m f s {b} {t} h = split (m s) refl h
    where
      split :
          (r : Result E A × S)
          → m s ≡ r
          → continue r.0 f r.1 ≡ (ok b, t)
          → (a : A) × ((u : S) × ((m s ≡ (ok a, u)) × (f a u ≡ (ok b, t))))
      split (ok a, u) e k = (a, (u, (e, k)))
      split (err x, u) e k = absurd (cc)

  -- A guarded sequence that returns has passed its guard.
  pub guard_ok :
      (test : Bool) (x : E) (k : Exec E S A) (s : S) {a : A} {t : S}
      → (raise_if test x >> k) s ≡ (ok a, t)
      → (test ≡ false) × (k s ≡ (ok a, t))
  guard_ok true x k s h = absurd (cc)
  guard_ok false x k s h = (refl, h)

  pub lift_ok :
      (r : Result E A) (s : S) {a : A} {t : S} → lift r s ≡ (ok a, t) → (r ≡ ok a) × (t ≡ s)
  lift_ok r s h = (ap (λ (p : Result E A × S). p.0) h, sym (ap (λ (p : Result E A × S). p.1) h))

  pub pure_ok :
      (b : A) (s : S) {a : A} {t : S}
      → ◌≡◌ {A = Result E A × S} (ok b, s) (ok a, t)
      → (a ≡ b) × (t ≡ s)
  pure_ok b s h =
      (ok_inj (sym (ap (λ (p : Result E A × S). p.0) h)), sym (ap (λ (p : Result E A × S). p.1) h))
    where
      ok_inj : {x y : A} → ◌≡◌ {A = Result E A} (ok x) (ok y) → x ≡ y
      ok_inj e = cc
