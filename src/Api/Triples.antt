-- ===== src/Api/Triples.antt =====
-- What a step of the handler keeps of the objects that requests share: rules for sequences, and for
-- the steps that touch neither the claims nor the calls of the facilitator.
use lucent.Prelude.{
  Result-cases, inl, inr, Bool, true, false, Result, ok, err, Exec, pure, raise, raise_if, lift,
  gets, modify, continue, ◌>>=◌, ◌≡◌, refl, ap,
}
use mathlib.Core.Path.{subst}
use lucent.Access.Errors.{Error, access, value_error, key_error, runtime_error, no_fuel}
use lucent.Access.Controller.{AccessController}
use lucent.Access.Idempotency.Store.{Store}
use lucent.Api.Problems.{Failure, of_access, of_payment, of_source, of_input, internal}
use lucent.Api.Handler.{rescue, rescued}
use lucent.Api.Service.{mapped, Scope, Step, on_controller, on_payments}

-- From a scope with `P` the step reaches one with `Q` if it returns, and one with `R` if it raises.
pub record IsSafe {A : Type 0} (P R : Scope → Type 0) (m : Step A) (Q : A → Scope → Type 0)
    : Type 0 where
  pub returns : (s : Scope) → P s → (a : A) → (m s).0 ≡ ok a → Q a (m s).1
  pub raises : (s : Scope) → P s → (e : Failure) → (m s).0 ≡ err e → R (m s).1

-- `P` looks at the claims and the calls only.
abbrev pub IsOfClaims : (Scope → Type 0) → Type 0
IsOfClaims P = (s t : Scope) → t.payment_claims ≡ s.payment_claims → t.calls ≡ s.calls → P s → P t

module _ {R : Scope → Type 0} where
  pub bind-IsSafe :
      {A B : Type 0} {P : Scope → Type 0} {Q : A → Scope → Type 0} {T : B → Scope → Type 0}
      {m : Step A} {f : A → Step B}
      → IsSafe P R m Q
      → ((a : A) → IsSafe (Q a) R (f a) T)
      → IsSafe P R (m >>= f) T
  bind-IsSafe {A} {B} {P} {Q} {T} {m} {f} first later = record {
    returns = λ s h b e. (split s (m s) (first.returns s h) (first.raises s h)).0 b e;
    raises = λ s h x e. (split s (m s) (first.returns s h) (first.raises s h)).1 x e;
  }
    where
      split :
          (s : Scope) (r : Result Failure A × Scope)
          → ((a : A) → r.0 ≡ ok a → Q a r.1)
          → ((e : Failure) → r.0 ≡ err e → R r.1)
          → ((b : B) → (continue r.0 f r.1).0 ≡ ok b → T b (continue r.0 f r.1).1)
            × ((e : Failure) → (continue r.0 f r.1).0 ≡ err e → R (continue r.0 f r.1).1)
      split s (ok a, t) q x =
          ((λ b e. (later a).returns t (q a refl) b e), (λ y e. (later a).raises t (q a refl) y e))
      split s (err y, t) q x = ((λ b e. absurd (cc)), (λ z e. x y refl))

  pub pure-IsSafe :
      {A : Type 0} {P : Scope → Type 0} {Q : A → Scope → Type 0} (a : A)
      → ((s : Scope) → P s → Q a s)
      → IsSafe P R (pure a) Q
  pure-IsSafe {A} {P} {Q} a q = record {
    returns = λ s h b e. subst (λ c. Q c s) (ok_inj e) (q s h);
    raises = λ s h x e. absurd (cc);
  }
    where
      ok_inj : {x y : A} → ◌≡◌ {A = Result Failure A} (ok x) (ok y) → x ≡ y
      ok_inj e = cc

  pub raise-IsSafe :
      {A : Type 0} {P : Scope → Type 0} {Q : A → Scope → Type 0} (x : Failure)
      → ((s : Scope) → P s → R s)
      → IsSafe P R (raise x) Q
  raise-IsSafe x q = record { returns = λ s h b e. absurd (cc); raises = λ s h y e. q s h }

  pub lift-IsSafe :
      {A : Type 0} {P : Scope → Type 0} (r : Result Failure A)
      → ((s : Scope) → P s → R s)
      → IsSafe P R (lift r) (λ a. P)
  lift-IsSafe r q = record { returns = λ s h b e. h; raises = λ s h y e. q s h }

  pub raise_if-IsSafe :
      {P : Scope → Type 0} (test : Bool) (x : Failure)
      → ((s : Scope) → P s → R s)
      → IsSafe P R (raise_if test x) (λ a. P)
  raise_if-IsSafe true x q = raise-IsSafe x q
  raise_if-IsSafe false x q = pure-IsSafe tt λ s h. h

  module _ {A : Type 0} {P : Scope → Type 0} (sees : IsOfClaims P)
      (q : (s : Scope) → P s → R s) where
    pub on_controller-IsSafe :
        (m : Exec Error AccessController A) → IsSafe P R (on_controller m) (λ a. P)
    on_controller-IsSafe m = record {
      returns = λ s h b e. sees s _ refl refl h;
      raises = λ s h x e. q _ (sees s _ refl refl h);
    }

    pub on_payments-IsSafe : (m : Exec Error Store A) → IsSafe P R (on_payments m) (λ a. P)
    on_payments-IsSafe m = record {
      returns = λ s h b e. sees s _ refl refl h;
      raises = λ s h x e. q _ (sees s _ refl refl h);
    }

  pub gets-IsSafe : {A : Type 0} {P : Scope → Type 0} (f : Scope → A) → IsSafe P R (gets f) (λ a. P)
  gets-IsSafe f = record { returns = λ s h b e. h; raises = λ s h x e. absurd (cc) }

  -- A fact of the scope that does not look at it is a hypothesis.
  pub assume-IsSafe :
      {A F : Type 0} {P : Scope → Type 0} {Q : A → Scope → Type 0} {m : Step A}
      → (F → IsSafe P R m Q)
      → IsSafe (λ s. P s × F) R m Q
  assume-IsSafe safe = record {
    returns = λ s h. (safe h.1).returns s h.0;
    raises = λ s h. (safe h.1).raises s h.0;
  }

  pub modify-IsSafe :
      {P Q : Scope → Type 0} (f : Scope → Scope)
      → ((s : Scope) → P s → Q (f s))
      → IsSafe P R (modify f) (λ a. Q)
  modify-IsSafe f q = record { returns = λ s h b e. q s h; raises = λ s h x e. absurd (cc) }

-- A fact that does not look at the scope stays.
pub frame-IsSafe :
    {A F : Type 0} {P R : Scope → Type 0} {Q : A → Scope → Type 0} {m : Step A}
    → IsSafe P R m Q
    → IsSafe (λ s. P s × F) R m (λ a s. Q a s × F)
frame-IsSafe safe = record {
  returns = λ s h a e. (safe.returns s h.0 a e, h.1);
  raises = λ s h x e. safe.raises s h.0 x e;
}

rescued-IsSafe :
    {P : Scope → Type 0} (r : Result Failure (Unit {0})) (handler : Step (Unit {0}))
    → IsSafe P P handler (λ a. P)
    → IsSafe P P (rescued r handler) (λ a. P)
unfolding rescued
rescued-IsSafe (ok u) handler other = pure-IsSafe tt λ s h. h
rescued-IsSafe (err (of_access (access e))) handler other = other
rescued-IsSafe (err (of_access (value_error why))) handler other = raise-IsSafe _ λ s h. h
rescued-IsSafe (err (of_access key_error)) handler other = raise-IsSafe _ λ s h. h
rescued-IsSafe (err (of_access (runtime_error why))) handler other = raise-IsSafe _ λ s h. h
rescued-IsSafe (err (of_access no_fuel)) handler other = raise-IsSafe _ λ s h. h
rescued-IsSafe (err (of_payment e)) handler other = raise-IsSafe _ λ s h. h
rescued-IsSafe (err (of_source code why)) handler other = raise-IsSafe _ λ s h. h
rescued-IsSafe (err (of_input code why)) handler other = raise-IsSafe _ λ s h. h
rescued-IsSafe (err internal) handler other = raise-IsSafe _ λ s h. h

-- Where the scope is, however the step has ended.
pub IsSafe-scope :
    {A : Type 0} {P : Scope → Type 0} {m : Step A}
    → IsSafe P P m (λ a. P)
    → (s : Scope) → P s
    → P (m s).1
IsSafe-scope {m} safe s h = elim (Result-cases (m s).0) [
  | inl (a, e) ↦ safe.returns s h a e
  | inr (x, e) ↦ safe.raises s h x e
]

pub rescue-IsSafe :
    {P : Scope → Type 0} (m handler : Step (Unit {0}))
    → IsSafe P P m (λ a. P)
    → IsSafe P P handler (λ a. P)
    → IsSafe P P (rescue m handler) (λ a. P)
unfolding rescue
rescue-IsSafe m handler body other = record {
  returns =
      λ s h a e. (rescued-IsSafe (m s).0 handler other).returns (m s).1 (IsSafe-scope body s h) a e;
  raises =
      λ s h x e. (rescued-IsSafe (m s).0 handler other).raises (m s).1 (IsSafe-scope body s h) x e;
}

pub mapped_ok :
    {E A : Type 0} (f : E → Failure) (r : Result E A) (a : A) → mapped f r ≡ ok a → r ≡ ok a
mapped_ok f (ok b) a h = ap (λ x. ok x) (ok_inj h)
  where
    ok_inj : {A : Type 0} {x y : A} → ◌≡◌ {A = Result Failure A} (ok x) (ok y) → x ≡ y
    ok_inj e = cc
mapped_ok f (err e) a h = absurd (cc)
