-- ===== src/Prelude/Iffs.antt =====
-- Equivalences put together from those of their parts.
use mathlib.Core.Path.{◌≡◌, refl}
use mathlib.Core.Logic.{◌↔◌, ◌⊎◌, inl, inr}
use mathlib.Core.Bool.{Bool, true, false, not, ◌&&◌, ◌||◌}

pub not_iff :
    {P Q : Type 0} (a b : Bool)
    → ((a ≡ true) ↔ P)
    → ((b ≡ true) ↔ Q)
    → (not a || not b ≡ true) ↔ ((¬ P) ⊎ (¬ Q))
not_iff true true (f, g) (f', g') = (
  λ h. absurd (cc),
  λ h. elim h [
    | inl refuted ↦ absurd (refuted (f refl))
    | inr refuted ↦ absurd (refuted (f' refl))
  ],
)
not_iff true false (f, g) (f', g') = (λ h. inr (λ q. absurd (let it = g' q in cc)), λ h. refl)
not_iff false b (f, g) (f', g') = (λ h. inl (λ p. absurd (let it = g p in cc)), λ h. refl)

pub and_iff :
    {P Q : Type 0} (a b : Bool) → ((a ≡ true) ↔ P) → ((b ≡ true) ↔ Q) → (a && b ≡ true) ↔ (P × Q)
and_iff true b (f, g) (f', g') = (λ h. (f refl, f' h), λ (p, q). g' q)
and_iff false b (f, g) (f', g') = (λ h. absurd (cc), λ (p, q). g p)

pub either_iff : {P A B A' B' : Type 0} → (P ↔ (A ⊎ B)) → (A ↔ A') → (B ↔ B') → P ↔ (A' ⊎ B')
either_iff (f, g) (h, h') (k, k') = (
  λ p. elim (f p) [ inl a ↦ inl (h a) | inr b ↦ inr (k b) ],
  λ x. g (elim x [ inl a ↦ inl (h' a) | inr b ↦ inr (k' b) ]),
)

pub both_iff : {P A B A' B' : Type 0} → (P ↔ (A × B)) → (A ↔ A') → (B ↔ B') → P ↔ (A' × B')
both_iff (f, g) (h, h') (k, k') = (λ p. (h (f p).0, k (f p).1), λ (a, b). g (h' a, k' b))

pub iff_trans : {P Q R : Type 0} → (P ↔ Q) → (Q ↔ R) → P ↔ R
iff_trans (f, g) (h, h') = (λ p. h (f p), λ r. g (h' r))
