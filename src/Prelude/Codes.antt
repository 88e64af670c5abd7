-- ===== src/Prelude/Codes.antt =====
-- Texts as lists of code points, for the code that walks them.
use Prim.Native.Char.{code}
use Prim.Native.String.{String}
use mathlib.Core.Path.{◌≡◌, refl}
use mathlib.Core.Logic.{◌↔◌}
use mathlib.Core.Bool.{Bool, true, false, ◌&&◌}
use mathlib.Core.List.{List, [], ◌∷◌}
use Prim.Native.Nat.{ℕ}
use native.Mathlib.Omega.{arith}
use lucent.Prelude.Tests.{Equality, nat_beq, nat_beq_iff}

abbrev pub codes : String → List ℕ
codes String.[] = []
codes (String.◌∷◌ c s) = code c ∷ codes s

abbrev pub codes_beq : List ℕ → List ℕ → Bool
codes_beq [] [] = true
codes_beq [] (y ∷ ys) = false
codes_beq (x ∷ xs) [] = false
codes_beq (x ∷ xs) (y ∷ ys) = nat_beq x y && codes_beq xs ys

pub codes_beq_iff : (xs ys : List ℕ) → (codes_beq xs ys ≡ true) ↔ (xs ≡ ys)
codes_beq_iff [] [] = (λ _. refl, λ _. refl)
codes_beq_iff [] (y ∷ ys) = (λ h. cc, λ h. cc)
codes_beq_iff (x ∷ xs) [] = (λ h. cc, λ h. cc)
codes_beq_iff (x ∷ xs) (y ∷ ys) = (
  λ h. ground (arith, codes_beq_iff xs ys, nat_beq_iff x y),
  λ h. ground (arith, codes_beq_iff xs ys, nat_beq_iff x y),
)

instance abbrev pub codes_eq : Equality (List ℕ)
codes_eq = record { same = codes_beq; same_iff = codes_beq_iff }
