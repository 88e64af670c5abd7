-- ===== src/Prelude/Dict/Defs.antt =====
-- The operations of an ordered dictionary, and what a proof says of its entries.
use Prim.Native.Nat.{ℕ, ◌+◌}
use mathlib.Core.Path.{◌≡◌}
use mathlib.Core.Option.{Option, none, some}
use mathlib.Core.Bool.{Bool, false}
use mathlib.Core.List.{List, [], ◌∷◌, ◌++◌}
use lucent.Prelude.Tests.{Equality, if◌then◌else◌, ◌==◌}

abbrev pub Dict {ℓ κ} : Type ℓ → Type κ → Type (ℓ ⊔ κ)
Dict K V = List (K × V)

module _ {ℓ κ} {K : Type ℓ} {V : Type κ} where
  -- The sum of a number over the values.
  abbrev pub sum_of : (V → ℕ) → Dict K V → ℕ
  sum_of f [] = 0
  sum_of f ((k, v) ∷ d) = f v + sum_of f d

  -- A predicate on every value.
  abbrev pub All {μ} : (V → Type μ) → Dict K V → Type μ
  All P [] = Unit
  All P ((k, v) ∷ d) = P v × All P d

  -- `{k: v for k, v in d.items() if keep(v)}`
  abbrev pub retain : (V → Bool) → Dict K V → Dict K V
  retain keep [] = []
  retain keep ((k, v) ∷ d) = if keep v then (k, v) ∷ retain keep d else retain keep d

  -- `[k for k, v in d.items() if test(v)]`
  abbrev pub keys_where : (V → Bool) → Dict K V → List K
  keys_where test [] = []
  keys_where test ((k, v) ∷ d) = if test v then k ∷ keys_where test d else keys_where test d

module _ {ℓ κ} {K : Type ℓ} {V : Type κ} ⦃e : Equality K⦄ where
  -- `d.get(k)`
  abbrev pub get : K → Dict K V → Option V
  get k [] = none
  get k ((j, v) ∷ d) = if k == j then some v else get k d

  -- `d[k] = v`
  abbrev pub set : K → V → Dict K V → Dict K V
  set k v [] = (k, v) ∷ []
  set k v ((j, w) ∷ d) = if k == j then (j, v) ∷ d else (j, w) ∷ set k v d

  -- What `d.pop(k)` leaves.
  abbrev pub erase : K → Dict K V → Dict K V
  erase k [] = []
  erase k ((j, w) ∷ d) = if k == j then d else (j, w) ∷ erase k d

  -- `d.move_to_end(k)`, for the entry `v` at `k`
  abbrev pub move_to_end : K → V → Dict K V → Dict K V
  move_to_end k v d = erase k d ++ (k, v) ∷ []

  -- No key stands twice.
  abbrev pub IsUnique : Dict K V → Type κ
  IsUnique [] = Unit
  IsUnique ((k, v) ∷ d) = (get k d ≡ none) × IsUnique d

  abbrev pub erase_all : List K → Dict K V → Dict K V
  erase_all [] d = d
  erase_all (k ∷ ks) d = erase_all ks (erase k d)

module _ {ℓ} {K : Type ℓ} ⦃e : Equality K⦄ where
  -- No key of the list is `k`.
  abbrev pub Misses : K → List K → Type 0
  Misses k [] = Unit
  Misses k (j ∷ ks) = ((j == k) ≡ false) × Misses k ks
