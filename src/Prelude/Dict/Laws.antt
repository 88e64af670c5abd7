-- ===== src/Prelude/Dict/Laws.antt =====
-- The laws of ordered dictionaries that the stores use.
use Prim.Native.Nat.{ℕ, suc, ◌+◌, ◌≤◌}
use mathlib.Core.Path.{◌≡◌, refl, ◌∙◌}
use mathlib.Core.Bool.{Bool, true, false, not}
use mathlib.Core.Logic.{inl, inr}
use mathlib.Core.Option.{none, some}
use mathlib.Core.List.{List, [], ◌∷◌, ◌++◌}
use native.Mathlib.Omega.{arith}
use lucent.Prelude.Tests.{Equality, if◌then◌else◌, ◌==◌, Bool-cases}
use lucent.Prelude.Lists.{length, length-append}
use lucent.Prelude.Dict.Defs.{
  Dict, sum_of, All, retain, keys_where, get, set, erase, move_to_end, IsUnique, erase_all, Misses,
}

module _ {ℓ κ} {K : Type ℓ} {V : Type κ} where
  pub sum_of-append : (f : V → ℕ) (d c : Dict K V) → sum_of f (d ++ c) ≡ sum_of f d + sum_of f c
  sum_of-append f [] c = omega arith
  sum_of-append f (x ∷ d) c = omega (arith, sum_of-append f d c)

  pub All-append {μ} : (P : V → Type μ) (d c : Dict K V) → All P d → All P c → All P (d ++ c)
  All-append P [] c h k = k
  All-append P (x ∷ d) c h k = (h.0, All-append P d c h.1 k)

  pub All-retain {μ} :
      (P : V → Type μ) (keep : V → Bool) (d : Dict K V) → All P d → All P (retain keep d)
  All-retain P keep [] h = tt
  All-retain P keep ((k, v) ∷ d) h = elim (Bool-cases (keep v)) [
    | inl stays ↦ rw stays (h.0, All-retain P keep d h.1)
    | inr goes ↦ rw goes (All-retain P keep d h.1)
  ]

  pub sum_of-retain-le :
      (f : V → ℕ) (keep : V → Bool) (d : Dict K V) → sum_of f (retain keep d) ≤ sum_of f d
  sum_of-retain-le f keep [] = omega arith
  sum_of-retain-le f keep ((k, v) ∷ d) = ground (arith, sum_of-retain-le f keep d)

  pub length-retain-le : (keep : V → Bool) (d : Dict K V) → length (retain keep d) ≤ length d
  length-retain-le keep [] = omega arith
  length-retain-le keep ((k, v) ∷ d) = ground (arith, length-retain-le keep d)

module _ {ℓ} {K : Type ℓ} ⦃e : Equality K⦄ where
  pub beq_refl : (k : K) → (k == k) ≡ true
  beq_refl k = (e.same_iff k k).1 refl

  pub beq_sym : (k j : K) → (k == j) ≡ (j == k)
  beq_sym k j = ground (arith, e.same_iff k j, e.same_iff j k)

module _ {ℓ κ} {K : Type ℓ} {V : Type κ} ⦃e : Equality K⦄ where
  pub get-append_none : (k : K) (d c : Dict K V) → get k d ≡ none → get k (d ++ c) ≡ get k c
  get-append_none k [] c h = refl
  get-append_none k ((j, v) ∷ d) c h = ground (arith, get-append_none k d c)

  pub get-append_some :
      (k : K) (v : V) (d c : Dict K V) → get k d ≡ some v → get k (d ++ c) ≡ some v
  get-append_some k v [] c h = cc
  get-append_some k v ((j, w) ∷ d) c h = ground (arith, get-append_some k v d c)

  pub get-erase_ne : (j k : K) (d : Dict K V) → (j == k) ≡ false → get j (erase k d) ≡ get j d
  get-erase_ne j k [] h = refl
  get-erase_ne j k ((i, v) ∷ d) h =
      ground (arith, get-erase_ne j k d, e.same_iff j k, e.same_iff j i, e.same_iff k i)

  pub get-erase_self : (k : K) (d : Dict K V) → IsUnique d → get k (erase k d) ≡ none
  get-erase_self k [] h = refl
  get-erase_self k ((i, v) ∷ d) h = ground (arith, get-erase_self k d h.1, e.same_iff k i)

  pub erase-IsUnique : (k : K) (d : Dict K V) → IsUnique d → IsUnique (erase k d)
  erase-IsUnique k [] h = tt
  erase-IsUnique k ((i, v) ∷ d) h =
      ground (arith, erase-IsUnique k d h.1, get-erase_ne i k d, beq_sym i k)

  pub snoc-IsUnique :
      (k : K) (v : V) (d : Dict K V) → get k d ≡ none → IsUnique d → IsUnique (d ++ (k, v) ∷ [])
  snoc-IsUnique k v [] n h = (refl, tt)
  snoc-IsUnique k v ((i, w) ∷ d) n h =
      ground (arith, snoc-IsUnique k v d, get-append_none i d ((k, v) ∷ []) h.0, beq_sym i k)

  pub sum_of-erase :
      (f : V → ℕ) (k : K) (v : V) (d : Dict K V)
      → get k d ≡ some v
      → sum_of f (erase k d) + f v ≡ sum_of f d
  sum_of-erase f k v [] h = cc
  sum_of-erase f k v ((i, w) ∷ d) h = ground (arith, sum_of-erase f k v d)

  pub length-erase :
      (k : K) (v : V) (d : Dict K V) → get k d ≡ some v → suc (length (erase k d)) ≡ length d
  length-erase k v [] h = cc
  length-erase k v ((i, w) ∷ d) h = ground (arith, length-erase k v d)

  pub All-erase {μ} : (P : V → Type μ) (k : K) (d : Dict K V) → All P d → All P (erase k d)
  All-erase P k [] h = tt
  All-erase P k ((i, v) ∷ d) h = elim (Bool-cases (k == i)) [
    | inl here ↦ rw here h.1
    | inr there ↦ rw there (h.0, All-erase P k d h.1)
  ]

  pub All-get {μ} :
      (P : V → Type μ) (k : K) (v : V) (d : Dict K V) → All P d → get k d ≡ some v → P v
  All-get P k v [] h n = absurd (cc)
  All-get P k v ((i, w) ∷ d) h n = elim (Bool-cases (k == i)) [
    | inl here ↦ let same : w ≡ v = ground arith in rw same at h.0
    | inr there ↦ All-get P k v d h.1 (ground arith)
  ]

  pub get-retain-none :
      (k : K) (keep : V → Bool) (d : Dict K V) → get k d ≡ none → get k (retain keep d) ≡ none
  get-retain-none k keep [] h = refl
  get-retain-none k keep ((i, v) ∷ d) h = ground (arith, get-retain-none k keep d)

  -- What stands at a key after a filter.
  pub get-retain :
      (k : K) (keep : V → Bool) (v : V) (d : Dict K V)
      → IsUnique d
      → get k d ≡ some v
      → get k (retain keep d) ≡ (if keep v then some v else none)
  get-retain k keep v [] u h = cc
  get-retain k keep v ((i, w) ∷ d) u h =
      ground (arith, get-retain k keep v d u.1, get-retain-none i keep d u.0, e.same_iff k i)

  pub retain-IsUnique : (keep : V → Bool) (d : Dict K V) → IsUnique d → IsUnique (retain keep d)
  retain-IsUnique keep [] h = tt
  retain-IsUnique keep ((i, v) ∷ d) h = elim (Bool-cases (keep v)) [
    | inl stays ↦ rw stays (get-retain-none i keep d h.0, retain-IsUnique keep d h.1)
    | inr goes ↦ rw goes (retain-IsUnique keep d h.1)
  ]

  pub keys_where-Misses :
      (k : K) (test : V → Bool) (d : Dict K V) → get k d ≡ none → Misses k (keys_where test d)
  keys_where-Misses k test [] h = tt
  keys_where-Misses k test ((i, v) ∷ d) h = ground (arith, keys_where-Misses k test d, beq_sym i k)

  pub set-erase-snoc :
      (k : K) (v w : V) (d : Dict K V) → move_to_end k w (set k v d) ≡ move_to_end k w d
  set-erase-snoc k v w [] = rw beq_refl
  set-erase-snoc k v w ((i, u) ∷ d) = ground (arith, set-erase-snoc k v w d)

  erase_all-miss :
      (ks : List K) (k : K) (v : V) (d : Dict K V)
      → Misses k ks
      → erase_all ks ((k, v) ∷ d) ≡ (k, v) ∷ erase_all ks d
  erase_all-miss [] k v d h = refl
  erase_all-miss (j ∷ ks) k v d h = rw h.0 (erase_all-miss ks k v (erase j d) h.1)

  -- Removing one by one the keys whose values pass a test leaves the values that do not.
  pub erase_all-keys_where :
      (test keep : V → Bool) (d : Dict K V)
      → ((v : V) → keep v ≡ not (test v))
      → IsUnique d
      → erase_all (keys_where test d) d ≡ retain keep d
  erase_all-keys_where test keep [] h u = refl
  erase_all-keys_where test keep ((k, v) ∷ d) h u = ground (
    arith,
    h v,
    beq_refl k,
    erase_all-keys_where test keep d h u.1,
    erase_all-miss (keys_where test d) k v d (keys_where-Misses k test d u.0),
  )

  pub set-new : (k : K) (v : V) (d : Dict K V) → get k d ≡ none → set k v d ≡ d ++ (k, v) ∷ []
  set-new k v [] h = refl
  set-new k v ((i, w) ∷ d) h = ground (arith, set-new k v d)

  pub get-snoc_self :
      (k : K) (v : V) (d : Dict K V) → get k d ≡ none → get k (d ++ (k, v) ∷ []) ≡ some v
  get-snoc_self k v d h = ground (arith, get-append_none k d ((k, v) ∷ []) h, beq_refl k)

  pub get-snoc_ne :
      (j k : K) (v : V) (d : Dict K V) → (j == k) ≡ false → get j (d ++ (k, v) ∷ []) ≡ get j d
  get-snoc_ne j k v [] h = rw h
  get-snoc_ne j k v ((i, w) ∷ d) h = ground (arith, get-snoc_ne j k v d)

  pub get-move_to_end_self :
      (k : K) (v : V) (d : Dict K V) → IsUnique d → get k (move_to_end k v d) ≡ some v
  get-move_to_end_self k v d u = get-snoc_self k v (erase k d) (get-erase_self k d u)

  pub get-move_to_end_ne :
      (j k : K) (v : V) (d : Dict K V) → (j == k) ≡ false → get j (move_to_end k v d) ≡ get j d
  get-move_to_end_ne j k v d h = get-snoc_ne j k v (erase k d) h ∙ get-erase_ne j k d h

  pub move_to_end-IsUnique :
      (k : K) (v : V) (d : Dict K V) → IsUnique d → IsUnique (move_to_end k v d)
  move_to_end-IsUnique k v d u =
      snoc-IsUnique k v (erase k d) (get-erase_self k d u) (erase-IsUnique k d u)

  pub sum_of-move_to_end :
      (f : V → ℕ) (k : K) (v w : V) (d : Dict K V)
      → get k d ≡ some v
      → sum_of f (move_to_end k w d) + f v ≡ sum_of f d + f w
  sum_of-move_to_end f k v w d h =
      omega (arith, sum_of-append f (erase k d) ((k, w) ∷ []), sum_of-erase f k v d h)

  pub length-move_to_end :
      (k : K) (v w : V) (d : Dict K V) → get k d ≡ some v → length (move_to_end k w d) ≡ length d
  length-move_to_end k v w d h =
      omega (arith, length-append (erase k d) ((k, w) ∷ []), length-erase k v d h)

  pub All-move_to_end {μ} :
      (P : V → Type μ) (k : K) (v : V) (d : Dict K V) → All P d → P v → All P (move_to_end k v d)
  All-move_to_end P k v d h p = All-append P (erase k d) ((k, v) ∷ []) (All-erase P k d h) (p, tt)

  pub get-erase-none : (j k : K) (d : Dict K V) → get j d ≡ none → get j (erase k d) ≡ none
  get-erase-none j k [] h = refl
  get-erase-none j k ((i, v) ∷ d) h = ground (arith, get-erase-none j k d)

  pub get-set_self : (k : K) (v : V) (d : Dict K V) → get k (set k v d) ≡ some v
  get-set_self k v [] = rw beq_refl
  get-set_self k v ((i, w) ∷ d) = ground (arith, get-set_self k v d)

  pub get-set_ne : (j k : K) (v : V) (d : Dict K V) → (j == k) ≡ false → get j (set k v d) ≡ get j d
  get-set_ne j k v [] h = rw h
  get-set_ne j k v ((i, w) ∷ d) h =
      ground (arith, get-set_ne j k v d, e.same_iff j k, e.same_iff j i, e.same_iff k i)
