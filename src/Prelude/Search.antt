-- ===== src/Prelude/Search.antt =====
-- Lists searched and filtered by a Boolean test, and what that says of their members.
use mathlib.Core.Path.{◌≡◌, refl, sym, ap, ◌∙◌}
use mathlib.Core.Logic.{◌⊎◌, inl, inr}
use mathlib.Core.Bool.{Bool, true, false, ◌||◌}
use mathlib.Core.List.{List, [], ◌∷◌, ◌++◌}
use native.Mathlib.Omega.{arith}
use lucent.Prelude.Tests.{if◌then◌else◌, Bool-cases}
use lucent.Prelude.Lists.{In}

-- `any(test(x) for x in xs)`
abbrev pub any {ℓ} : {A : Type ℓ} → (A → Bool) → List A → Bool
any test [] = false
any test (x ∷ xs) = test x || any test xs

abbrev pub filter {ℓ} : {A : Type ℓ} → (A → Bool) → List A → List A
filter keep [] = []
filter keep (x ∷ xs) = if keep x then x ∷ filter keep xs else filter keep xs

or_true : (a b : Bool) → a || b ≡ true → (a ≡ true) ⊎ (b ≡ true)
or_true a b h = ground arith

or_inr : (a b : Bool) → b ≡ true → a || b ≡ true
or_inr a b h = ground arith

module _ {A : Type 0} where
  -- Some member passes the test.
  abbrev pub Found : (A → Bool) → List A → Type 0
  Found test xs = (x : A) × (In x xs × (test x ≡ true))

  -- Every member has the property.
  abbrev pub Every : (A → Type 0) → List A → Type 0
  Every P xs = (x : A) → In x xs → P x

  pub any_sound : (test : A → Bool) (xs : List A) → any test xs ≡ true → Found test xs
  any_sound test [] h = absurd (cc)
  any_sound test (x ∷ xs) h = elim (or_true (test x) (any test xs) h) [
    | inl here ↦ (x, (inl refl, here))
    | inr later ↦ let (y, (inside, passes)) = any_sound test xs later in (y, (inr inside, passes))
  ]

  pub any_complete :
      (test : A → Bool) (x : A) (xs : List A) → In x xs → test x ≡ true → any test xs ≡ true
  any_complete test x [] h k = elim h [ ]
  any_complete test x (y ∷ xs) (inl same) h =
      let here : test y ≡ true = sym (ap test same) ∙ h in ground arith
  any_complete test x (y ∷ xs) (inr inside) h =
      or_inr (test y) (any test xs) (any_complete test x xs inside h)

  pub any_none :
      (test : A → Bool) (x : A) (xs : List A) → any test xs ≡ false → In x xs → test x ≡ false
  any_none test x xs none_passes inside = elim (Bool-cases (test x)) [
    | inl passes ↦ absurd (let all = any_complete test x xs inside passes in cc)
    | inr fails ↦ fails
  ]

  pub In-append_left : (x : A) (xs ys : List A) → In x xs → In x (xs ++ ys)
  In-append_left x [] ys h = elim h [ ]
  In-append_left x (y ∷ xs) ys (inl same) = inl same
  In-append_left x (y ∷ xs) ys (inr inside) = inr (In-append_left x xs ys inside)

  pub In-append_right : (x : A) (xs ys : List A) → In x ys → In x (xs ++ ys)
  In-append_right x [] ys inside = inside
  In-append_right x (y ∷ xs) ys inside = inr (In-append_right x xs ys inside)

  pub In-append : (x : A) (xs ys : List A) → In x (xs ++ ys) → In x xs ⊎ In x ys
  In-append x [] ys inside = inr inside
  In-append x (y ∷ xs) ys (inl same) = inl (inl same)
  In-append x (y ∷ xs) ys (inr inside) = elim (In-append x xs ys inside) [
    | inl left ↦ inl (inr left)
    | inr right ↦ inr right
  ]

  pub In-filter :
      (keep : A → Bool) (x : A) (xs : List A) → keep x ≡ true → In x xs → In x (filter keep xs)
  In-filter keep x [] kept h = elim h [ ]
  In-filter keep x (y ∷ xs) kept (inl same) =
      let here : keep y ≡ true = sym (ap keep same) ∙ kept in rw here (inl same)
  In-filter keep x (y ∷ xs) kept (inr inside) = elim (Bool-cases (keep y)) [
    | inl stays ↦ rw stays (inr (In-filter keep x xs kept inside))
    | inr goes ↦ rw goes (In-filter keep x xs kept inside)
  ]

  pub filter_sound :
      (keep : A → Bool) (x : A) (xs : List A) → In x (filter keep xs) → In x xs × (keep x ≡ true)
  filter_sound keep x [] h = elim h [ ]
  filter_sound keep x (y ∷ xs) h = elim (Bool-cases (keep y)) [
    | inr goes ↦ let (inside, kept) = filter_sound keep x xs (rw goes at h) in (inr inside, kept)
    | inl stays ↦ elim (rw stays at h) [
      | inl same ↦ (inl same, ap keep same ∙ stays)
      | inr later ↦ let (inside, kept) = filter_sound keep x xs later in (inr inside, kept)
    ]
  ]
