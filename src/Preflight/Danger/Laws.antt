-- ===== src/Preflight/Danger/Laws.antt =====
-- What the scan reports is what the functions' own findings say, the worst first; and a call-family
-- function is never assessed as harmless.
use lucent.Prelude.{
  ℕ, ◌≤◌, ◌<◌, lower, filter, length, In, In-append, In-append_left, In-append_right, Every, true,
  false, Bool-cases, List, [], ◌∷◌, ◌≡◌, ◌↔◌, ◌⊎◌, inl, inr, refl, ap, arith, some, leb, ◌||◌,
}
use mathlib.Core.Path.{subst}
use lucent.Preflight.Abi.{Function, signable_functions}
use lucent.Preflight.Danger.{
  Severity, critical, high, medium, low, rank, is_critical, Finding, among, receiver_hooks,
  named_target_and_calldata, is_call_fn, external_call, assess, insert, sort, worst_of, assess_all,
  scan_abi,
}

-- Each finding is at most as severe as the ones before it.
abbrev pub IsSorted : List Finding → Type 0
IsSorted [] = Unit
IsSorted (x ∷ xs) = Every (λ (y : Finding). rank x.severity ≤ rank y.severity) xs × IsSorted xs

In-insert : (z x : Finding) (ys : List Finding) → In z (insert x ys) ↔ ((z ≡ x) ⊎ In z ys)
In-insert z x [] = (λ h. h, λ h. h)
In-insert z x (y ∷ ys) = elim (Bool-cases (leb (rank x.severity) (rank y.severity))) [
  | inl first ↦ rw first (λ h. h, λ h. h)
  | inr later ↦
      let (f, g) = In-insert z x ys in
      rw later (
        λ h. elim h [
          | inl same ↦ inr (inl same)
          | inr inside ↦ elim (f inside) [ inl same ↦ inl same | inr old ↦ inr (inr old) ]
        ],
        λ h. elim h [
          | inl same ↦ inr (g (inl same))
          | inr (inl same) ↦ inl same
          | inr (inr old) ↦ inr (g (inr old))
        ],
      )
]

pub In-sort : (z : Finding) (xs : List Finding) → In z (sort xs) ↔ In z xs
In-sort z [] = (λ h. h, λ h. h)
In-sort z (x ∷ xs) =
    let (f, g) = In-insert z x (sort xs) in
    let (h, k) = In-sort z xs in
    (
      λ i. elim (f i) [ inl same ↦ inl same | inr inside ↦ inr (h inside) ],
      λ i. g (elim i [ inl same ↦ inl same | inr inside ↦ inr (k inside) ]),
    )

leb_le : (a b : ℕ) → leb a b ≡ true → a ≤ b
leb_le a b h = ground arith

leb_gt : (a b : ℕ) → leb a b ≡ false → b < a
leb_gt a b h = ground arith

insert-IsSorted : (x : Finding) (ys : List Finding) → IsSorted ys → IsSorted (insert x ys)
insert-IsSorted x [] sorted = (λ z h. elim h [ ], tt)
insert-IsSorted x (y ∷ ys) sorted = elim (Bool-cases (leb (rank x.severity) (rank y.severity))) [
  | inl first ↦ rw first (
    λ z h. elim h [
      | inl same ↦
          let it = ap (λ (w : Finding). rank w.severity) same in
          omega (arith, leb_le (rank x.severity) (rank y.severity) first)
      | inr inside ↦
          let it = sorted.0 z inside in
          omega (arith, leb_le (rank x.severity) (rank y.severity) first)
    ],
    sorted,
  )
  | inr later ↦ rw later (
    λ z h. elim ((In-insert z x ys).0 h) [
      | inl same ↦
          let it = ap (λ (w : Finding). rank w.severity) same in
          omega (arith, leb_gt (rank x.severity) (rank y.severity) later)
      | inr inside ↦ sorted.0 z inside
    ],
    insert-IsSorted x ys sorted.1,
  )
]

pub sort-IsSorted : (xs : List Finding) → IsSorted (sort xs)
sort-IsSorted [] = tt
sort-IsSorted (x ∷ xs) = insert-IsSorted x (sort xs) (sort-IsSorted xs)

In-assess_all :
    (x : Finding) (fs : List Function)
    → In x (assess_all fs) ↔ ((f : Function) × (In f fs × In x (assess f)))
unfolding assess_all
In-assess_all x [] = (λ h. elim h [ ], λ (f, (h, k)). elim h [ ])
In-assess_all x (g ∷ fs) = (
  λ h. elim (In-append x (assess g) (assess_all fs) h) [
    | inl mine ↦ (g, (inl refl, mine))
    | inr rest ↦ let (f, (inside, of)) = (In-assess_all x fs).0 rest in (f, (inr inside, of))
  ],
  λ (f, (inside, of)). elim inside [
    | inl same ↦ In-append_left x (assess g) (assess_all fs) (subst (λ w. In x (assess w)) same of)
    | inr later ↦
        In-append_right x (assess g) (assess_all fs) ((In-assess_all x fs).1 (f, (later, of)))
  ],
)

-- The scan of an ABI reports exactly the findings on its signable functions, each one at most as
-- severe as those before it.
pub scan_abi-findings :
    (abi : List Function)
    → IsSorted (scan_abi abi).danger_findings
      × ((x : Finding)
          → In x (scan_abi abi).danger_findings
            ↔ ((f : Function) × (In f (signable_functions abi) × In x (assess f))))
unfolding scan_abi
scan_abi-findings abi = (
  sort-IsSorted (assess_all (signable_functions abi)),
  λ x.
      let (f, g) = In-sort x (assess_all (signable_functions abi)) in
      let (h, k) = In-assess_all x (signable_functions abi) in (λ i. h (f i), λ i. g (k i)),
)

pub severity_critical : (s : Severity) → (is_critical s ≡ true) ↔ (s ≡ critical)
severity_critical critical = ground arith
severity_critical high = ground arith
severity_critical medium = ground arith
severity_critical low = ground arith

some_inj : {s t : Severity} → some s ≡ some t → s ≡ t
some_inj h = cc

milder : (s t : Severity) → is_critical s ≡ false → rank s ≤ rank t → is_critical t ≡ false
milder s t h le = ground arith

no_critical :
    (xs : List Finding)
    → Every (λ (y : Finding). is_critical y.severity ≡ false) xs
    → length (filter (λ (y : Finding). is_critical y.severity) xs) ≡ 0
no_critical [] every = refl
no_critical (x ∷ xs) every =
    rw (every x (inl refl)) (no_critical xs (λ y inside. every y (inr inside)))

worst_iff :
    (xs : List Finding)
    → IsSorted xs
    → (worst_of xs ≡ some critical)
      ↔ (0 < length (filter (λ (y : Finding). is_critical y.severity) xs))
worst_iff [] sorted = (λ h. absurd (cc), λ h. absurd (omega arith))
worst_iff (x ∷ xs) sorted = elim (Bool-cases (is_critical x.severity)) [
  | inl worst ↦ rw worst (λ h. omega arith, λ h. ap some ((severity_critical x.severity).0 worst))
  | inr fine ↦
      let rest : Every (λ (y : Finding). is_critical y.severity ≡ false) xs =
        λ y inside. milder x.severity y.severity fine (sorted.0 y inside) in
      let zero_count = no_critical xs rest in
      rw (fine, zero_count)
        (
          λ h. absurd (let it = (severity_critical x.severity).1 (some_inj h) in cc),
          λ h. absurd (omega arith),
        )
]

-- The worst severity of the scan is CRITICAL exactly when its count of CRITICAL findings, on which
-- the strict mode exits, is not zero.
pub scan_abi-worst_iff :
    (abi : List Function)
    → ((scan_abi abi).worst_severity ≡ some critical) ↔ (0 < (scan_abi abi).critical_count)
unfolding scan_abi
scan_abi-worst_iff abi =
    worst_iff (sort (assess_all (signable_functions abi)))
      (sort-IsSorted (assess_all (signable_functions abi)))

-- A function whose name is of the call family, or that takes a target and calldata, has a CRITICAL
-- finding of its own, which names an arbitrary external call, unless it is a receiver hook.
pub external_call-In :
    (f : Function)
    → among receiver_hooks (lower f.name) ≡ false
    → is_call_fn f || named_target_and_calldata f ≡ true
    → (x : Finding) × (In x (assess f)
        × ((x.severity ≡ critical) × (x.primitive ≡ "arbitrary-external-call")))
unfolding assess external_call
external_call-In f hook call = rw (hook, call) (_, (inl refl, (refl, refl)))
