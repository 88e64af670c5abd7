-- ===== src/Preflight/Verdict/Laws.antt =====
-- When the verdict on a call is to block it, and when it is safe to present.
use lucent.Prelude.{
  codes_eq, string_eq, ℕ, nat_beq, nat_beq_iff, any, any_sound, any_complete, any_none, Every, In,
  String, List, [], ◌∷◌, Bool, true, false, not, ◌&&◌, ◌||◌, ◌≡◌, ◌≢◌, ◌↔◌, ◌⊎◌, inl, inr, refl,
  sym, ap, ◌∙◌, arith, Bool-cases, not_iff, and_iff, either_iff, both_iff,
}
use lucent.Preflight.Abi.{Function}
use lucent.Preflight.Danger.{Severity, critical, high, medium, low, is_critical, Finding}
use lucent.Preflight.Danger.Laws.{severity_critical}
use lucent.Preflight.Comprehension.{is_consequential, Comprehension}
use lucent.Preflight.Arguments.{Argument}
use lucent.Preflight.Verdict.{
  block, safe_to_present, Verdict, Issue, is_high, issue_present, danger_present, call_verdict,
  binding_verdict, is_payable, value_verdict, combined, call_dangers, preflight_verdict,
}

-- The value of the call is zero, or the function is declared payable.
abbrev pub IsPaid : Function → ℕ → Type 0
IsPaid f value = (value ≡ 0) ⊎ (is_payable f ≡ true)

abbrev is_bound : List String → Bool
is_bound [] = true
is_bound (x ∷ xs) = false

abbrev is_paid : Function → ℕ → Bool
is_paid f value = nat_beq value 0 || is_payable f

-- the verdict of the call alone
module _ (issues : List Issue) (c : Comprehension) (findings : List Finding)
    (has_format : Bool) where
  call-block : ((call_verdict issues c findings has_format).gate ≡ block) ↔ (
      not has_format || issue_present is_critical issues || danger_present is_critical findings
      ≡ true)
  unfolding call_verdict
  call-block = ground arith

  call-safe : ((call_verdict issues c findings has_format).gate ≡ safe_to_present) ↔ (
      has_format
        && not (issue_present is_critical issues)
        && not (danger_present is_critical findings)
        && not (is_consequential c.tier_of)
        && not (issue_present is_high issues)
        && not (danger_present is_high findings)
      ≡ true)
  unfolding call_verdict
  call-safe = ground arith

combined-block :
    (f : Function) (value : ℕ) (v : Verdict) (unbound : List String)
    → ((combined (value_verdict f value) v (binding_verdict unbound)).gate ≡ block)
      ↔ ((v.gate ≡ block) ⊎ (not (is_paid f value) || not (is_bound unbound) ≡ true))
unfolding combined value_verdict binding_verdict
combined-block f value v [] = ground arith
combined-block f value v (x ∷ xs) = ground arith

combined-safe :
    (f : Function) (value : ℕ) (v : Verdict) (unbound : List String)
    → ((combined (value_verdict f value) v (binding_verdict unbound)).gate ≡ safe_to_present)
      ↔ ((v.gate ≡ safe_to_present) × (is_paid f value && is_bound unbound ≡ true))
unfolding combined value_verdict binding_verdict
combined-safe f value v [] = ground arith
combined-safe f value v (x ∷ xs) = ground arith

severity_low : (s : Severity) → is_critical s ≡ false → is_high s ≡ false → s ≡ low
severity_low critical h k = ground arith
severity_low high h k = ground arith
severity_low medium h k = ground arith
severity_low low h k = refl

module _ {A : Type 0} (severity : A → Severity) where
  pub all_low :
      (xs : List A)
      → any (λ x. is_critical (severity x)) xs ≡ false
      → any (λ x. is_high (severity x)) xs ≡ false
      → Every (λ x. severity x ≡ low) xs
  all_low xs no_critical no_high x inside =
      severity_low (severity x) (any_none (λ y. is_critical (severity y)) x xs no_critical inside)
        (any_none (λ y. is_high (severity y)) x xs no_high inside)

  pub all_low_conv :
      (wanted : Severity → Bool) (xs : List A)
      → wanted low ≡ false
      → Every (λ x. severity x ≡ low) xs
      → any (λ x. wanted (severity x)) xs ≡ false
  all_low_conv wanted xs unwanted every = elim (Bool-cases (any (λ x. wanted (severity x)) xs)) [
    | inr absent ↦ absent
    | inl present ↦
        let (x, (inside, passes)) = any_sound (λ y. wanted (severity y)) xs present in
        absurd (
          let it : severity x ≡ low = every x inside in
          let but : wanted low ≡ true = sym (ap wanted it) ∙ passes in cc)
  ]

  Some_critical :
      (xs : List A)
      → (any (λ x. is_critical (severity x)) xs ≡ true)
        ↔ ((x : A) × (In x xs × (severity x ≡ critical)))
  Some_critical xs = (
    λ h.
        let (x, (inside, passes)) = any_sound (λ y. is_critical (severity y)) xs h in
        (x, (inside, (severity_critical (severity x)).0 passes)),
    λ (x, (inside, worst)).
        any_complete (λ y. is_critical (severity y)) x xs inside
          ((severity_critical (severity x)).1 worst),
  )

-- One of the issues is CRITICAL.
abbrev pub HasCriticalIssue : List Issue → Type 0
HasCriticalIssue issues = (x : Issue) × (In x issues × (x.severity ≡ critical))

-- One of the danger findings is CRITICAL.
abbrev pub HasCriticalDanger : List Finding → Type 0
HasCriticalDanger findings = (x : Finding) × (In x findings × (x.severity ≡ critical))

any_of_three : (a b c : Bool) → (not a || b || c ≡ true) ↔ ((a ≡ false) ⊎ ((b ≡ true) ⊎ (c ≡ true)))
any_of_three a b c = ground arith

is_paid-IsPaid : (f : Function) (value : ℕ) → (is_paid f value ≡ true) ↔ IsPaid f value
is_paid-IsPaid f value = ground (arith, nat_beq_iff value 0)

bound_iff : (unbound : List String) → (is_bound unbound ≡ true) ↔ (unbound ≡ [])
bound_iff [] = (λ h. refl, λ h. refl)
bound_iff (x ∷ xs) = (λ h. cc, λ h. cc)

module _ (issues : List Issue) (c : Comprehension) (findings : List Finding)
    (has_format : Bool) where
  call-block_iff :
      ((call_verdict issues c findings has_format).gate ≡ block)
      ↔ ((has_format ≡ false) ⊎ (HasCriticalIssue issues ⊎ HasCriticalDanger findings))
  unfolding issue_present danger_present
  call-block_iff = (
    λ h. elim ((any_of_three _ _ _).0 ((call-block issues c findings has_format).0 h)) [
      | inl no_format ↦ inl no_format
      | inr (inl issue) ↦ inr (inl ((Some_critical (λ (x : Issue). x.severity) issues).0 issue))
      | inr (inr danger) ↦
          inr (inr ((Some_critical (λ (x : Finding). x.severity) findings).0 danger))
    ],
    λ h. (call-block issues c findings has_format).1 (
        (any_of_three _ _ _).1 (elim h [
          | inl no_format ↦ inl no_format
          | inr (inl issue) ↦ inr (inl ((Some_critical (λ (x : Issue). x.severity) issues).1 issue))
          | inr (inr danger) ↦
              inr (inr ((Some_critical (λ (x : Finding). x.severity) findings).1 danger))
        ])),
  )

  call-safe_iff : ((call_verdict issues c findings has_format).gate ≡ safe_to_present) ↔ (
      (has_format ≡ true)
      × (Every (λ (x : Issue). x.severity ≡ low) issues
          × (Every (λ (x : Finding). x.severity ≡ low) findings
              × (is_consequential c.tier_of ≡ false))))
  unfolding issue_present danger_present
  call-safe_iff = (
    λ h.
        let all = (call-safe issues c findings has_format).0 h in
        let (shown, (i, (d, (calm, (i', d'))))) = six _ _ _ _ _ _ all in
        (
          shown,
          (
            all_low (λ (x : Issue). x.severity) issues i i',
            (all_low (λ (x : Finding). x.severity) findings d d', calm),
          ),
        ),
    λ (shown, (low_issues, (low_dangers, calm))).
        let i = all_low_conv (λ (x : Issue). x.severity) is_critical issues refl low_issues in
        let i' = all_low_conv (λ (x : Issue). x.severity) is_high issues refl low_issues in
        let d = all_low_conv (λ (x : Finding). x.severity) is_critical findings refl low_dangers in
        let d' = all_low_conv (λ (x : Finding). x.severity) is_high findings refl low_dangers in
        (call-safe issues c findings has_format).1 (ands shown i d calm i' d'),
  )
    where
      six :
          (a b c d e f : Bool)
          → a && not b && not c && not d && not e && not f ≡ true
          → (a ≡ true) × ((b ≡ false) × ((c ≡ false) × ((d ≡ false) × ((e ≡ false) × (f ≡ false)))))
      six a b c d e f h = ground arith

      ands :
          {a b c d e f : Bool}
          → a ≡ true
          → b ≡ false
          → c ≡ false
          → d ≡ false
          → e ≡ false
          → f ≡ false
          → a && not b && not c && not d && not e && not f ≡ true
      ands p q r s t u = ground arith

module _ (f : Function) (decoded : List Argument) (value : ℕ) (has_format : Bool)
    (issues : List Issue) (c : Comprehension) (unbound : List String) where
  -- The verdict on a call is to block it exactly in five cases: it sends value to a function that is
  -- not payable, the function has no format, the audit has a CRITICAL finding, the function has a
  -- CRITICAL danger that the arguments leave standing, or the binding of the screen has a finding.
  pub preflight_verdict-block_iff :
      ((preflight_verdict f decoded value has_format issues c unbound).gate ≡ block) ↔ (
        ((has_format ≡ false)
          ⊎ (HasCriticalIssue issues ⊎ HasCriticalDanger (call_dangers f decoded)))
        ⊎ ((¬ IsPaid f value) ⊎ (unbound ≢ [])))
  unfolding preflight_verdict
  preflight_verdict-block_iff =
      either_iff
        (combined-block f value (call_verdict issues c (call_dangers f decoded) has_format) unbound)
        (call-block_iff issues c (call_dangers f decoded) has_format)
        (not_iff _ _ (is_paid-IsPaid f value) (bound_iff unbound))

  -- The verdict on a call is that it is safe to present exactly when it sends no value or the
  -- function is payable, the function has a format, no finding of the audit and no danger that the
  -- arguments leave standing is above LOW, the tier is neither CRITICAL nor HIGH, and the binding
  -- of the screen has no finding.
  pub preflight_verdict-safe_iff :
      ((preflight_verdict f decoded value has_format issues c unbound).gate ≡ safe_to_present) ↔ (
        ((has_format ≡ true)
          × (Every (λ (x : Issue). x.severity ≡ low) issues
              × (Every (λ (x : Finding). x.severity ≡ low) (call_dangers f decoded)
                  × (is_consequential c.tier_of ≡ false))))
        × (IsPaid f value × (unbound ≡ [])))
  unfolding preflight_verdict
  preflight_verdict-safe_iff =
      both_iff
        (combined-safe f value (call_verdict issues c (call_dangers f decoded) has_format) unbound)
        (call-safe_iff issues c (call_dangers f decoded) has_format)
        (and_iff _ _ (is_paid-IsPaid f value) (bound_iff unbound))
