-- ===== src/Preflight/Verdict/Dangerous.antt =====
-- A call that can do anything is blocked, whatever its screen says.
use lucent.Prelude.{
  lower, codes, codes_eq, string_eq, ◌==◌, In-filter, ℕ, In, String, List, Bool, true, false, not,
  ◌||◌, ◌≡◌, inl, inr, ap, Bool-cases,
}
use lucent.Preflight.Abi.{Function}
use lucent.Preflight.Danger.{
  Finding, among, receiver_hooks, named_target_and_calldata, is_call_fn, assess,
}
use lucent.Preflight.Danger.Laws.{In-sort, external_call-In}
use lucent.Preflight.Comprehension.{Comprehension}
use lucent.Preflight.Arguments.{Argument, first_bool, is_withdrawn}
use lucent.Preflight.Verdict.{
  block, Issue, apply_call_dependent_danger, call_dangers, preflight_verdict,
}
use lucent.Preflight.Verdict.Laws.{preflight_verdict-block_iff}

-- A danger that the arguments leave standing: kept is every danger but an unbounded delegation.
module _ (f : Function) (decoded : List Argument) (x : Finding)
    (kept : not (x.primitive == "unbounded-delegation") ≡ true) where
  apply_call_dependent_danger-In :
      (xs : List Finding) → In x xs → In x (apply_call_dependent_danger f decoded xs)
  unfolding apply_call_dependent_danger
  apply_call_dependent_danger-In xs i =
      elim (Bool-cases (not (lower f.name == codes "setapprovalforall"))) [
        | inl other ↦ rw other i
        | inr approval ↦ elim (Bool-cases (is_withdrawn (first_bool decoded))) [
          | inl withdrawn ↦
              rw (approval, withdrawn)
                (In-filter (λ (y : Finding). not (y.primitive == "unbounded-delegation")) x xs kept
                  i)
          | inr standing ↦ rw (approval, standing) i
        ]
      ]

  call_dangers-In : In x (assess f) → In x (call_dangers f decoded)
  unfolding call_dangers
  call_dangers-In inside =
      (In-sort x (apply_call_dependent_danger f decoded (assess f))).1
        (apply_call_dependent_danger-In (assess f) inside)

-- A call of a function whose name is of the call family, or that takes a call target and calldata
-- by name, and that is not a receiver hook, is blocked: whatever its format, its value, its
-- arguments and the results of the audit, the comprehension and the binding.
pub preflight_verdict-call_fn :
    (f : Function) (decoded : List Argument) (value : ℕ) (has_format : Bool) (issues : List Issue)
    (c : Comprehension) (unbound : List String)
    → among receiver_hooks (lower f.name) ≡ false
    → is_call_fn f || named_target_and_calldata f ≡ true
    → (preflight_verdict f decoded value has_format issues c unbound).gate ≡ block
preflight_verdict-call_fn f decoded value has_format issues c unbound hook call =
    let (x, (inside, (worst, primitive))) = external_call-In f hook call in
    let kept = ap (λ p. not (p == "unbounded-delegation")) primitive in
    (preflight_verdict-block_iff f decoded value has_format issues c unbound).1
      (inl (inr (inr (x, (call_dangers-In f decoded x kept inside, worst)))))
