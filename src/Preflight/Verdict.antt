-- ===== src/Preflight/Verdict.antt =====
-- lucent/preflight.py, the policy: how the findings on a descriptor or on one call become a
-- verdict. Findings, not grades, drive the gate.
pub mod Laws
pub mod Dangerous
pub mod Consequence
pub mod Overall
use lucent.Prelude.{
  ℕ, Text, lower, starts_with, occurs, any, filter, codes, codes_eq, string_eq, nat_beq, String,
  Option, none, some, List, [], ◌∷◌, ◌++◌, ◌^◌, ◌-◌, Bool, true, false, not, ◌&&◌, ◌||◌,
  if◌then◌else◌, ◌==◌,
}
use lucent.Preflight.Abi.{Function}
use lucent.Preflight.Comprehension.{Tier, is_consequential, Comprehension}
use lucent.Preflight.Arguments.{Value, boolean, shown, Argument, first_bool, is_withdrawn}
use lucent.Preflight.Danger.{
  Severity, critical, high, medium, low, is_critical, Finding, assess, sort, Scan, scan_abi,
}

pub data Gate : Type 0 where
  block : Gate
  review : Gate
  safe_to_present : Gate

pub record Verdict : Type 0 where
  pub gate : Gate
  pub code : String
  pub reason : String

abbrev pub verdict : Gate → String → String → Verdict
verdict gate code reason = record { gate = gate; code = code; reason = reason }

-- A finding of the audit.
pub record Issue : Type 0 where
  pub severity : Severity
  pub function : Text
  pub issue : String

abbrev pub is_high : Severity → Bool
is_high critical = false
is_high high = true
is_high medium = true
is_high low = false

-- `_severity_present`: CRITICAL, or HIGH and MEDIUM, of the audit and of the danger scan
unfoldable pub issue_present : (Severity → Bool) → List Issue → Bool
issue_present wanted issues = any (λ x. wanted x.severity) issues

unfoldable pub danger_present : (Severity → Bool) → List Finding → Bool
danger_present wanted findings = any (λ x. wanted x.severity) findings

-- the danger findings and the number of signable functions come from one scan
unfoldable pub overall_verdict : List Issue → Scan → Tier → Verdict
unfolding issue_present danger_present
overall_verdict issues s worst_tier =
    if nat_beq s.signable_count 0
    then verdict block "NO_SIGNABLE_FUNCTIONS"
        "the ABI contains no transaction function Lucent can assess"
    else if issue_present is_critical issues
    then verdict block "PRESENTATION_CRITICAL"
        "a CRITICAL presentation defect hides information required to sign"
    else if danger_present is_critical s.danger_findings
    then verdict block "DANGER_CRITICAL" "the ABI exposes a CRITICAL structural danger primitive"
    else if issue_present is_high issues
    then verdict review "PRESENTATION_REVIEW"
        "the descriptor has presentation findings requiring human review"
    else if is_consequential worst_tier
    then verdict review "COMPREHENSION_REVIEW"
        "at least one function has a high-consequence authorization"
    else if danger_present is_high s.danger_findings
    then verdict review "DANGER_REVIEW"
        "the ABI exposes a structural capability requiring human review"
    else verdict safe_to_present "PRESENTATION_CLEAR"
        "no blocking presentation defect or known ABI-pattern danger was found"

-- `reason or "high-consequence authorization"`
abbrev pub reason_or_default : String → String
reason_or_default reason = if reason == "" then "high-consequence authorization" else reason

unfoldable pub call_verdict : List Issue → Comprehension → List Finding → Bool → Verdict
unfolding issue_present danger_present
call_verdict issues c findings has_format =
    if not has_format
    then verdict block "MISSING_CLEAR_SIGNING_FORMAT"
        "the selected function has no exact clear-signing format"
    else if issue_present is_critical issues
    then verdict block "PRESENTATION_CRITICAL"
        "the selected screen hides information required to sign"
    else if danger_present is_critical findings
    then verdict block "DANGER_CRITICAL"
        "the selected function exposes a CRITICAL ABI-pattern danger"
    else if is_consequential c.tier_of
    then verdict review
        (if c.unlimited_approval then "UNLIMITED_APPROVAL" else "COMPREHENSION_REVIEW")
        (reason_or_default c.reason)
    else if issue_present is_high issues
    then verdict review "PRESENTATION_REVIEW"
        "the selected screen has presentation findings requiring review"
    else if danger_present is_high findings
    then verdict review "DANGER_REVIEW"
        "the selected function has a structural capability requiring review"
    else verdict safe_to_present "PRESENTATION_CLEAR"
        "the selected call is clear enough to present to a signer"

-- `_binding_verdict`, on the findings of the presentation binding
unfoldable pub binding_verdict : List String → Option Verdict
binding_verdict [] = none
binding_verdict (x ∷ xs) = some (
    verdict block "PRESENTATION_UNBOUND"
      "the selected screen does not visibly bind every signed call value")

-- `payable is True`
abbrev pub declared : Option Bool → Bool
declared (some true) = true
declared _ = false

unfoldable pub is_payable : Function → Bool
is_payable f = elim f.state_mutability [
  | some mutability ↦ mutability == "payable"
  | none ↦ declared f.payable
]

unfoldable pub value_verdict : Function → ℕ → Option Verdict
unfolding is_payable
value_verdict f value =
    if nat_beq value 0
    then none
    else if is_payable f
    then none
    else some (
        verdict block "NONPAYABLE_WITH_VALUE"
          "the transaction sends native value to a function not declared payable")

-- `x or y`
abbrev pub or_else {ℓ} : {A : Type ℓ} → Option A → A → A
or_else none y = y
or_else (some x) y = x

abbrev pub is_block : Gate → Bool
is_block block = true
is_block _ = false

-- how `preflight_transaction` combines the three verdicts
unfoldable pub combined : Option Verdict → Verdict → Option Verdict → Verdict
combined (some v) analyzer binding = v
combined none analyzer binding =
    if is_block analyzer.gate then analyzer else or_else binding analyzer

unfoldable pub apply_call_dependent_danger : Function → List Argument → List Finding → List Finding
apply_call_dependent_danger f decoded findings =
    if not (lower f.name == codes "setapprovalforall")
    then findings
    else if is_withdrawn (first_bool decoded)
    then filter (λ x. not (x.primitive == "unbounded-delegation")) findings
    else findings

-- The danger findings of `preflight_transaction`.
unfoldable pub call_dangers : Function → List Argument → List Finding
unfolding apply_call_dependent_danger assess
call_dangers f decoded = sort (apply_call_dependent_danger f decoded (assess f))

-- The verdict of `preflight_transaction`, from the results of the audit, the comprehension and the
-- binding of the selected screen.
unfoldable pub preflight_verdict :
    Function → List Argument → ℕ → Bool → List Issue → Comprehension → List String → Verdict
unfolding combined value_verdict call_verdict binding_verdict call_dangers
preflight_verdict f decoded value has_format issues c unbound =
    combined (value_verdict f value) (call_verdict issues c (call_dangers f decoded) has_format)
      (binding_verdict unbound)
