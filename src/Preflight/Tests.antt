-- ===== src/Preflight/Tests.antt =====
-- Concrete calls, and the theorems on them.
use lucent.Prelude.{
  codes, Option, none, some, List, [], ◌∷◌, true, false, ◌≡◌, ◌↔◌, refl, inl, inr, ◌<◌, ◌⊎◌, ℕ, ok,
  Text, In, arith, ap,
}
use lucent.Preflight.Quantity.{text, printed, parse_value}
use lucent.Preflight.Quantity.Laws.{parse_value-printed}
use lucent.Preflight.Abi.{
  input, no_components, Function, function_entry, signable_functions, signature,
}
use lucent.Preflight.Danger.{low, medium, scan_abi, is_call_fn}
use lucent.Preflight.Danger.Laws.{scan_abi-findings, scan_abi-worst_iff, IsSorted}
use lucent.Preflight.Comprehension.{Comprehension, tier, Format, is_some, classify}
use lucent.Preflight.Comprehension.Refined.{apply_call_dependent_comprehension}
use lucent.Preflight.Comprehension.Laws.{IsRevocation}
use lucent.Preflight.Verdict.Consequence.{IsClearTransfer, preflight_verdict-classify}
use lucent.Preflight.Arguments.{shown, Argument}
use lucent.Preflight.Request.{
  resolve_call, Deployment, boolean, natural, string, deployment, no_object, deployment_matches,
}
use lucent.Payments.Terms.{is_address}
use lucent.Preflight.Request.Laws.{IsCalled, resolve_call_sound, IsNamed, deployment_matches_iff}
use lucent.Preflight.Verdict.{
  block, safe_to_present, Issue, preflight_verdict, call_dangers, is_payable,
}
use lucent.Preflight.Verdict.Laws.{IsPaid, preflight_verdict-block_iff, preflight_verdict-safe_iff}
use lucent.Preflight.Verdict.Dangerous.{preflight_verdict-call_fn}

abbrev transfer : Function
transfer = record {
  entry_type = function_entry;
  name = codes "transfer";
  inputs =
      input (codes "to") (codes "address") no_components
      ∷ input (codes "amount") (codes "uint256") no_components
      ∷ [];
  state_mutability = some "nonpayable";
  payable = none;
}

abbrev execute : Function
execute = record {
  entry_type = function_entry;
  name = codes "execute";
  inputs = input (codes "data") (codes "bytes") no_components ∷ [];
  state_mutability = some "payable";
  payable = none;
}

abbrev decoded_transfer : List Argument
decoded_transfer =
    record { name = codes "to"; abi_type = codes "address"; value = shown (codes "0xabc") }
    ∷ record { name = codes "amount"; abi_type = codes "uint256"; value = shown (codes "5") }
    ∷ []

abbrev moves : Comprehension
moves = record {
  tier_of = tier medium;
  reason = "moves value out of your wallet now";
  sentence = codes "You send {amount} to {to} now.";
  unlimited_approval = false;
  revocation = false;
}

abbrev hint : Issue
hint = record { severity = low; function = codes "transfer"; issue = "no interpolatedIntent" }

signature-transfer : signature transfer ≡ codes "transfer(address,uint256)"
unfolding signature
signature-transfer = refl

preflight_verdict-safe_iff_example :
    (preflight_verdict transfer decoded_transfer 0 true (hint ∷ []) moves []).gate ≡ safe_to_present
unfolding call_dangers
preflight_verdict-safe_iff_example =
    (preflight_verdict-safe_iff transfer decoded_transfer 0 true (hint ∷ []) moves []).1
      ((refl, (only_hint, (λ x h. elim h [ ], refl))), (inl refl, refl))
  where
    only_hint : (x : Issue) → In x (hint ∷ []) → x.severity ≡ low
    only_hint x (inl same) = ap (λ (y : Issue). y.severity) same
    only_hint x (inr h) = elim h [ ]

unpaid_transfer : ¬ IsPaid transfer 7
unfolding is_payable
unpaid_transfer (inl h) = absurd (omega arith)
unpaid_transfer (inr h) = absurd (cc)

preflight_verdict-block_iff_example :
    (preflight_verdict transfer decoded_transfer 7 true [] moves []).gate ≡ block
preflight_verdict-block_iff_example =
    (preflight_verdict-block_iff transfer decoded_transfer 7 true [] moves []).1
      (inr (inl unpaid_transfer))

preflight_verdict-call_fn_example : (preflight_verdict execute [] 0 true [] moves []).gate ≡ block
unfolding is_call_fn
preflight_verdict-call_fn_example =
    preflight_verdict-call_fn execute [] 0 true [] moves [] refl refl

scan_abi-findings_example : IsSorted (scan_abi (transfer ∷ execute ∷ [])).danger_findings
scan_abi-findings_example = (scan_abi-findings (transfer ∷ execute ∷ [])).0

scan_abi-worst_iff_example : 0 < (scan_abi (transfer ∷ execute ∷ [])).critical_count
unfolding scan_abi
scan_abi-worst_iff_example = (scan_abi-worst_iff (transfer ∷ execute ∷ [])).0 refl

abbrev transfer_format : Format
transfer_format = record {
  intent = some "Send";
  interpolated_intent = none;
  fields =
      record { path = some (codes "#.to"); format = some "addressName"; visible = none }
      ∷ record { path = some (codes "#.amount"); format = some "raw"; visible = none }
      ∷ [];
}

transfer_safe :
    (preflight_verdict transfer decoded_transfer 0
      (is_some (some transfer_format))
      []
      (apply_call_dependent_comprehension transfer decoded_transfer
        (classify transfer (some transfer_format)))
      []).gate
    ≡ safe_to_present
unfolding preflight_verdict classify apply_call_dependent_comprehension
transfer_safe = refl

preflight_verdict-classify_example :
    ((g : Format) × ((◌≡◌ {A = Option Format} (some transfer_format) (some g))
        × IsClearTransfer transfer g))
    ⊎ IsRevocation transfer decoded_transfer
preflight_verdict-classify_example =
    preflight_verdict-classify transfer (some transfer_format) decoded_transfer 0 [] []
      transfer_safe

-- A stand-in for the hash: the signature itself.
abbrev same_text : Text → List ℕ
same_text t = t

transfer_resolved :
    resolve_call same_text (transfer ∷ execute ∷ []) (codes "tran....")
    ≡ ok (transfer, signature transfer)
unfolding resolve_call signable_functions signature
transfer_resolved = refl

resolve_call_sound_example :
    (signature transfer ≡ signature transfer)
    × (IsCalled same_text (transfer ∷ execute ∷ []) (codes "tran....") transfer
        × ((g : Function)
            → IsCalled same_text (transfer ∷ execute ∷ []) (codes "tran....") g
            → g ≡ transfer))
resolve_call_sound_example =
    resolve_call_sound same_text (transfer ∷ execute ∷ []) (codes "tran....") transfer
      (signature transfer) transfer_resolved

abbrev deployments : List Deployment
deployments =
    no_object
    ∷ deployment (boolean true) (string (codes "0xA0b86991c6218b36c1d19D4a2e9Eb0cE3606eB48"))
    ∷ deployment (natural 1) (string (codes "0xA0b86991c6218b36c1d19D4a2e9Eb0cE3606eB48"))
    ∷ []

abbrev usdc : Text
usdc = codes "0xa0b86991c6218b36c1d19d4a2e9eb0ce3606eb48"

deployment_matches_iff_example :
    (deployment_matches (some deployments) 1 usdc ≡ true)
    ↔ ((d : Deployment) × (In d deployments × IsNamed 1 usdc d))
deployment_matches_iff_example = deployment_matches_iff deployments 1 usdc

is_matched : deployment_matches (some deployments) 1 usdc ≡ true
unfolding deployment_matches is_address
is_matched = refl

printed_run : printed 4096 ≡ codes "0x1000"
unfolding printed
printed_run = refl

parse_value-printed_example : parse_value (text (printed 4096)) ≡ ok 4096
parse_value-printed_example = parse_value-printed 4096 (omega arith)
