-- ===== src/Payments/Tests.antt =====
-- The theorems about lucent/payments.py, at a payment of one cent.
use lucent.Prelude.{
  ◌+◌, leb, ◌&&◌, err, true, String, string_eq, Text, codes, Option, none, some, ◌++◌, ◌||◌, ◌==◌,
  if◌then◌else◌, ◌*◌, none, some, [], ◌∷◌, ok, ◌≡◌, ◌↔◌, Result, refl,
}
use lucent.Payments.Terms.{Requirements, Field, Field.text, Authorization, Payload, Canonical}
use lucent.Payments.Gateway.{
  raised, Config, returned, failed, Verification, Settlement, Facilitator, Library, decoded, Call,
  verify_call, settle_call, VerifiedPayment, Receipt, build_requirements, verify, second,
}
use lucent.Payments.Errors.{PaymentError, unavailable}
use lucent.Payments.Gateway.Preliminary.{settle_count}
use lucent.Payments.Gateway.Laws.{verify-IsVerified, IsVerified}
use lucent.Payments.Settle.{settle, verify_and_settle}
use lucent.Payments.Settle.Laws.{
  is_final, IsFinal, settle-IsFinal, settle_count-verify_and_settle, settle_receipt, IsReceipt,
}
use lucent.Payments.Config.{Url, Settings, from_env}
use lucent.Payments.Config.Laws.{IsConfigured, from_env-IsConfigured}
use lucent.Payments.Json.{
  Json, boolean, string, object, nil, cons, no_fuel, validate_facilitator_json,
  max_facilitator_json_nodes,
}
use lucent.Payments.Json.Laws.{
  is_ok, node_count, is_bounded, validate_facilitator_json_lem, validate_facilitator_json_ends,
}
use lucent.Payments.Client.{Exchange, unreachable, broken_off, urllib_client}
use lucent.Payments.Client.Laws.{IsPassing, urllib_client-IsPassing, settle_count-urllib_client}
use lucent.Payments.Sample.{
  payer, payee, config, payload, library, facilitator, signature, verified, receipt, broken,
}

verify_run :
    verify library facilitator config (some (1100 * second)) signature none []
    ≡ (ok verified, verify_call payload (build_requirements config) ∷ [])
unfolding verify lucent.Payments.Terms.same_terms lucent.Payments.Terms.authorization_fingerprint
    lucent.Payments.Gateway.payer_of lucent.Payments.Terms.proof_fingerprint
verify_run = refl

verify-IsVerified_example :
    IsVerified library facilitator config (some (1100 * second)) signature none verified
    × ((verify_call payload (build_requirements config) ∷ [])
        ≡ verify_call payload (build_requirements config) ∷ [])
verify-IsVerified_example =
    verify-IsVerified library facilitator config (some (1100 * second)) signature none [] verified
      (verify_call payload (build_requirements config) ∷ []) verify_run

settle_count-verify_and_settle_example :
    settle_count
      (verify_and_settle library facilitator config (some (1100 * second)) signature []).1
    ≡ 1
unfolding verify_and_settle verify lucent.Payments.Terms.same_terms
    lucent.Payments.Terms.authorization_fingerprint lucent.Payments.Gateway.payer_of
    lucent.Payments.Terms.is_hash lucent.Payments.Gateway.require_enabled
settle_count-verify_and_settle_example =
    settle_count-verify_and_settle library facilitator config (some (1100 * second)) signature []
      (λ p r e h. absurd (cc)) refl

settle_run :
    settle library facilitator config verified []
    ≡ (ok receipt, settle_call payload (build_requirements config) ∷ [])
unfolding settle lucent.Payments.Gateway.require_enabled lucent.Payments.Terms.is_hash
settle_run = refl

settle_receipt_example :
    ((settle_call payload (build_requirements config) ∷ [])
      ≡ settle_call payload (build_requirements config) ∷ [])
    × ((s : Settlement) × ((facilitator.settle payload (build_requirements config) ≡ returned s)
          × IsReceipt config verified s receipt))
settle_receipt_example =
    settle_receipt library facilitator config verified [] receipt
      (settle_call payload (build_requirements config) ∷ []) settle_run

settle-IsFinal_example :
    IsFinal (settle library broken config verified []).0
    × ((settle library broken config verified []).1
        ≡ settle_call payload (build_requirements config) ∷ [])
settle-IsFinal_example = settle-IsFinal library broken config verified [] refl

-- Every text parses to the URL of the resource at an allowed host.
abbrev urlsplit : Text → Result String Url
urlsplit t = ok (record {
  scheme = codes "https";
  netloc = codes "x402.org";
  hostname = some (codes "x402.org");
  username = none;
  password = none;
  port = ok none;
  path = codes "/v1/preflight";
  query = [];
  fragment = [];
})

abbrev env : String → Option Text
env name =
    if name == "LUCENT_X402_ENABLED"
    then some (codes " True ")
    else if name == "LUCENT_X402_PAY_TO"
    then some payee
    else if name == "LUCENT_X402_RESOURCE_URL" || name == "LUCENT_X402_FACILITATOR_URL"
    then some (codes "https://x402.org/v1/preflight")
    else none

abbrev settings : Settings
settings = record {
  terms = record config { resource_url = some (codes "x402.org/v1/preflight") };
  facilitator_url = some (codes "x402.org/v1/preflight");
  bearer_token = none;
  facilitator_timeout = 8_000_000_000;
}

settings_run :
    from_env urlsplit
      (λ path. "/v1/preflight")
      (λ netloc path. netloc ++ path)
      (λ t. some (some 8_000_000_000))
      env
    ≡ ok settings
unfolding from_env lucent.Payments.Terms.is_address
settings_run = refl

from_env-IsConfigured_example : IsConfigured urlsplit env settings
from_env-IsConfigured_example =
    from_env-IsConfigured urlsplit (λ path. "/v1/preflight") (λ netloc path. netloc ++ path)
      (λ t. some (some 8_000_000_000)) env settings settings_run refl

-- `{"isValid": true, "payer": "0x..."}`
abbrev accepting : Json
accepting = object (cons (boolean true) (cons (string payer) nil))

validate_facilitator_json_lem_example :
    is_ok (validate_facilitator_json accepting)
    ≡ leb (node_count accepting) max_facilitator_json_nodes && is_bounded 0 accepting
validate_facilitator_json_lem_example = validate_facilitator_json_lem accepting

validate_facilitator_json_ends_example : ¬ (validate_facilitator_json accepting ≡ err no_fuel)
validate_facilitator_json_ends_example = validate_facilitator_json_ends accepting

-- A client that does not reach the facilitator, or is cut off at the settlement.
abbrev offline : Facilitator
offline = urllib_client (λ p r. unreachable) (λ p r. broken_off) (λ value. none) λ value. none

abbrev down : PaymentError
down = unavailable "FACILITATOR_UNAVAILABLE" "payment facilitator is temporarily unavailable"

urllib_client-IsPassing_example :
    ((offline.verify payload (build_requirements config) ≡ raised down → IsPassing down)
      × (offline.settle payload (build_requirements config) ≡ raised down → IsPassing down))
    × (((offline.verify payload (build_requirements config) ≡ failed)
          ↔ (◌≡◌ {A = Exchange} unreachable broken_off))
        × ((offline.settle payload (build_requirements config) ≡ failed)
            ↔ (◌≡◌ {A = Exchange} broken_off broken_off)))
urllib_client-IsPassing_example =
    urllib_client-IsPassing (λ p r. unreachable) (λ p r. broken_off) (λ value. none) (λ value. none)
      payload (build_requirements config) down

settle_count-urllib_client_example :
    settle_count (verify_and_settle library offline config (some (1100 * second)) signature []).1
    ≡ 0
      + (if is_final
            (verify_and_settle library offline config (some (1100 * second)) signature []).0
          then 1
          else 0)
settle_count-urllib_client_example =
    settle_count-urllib_client library (λ p r. unreachable) (λ p r. broken_off) (λ value. none)
      (λ value. none) config (some (1100 * second)) signature [] refl
