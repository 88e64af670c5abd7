-- ===== src/Api/Admission.antt =====
-- lucent/api.py, `transaction_preflight` before its `try`: who may call, and what a repeated call
-- gets.
pub mod Replay
use lucent.Prelude.{
  ℕ, Text, String, string_eq, codes, decimal, nat_beq, Option, none, some, List, [], ◌∷◌, Bool,
  ◌||◌, Result, ok, err, pure, lift, ◌>>=◌,
}
use lucent.Prelude.Dict.{get, set, erase}
use lucent.Access.Errors.{ceil_seconds}
use lucent.Access.Auth.{authenticate}
use lucent.Access.Quota.{QuotaReceipt, token_unit}
use lucent.Access.Controller.{authorize, reserve_idempotency}
use lucent.Access.Idempotency.Response.{Response}
use lucent.Access.Idempotency.Store.{Reservation, Decision, granted, replay}
use lucent.Access.Idempotency.Methods.{reserve}
use lucent.Payments.Errors.{PaymentError, rejected}
use lucent.Payments.Settle.{assert_replay_proof}
use lucent.Api.Problems.{Headers, Failure, of_payment, Problem}
use lucent.Api.Service.{
  AccessMode, open_access, api_key_access, api_key_or_x402, Service, Request, Timeline, Step,
  on_controller, on_payments, key_text,
}

-- What the handler returns: a response, or a problem.
pub data Answer : Type 0 where
  served : Response → Answer
  refused : Problem → Answer

-- `reservation` and `idempotency_store`; a paid request has its signature and key besides.
pub data Ticket : Type 0 where
  unkeyed : Ticket
  keyed : Reservation → Ticket
  paid : Reservation → Text → String → Ticket

pub data Admission : Type 0 where
  answered : Answer → Admission
  admitted : Ticket → Headers → Admission

abbrev pub proof_header : String
proof_header = "Lucent-Internal-Payment-Proof"

-- `verified_source.RPC_ENDPOINTS`
abbrev pub has_endpoint : ℕ → Bool
has_endpoint chain_id = nat_beq chain_id 1 || nat_beq chain_id 8453

-- `_quota_headers`
unfoldable pub quota_headers : QuotaReceipt → Headers
quota_headers q =
    ("X-RateLimit-Limit", decimal q.limit)
    ∷ ("X-RateLimit-Remaining", decimal q.remaining)
    ∷ ("X-RateLimit-Reset", decimal (ceil_seconds q.reset_after))
    ∷ []

-- `dict.update`, of a dictionary that `d` starts with
abbrev pub updated : Headers → Headers → Headers
updated d [] = d
updated d ((name, value) ∷ rest) = updated (set name value d) rest

-- `headers.setdefault(name, value)`
abbrev pub with_default : String → String → Headers → Headers
with_default name value headers = elim (get name headers) [
  | none ↦ set name value headers
  | some _ ↦ headers
]

module _ (svc : Service) where
  -- The check of the payment proof that a cached paid response names.
  unfoldable pub check_proof : Option String → Option Text → Result PaymentError (Unit {0})
  check_proof none signature = ok tt
  check_proof (some expected) none =
      err
        (rejected "PAYMENT_REPLAY_PROOF_MISMATCH" "paid replay requires the original payment proof")
  check_proof (some expected) (some signature) =
      assert_replay_proof svc.library signature (codes expected)

  -- `_replay_response`
  unfoldable pub replay_response : Response → Option Text → Headers → Result Failure Answer
  unfolding check_proof
  replay_response cached signature overrides =
      let headers = updated [] cached.headers in
      elim (check_proof (get proof_header headers) signature) [
        | err e ↦ err (of_payment e)
        | ok _ ↦ ok (
            served (record {
              status_code = cached.status_code;
              body = svc.reissue cached.body;
              headers = with_default "Content-Type" "application/json" (
                  updated (set "Idempotency-Replayed" "true" (erase proof_header headers))
                    overrides);
            }))
      ]

  -- `_payment_required`
  unfoldable pub payment_required : Result Failure Answer
  payment_required = elim (svc.challenge none) [
    | err e ↦ err (of_payment e)
    | ok value ↦ ok (
        refused (record {
          status = 402;
          code = "PAYMENT_REQUIRED";
          title = "Payment Required";
          detail =
              "submit an x402 v2 PAYMENT-SIGNATURE and a unique Idempotency-Key for this preflight request";
          headers = ("PAYMENT-REQUIRED", value) ∷ [];
        }))
  ]

  unfoldable pub decided_key : Headers → Decision → Step Admission
  unfolding replay_response
  decided_key headers (granted reservation) = pure (admitted (keyed reservation) headers)
  decided_key headers (replay response) = do
    answer ← lift (replay_response response none headers)
    pure (answered answer)

  -- the branch of an API key, which charges the tenant one token
  unfoldable pub admit_key : Timeline → Request → List ℕ → Step Admission
  unfolding decided_key quota_headers
  admit_key t request api_key = do
    grant ← on_controller (authorize svc.api_digest t.charging (some api_key) token_unit)
    key ← lift (key_text request.idempotency_key)
    decision ← on_controller (
        reserve_idempotency svc.key_digest t.reserving t.token grant.tenant key request.fingerprint)
    decided_key (("X-Lucent-Access", "api_key") ∷ quota_headers grant.quota) decision

  unfoldable pub decided_payment : Text → String → Decision → Step Admission
  unfolding replay_response
  decided_payment signature key (granted reservation) =
      pure (admitted (paid reservation signature key) (("X-Lucent-Access", "x402") ∷ []))
  decided_payment signature key (replay response) = do
    answer ← lift (replay_response response (some signature) [])
    pure (answered answer)

  -- the branch of a payment
  unfoldable pub admit_payment : Timeline → Request → Option Text → Step Admission
  unfolding decided_payment payment_required
  admit_payment t request none = do answer ← lift payment_required; pure (answered answer)
  admit_payment t request (some signature) = do
    key ← lift (key_text request.idempotency_key)
    decision ←
        on_payments (reserve svc.key_digest t.reserving t.token "x402" key request.fingerprint)
    decided_payment signature key decision

  abbrev pub open_label : Headers
  open_label = ("X-Lucent-Access", "open") ∷ []

  -- the branches on the access mode, for a mode that is not disabled
  unfoldable pub admit_mode : AccessMode → Timeline → Request → Option (List ℕ) → Step Admission
  unfolding admit_key admit_payment
  admit_mode open_access t request api_key = pure (admitted unkeyed open_label)
  admit_mode api_key_access t request (some api_key) = admit_key t request api_key
  admit_mode api_key_access t request none = do
    tenant ← on_controller (λ c. (authenticate svc.api_digest c.authenticator none, c))
    pure (admitted unkeyed open_label)
  admit_mode api_key_or_x402 t request (some api_key) = admit_key t request api_key
  admit_mode mode t request api_key = admit_payment t request request.payment_signature
