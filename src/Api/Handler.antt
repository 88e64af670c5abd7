-- ===== src/Api/Handler.antt =====
-- lucent/api.py, `transaction_preflight`: the order of analysis, claim, settlement and answer, and
-- what an exception leaves.
use lucent.Prelude.{
  ℕ, Text, String, string_eq, codes, nat_beq, ltb, length, Option, none, some, List, [], ◌∷◌, true,
  false, not, if◌then◌else◌, Result, ok, err, pure, raise, raise_if, lift, gets, modify, ◌>>=◌,
  ◌>>◌,
}
use lucent.Prelude.Dict.{set}
use lucent.Access.Errors.{access}
use lucent.Access.Idempotency.Response.{Response, from_parts}
use lucent.Access.Idempotency.Store.{Reservation, Decision, granted, replay}
use lucent.Access.Idempotency.Methods.{reserve, commit, abort}
use lucent.Payments.Errors.{PaymentError}
use lucent.Payments.Gateway.{VerifiedPayment, Receipt, verify}
use lucent.Payments.Settle.{settle}
use lucent.Api.Problems.{
  Headers, Failure, of_access, of_payment, of_source, internal, Problem, payment_failure_headers,
}
use lucent.Api.Source.{Assessment, bind_verified_source}
use lucent.Api.Service.{
  disabled, Service, Request, Timeline, Scope, Step, mapped, on_keyed, on_payments, on_claims,
  on_gateway, elapse,
}
use lucent.Api.Admission.{
  Answer, served, refused, Ticket, unkeyed, keyed, paid, Admission, answered, admitted,
  proof_header, has_endpoint, updated, admit_mode,
}
use lucent.Api.Hosted.{max_cached_result_bytes}

-- A verified payment, with the reservation of its authorization.
pub record Claim : Type 0 where
  pub payment : VerifiedPayment
  pub reservation : Reservation

unfoldable pub hold : Decision → Step Reservation
hold (granted reservation) s = (ok reservation, record s { claim = some reservation })
hold (replay response) s = (
  err (
      of_payment (record {
        code = "PAYMENT_AUTHORIZATION_ALREADY_USED";
        message = "this payment authorization has already been consumed";
        status = 409;
        retryable = false;
        terminal = true;
      })),
  s,
)

-- `try: ... except access.AccessError`, by how the body of the `try` has ended
unfoldable pub rescued : Result Failure (Unit {0}) → Step (Unit {0}) → Step (Unit {0})
rescued (ok _) handler = pure tt
rescued (err (of_access (access e))) handler = handler
rescued (err e) handler = raise e

unfoldable pub rescue : Step (Unit {0}) → Step (Unit {0}) → Step (Unit {0})
unfolding rescued
rescue m handler s = let (r, s') = m s in rescued r handler s'

module _ (svc : Service) where
  -- the verification of the payment, and the claim on its authorization
  unfoldable pub claim_payment : Timeline → Request → Text → String → Step Claim
  unfolding hold
  claim_payment t request signature key = do
    raise_if (not (has_endpoint request.chain_id))
        (of_source "UNSUPPORTED_CHAIN" "chain_id is not enabled for verified resolution")
    elapse svc.key_digest t.while_verifying
    payment ←
        on_gateway
          (verify svc.library svc.facilitator svc.payment t.paying signature (some (codes key)))
    decision ← on_claims (
        reserve svc.key_digest t.claiming t.claim_token "x402-authorization"
          (svc.shown payment.authorization_fingerprint) request.fingerprint)
    reservation ← hold decision
    pure (record { payment = payment; reservation = reservation })

  -- the analysis that is bound to the source, as the bytes of the response
  unfoldable pub assess : Timeline → Request → Assessment → Step (List ℕ)
  assess t request baseline = do
    elapse svc.key_digest t.while_binding
    result ←
        lift (
          bind_verified_source request.source request.chain_id request.to request.analysis baseline)
    body ← lift (request.response result)
    raise_if (ltb max_cached_result_bytes (length body)) internal
    pure body

  -- `_commit_payment_claim`
  unfoldable pub commit_claim : Timeline → Reservation → Step (Unit {0})
  commit_claim t reservation = do
    tombstone ←
        lift
          (mapped of_access (from_parts 204 [] (("Content-Type", "application/octet-stream") ∷ [])))
    on_claims (commit t.claim_committing reservation tombstone)

  abbrev pub terminal_problem : PaymentError → Problem
  terminal_problem e = record {
    status = e.status;
    code = e.code;
    title = if nat_beq e.status 402 then "Payment Required" else "Payment Dependency Failed";
    detail = e.message;
    headers = [];
  }

  -- the response that is kept for a terminal error
  unfoldable pub terminal_response :
      VerifiedPayment → PaymentError → Headers → Result Failure Response
  terminal_response payment e headers = mapped of_access (
      from_parts e.status (svc.render (terminal_problem e)) (
        updated
          (("Content-Type", "application/problem+json")
            ∷ (proof_header, svc.shown payment.proof_fingerprint)
            ∷ [])
          headers))

  -- `_commit_terminal_payment_failure`
  unfoldable pub commit_terminal :
      Timeline → Reservation → VerifiedPayment → PaymentError → Step (Unit {0})
  unfolding rescue terminal_response
  commit_terminal t reservation payment e = do
    headers ← lift (mapped of_payment (payment_failure_headers (some svc.challenge) e))
    terminal ← lift (terminal_response payment e headers)
    rescue (on_payments (commit t.committing reservation terminal)) (pure tt)

  unfoldable pub after_settlement :
      Timeline → Reservation → VerifiedPayment → Result PaymentError Receipt → Step Receipt
  unfolding commit_terminal
  after_settlement t reservation payment (ok receipt) = pure receipt
  after_settlement t reservation payment (err e) =
      commit_terminal t reservation payment e >> raise (of_payment e)

  -- `await runtime.payments.settle(verified_payment)`, and what becomes of its error
  unfoldable pub settle_payment : Timeline → Reservation → VerifiedPayment → Step Receipt
  unfolding after_settlement
  settle_payment t reservation payment s =
      let (r, calls) = settle svc.library svc.facilitator svc.payment payment s.calls in
      after_settlement t reservation payment r (record s { calls = calls })

  -- the claim, written ahead of the settlement
  unfoldable pub settle_claim : Timeline → Reservation → Claim → Step Receipt
  unfolding commit_claim settle_payment
  settle_claim t reservation claim = do
    commit_claim t claim.reservation
    modify (λ (s : Scope). record s { attempted = true })
    elapse svc.key_digest t.while_settling
    settle_payment t reservation claim.payment

  -- the part of a paid request before the analysis is bound
  unfoldable pub claim_ticket : Timeline → Request → Ticket → Step (Option Claim)
  unfolding claim_payment
  claim_ticket t request (paid reservation signature key) = do
    claim ← claim_payment t request signature key
    pure (some claim)
  claim_ticket t request ticket = pure none

  -- the part after it: the headers of the response
  unfoldable pub settle_ticket : Timeline → Ticket → Option Claim → Headers → Step Headers
  unfolding settle_claim
  settle_ticket t (paid reservation signature key) (some claim) headers = do
    receipt ← settle_claim t reservation claim
    pure (set "PAYMENT-RESPONSE" (svc.shown receipt.response_header) headers)
  settle_ticket t ticket claim headers = pure headers

  -- `idempotency_store.abort(reservation)`
  unfoldable pub abort_ticket : Timeline → Ticket → Step (Unit {0})
  abort_ticket t unkeyed = pure tt
  abort_ticket t (keyed reservation) = on_keyed (abort t.aborting reservation) >>= λ _. pure tt
  abort_ticket t (paid reservation signature key) =
      on_payments (abort t.aborting reservation) >>= λ _. pure tt

  unfoldable pub abort_claim : Timeline → Option Reservation → Step (Unit {0})
  abort_claim t none = pure tt
  abort_claim t (some reservation) = on_claims (abort t.claim_aborting reservation) >>= λ _. pure tt

  -- `idempotency_store.commit(reservation, cached)`
  unfoldable pub commit_ticket : Timeline → Ticket → Response → Step (Unit {0})
  commit_ticket t unkeyed cached = pure tt
  commit_ticket t (keyed reservation) cached = on_keyed (commit t.committing reservation cached)
  commit_ticket t (paid reservation signature key) cached =
      on_payments (commit t.committing reservation cached)

  unfoldable pub cached_headers : Option Claim → Headers → Headers
  cached_headers none headers = headers
  cached_headers (some claim) headers =
      set proof_header (svc.shown claim.payment.proof_fingerprint) headers

  -- the answer, kept for a replay
  unfoldable pub answer : Timeline → Ticket → Option Claim → List ℕ → Headers → Step Answer
  unfolding rescue abort_ticket commit_ticket cached_headers
  answer t ticket claim body headers = do
    cached ← lift (mapped of_access (from_parts 200 body (cached_headers claim headers)))
    rescue (commit_ticket t ticket cached) do
      attempted ← gets (λ (s : Scope). s.attempted)
      if attempted then pure tt else abort_ticket t ticket
    pure (served (record { status_code = 200; body = body; headers = headers }))

  -- the body of `try`
  unfoldable pub attempt : Timeline → Request → Ticket → Headers → Step Answer
  unfolding claim_ticket assess settle_ticket answer
  attempt t request ticket headers = do
    baseline ← lift request.baseline
    claim ← claim_ticket t request ticket
    body ← assess t request baseline
    paid_headers ← settle_ticket t ticket claim headers
    answer t ticket claim body (set "Content-Type" "application/json" paid_headers)

  -- the handler of exceptions
  unfoldable pub roll_back : Timeline → Ticket → Step (Unit {0})
  unfolding abort_ticket abort_claim
  roll_back t ticket s =
      if s.attempted then (ok tt, s) else (abort_ticket t ticket >> abort_claim t s.claim) s

  unfoldable pub on_failure : Timeline → Ticket → Result Failure Answer → Step Answer
  unfolding roll_back
  on_failure t ticket (ok a) = pure a
  on_failure t ticket (err e) = roll_back t ticket >> raise e

  unfoldable pub proceed : Timeline → Request → Admission → Step Answer
  unfolding attempt on_failure
  proceed t request (answered a) s = (ok a, s)
  proceed t request (admitted ticket headers) s =
      let (r, s') = attempt t request ticket headers s in on_failure t ticket r s'

  abbrev pub not_configured : Answer
  not_configured = refused (record {
    status = 503;
    code = "SERVICE_NOT_CONFIGURED";
    title = "Service Not Configured";
    detail = "select an explicit protected access mode before serving traffic";
    headers = [];
  })

  -- a service that is configured
  unfoldable pub serve : Timeline → Request → Step Answer
  unfolding admit_mode proceed
  serve t request = do
    modify (λ (s : Scope). record s { claim = none; attempted = false })
    admission ← admit_mode svc svc.mode t request request.api_key
    proceed t request admission

  -- `transaction_preflight`
  unfoldable pub transaction_preflight : Timeline → Request → Step Answer
  unfolding serve
  transaction_preflight t request = elim svc.mode [
    | disabled ↦ pure not_configured
    | _ ↦ serve t request
  ]
