-- ===== src/Api/Service.antt =====
-- lucent/api.py and lucent/hosted.py: what a request brings, what the service has, and the objects
-- that the requests share. A handler is atomic but for its awaits: there other requests may call
-- the stores, in any number.
use lucent.Prelude.{
  ℕ, Text, String, Option, none, some, List, Bool, true, false, Result, ok, err, Exec,
}
use lucent.Access.Errors.{Error, access, invalid_idempotency_input}
use lucent.Access.Auth.{Digest}
use lucent.Access.Controller.{AccessController}
use lucent.Access.Idempotency.Store.{Store, Reservation}
use lucent.Access.Idempotency.History.{Event, run}
use lucent.Payments.Errors.{PaymentError}
use lucent.Payments.Gateway.{Config, Library, Facilitator, Call}
use lucent.Api.Source.{Source, Assessment}
use lucent.Api.Problems.{Failure, of_access, of_payment, Challenge, Problem}

-- `AccessMode`
pub data AccessMode : Type 0 where
  disabled open_access api_key_access x402 api_key_or_x402 : AccessMode

abbrev pub uses_api_keys : AccessMode → Bool
uses_api_keys api_key_access = true
uses_api_keys api_key_or_x402 = true
uses_api_keys _ = false

abbrev pub uses_x402 : AccessMode → Bool
uses_x402 x402 = true
uses_x402 api_key_or_x402 = true
uses_x402 _ = false

-- What a deployment fixes. `shown` is the same text as a native string; `reissue` puts the
-- request's identifier into the JSON of a cached body, and `render` prints a problem as JSON.
pub record Service : Type 0 where
  pub mode : AccessMode
  pub library : Library
  pub facilitator : Facilitator
  pub payment : Config
  pub challenge : Challenge
  pub api_digest : List ℕ → Digest
  pub key_digest : String → String
  pub shown : Text → String
  pub reissue : List ℕ → List ℕ
  pub render : Problem → List ℕ

-- A request, with the fingerprint of its body and the results of the functions that the handler
-- calls on it: the first analysis, the verified source, the analysis with the ABI of the source,
-- and the bytes of the response to an assessment.
pub record Request : Type 0 where
  pub fingerprint : String
  pub idempotency_key : Option String
  pub api_key : Option (List ℕ)
  pub payment_signature : Option Text
  pub chain_id : ℕ
  pub to : Text
  pub baseline : Result Failure Assessment
  pub source : Option (Result Failure (Source Text))
  pub analysis : Text → Result Failure Assessment
  pub response : Assessment → Result Failure (List ℕ)

-- The calls that other requests make on the stores during an await.
pub record Others : Type 0 where
  pub keyed : List Event
  pub payments : List Event
  pub claims : List Event

-- The readings of the clocks, the fresh tokens, and what happens during the awaits.
pub record Timeline : Type 0 where
  pub charging : ℕ
  pub reserving : ℕ
  pub token : String
  pub while_verifying : Others
  pub paying : Option ℕ
  pub claiming : ℕ
  pub claim_token : String
  pub while_binding : Others
  pub claim_committing : ℕ
  pub while_settling : Others
  pub committing : ℕ
  pub aborting : ℕ
  pub claim_aborting : ℕ

-- The objects that requests share, the calls that the facilitator has been sent, and the two local
-- variables that the handler of exceptions reads.
pub record Scope : Type 0 where
  pub controller : AccessController
  pub payment_idempotency : Store
  pub payment_claims : Store
  pub calls : List Call
  pub claim : Option Reservation
  pub attempted : Bool

abbrev pub Step {ℓ} : Type ℓ → Type ℓ
Step A = Exec Failure Scope A

abbrev pub mapped {ℓ κ} : {E : Type κ} {A : Type ℓ} → (E → Failure) → Result E A → Result Failure A
mapped f (ok a) = ok a
mapped f (err e) = err (f e)

module _ {ℓ} {A : Type ℓ} where
  abbrev pub on_controller : Exec Error AccessController A → Step A
  on_controller m s =
      let (r, c) = m s.controller in (mapped of_access r, record s { controller = c })

  -- a method of `runtime.access.idempotency`
  abbrev pub on_keyed : Exec Error Store A → Step A
  on_keyed m = on_controller λ c. let (r, t) = m c.idempotency in (r, record c { idempotency = t })

  abbrev pub on_payments : Exec Error Store A → Step A
  on_payments m s =
      let (r, t) = m s.payment_idempotency in
      (mapped of_access r, record s { payment_idempotency = t })

  abbrev pub on_claims : Exec Error Store A → Step A
  on_claims m s =
      let (r, t) = m s.payment_claims in (mapped of_access r, record s { payment_claims = t })

  abbrev pub on_gateway : Exec PaymentError (List Call) A → Step A
  on_gateway m s = let (r, calls) = m s.calls in (mapped of_payment r, record s { calls = calls })

-- An await, during which other requests call the stores.
abbrev pub elapse : (String → String) → Others → Step (Unit {0})
elapse sha256 o s = (
  ok tt,
  record s {
    controller = record s.controller { idempotency = run sha256 o.keyed s.controller.idempotency };
    payment_idempotency = run sha256 o.payments s.payment_idempotency;
    payment_claims = run sha256 o.claims s.payment_claims;
  },
)

-- a missing key, which `reserve` refuses
abbrev pub key_text : Option String → Result Failure String
key_text none = err (of_access (access (invalid_idempotency_input "idempotency key must be text")))
key_text (some key) = ok key
