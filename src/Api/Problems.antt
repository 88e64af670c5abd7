-- ===== src/Api/Problems.antt =====
-- lucent/api.py: the exceptions that reach the exception handlers, and the problem responses that
-- they become. The text of a body is left to the web framework.
pub mod Retry
use lucent.Prelude.{
  ℕ, String, string_eq, Option, none, some, List, [], ◌∷◌, Bool, false, not, ◌&&◌, ◌||◌, nat_beq,
  if◌then◌else◌, ◌==◌, Result, ok, err,
}
use lucent.Access.Errors.{Error, access, code, title, status_code, detail, response_headers}
use lucent.Payments.Errors.{PaymentError}

abbrev pub Headers : Type 0
Headers = List (String × String)

-- An exception of the handler. `internal` is any other one.
pub data Failure : Type 0 where
  of_access : Error → Failure
  of_payment : PaymentError → Failure
  of_source : String → String → Failure
  of_input : String → String → Failure
  internal : Failure

-- What `_problem` is given.
pub record Problem : Type 0 where
  pub status : ℕ
  pub code : String
  pub title : String
  pub detail : String
  pub headers : Headers

-- `payments.challenge`, as far as the headers need it: the header of the challenge for an error, or
-- the error that payments are not enabled.
abbrev pub Challenge : Type 0
Challenge = Option String → Result PaymentError String

-- `_payment_failure_headers`; the gateway is absent if payments are not configured
unfoldable pub payment_failure_headers :
    Option Challenge → PaymentError → Result PaymentError Headers
payment_failure_headers gateway e =
    let retry : Headers = if e.retryable && not e.terminal then ("Retry-After", "2") ∷ [] else [] in
    if nat_beq e.status 402
    then elim gateway [
      | none ↦ ok retry
      | some challenge ↦ elim (challenge (some e.code)) [
        | ok value ↦ ok (("PAYMENT-REQUIRED", value) ∷ retry)
        | err x ↦ err x
      ]
    ]
    else ok retry

abbrev member : String → List String → Bool
member x [] = false
member x (y ∷ ys) = x == y || member x ys

-- `_SOURCE_INPUT_CODES`
abbrev pub source_input_codes : List String
source_input_codes =
    "INVALID_CHAIN_ID" ∷ "UNSUPPORTED_CHAIN" ∷ "INVALID_ADDRESS" ∷ "NO_CONTRACT_CODE"
    ∷ "INVALID_PROXY_SLOT" ∷ "INVALID_PROXY_BEACON" ∷ "AMBIGUOUS_PROXY" ∷ "PROXY_CYCLE"
    ∷ "PROXY_DEPTH_EXCEEDED" ∷ "PROXY_SEMANTICS_UNVERIFIED" ∷ "UNSUPPORTED_DISPATCH"
    ∷ "SOURCE_NOT_VERIFIED" ∷ "SOURCE_NOT_RUNTIME_VERIFIED" ∷ []

-- `verified_source_error`
unfoldable pub source_problem : String → String → Problem
source_problem code message =
    if member code source_input_codes
    then record {
      status = 422;
      code = code;
      title = "Verified Source Rejected";
      detail = message;
      headers = [];
    }
    else record {
      status = 503;
      code = code;
      title = "Verified Source Unavailable";
      detail = message;
      headers = ("Retry-After", "2") ∷ [];
    }

-- `internal_error`
abbrev pub internal_problem : Problem
internal_problem = record {
  status = 500;
  code = "INTERNAL_ERROR";
  title = "Internal Server Error";
  detail = "analysis failed without producing a verdict";
  headers = [];
}

-- `access_error`, and `internal_error` for the exceptions that are no `AccessError`
unfoldable pub access_problem : Error → Problem
unfolding code title status_code detail response_headers
access_problem (access e) = record {
  status = status_code e;
  code = code e;
  title = title e;
  detail = detail e;
  headers = response_headers e;
}
access_problem e = internal_problem

-- `payment_error`
unfoldable pub payment_problem : Option Challenge → PaymentError → Problem
unfolding payment_failure_headers
payment_problem gateway e = elim (payment_failure_headers gateway e) [
  | ok headers ↦ record {
    status = e.status;
    code = e.code;
    title = if nat_beq e.status 402 then "Payment Required" else "Payment Dependency Failed";
    detail = e.message;
    headers = headers;
  }
  | err x ↦ internal_problem
]

-- the exception handlers of the application
unfoldable pub problem_of : Option Challenge → Failure → Problem
unfolding access_problem payment_problem source_problem
problem_of gateway (of_access e) = access_problem e
problem_of gateway (of_payment e) = payment_problem gateway e
problem_of gateway (of_source code message) = source_problem code message
problem_of gateway (of_input code message) = record {
  status = 422;
  code = code;
  title = "Preflight Input Rejected";
  detail = message;
  headers = [];
}
problem_of gateway internal = internal_problem
