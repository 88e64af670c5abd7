-- ===== src/Payments/Client.antt =====
-- lucent/payments.py, `UrllibFacilitatorClient`: what becomes of an exchange with the facilitator.
-- The network, the decoding of JSON and the models of the x402 library are parameters.
pub mod Laws
use lucent.Prelude.{
  ℕ, String, Option, none, some, Bool, true, false, ◌||◌, ltb, if◌then◌else◌, Result, ok, err,
}
use lucent.Payments.Errors.{PaymentError, unavailable}
use lucent.Payments.Terms.{Requirements, Payload}
use lucent.Payments.Gateway.{Reply, returned, raised, failed, Verification, Settlement, Facilitator}
use lucent.Payments.Json.{Json, object, validate_facilitator_json}

abbrev pub max_facilitator_response_bytes : ℕ
max_facilitator_response_bytes = 262_144

-- A response: its `Content-Length`, which may be absent or no integer, the number of bytes read, at
-- most one more than the limit, and what `json.loads` makes of them, unless it raises. A negative
-- length is zero.
pub record Received : Type 0 where
  pub content_length : Option (Option ℕ)
  pub byte_count : ℕ
  pub parsed : Option Json

-- An exchange that fails with an exception that `_post` catches, or with another one, such as an
-- `http.client.HTTPException`, or that brings a response.
pub data Exchange : Type 0 where
  unreachable broken_off : Exchange
  received : Received → Exchange

abbrev invalid : String → PaymentError
invalid message = unavailable "FACILITATOR_INVALID_RESPONSE" message

abbrev down : PaymentError
down = unavailable "FACILITATOR_UNAVAILABLE" "payment facilitator is temporarily unavailable"

abbrev is_object : Json → Bool
is_object (object items) = true
is_object _ = false

-- The end of `_post`: the decoded answer is validated, and must be an object.
unfoldable pub decoded_answer : Option Json → Result PaymentError Json
decoded_answer none = err (invalid "payment facilitator returned invalid JSON")
decoded_answer (some value) = elim (validate_facilitator_json value) [
  | err e ↦ err (invalid "payment facilitator returned invalid JSON")
  | ok _ ↦
      if is_object value
      then ok value
      else err (invalid "payment facilitator returned invalid data")
]

abbrev is_too_long : Option (Option ℕ) → Bool
is_too_long (some (some n)) = ltb max_facilitator_response_bytes n
is_too_long _ = false

-- a header that `int` refuses
abbrev is_no_integer : Option (Option ℕ) → Bool
is_no_integer (some none) = true
is_no_integer _ = false

-- `_post`
unfoldable pub post : Exchange → Reply Json
unfolding decoded_answer
post unreachable = raised down
post broken_off = failed
post (received r) =
    if is_no_integer r.content_length
    then raised down
    else if is_too_long r.content_length || ltb max_facilitator_response_bytes r.byte_count
    then raised (invalid "payment facilitator response was too large")
    else elim (decoded_answer r.parsed) [ err e ↦ raised e | ok value ↦ returned value ]

-- `model_validate` of what `_post` has returned
unfoldable pub modelled {ℓ} : {A : Type ℓ} → String → (Json → Option A) → Reply Json → Reply A
modelled message model (raised e) = raised e
modelled message model failed = failed
modelled message model (returned value) = elim (model value) [
  | none ↦ raised (invalid message)
  | some a ↦ returned a
]

-- `UrllibFacilitatorClient`
unfoldable pub urllib_client :
    (Payload → Requirements → Exchange)
    → (Payload → Requirements → Exchange)
    → (Json → Option Verification)
    → (Json → Option Settlement)
    → Facilitator
unfolding post modelled
urllib_client verifying settling verify_response settle_response = record {
  verify = λ payload r.
      modelled "payment verifier returned an invalid response" verify_response
        (post (verifying payload r));
  settle = λ payload r.
      modelled "payment settlement returned an invalid response" settle_response
        (post (settling payload r));
}
