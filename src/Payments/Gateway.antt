-- ===== src/Payments/Gateway.antt =====
-- lucent/payments.py, `PaymentGateway`: a proof is checked against the server's terms, the
-- facilitator is asked to verify it, and a verified payment is settled. The x402 library and the
-- facilitator are parameters, and the state is the list of the calls that the facilitator has
-- been sent, the last one first. A reading of the clock is nanoseconds, and absent if not finite.
pub mod Preliminary
pub mod Examination
pub mod Laws
use lucent.Prelude.{
  ℕ, ◌+◌, ◌-◌, ◌*◌, ◌<◌, Text, lower, codes, codes_eq, nat_beq, ltb, leb, length, String, Option,
  none, some, List, [], ◌∷◌, ◌++◌, Bool, true, false, not, ◌&&◌, ◌||◌, if◌then◌else◌, ◌==◌, Result,
  ok, err, Exec, pure, raise, lift, gets, modify, raise_if, ◌>>=◌, ◌>>◌, continue, ◌≡◌,
}
use lucent.Payments.Errors.{PaymentError, rejected, unavailable, final}
use lucent.Payments.Terms.{
  Requirements, same_terms, Field, Field.text, Field.natural, Authorization, Payload, is_address,
  is_hash, rendered, Canonical, proof_fingerprint, authorization_fingerprint,
}

abbrev pub max_payment_header_bytes : ℕ
max_payment_header_bytes = 65_536

abbrev pub max_payment_timeout_seconds : ℕ
max_payment_timeout_seconds = 300

abbrev pub second : ℕ
second = 1_000_000_000

-- `PaymentConfig`, as far as the gateway reads it
pub record Config : Type 0 where
  pub enabled : Bool
  pub network : Text
  pub asset : Text
  pub amount : Text
  pub pay_to : Text
  pub resource_url : Option Text
  pub max_timeout_seconds : ℕ

-- What an awaited call of the facilitator comes to: `failed` is any exception but a `PaymentError`.
pub data Reply {ℓ} (A : Type ℓ) : Type ℓ where
  returned : A → Reply A
  raised : PaymentError → Reply A
  failed : Reply A

-- `VerifyResponse` and `SettleResponse`
pub record Verification : Type 0 where
  pub is_valid : Bool
  pub payer : Option Text

pub record Settlement : Type 0 where
  pub success : Bool
  pub payer : Option Text
  pub transaction : Text
  pub network : Text
  pub amount : Option Text

-- `FacilitatorClient`
pub record Facilitator : Type 0 where
  pub verify : Payload → Requirements → Reply Verification
  pub settle : Payload → Requirements → Reply Settlement

-- What a decoded header holds.
pub data Decoded : Type 0 where
  undecodable : Decoded
  other_version : Decoded
  decoded : Payload → Decoded

-- The functions of the x402 library and of Python's that the gateway calls.
pub record Library : Type 0 where
  pub is_base64 : Text → Bool
  pub decode_header : Text → Decoded
  pub valid_identifier : Payload → Option Text
  pub encode_receipt : Settlement → Text
  pub sha256 : Text → Text
  pub dumps : Canonical → Text

pub data Call : Type 0 where
  verify_call : Payload → Requirements → Call
  settle_call : Payload → Requirements → Call

abbrev pub Action {ℓ} : Type ℓ → Type ℓ
Action A = Exec PaymentError (List Call) A

-- `_build_requirements`
unfoldable pub build_requirements : Config → Requirements
build_requirements c = record {
  scheme = codes "exact";
  network = c.network;
  asset = c.asset;
  amount = c.amount;
  pay_to = c.pay_to;
  max_timeout_seconds = c.max_timeout_seconds;
  extra =
      (codes "assetTransferMethod", codes "eip3009")
      ∷ (codes "name", codes "USD Coin")
      ∷ (codes "version", codes "2")
      ∷ [];
}

-- `PaymentGateway.__init__` accepts these terms.
unfoldable pub is_accepted : Config → Bool
is_accepted c =
    not c.enabled
    || (leb 1 c.max_timeout_seconds && leb c.max_timeout_seconds max_payment_timeout_seconds)

-- `_require_enabled`; the constructor has made the other two parts if payments are enabled
unfoldable pub require_enabled : Config → Action Requirements
unfolding build_requirements
require_enabled c =
    if c.enabled
    then pure (build_requirements c)
    else raise (record {
      code = "PAYMENTS_DISABLED";
      message = "x402 payment access is not enabled";
      status = 503;
      retryable = false;
      terminal = false;
    })

abbrev pub all_ascii : Text → Bool
all_ascii [] = true
all_ascii (c ∷ t) = ltb c 128 && all_ascii t

-- A header that is empty, too long or not of ASCII.
abbrev pub is_malformed : Text → Bool
is_malformed [] = true
is_malformed (c ∷ t) = ltb max_payment_header_bytes (length (c ∷ t)) || not (all_ascii (c ∷ t))

unfoldable pub payload_of : Decoded → Action Payload
payload_of undecodable =
    raise (rejected "INVALID_PAYMENT_SIGNATURE" "PAYMENT-SIGNATURE is malformed")
payload_of other_version =
    raise (rejected "UNSUPPORTED_PAYMENT_VERSION" "only x402 v2 payments are accepted")
payload_of (decoded payload) = pure payload

unfoldable pub identifier_of : Option Text → Action Text
identifier_of none =
    raise (
      rejected "PAYMENT_IDENTIFIER_REQUIRED"
        "payment proof must contain a valid payment identifier")
identifier_of (some identifier) = pure identifier

-- An expected text, if one is expected, is another one.
abbrev pub differs : Option Text → Text → Bool
differs none t = false
differs (some u) t = not (t == u)

abbrev pub is_resource : Option Text → Option Text → Bool
is_resource (some url) (some configured) = url == configured
is_resource _ _ = false

abbrev pub digits_value : ℕ → Text → ℕ
digits_value acc [] = acc
digits_value acc (c ∷ t) = digits_value (acc * 10 + (c - b'0')) t

-- `int(authorization[name])`, of a field that the fingerprint has found to be a decimal
unfoldable pub integer_of : Option Authorization → (Authorization → Field) → Option ℕ
unfolding rendered
integer_of none name = none
integer_of (some a) name = elim (name a) [
  | Field.text t ↦ elim (rendered t) [ some u ↦ some (digits_value 0 u) | none ↦ none ]
  | Field.natural n ↦ some n
  | _ ↦ none
]

-- `authorization["from"]`, of an authorization that the fingerprint has found to have an address
abbrev pub payer_text : Field → Text
payer_text (Field.text t) = t
payer_text _ = []

unfoldable pub payer_of : Option Authorization → Text
payer_of none = []
payer_of (some a) = payer_text a.from

-- The server's time window: seconds on the authorization's side, nanoseconds on the clock's.
unfoldable pub is_outside : Config → ℕ → ℕ → ℕ → Bool
is_outside c now valid_after valid_before =
    ltb now (valid_after * second)
    || leb (valid_before * second) now
    || ltb (now + c.max_timeout_seconds * second) (valid_before * second)

abbrev outside_window : PaymentError
outside_window =
    rejected "PAYMENT_AUTHORIZATION_WINDOW_MISMATCH"
      "payment authorization is outside the server-owned time window"

unfoldable pub check_window : Config → Option ℕ → Option ℕ → Option ℕ → Action (Unit {0})
unfolding is_outside
check_window c (some now) (some valid_after) (some valid_before) =
    raise_if (is_outside c now valid_after valid_before) outside_window
check_window c none (some valid_after) (some valid_before) = raise outside_window
check_window c now _ _ = raise (
    rejected "INVALID_PAYMENT_SIGNATURE"
      "PAYMENT-SIGNATURE contains an invalid authorization window")

-- an optional address that is not one
abbrev pub is_no_address : Option Text → Bool
is_no_address none = false
is_no_address (some t) = not (is_address t)

-- two optional payers that are both there and differ
abbrev pub payers_differ : Option Text → Option Text → Bool
payers_differ (some t) (some u) = not (lower t == lower u)
payers_differ _ _ = false

pub record VerifiedPayment : Type 0 where
  pub payer : Option Text
  pub payment_identifier : Text
  pub proof_fingerprint : Text
  pub authorization_fingerprint : Text
  pub payload : Payload

pub record Receipt : Type 0 where
  pub payer : Option Text
  pub transaction : Text
  pub network : Text
  pub amount : Text
  pub response_header : Text
  pub proof_fingerprint : Text

-- `await facilitator.verify(...)`, and what becomes of its exceptions
unfoldable pub ask : Facilitator → Payload → Requirements → Action Verification
ask f payload r calls = (
  elim (f.verify payload r) [
    | returned v ↦ ok v
    | raised e ↦ err e
    | failed ↦
        err (unavailable "FACILITATOR_UNAVAILABLE" "payment verifier is temporarily unavailable")
  ],
  verify_call payload r ∷ calls,
)

-- The checks of `verify` before the facilitator is asked, and the fingerprint that they end with.
pub record Examined : Type 0 where
  pub payload : Payload
  pub identifier : Text
  pub fingerprint : Text

-- the payload and its identifier
unfoldable pub read_header : Library → Text → Option Text → Action (Payload × Text)
unfolding payload_of identifier_of
read_header lib payment_signature payment_identifier = do
  raise_if (is_malformed payment_signature)
      (rejected "INVALID_PAYMENT_SIGNATURE" "PAYMENT-SIGNATURE is missing or malformed")
  raise_if (not (lib.is_base64 payment_signature))
      (rejected "INVALID_PAYMENT_SIGNATURE" "PAYMENT-SIGNATURE is malformed")
  payload ← payload_of (lib.decode_header payment_signature)
  identifier ← identifier_of (lib.valid_identifier payload)
  raise_if (differs payment_identifier identifier)
      (rejected "PAYMENT_IDENTIFIER_MISMATCH" "payment identifier does not match Idempotency-Key")
  pure (payload, identifier)

-- the terms, the resource, the authorization and its window
unfoldable pub check_terms :
    Library → Config → Requirements → Option ℕ → Payload → Text → Action Examined
unfolding integer_of check_window
check_terms lib c r now payload identifier = do
  raise_if (not (same_terms payload.accepted r)) (
      rejected "PAYMENT_REQUIREMENTS_MISMATCH" "payment proof does not match this resource's terms")
  raise_if (not (is_resource payload.resource c.resource_url))
      (rejected "PAYMENT_RESOURCE_MISMATCH" "payment proof is bound to a different resource")
  fingerprint ← lift (authorization_fingerprint lib.sha256 lib.dumps payload r)
  check_window c now (integer_of payload.authorization (λ a. a.valid_after))
      (integer_of payload.authorization (λ a. a.valid_before))
  pure (record { payload = payload; identifier = identifier; fingerprint = fingerprint })

unfoldable pub examine :
    Library → Config → Requirements → Option ℕ → Text → Option Text → Action Examined
unfolding read_header check_terms
examine lib c r now payment_signature payment_identifier = do
  (payload, identifier) ← read_header lib payment_signature payment_identifier
  check_terms lib c r now payload identifier

-- The checks of `verify` on the facilitator's answer.
unfoldable pub confirm : Library → Text → Examined → Verification → Action VerifiedPayment
confirm lib payment_signature x verified = do
  raise_if (not verified.is_valid)
      (rejected "PAYMENT_NOT_VERIFIED" "payment proof was not accepted")
  raise_if (is_no_address verified.payer)
      (unavailable "FACILITATOR_INVALID_RESPONSE" "payment verifier did not return a valid payer")
  raise_if (payers_differ verified.payer (some (payer_of x.payload.authorization))) (
      unavailable "FACILITATOR_INVALID_RESPONSE"
        "payment verifier payer did not match the authorization")
  pure (record {
    payer = some (payer_of x.payload.authorization);
    payment_identifier = x.identifier;
    proof_fingerprint = proof_fingerprint lib.sha256 payment_signature;
    authorization_fingerprint = x.fingerprint;
    payload = x.payload;
  })

-- `PaymentGateway.verify`
unfoldable pub verify :
    Library → Facilitator → Config → Option ℕ → Text → Option Text → Action VerifiedPayment
unfolding require_enabled examine ask confirm
verify lib f c now payment_signature payment_identifier = do
  r ← require_enabled c
  x ← examine lib c r now payment_signature payment_identifier
  verified ← ask f x.payload r
  confirm lib payment_signature x verified
