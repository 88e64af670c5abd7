-- ===== src/Payments/Terms.antt =====
-- lucent/payments.py: the requirements of the server, the signed authorization of a payer, and its
-- fingerprint. A text is the list of its code points. SHA-256, as the hexadecimal text of a digest,
-- and `json.dumps` of the canonical form are parameters.
pub mod Laws
use lucent.Prelude.{
  ℕ, ◌+◌, ◌-◌, ◌*◌, Text, lower, codes, codes_eq, nat_eq, nat_beq, decimal, ltb, leb, length,
  String, Option, none, some, List, [], ◌∷◌, ◌++◌, Bool, true, false, not, ◌&&◌, ◌||◌,
  if◌then◌else◌, ◌==◌, Result, ok, err,
}
use lucent.Payments.Errors.{PaymentError, rejected}

-- `PaymentRequirements` of the x402 library, as `model_dump` shows it. The extra fields are texts in
-- the order of their names.
pub record Requirements : Type 0 where
  pub scheme : Text
  pub network : Text
  pub asset : Text
  pub amount : Text
  pub pay_to : Text
  pub max_timeout_seconds : ℕ
  pub extra : List (Text × Text)

abbrev pub same_extra : List (Text × Text) → List (Text × Text) → Bool
same_extra [] [] = true
same_extra [] (y ∷ ys) = false
same_extra (x ∷ xs) [] = false
same_extra (x ∷ xs) (y ∷ ys) = x.0 == y.0 && x.1 == y.1 && same_extra xs ys

-- `accepted == expected`, of the two dumps
unfoldable pub same_terms : Requirements → Requirements → Bool
same_terms a b =
    a.scheme == b.scheme
    && a.network == b.network
    && a.asset == b.asset
    && a.amount == b.amount
    && a.pay_to == b.pay_to
    && nat_beq a.max_timeout_seconds b.max_timeout_seconds
    && same_extra a.extra b.extra

-- A value under a name of the authorization object.
pub data Field : Type 0 where
  absent : Field
  text : Text → Field
  natural : ℕ → Field
  negative : ℕ → Field
  boolean : Bool → Field
  other : Field

pub record Authorization : Type 0 where
  pub from : Field
  pub to : Field
  pub nonce : Field
  pub value : Field
  pub valid_after : Field
  pub valid_before : Field

-- `PaymentPayload` of version 2. The resource is its URL, and the authorization is absent where the
-- payload or its entry is no object. The extensions are texts by name, for the payment identifier.
pub record Payload : Type 0 where
  pub accepted : Requirements
  pub resource : Option Text
  pub authorization : Option Authorization
  pub extensions : List (Text × Text)

abbrev pub is_digit : ℕ → Bool
is_digit c = leb b'0' c && leb c b'9'

abbrev pub is_hex_digit : ℕ → Bool
is_hex_digit c = is_digit c || (leb b'a' c && leb c b'f') || (leb b'A' c && leb c b'F')

abbrev pub all_digits : Text → Bool
all_digits [] = true
all_digits (c ∷ t) = is_digit c && all_digits t

abbrev pub all_hex : Text → Bool
all_hex [] = true
all_hex (c ∷ t) = is_hex_digit c && all_hex t

-- `^0x[0-9a-fA-F]{n}$`, by `fullmatch`
abbrev pub is_hex_text : ℕ → Text → Bool
is_hex_text n (z ∷ x ∷ t) = z == b'0' && x == b'x' && length t == n && all_hex t
is_hex_text n _ = false

unfoldable pub is_address : Text → Bool
is_address t = is_hex_text 40 t

unfoldable pub is_hash : Text → Bool
is_hash t = is_hex_text 64 t

-- `(?:0|[1-9][0-9]*)`
unfoldable pub is_decimal : Text → Bool
is_decimal [] = false
is_decimal (c ∷ []) = is_digit c
is_decimal (c ∷ d ∷ t) = leb b'1' c && leb c b'9' && all_digits (d ∷ t)

-- Python's limit on the digits of a conversion between integers and texts.
abbrev pub max_str_digits : ℕ
max_str_digits = 4300

-- `decimal`: the canonical text, which `str(int(rendered))` leaves as it is, or a `ValueError`
unfoldable pub rendered : Text → Option Text
unfolding is_decimal
rendered t = if is_decimal t && not (ltb max_str_digits (length t)) then some t else none

unfoldable pub decimal_field : Field → Option Text
unfolding rendered
decimal_field (text t) = rendered t
decimal_field (natural n) = rendered (codes (decimal n))
decimal_field _ = none

unfoldable pub address_field : Field → Option Text
unfolding is_address
address_field (text t) = if is_address t then some t else none
address_field _ = none

unfoldable pub hash_field : Field → Option Text
unfolding is_hash
hash_field (text t) = if is_hash t then some t else none
hash_field _ = none

-- The object that is hashed.
pub record Canonical : Type 0 where
  pub scheme : Text
  pub network : Text
  pub asset : Text
  pub amount : Text
  pub pay_to : Text
  pub from : Text
  pub to : Text
  pub value : Text
  pub valid_after : Text
  pub valid_before : Text
  pub nonce : Text

-- A step that fails as a `ValueError` does, which the method turns into this error.
abbrev pub required {ℓ} :
    {A : Type ℓ} → Option A → (A → Result PaymentError Canonical) → Result PaymentError Canonical
required none k =
    err (rejected "INVALID_PAYMENT_SIGNATURE" "PAYMENT-SIGNATURE contains an invalid authorization")
required (some a) k = k a

-- the comparison with the terms, and the two fields that are read after it
unfoldable pub canonical_of :
    Requirements → Authorization → Text → Text → Text → Text → Result PaymentError Canonical
unfolding decimal_field
canonical_of r a payer pay_to nonce value =
    if not (lower pay_to == lower r.pay_to) || not (value == r.amount)
    then err (
        rejected "PAYMENT_REQUIREMENTS_MISMATCH"
          "payment authorization does not match this resource's terms")
    else required (decimal_field a.valid_after) λ valid_after.
      required (decimal_field a.valid_before) λ valid_before. ok (record {
        scheme = r.scheme;
        network = r.network;
        asset = r.asset;
        amount = r.amount;
        pay_to = r.pay_to;
        from = lower payer;
        to = lower pay_to;
        value = value;
        valid_after = valid_after;
        valid_before = valid_before;
        nonce = lower nonce;
      })

-- `_authorization_fingerprint`, before the hash
unfoldable pub canonical : Requirements → Option Authorization → Result PaymentError Canonical
unfolding address_field hash_field decimal_field canonical_of
canonical r authorization = required authorization λ a. required (address_field a.from) λ payer.
    required (address_field a.to) λ pay_to.
      required (hash_field a.nonce)
        λ nonce. required (decimal_field a.value) λ value. canonical_of r a payer pay_to nonce value

module _ (sha256 : Text → Text) where
  -- `PaymentGateway.proof_fingerprint`
  unfoldable pub proof_fingerprint : Text → Text
  proof_fingerprint payment_signature = codes "sha256:" ++ sha256 payment_signature

  -- the hash of the canonical object
  unfoldable pub hashed :
      (Canonical → Text) → Result PaymentError Canonical → Result PaymentError Text
  hashed dumps (ok c) = ok (codes "sha256:" ++ sha256 (dumps c))
  hashed dumps (err e) = err e

  -- `_authorization_fingerprint`
  unfoldable pub authorization_fingerprint :
      (Canonical → Text) → Payload → Requirements → Result PaymentError Text
  unfolding canonical hashed
  authorization_fingerprint dumps payload r = hashed dumps (canonical r payload.authorization)
