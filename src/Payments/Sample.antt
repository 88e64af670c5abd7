-- ===== src/Payments/Sample.antt =====
-- A payment of one cent, with a facilitator that accepts it, and one that fails to settle it.
use lucent.Prelude.{Text, codes, none, some, [], true}
use lucent.Payments.Terms.{Field, Authorization, Payload}
use lucent.Payments.Gateway.{
  Config, returned, failed, Settlement, Facilitator, Library, decoded, VerifiedPayment, Receipt,
  build_requirements,
}

abbrev pub payer : Text
payer = codes "0x1111111111111111111111111111111111111111"

abbrev pub payee : Text
payee = codes "0x22222222222222222222222222222222222222AA"

abbrev pub hash : Text
hash = codes "0x3333333333333333333333333333333333333333333333333333333333333333"

abbrev pub url : Text
url = codes "https://lucent.example/v1/preflight"

abbrev pub config : Config
config = record {
  enabled = true;
  network = codes "eip155:8453";
  asset = codes "0x833589fCD6eDb6E08f4c7C32D4f71b54bdA02913";
  amount = codes "10000";
  pay_to = payee;
  resource_url = some url;
  max_timeout_seconds = 300;
}

abbrev pub authorization : Authorization
authorization = record {
  from = Field.text payer;
  to = Field.text payee;
  nonce = Field.text hash;
  value = Field.text (codes "10000");
  valid_after = Field.text (codes "1000");
  valid_before = Field.text (codes "1300");
}

abbrev pub payload : Payload
payload = record {
  accepted = build_requirements config;
  resource = some url;
  authorization = some authorization;
  extensions = [];
}

abbrev pub library : Library
library = record {
  is_base64 = λ t. true;
  decode_header = λ t. decoded payload;
  valid_identifier = λ p. some (codes "payment-1");
  encode_receipt = λ s. s.transaction;
  sha256 = λ t. t;
  dumps = λ k. k.nonce;
}

abbrev pub settlement : Settlement
settlement = record {
  success = true;
  payer = none;
  transaction = hash;
  network = codes "eip155:8453";
  amount = some (codes "10000");
}

abbrev pub facilitator : Facilitator
facilitator = record {
  verify = λ p r. returned (record { is_valid = true; payer = some payer });
  settle = λ p r. returned settlement;
}

abbrev pub signature : Text
signature = codes "c2lnbmVk"

abbrev pub verified : VerifiedPayment
verified = record {
  payer = some payer;
  payment_identifier = codes "payment-1";
  proof_fingerprint = codes "sha256:c2lnbmVk";
  authorization_fingerprint =
      codes "sha256:0x3333333333333333333333333333333333333333333333333333333333333333";
  payload = payload;
}

abbrev pub receipt : Receipt
receipt = record {
  payer = some payer;
  transaction = hash;
  network = codes "eip155:8453";
  amount = codes "10000";
  response_header = hash;
  proof_fingerprint = codes "sha256:c2lnbmVk";
}

-- A facilitator whose settlement fails.
abbrev pub broken : Facilitator
broken = record facilitator { settle = λ p r. failed }
