-- ===== src/Api/Sample.antt =====
-- A service that takes payments of one cent, and one with API keys, with requests for them.
use lucent.Prelude.{ℕ, ◌*◌, String, string_eq, codes, none, some, [], ◌∷◌, true, false, ok}
use lucent.Access.Idempotency.Accounting.{build}
use lucent.Payments.Gateway.{second}
use lucent.Payments.Sample.{config, library, facilitator, signature}
use lucent.Api.Hosted.{keyed_policy, payment_policy, claims_policy}
use lucent.Api.Source.{Assessment}
use lucent.Api.Service.{Service, x402, api_key_access, Request, Others, Timeline, Scope}

abbrev pub service : Service
service = record {
  mode = x402;
  library = library;
  facilitator = facilitator;
  payment = config;
  challenge = λ e. ok "challenge";
  api_digest = λ k. k;
  key_digest = λ k. k;
  shown = λ t. "text";
  reissue = λ body. body;
  render = λ p. [];
}

abbrev pub clear : Assessment
clear = record {
  abi_source = "caller_supplied_inline";
  bytecode_verified = false;
  verified_source = none;
  limitations = codes "Does not inspect bytecode at all." ∷ codes "Another limitation." ∷ [];
  rest = codes "clear";
}

abbrev pub request : Request
request = record {
  fingerprint = "request";
  idempotency_key = some "payment-1";
  api_key = none;
  payment_signature = some signature;
  chain_id = 8453;
  to = codes "0xAA";
  baseline = ok clear;
  source = none;
  analysis = λ abi. ok clear;
  response = λ result. ok result.rest;
}

abbrev pub quiet : Others
quiet = record { keyed = []; payments = []; claims = [] }

-- A request at the reading `now` of the clock of the stores.
abbrev pub at_time : ℕ → String → Timeline
at_time now token = record {
  charging = now;
  reserving = now;
  token = token;
  while_verifying = quiet;
  paying = some (1100 * second);
  claiming = now;
  claim_token = token;
  while_binding = quiet;
  claim_committing = now;
  while_settling = quiet;
  committing = now;
  aborting = now;
  claim_aborting = now;
}

abbrev pub idle : Scope
idle = record {
  controller = record {
    authenticator = [];
    quotas = record { policies = []; buckets = [] };
    idempotency = build keyed_policy [];
    tenant_ids = [];
  };
  payment_idempotency = build payment_policy [];
  payment_claims = build claims_policy [];
  calls = [];
  claim = none;
  attempted = false;
}

-- A service with API keys, and one tenant whose quota is one request, refilled at one for each second.
abbrev pub keyed_service : Service
keyed_service = record service { mode = api_key_access }

abbrev pub keyed_request : String → Request
keyed_request key_name = record request {
  idempotency_key = some key_name;
  api_key = some (codes "k");
  payment_signature = none;
}

abbrev pub with_tenant : Scope
with_tenant = record idle {
  controller = record {
    authenticator = record { digest = codes "k"; tenant_id = "tenant"; enabled = true } ∷ [];
    quotas = record {
      policies = ("tenant", record { capacity = 1; refill = 1000 }) ∷ [];
      buckets = [];
    };
    idempotency = build keyed_policy [];
    tenant_ids = "tenant" ∷ [];
  };
}
