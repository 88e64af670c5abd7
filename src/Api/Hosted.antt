-- ===== src/Api/Hosted.antt =====
-- lucent/hosted.py, `HostedRuntime.from_env`: the stores that a deployment starts with.
use lucent.Prelude.{
  ℕ, ◌≡◌, Option, none, some, List, [], Bool, true, false, Result, ok, err, refl, arith,
}
use lucent.Access.Errors.{Error}
use lucent.Access.Auth.{TenantConfig}
use lucent.Access.Controller.{AccessController, make_controller, make_store}
use lucent.Access.Idempotency.Store.{Policy, Store}
use lucent.Access.Idempotency.Perform.{IsPolicy}
use lucent.Access.Idempotency.Accounting.{build}
use lucent.Access.Idempotency.Validity.{IsValid-empty}
use lucent.Access.Idempotency.Claims.{IsSound}
use lucent.Api.Service.{AccessMode, uses_api_keys, uses_x402}

abbrev pub protected_result_ttl : ℕ
protected_result_ttl = 300_000_000_000

abbrev pub protected_reservation_ttl : ℕ
protected_reservation_ttl = 120_000_000_000

abbrev pub payment_claim_ttl : ℕ
payment_claim_ttl = 900_000_000_000

abbrev pub max_cached_result_bytes : ℕ
max_cached_result_bytes = 2_097_152

abbrev pub max_result_cache_entries : ℕ
max_result_cache_entries = 512

abbrev pub max_result_cache_bytes : ℕ
max_result_cache_bytes = 33_554_432

abbrev pub max_payment_claim_entries : ℕ
max_payment_claim_entries = 4096

abbrev pub max_payment_claim_cache_bytes : ℕ
max_payment_claim_cache_bytes = 4_194_304

abbrev pub keyed_policy : Policy
keyed_policy = record {
  ttl = protected_result_ttl;
  reservation_ttl = protected_reservation_ttl;
  max_entries = max_result_cache_entries;
  max_response_bytes = max_cached_result_bytes;
  max_total_response_bytes = max_result_cache_bytes;
  evict_completed_entries = true;
}

abbrev pub payment_policy : Policy
payment_policy = record {
  ttl = payment_claim_ttl;
  reservation_ttl = protected_reservation_ttl;
  max_entries = max_result_cache_entries;
  max_response_bytes = max_cached_result_bytes;
  max_total_response_bytes = max_result_cache_bytes;
  evict_completed_entries = false;
}

abbrev pub claims_policy : Policy
claims_policy = record {
  ttl = payment_claim_ttl;
  reservation_ttl = protected_reservation_ttl;
  max_entries = max_payment_claim_entries;
  max_response_bytes = 1024;
  max_total_response_bytes = max_payment_claim_cache_bytes;
  evict_completed_entries = false;
}

-- `HostedRuntime`, as far as it is state of this library
pub record Runtime : Type 0 where
  pub access : Option AccessController
  pub payment_idempotency : Option Store
  pub payment_claims : Option Store

-- an object that is made only if a mode asks for it
unfoldable pub made_if {ℓ} : {A : Type ℓ} → Bool → Result Error A → Result Error (Option A)
made_if false r = ok none
made_if true (ok a) = ok (some a)
made_if true (err e) = err e

unfoldable pub with_access :
    Result Error (Option AccessController)
    → Result Error (Option Store)
    → Result Error (Option Store)
    → Result Error Runtime
with_access (err e) p c = err e
with_access (ok a) (err e) c = err e
with_access (ok a) (ok p) (err e) = err e
with_access (ok a) (ok p) (ok c) =
    ok (record { access = a; payment_idempotency = p; payment_claims = c })

-- `HostedRuntime.from_env`, from settings that have been read
unfoldable pub make_runtime : AccessMode → List TenantConfig → Result Error Runtime
unfolding made_if with_access
make_runtime mode tenants =
    with_access (made_if (uses_api_keys mode) (make_controller tenants keyed_policy))
      (made_if (uses_x402 mode) (make_store payment_policy))
      (made_if (uses_x402 mode) (make_store claims_policy))

claims_policy-IsPolicy : IsPolicy claims_policy
claims_policy-IsPolicy = omega arith

claims_made : make_store claims_policy ≡ ok (build claims_policy [])
unfolding make_store
claims_made = refl

with_access-claims :
    (a : Result Error (Option AccessController)) (p c : Result Error (Option Store)) (r : Runtime)
    → with_access a p c ≡ ok r
    → c ≡ ok r.payment_claims
unfolding with_access
with_access-claims (err e) p c r h = absurd (cc)
with_access-claims (ok a) (err e) c r h = absurd (cc)
with_access-claims (ok a) (ok p) (err e) r h = absurd (cc)
with_access-claims (ok a) (ok p) (ok c) r h = ground arith

-- What the settling of payments needs of the store of claims.
pub record KeepsClaims (o : Option Store) : Type 0 where
  pub store : Store
  pub there : o ≡ some store
  pub sound : IsSound claims_policy store
  pub policy : IsPolicy claims_policy
  pub kept : claims_policy.evict_completed_entries ≡ false

-- A runtime whose mode takes payments has a store of claims that is sound, under a checked policy
-- that keeps every finished claim for its time.
pub make_runtime-KeepsClaims :
    (mode : AccessMode) (tenants : List TenantConfig) (r : Runtime)
    → make_runtime mode tenants ≡ ok r
    → uses_x402 mode ≡ true
    → KeepsClaims r.payment_claims
unfolding make_runtime made_if
make_runtime-KeepsClaims mode tenants r h paid =
    let c =
      with_access-claims (made_if (uses_api_keys mode) (make_controller tenants keyed_policy))
        (made_if (uses_x402 mode) (make_store payment_policy))
        (made_if (uses_x402 mode) (make_store claims_policy)) r h in
    let c' = rw (paid, claims_made) at c in
    record {
      store = build claims_policy [];
      there = ground (arith, c');
      sound = record { entries = []; same = refl; valid = IsValid-empty claims_policy };
      policy = claims_policy-IsPolicy;
      kept = refl;
    }
