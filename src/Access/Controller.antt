-- ===== src/Access/Controller.antt =====
-- lucent/access.py, `AccessController`: authentication, quota and idempotency joined.
-- The settings that the source checks to be positive numbers are natural numbers here.
pub mod Known
use lucent.Prelude.{
  ℕ, ◌+◌, String, Option, none, some, List, [], ◌∷◌, Bool, true, false, not, ltb, nat_beq,
  if◌then◌else◌, string_eq, Result, ok, err, Exec, continue,
}
use lucent.Prelude.Dict.{Dict, set}
use lucent.Access.Errors.{Error, value_error}
use lucent.Access.Quota.{QuotaPolicy, QuotaReceipt, Limiter, consume}
use lucent.Access.Auth.{Digest, TenantConfig, Record, contains, make_authenticator, authenticate}
use lucent.Access.Idempotency.Store.{Policy, Store, Decision}
use lucent.Access.Idempotency.Methods.{reserve}

-- `IdempotencyStore.__init__`
unfoldable pub make_store : Policy → Result Error Store
make_store p =
    if nat_beq p.ttl 0
    then err (value_error "ttl_seconds must be positive and finite")
    else if nat_beq p.reservation_ttl 0
    then err (value_error "reservation_ttl_seconds must be positive and finite")
    else if nat_beq p.max_entries 0
    then err (value_error "max_entries must be positive")
    else if nat_beq p.max_response_bytes 0
    then err (value_error "max_response_bytes must be positive")
    else if nat_beq p.max_total_response_bytes 0
    then err (value_error "max_total_response_bytes must be positive")
    else if ltb p.max_total_response_bytes p.max_response_bytes
    then err (value_error "max_total_response_bytes may not be less than max_response_bytes")
    else ok (record { policy = p; entries = []; cached_bytes = 0; reserved_bytes = 0 })

pub record AccessController : Type 0 where
  pub authenticator : List Record
  pub quotas : Limiter
  pub idempotency : Store
  pub tenant_ids : List String

-- `{config.tenant_id: config.quota for config in configs}`, after the entries of `d`
unfoldable pub policies_of : Dict String QuotaPolicy → List TenantConfig → Dict String QuotaPolicy
policies_of d [] = d
policies_of d (config ∷ configs) = policies_of (set config.tenant_id config.quota d) configs

unfoldable pub ids_of : List TenantConfig → List String
ids_of [] = []
ids_of (config ∷ configs) = config.tenant_id ∷ ids_of configs

with_parts : List TenantConfig → List Record → Result Error Store → Result Error AccessController
unfolding policies_of ids_of
with_parts configs records (err why) = err why
with_parts configs records (ok store) = ok (record {
  authenticator = records;
  quotas = record { policies = policies_of [] configs; buckets = [] };
  idempotency = store;
  tenant_ids = ids_of configs;
})

-- `AccessController.__init__`
unfoldable pub make_controller : List TenantConfig → Policy → Result Error AccessController
unfolding with_parts
make_controller configs p = elim (make_authenticator configs) [
  | err why ↦ err why
  | ok records ↦ with_parts configs records (make_store p)
]

pub record AccessGrant : Type 0 where
  pub tenant : String
  pub quota : QuotaReceipt

charge_tenant : ℕ → ℕ → Result Error String → Exec Error AccessController AccessGrant
charge_tenant now cost (err why) c = (err why, c)
charge_tenant now cost (ok tenant) c =
    let (receipt, quotas) = consume now tenant cost c.quotas in
    (
      elim receipt [
        | err why ↦ err why
        | ok quota ↦ ok (record { tenant = tenant; quota = quota })
      ],
      record c { quotas = quotas },
    )

-- `AccessController.authorize`
unfoldable pub authorize :
    (List ℕ → Digest) → ℕ → Option (List ℕ) → ℕ → Exec Error AccessController AccessGrant
unfolding charge_tenant
authorize sha256 now api_key cost c =
    charge_tenant now cost (authenticate sha256 c.authenticator api_key) c

-- `AccessController.reserve_idempotency`
unfoldable pub reserve_idempotency :
    (String → String) → ℕ → String → String → String → String → Exec Error AccessController Decision
reserve_idempotency digest now token tenant_id key fingerprint c =
    if not (contains tenant_id c.tenant_ids)
    then (err (value_error "tenant is not configured"), c)
    else (let (decision, store) =
          reserve digest now token tenant_id key fingerprint c.idempotency in
        (decision, record c { idempotency = store }))
