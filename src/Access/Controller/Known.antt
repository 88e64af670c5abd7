-- ===== src/Access/Controller/Known.antt =====
-- The parts of an `AccessController` that was built from one list of tenants fit together.
use lucent.Prelude.{
  ℕ, ◌≡◌, ◌∙◌, String, Option, some, List, [], ◌∷◌, true, string_eq, ok, arith, In, inl, inr,
  Bool-cases, Result-cases, ◌==◌, ap,
}
use lucent.Prelude.Dict.{Dict, get, set, get-set_self, get-set_ne}
use lucent.Access.Quota.{QuotaPolicy}
use lucent.Access.Auth.{
  Digest, TenantConfig, Record, contains, collect, make_authenticator, authenticate,
}
use lucent.Access.Auth.Laws.{sound, collect-cons}
use lucent.Access.Idempotency.Store.{Policy}
use lucent.Access.Controller.{make_store, AccessController, policies_of, ids_of, make_controller}

-- A tenant's policy, whatever tenants come after it.
policies_of-get :
    (t : String) (configs : List TenantConfig) (d : Dict String QuotaPolicy)
    → ((q : QuotaPolicy) × (get t d ≡ some q))
    → (q : QuotaPolicy) × (get t (policies_of d configs) ≡ some q)
unfolding policies_of
policies_of-get t [] d h = h
policies_of-get t (config ∷ configs) d h =
    policies_of-get t configs (set config.tenant_id config.quota d)
      (elim (Bool-cases (t == config.tenant_id)) [
        | inl same ↦ (
          config.quota,
          ap (λ j. get j (set config.tenant_id config.quota d))
                ((string_eq.same_iff t config.tenant_id).0 same)
              ∙ get-set_self config.tenant_id config.quota d,
        )
        | inr other ↦ (h.0, get-set_ne t config.tenant_id config.quota d other ∙ h.1)
      ])

collect-nil :
    (ids : List String) (ds : List Digest) (records : List Record)
    → collect ids ds [] ≡ ok records
    → records ≡ []
unfolding collect
collect-nil ids ds records h = ground arith

collect-known :
    (ids : List String) (ds : List Digest) (configs : List TenantConfig) (records : List Record)
    (d : Dict String QuotaPolicy) (r : Record)
    → collect ids ds configs ≡ ok records
    → In r records
    → ((q : QuotaPolicy) × (get r.tenant_id (policies_of d configs) ≡ some q))
      × (contains r.tenant_id (ids_of configs) ≡ true)
unfolding policies_of ids_of contains
collect-known ids ds [] records d r h inside = absurd (rw (collect-nil ids ds records h) at inside)
collect-known ids ds (config ∷ configs) records d r h inside =
    let (x, rest, new, collected, same) = collect-cons ids ds config configs records h in
    let d' = set config.tenant_id config.quota d in
    elim (rw same at inside) [
      | inr later ↦
          let (policy, known) =
            collect-known (config.tenant_id ∷ ids) (x ∷ ds) configs rest d' r collected later in
          (policy, ground (arith, known))
      | inl here ↦
          let named : r.tenant_id ≡ config.tenant_id = ap (λ (y : Record). y.tenant_id) here in
          (
            policies_of-get r.tenant_id configs d' (
              config.quota,
              ap (λ j. get j d') named ∙ get-set_self config.tenant_id config.quota d,
            ),
            ground (arith, string_eq.same_iff r.tenant_id config.tenant_id),
          )
    ]

parts :
    (configs : List TenantConfig) (p : Policy) (c : AccessController)
    → make_controller configs p ≡ ok c
    → (records : List Record) × (collect [] [] configs ≡ ok records)
      × ((c.authenticator ≡ records)
          × (c.quotas.policies ≡ policies_of [] configs)
          × (c.tenant_ids ≡ ids_of configs))
unfolding make_controller make_authenticator
parts configs p c h = elim (Result-cases (collect [] [] configs)) [
  | inr (why, bad) ↦ absurd (ground arith)
  | inl ([], collected) ↦ absurd (ground arith)
  | inl (r ∷ records, collected) ↦ elim (Result-cases (make_store p)) [
    | inr (why, bad) ↦ absurd (ground arith)
    | inl (store, made) ↦ (r ∷ records, collected, (ground arith, ground arith, ground arith))
  ]
]

-- In a controller that was built, a tenant that is authenticated has a quota policy, and its
-- reservations are accepted as those of a configured tenant: `consume` does not refuse it as a
-- tenant without a policy, nor `reserve_idempotency` as one that is not configured.
pub authenticate-known :
    (sha256 : List ℕ → Digest) (configs : List TenantConfig) (p : Policy) (c : AccessController)
    (api_key : Option (List ℕ)) (tenant_id : String)
    → make_controller configs p ≡ ok c
    → authenticate sha256 c.authenticator api_key ≡ ok tenant_id
    → ((q : QuotaPolicy) × (get tenant_id c.quotas.policies ≡ some q))
      × (contains tenant_id c.tenant_ids ≡ true)
authenticate-known sha256 configs p c api_key tenant_id built h =
    let (records, collected, e) = parts configs p c built in
    let proof = sound sha256 c.authenticator tenant_id api_key h in
    let (bytes, r, key, inside, digest, enabled, named) = proof in
    let (authenticator, policies, ids) = e in
    let known = collect-known [] [] configs records [] r collected (rw authenticator at inside) in
    rw (policies, ids, ← named) known
