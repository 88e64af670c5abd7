-- ===== src/Access/Auth/Laws.antt =====
-- Authentication finds exactly the enabled tenant whose digest the key has.
use lucent.Prelude.{
  ℕ, ◌≡◌, refl, ◌∙◌, sym, String, Option, none, some, List, [], ◌∷◌, Bool, true, false, codes, ◌↔◌,
  if◌then◌else◌, string_eq, codes_eq, ◌==◌, ok, In, arith, Bool-cases, Option-cases, Result-cases,
  inl, inr, ◌⊎◌, ap,
}
use mathlib.Core.Path.{subst}
use mathlib.Core.Bool.{false≢true}
use lucent.Prelude.Dict.{beq_refl}
use lucent.Access.Auth.{
  Digest, TenantConfig, Record, contains, collect, make_authenticator, parse_api_key_hash,
  non_empty, scan, candidate, admitted, authenticate_candidate, authenticate,
}

-- No digest stands twice.
abbrev pub Unlike : Digest → List Record → Type 0
Unlike d [] = Unit
Unlike d (r ∷ records) = ((d == r.digest) ≡ false) × Unlike d records

abbrev pub AreDistinct : List Record → Type 0
AreDistinct [] = Unit
AreDistinct (r ∷ records) = Unlike r.digest records × AreDistinct records

scan-In :
    (d : Digest) (found : Option Record) (r : Record) (records : List Record)
    → scan d found records ≡ some r
    → (found ≡ some r) ⊎ (In r records × (r.digest ≡ d))
unfolding scan
scan-In d found r [] h = inl h
scan-In d found r (x ∷ records) h = elim (Bool-cases (d == x.digest)) [
  | inl same ↦ elim (scan-In d (some x) r records (rw same at h)) [
    | inl here ↦
        let e : r ≡ x = cc in
        inr (inl e, ap (λ (y : Record). y.digest) e ∙ sym ((codes_eq.same_iff d x.digest).0 same))
    | inr (later, digest) ↦ inr (inr later, digest)
  ]
  | inr other ↦ elim (scan-In d found r records (rw other at h)) [
    | inl before ↦ inl before
    | inr (later, digest) ↦ inr (inr later, digest)
  ]
]

scan-Unlike :
    (d : Digest) (found : Option Record) (records : List Record)
    → Unlike d records
    → scan d found records ≡ found
unfolding scan
scan-Unlike d found [] h = refl
scan-Unlike d found (x ∷ records) h = rw h.0 (scan-Unlike d found records h.1)

scan_complete :
    (r : Record) (found : Option Record) (records : List Record)
    → AreDistinct records
    → In r records
    → scan r.digest found records ≡ some r
unfolding scan
scan_complete r found [] distinct h = absurd h
scan_complete r found (x ∷ records) distinct (inl same) =
    let e : (r.digest == x.digest) ≡ true =
      (codes_eq.same_iff r.digest x.digest).1 (ap (λ (y : Record). y.digest) same) in
    rw e (
      scan-Unlike r.digest (some x) records
        (subst (λ (y : Record). Unlike y.digest records) (sym same) distinct.0)
      ∙ ap some (sym same))
scan_complete r found (x ∷ records) distinct (inr later) =
    scan_complete r (if r.digest == x.digest then some x else found) records distinct.1 later

admitted-ok :
    (is_valid : Bool) (o : Option Record) (tenant_id : String)
    → admitted is_valid o ≡ ok tenant_id
    → (is_valid ≡ true)
      × ((r : Record) × (o ≡ some r) × (r.enabled ≡ true) × (r.tenant_id ≡ tenant_id))
unfolding admitted
admitted-ok is_valid none tenant_id h = absurd (cc)
admitted-ok is_valid (some r) tenant_id h = (ground arith, (r, refl, ground arith, ground arith))

-- A record that the key proves: well formed, of this tenant, enabled, and of the key's digest.
abbrev pub Proves : (List ℕ → Digest) → List Record → Option (List ℕ) → String → Type 0
Proves sha256 records api_key tenant_id =
    (bytes : List ℕ) × (r : Record) × (candidate api_key ≡ some bytes)
    × In r records
    × (r.digest ≡ sha256 bytes)
    × (r.enabled ≡ true)
    × (r.tenant_id ≡ tenant_id)

module _ (sha256 : List ℕ → Digest) (records : List Record) (tenant_id : String) where
  sound_some :
      (bytes : List ℕ)
      → admitted true (scan (sha256 bytes) none records) ≡ ok tenant_id
      → (r : Record) × In r records
        × (r.digest ≡ sha256 bytes)
        × (r.enabled ≡ true)
        × (r.tenant_id ≡ tenant_id)
  sound_some bytes h =
      let (_, found) = admitted-ok true (scan (sha256 bytes) none records) tenant_id h in
      let (r, hit, enabled, named) = found in
      elim (scan-In (sha256 bytes) none r records hit) [
        | inl nothing ↦ absurd (cc)
        | inr (inside, digest) ↦ (r, inside, digest, enabled, named)
      ]

  pub sound :
      (api_key : Option (List ℕ))
      → authenticate sha256 records api_key ≡ ok tenant_id
      → Proves sha256 records api_key tenant_id
  unfolding authenticate authenticate_candidate
  sound api_key h = elim (Option-cases (candidate api_key)) [
    | inl nothing ↦ absurd (
        false≢true
          (admitted-ok false (scan (sha256 (codes "invalid-api-key")) none records) tenant_id
            (rw nothing at h)).0)
    | inr (bytes, key) ↦
        let (r, inside, digest, enabled, named) = sound_some bytes (rw key at h) in
        (bytes, r, key, inside, digest, enabled, named)
  ]

  complete :
      (api_key : Option (List ℕ))
      → AreDistinct records
      → Proves sha256 records api_key tenant_id
      → authenticate sha256 records api_key ≡ ok tenant_id
  unfolding authenticate authenticate_candidate
  complete api_key distinct (bytes, r, key, inside, digest, enabled, named) =
      let hit : scan (sha256 bytes) none records ≡ some r =
        ap (λ d. scan d none records) (sym digest) ∙ scan_complete r none records distinct inside in
      rw (key, hit) (ground arith)

abbrev pub entry : TenantConfig → Digest → Record
entry config digest = record {
  digest = digest;
  tenant_id = config.tenant_id;
  enabled = config.enabled;
}

pub collect-cons :
    (ids : List String) (ds : List Digest) (config : TenantConfig) (configs : List TenantConfig)
    (records : List Record)
    → collect ids ds (config ∷ configs) ≡ ok records
    → (digest : Digest) × (rest : List Record) × (contains digest ds ≡ false)
      × (collect (config.tenant_id ∷ ids) (digest ∷ ds) configs ≡ ok rest)
      × (records ≡ entry config digest ∷ rest)
unfolding collect
collect-cons ids ds config configs records h =
    elim (Result-cases (parse_api_key_hash config.api_key_hash)) [
      | inr (why, bad) ↦ absurd (ground arith)
      | inl (digest, parsed) ↦
          elim (Result-cases (collect (config.tenant_id ∷ ids) (digest ∷ ds) configs)) [
            | inr (why, bad) ↦ absurd (ground arith)
            | inl (rest, collected) ↦ (digest, rest, ground arith, collected, ground arith)
          ]
    ]

contains-ne :
    (d x : Digest) (ds : List Digest)
    → contains d ds ≡ true
    → contains x ds ≡ false
    → (d == x) ≡ false
contains-ne d x ds h k = elim (Bool-cases (d == x)) [
  | inr other ↦ other
  | inl same ↦
      let e : d ≡ x = (codes_eq.same_iff d x).0 same in
      absurd (false≢true (sym k ∙ ap (λ y. contains y ds) (sym e) ∙ h))
]

collect-Unlike :
    (ids : List String) (ds : List Digest) (configs : List TenantConfig) (records : List Record)
    → collect ids ds configs ≡ ok records
    → ((d : Digest) → contains d ds ≡ true → Unlike d records) × AreDistinct records
collect-Unlike ids ds [] records h =
    let e : records ≡ [] = unfold collect in (ground arith) in rw e ((λ d _. tt), tt)
collect-Unlike ids ds (config ∷ configs) records h =
    let (x, rest, new, collected, same) = collect-cons ids ds config configs records h in
    let (unlike, distinct) =
      collect-Unlike (config.tenant_id ∷ ids) (x ∷ ds) configs rest collected in
    rw same (
      (λ d seen.
          (contains-ne d x ds seen new, unlike d (unfold contains in (ground (arith, seen))))),
      (unlike x (unfold contains in (rw beq_refl refl)), distinct),
    )

make_authenticator-distinct :
    (configs : List TenantConfig) (records : List Record)
    → make_authenticator configs ≡ ok records
    → AreDistinct records
unfolding make_authenticator
make_authenticator-distinct configs records h = elim (Result-cases (collect [] [] configs)) [
  | inr (why, bad) ↦ absurd (ground arith)
  | inl (found, collected) ↦
      let same : found ≡ records =
        elim_non_empty found records (rw (collected, make_authenticator) at h) in
      subst AreDistinct same (collect-Unlike [] [] configs found collected).1
]
  where
    elim_non_empty : (found records : List Record) → non_empty found ≡ ok records → found ≡ records
    elim_non_empty [] records h = absurd (cc)
    elim_non_empty (r ∷ found) records h = ground arith

-- Once the authenticator is built, a key authenticates a tenant exactly when it proves one of the
-- records; so no other tenant, no disabled tenant and no unknown or malformed key gets in.
pub authenticate_iff :
    (sha256 : List ℕ → Digest) (configs : List TenantConfig) (records : List Record)
    (api_key : Option (List ℕ)) (tenant_id : String)
    → make_authenticator configs ≡ ok records
    → (authenticate sha256 records api_key ≡ ok tenant_id) ↔ Proves sha256 records api_key tenant_id
authenticate_iff sha256 configs records api_key tenant_id built = (
  sound sha256 records tenant_id api_key,
  complete sha256 records tenant_id api_key (make_authenticator-distinct configs records built),
)
