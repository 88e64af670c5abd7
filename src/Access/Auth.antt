-- ===== src/Access/Auth.antt =====
-- lucent/access.py: API keys, tenant configurations and `ApiKeyAuthenticator`.
-- A key is its encoded bytes, a hash text its code points, and a digest its hexadecimal text.
-- SHA-256 is a parameter: the function from bytes to the hexadecimal text of the digest.
pub mod Laws
use lucent.Prelude.{
  ℕ, ◌≡◌, String, Option, none, some, List, [], ◌∷◌, ◌++◌, Bool, true, false, not, ◌&&◌, ◌||◌, ltb,
  leb, nat_beq, if◌then◌else◌, string_eq, codes_eq, codes, ◌==◌, Equality, Result, ok, err, length,
}
use lucent.Access.Errors.{Error, access, authentication_failed, value_error}
use lucent.Access.Idempotency.Store.{bounded_text, max_tenant_id_bytes}
use lucent.Access.Quota.{QuotaPolicy}

abbrev pub Digest : Type 0
Digest = List ℕ

abbrev pub max_api_key_bytes : ℕ
max_api_key_bytes = 4096

abbrev pub hash_prefix : List ℕ
hash_prefix = codes "sha256:"

-- `_secret_bytes`
unfoldable pub secret_bytes : List ℕ → Result Error (List ℕ)
secret_bytes [] = err (value_error "API key must not be empty")
secret_bytes (b ∷ bytes) =
    if ltb max_api_key_bytes (length (b ∷ bytes))
    then err (value_error "API key may not exceed 4096 encoded bytes")
    else ok (b ∷ bytes)

module _ (sha256 : List ℕ → Digest) where
  unfoldable pub hash_api_key : List ℕ → Result Error (List ℕ)
  hash_api_key api_key = elim (secret_bytes api_key) [
    | ok bytes ↦ ok (hash_prefix ++ sha256 bytes)
    | err why ↦ err why
  ]

unfoldable pub is_hex : List ℕ → Bool
is_hex [] = true
is_hex (c ∷ cs) = ((leb b'0' c && leb c b'9') || (leb b'a' c && leb c b'f')) && is_hex cs

-- What follows the prefix, if the text begins with it.
unfoldable pub strip : List ℕ → List ℕ → Option (List ℕ)
strip [] cs = some cs
strip (p ∷ ps) [] = none
strip (p ∷ ps) (c ∷ cs) = if nat_beq p c then strip ps cs else none

hex_digest : Option (List ℕ) → Result Error Digest
unfolding is_hex
hex_digest none = err (value_error "api_key_hash must use canonical sha256:<lowercase hex>")
hex_digest (some hex) =
    if nat_beq (length hex) 64 && is_hex hex
    then ok hex
    else err (value_error "api_key_hash must use canonical sha256:<lowercase hex>")

-- `_parse_api_key_hash`
unfoldable pub parse_api_key_hash : List ℕ → Result Error Digest
unfolding strip hex_digest
parse_api_key_hash value = hex_digest (strip hash_prefix value)

pub record TenantConfig : Type 0 where
  pub tenant_id : String
  pub api_key_hash : List ℕ
  pub quota : QuotaPolicy
  pub enabled : Bool

-- `TenantConfig.__post_init__`, which a configuration passes when it is made
unfoldable pub make_tenant_config : String → List ℕ → QuotaPolicy → Bool → Result Error TenantConfig
unfolding bounded_text parse_api_key_hash
make_tenant_config tenant_id api_key_hash quota enabled =
    elim (bounded_text tenant_id "tenant_id" max_tenant_id_bytes) [
      | err why ↦ err (value_error why)
      | ok name ↦ elim (parse_api_key_hash api_key_hash) [
        | err why ↦ err why
        | ok digest ↦ ok (record {
          tenant_id = tenant_id;
          api_key_hash = api_key_hash;
          quota = quota;
          enabled = enabled;
        })
      ]
    ]

-- An entry of the authenticator's table.
pub record Record : Type 0 where
  pub digest : Digest
  pub tenant_id : String
  pub enabled : Bool

unfoldable pub contains {ℓ} : {A : Type ℓ} ⦃e : Equality A⦄ → A → List A → Bool
contains a [] = false
contains a (x ∷ xs) = a == x || contains a xs

-- the loop of `ApiKeyAuthenticator.__init__`, with the tenant ids and the digests seen so far
unfoldable pub collect : List String → List Digest → List TenantConfig → Result Error (List Record)
unfolding contains
collect ids digests [] = ok []
collect ids digests (config ∷ configs) = elim (parse_api_key_hash config.api_key_hash) [
  | err why ↦ err why
  | ok digest ↦
      if contains config.tenant_id ids
      then err (value_error "tenant ids must be unique")
      else if contains digest digests
      then err (value_error "API key hashes must be unique")
      else elim (collect (config.tenant_id ∷ ids) (digest ∷ digests) configs) [
        | err why ↦ err why
        | ok records ↦ ok (
            record { digest = digest; tenant_id = config.tenant_id; enabled = config.enabled }
            ∷ records)
      ]
]

unfoldable pub non_empty : List Record → Result Error (List Record)
non_empty [] = err (value_error "at least one tenant must be configured")
non_empty (r ∷ records) = ok (r ∷ records)

-- `ApiKeyAuthenticator.__init__`
unfoldable pub make_authenticator : List TenantConfig → Result Error (List Record)
unfolding collect non_empty
make_authenticator configs = elim (collect [] [] configs) [
  | err why ↦ err why
  | ok records ↦ non_empty records
]

-- the loop of `authenticate`: every record is compared, and the last match stays
unfoldable pub scan : Digest → Option Record → List Record → Option Record
scan supplied found [] = found
scan supplied found (r ∷ records) =
    scan supplied (if supplied == r.digest then some r else found) records

-- The key's bytes, where a key is supplied that can be one.
unfoldable pub candidate : Option (List ℕ) → Option (List ℕ)
candidate none = none
candidate (some key) = elim (secret_bytes key) [ ok bytes ↦ some bytes | err why ↦ none ]

unfoldable pub admitted : Bool → Option Record → Result Error String
admitted is_valid none = err (access authentication_failed)
admitted is_valid (some r) =
    if not is_valid || not r.enabled then err (access authentication_failed) else ok r.tenant_id

module _ (sha256 : List ℕ → Digest) (records : List Record) where
  unfoldable pub authenticate_candidate : Option (List ℕ) → Result Error String
  unfolding admitted
  authenticate_candidate none =
      admitted false (scan (sha256 (codes "invalid-api-key")) none records)
  authenticate_candidate (some bytes) = admitted true (scan (sha256 bytes) none records)

  -- `ApiKeyAuthenticator.authenticate`
  unfoldable pub authenticate : Option (List ℕ) → Result Error String
  authenticate api_key = authenticate_candidate (candidate api_key)
