-- ===== src/Api/Identity.antt =====
-- lucent/api.py, `_runtime_identity`, and the statuses of the routes `health` and `ready`.
use lucent.Prelude.{
  ℕ, Text, codes_eq, [], ◌∷◌, length, Bool, true, false, not, ◌&&◌, ◌||◌, leb, nat_beq,
  if◌then◌else◌, ◌≡◌, ◌↔◌, ◌⊎◌, arith,
}
use lucent.Api.Service.{AccessMode, disabled}

-- The identity of the runtime: the commit and the release, none for a local run, or an invalid one.
pub data Identity : Type 0 where
  verified : Text → Text → Identity
  local invalid : Identity

abbrev pub all_lower_hex : Text → Bool
all_lower_hex [] = true
all_lower_hex (c ∷ t) =
    ((leb b'0' c && leb c b'9') || (leb b'a' c && leb c b'f')) && all_lower_hex t

-- `[0-9a-f]{40}(?:[0-9a-f]{24})?\Z`
abbrev pub is_object_id : Text → Bool
is_object_id t = (nat_beq (length t) 40 || nat_beq (length t) 64) && all_lower_hex t

-- `[0-9a-f]{64}\Z`
abbrev pub is_release_id : Text → Bool
is_release_id t = nat_beq (length t) 64 && all_lower_hex t

abbrev is_blank : Text → Bool
is_blank t = nat_beq (length t) 0

-- `_runtime_identity`, of the commit and the release that the environment names, empty where it
-- names none, and of the mark of the hosting platform
unfoldable pub runtime_identity : Text → Text → Bool → Identity
runtime_identity source_commit release_id railway_runtime =
    if is_object_id source_commit && is_release_id release_id
    then verified source_commit release_id
    else if is_blank source_commit && is_blank release_id && not railway_runtime
    then local
    else invalid

abbrev pub is_valid : Identity → Bool
is_valid invalid = false
is_valid _ = true

-- the status of `health`
unfoldable pub health_status : Identity → ℕ
health_status identity = if is_valid identity then 200 else 503

abbrev pub is_disabled : AccessMode → Bool
is_disabled disabled = true
is_disabled _ = false

-- the status of `ready`
unfoldable pub ready_status : Identity → AccessMode → ℕ
ready_status identity mode =
    if not (is_valid identity) then 503 else if is_disabled mode then 503 else 200

-- The service is ready exactly when its access mode is not disabled and it runs either a full commit
-- and release, both of lower-case hexadecimal digits, or no named one outside the platform.
pub ready_status_iff :
    (source_commit release_id : Text) (railway_runtime : Bool) (mode : AccessMode)
    → (ready_status (runtime_identity source_commit release_id railway_runtime) mode ≡ 200) ↔ (
        (is_disabled mode ≡ false)
        × (((is_object_id source_commit ≡ true) × (is_release_id release_id ≡ true))
            ⊎ ((length source_commit ≡ 0) × ((length release_id ≡ 0) × (railway_runtime ≡ false)))))
unfolding ready_status runtime_identity
ready_status_iff source_commit release_id railway_runtime mode =
    (λ h. ground (arith, h), λ h. ground (arith, h))
