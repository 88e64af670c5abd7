-- ===== src/Api/Source.antt =====
-- lucent/api.py, `_bind_verified_source`: the source that the provider returns must be the
-- deployment of the call, and no proxy.
pub mod Laws
use lucent.Prelude.{
  ℕ, Text, lower, codes, codes_eq, starts_with, filter, String, Option, none, some, List, [], ◌∷◌,
  Bool, true, false, not, ◌&&◌, ◌||◌, nat_beq, if◌then◌else◌, ◌==◌, Result, ok, err,
}
use lucent.Api.Problems.{Failure, of_source}

-- `CodeIdentity`
pub record CodeIdentity : Type 0 where
  pub address : Text
  pub keccak256 : Text
  pub size_bytes : ℕ

abbrev pub same_code : CodeIdentity → CodeIdentity → Bool
same_code a b =
    a.address == b.address && a.keccak256 == b.keccak256 && nat_beq a.size_bytes b.size_bytes

-- `BlockIdentity`
pub record BlockIdentity : Type 0 where
  pub number : ℕ
  pub hash : Text

-- `VerifiedSourceResult`, with any type of ABI; a hop of the proxy chain is its address.
pub record Source {ℓ} (Abi : Type ℓ) : Type ℓ where
  pub chain_id : ℕ
  pub address : Text
  pub block : BlockIdentity
  pub target : CodeIdentity
  pub effective_contract : CodeIdentity
  pub proxy_chain : List Text
  pub verification_match : Text
  pub abi_hash : Text
  pub abi : Abi

-- `_verified_source_summary`, without the name of the provider, which is fixed
pub record Summary : Type 0 where
  pub chain_id : ℕ
  pub address : Text
  pub block : BlockIdentity
  pub target : CodeIdentity
  pub effective_contract : CodeIdentity
  pub proxy_chain : List Text
  pub verification_match : Text
  pub abi_hash : Text

-- The result of `preflight_transaction`: of its assurance the entries that the binding sets, its
-- limitations, and the rest of it.
pub record Assessment : Type 0 where
  pub abi_source : String
  pub bytecode_verified : Bool
  pub verified_source : Option Summary
  pub limitations : List Text
  pub rest : Text

-- A limitation that a bound source lifts.
abbrev pub is_lifted : Text → Bool
is_lifted item =
    starts_with (codes "Static analysis of one caller-supplied") item
    || starts_with (codes "Does not inspect bytecode") item

abbrev pub is_empty : List Text → Bool
is_empty [] = true
is_empty (x ∷ xs) = false

module _ {ℓ} {Abi : Type ℓ} where
  -- The checks of the source against the call.
  unfoldable pub check_source : ℕ → Text → Source Abi → Result Failure Abi
  check_source chain_id to source =
      if not (nat_beq source.chain_id chain_id)
        || not (lower source.address == lower to)
        || (is_empty source.proxy_chain && not (same_code source.effective_contract source.target))
      then err (
          of_source "SOURCE_IDENTITY_MISMATCH"
            "verified source evidence did not match the requested deployment")
      else if not (is_empty source.proxy_chain)
      then err (
          of_source "PROXY_SEMANTICS_UNVERIFIED"
            "hosted V1 does not clear upgradeable or proxy-backed deployments")
      else ok source.abi

  unfoldable pub summary : Source Abi → Summary
  summary source = record {
    chain_id = source.chain_id;
    address = source.address;
    block = source.block;
    target = source.target;
    effective_contract = source.effective_contract;
    proxy_chain = source.proxy_chain;
    verification_match = source.verification_match;
    abi_hash = source.abi_hash;
  }

  -- What an analysis with the ABI of the source says of its assurance and its limitations.
  unfoldable pub attested : Source Abi → Assessment → Assessment
  attested source result = record result {
    abi_source = "sourcify_v2_finalized_runtime";
    bytecode_verified = true;
    verified_source = some (summary source);
    limitations =
        codes
          "The descriptor's display rules remain caller-supplied and are not a provenance claim."
        ∷ codes "ABI and runtime bytecode were bound through Sourcify at one finalized block."
        ∷ codes "Hosted V1 clears only direct deployments; proxy-backed contracts are rejected."
        ∷ filter (λ item. not (is_lifted item)) result.limitations;
  }

  -- `_bind_verified_source`: what the provider answers, if there is one, and the analysis of the
  -- call with the ABI of the source.
  unfoldable pub bind_verified_source :
      Option (Result Failure (Source Abi))
      → ℕ
      → Text
      → (Abi → Result Failure Assessment)
      → Assessment
      → Result Failure Assessment
  unfolding check_source attested
  bind_verified_source none chain_id to analyse baseline = ok baseline
  bind_verified_source (some (err e)) chain_id to analyse baseline = err e
  bind_verified_source (some (ok source)) chain_id to analyse baseline =
      elim (check_source chain_id to source) [
        | err e ↦ err e
        | ok abi ↦ elim (analyse abi) [ err e ↦ err e | ok result ↦ ok (attested source result) ]
      ]
