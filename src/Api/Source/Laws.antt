-- ===== src/Api/Source/Laws.antt =====
-- What a bound assessment is about.
use lucent.Prelude.{
  ℕ, Text, lower, codes_eq, some, List, [], ◌∷◌, true, nat_beq_iff, Result, ok, err, ◌≡◌, refl, ap,
  ◌∙◌, arith,
}
use lucent.Api.Problems.{Failure}
use lucent.Api.Source.{
  same_code, Source, Assessment, is_empty, check_source, attested, bind_verified_source,
}

-- The source is of the contract that the call is sent to, but for the case of letters, which is no
-- proxy, and whose code is the code that runs.
pub record IsDirect {ℓ} {Abi : Type ℓ} (chain_id : ℕ) (to : Text) (source : Source Abi)
    : Type ℓ where
  pub chain : source.chain_id ≡ chain_id
  pub address : lower source.address ≡ lower to
  pub no_proxy : source.proxy_chain ≡ []
  pub code : same_code source.effective_contract source.target ≡ true

is_empty_ok : (xs : List Text) → is_empty xs ≡ true → xs ≡ []
is_empty_ok [] h = refl
is_empty_ok (x ∷ xs) h = absurd (cc)

check_source_ok :
    {Abi : Type 0} (chain_id : ℕ) (to : Text) (s : Source Abi) (abi : Abi)
    → check_source chain_id to s ≡ ok abi
    → IsDirect chain_id to s × (s.abi ≡ abi)
unfolding check_source
check_source_ok chain_id to s abi h = (
  record {
    chain = (nat_beq_iff s.chain_id chain_id).0 (ground (arith, h));
    address = (codes_eq.same_iff (lower s.address) (lower to)).0 (ground (arith, h));
    no_proxy = is_empty_ok s.proxy_chain (ground (arith, h));
    code = ground (arith, h);
  },
  ground (arith, h),
)

-- With a provider, an assessment is returned only for a source that is of the call's deployment. It
-- is the analysis with the ABI of that source, which then names the source, calls the bytecode
-- verified, and keeps of the analysis's limitations just those that the source does not lift.
pub bind_verified_source-IsDirect :
    {Abi : Type 0} (source : Result Failure (Source Abi)) (chain_id : ℕ) (to : Text)
    (analyse : Abi → Result Failure Assessment) (baseline a : Assessment)
    → bind_verified_source (some source) chain_id to analyse baseline ≡ ok a
    → (s : Source Abi) × (b : Assessment) × ((source ≡ ok s)
        × (IsDirect chain_id to s × ((analyse s.abi ≡ ok b) × (a ≡ attested s b))))
unfolding bind_verified_source
bind_verified_source-IsDirect (err e) chain_id to analyse baseline a h = absurd (cc)
bind_verified_source-IsDirect {Abi} (ok s) chain_id to analyse baseline a h =
    by_check (check_source chain_id to s) refl h
  where
    answer : Result Failure Assessment → Result Failure Assessment
    answer r = elim r [ err e ↦ err e | ok result ↦ ok (attested s result) ]

    analysed :
        (r : Result Failure Assessment)
        → answer r ≡ ok a
        → (b : Assessment) × ((r ≡ ok b) × (a ≡ attested s b))
    analysed (err e) k = absurd (cc)
    analysed (ok b) k = (b, (refl, ground (arith, k)))

    by_check :
        (r : Result Failure Abi)
        → check_source chain_id to s ≡ r
        → elim r [ err e ↦ err e | ok abi ↦ answer (analyse abi) ] ≡ ok a
        → (t : Source Abi) × (b : Assessment) × ((◌≡◌ {A = Result Failure (Source Abi)}
              (ok s)
              (ok t))
            × (IsDirect chain_id to t × ((analyse t.abi ≡ ok b) × (a ≡ attested t b))))
    by_check (err e) made k = absurd (cc)
    by_check (ok abi) made k =
        let (direct, same) = check_source_ok chain_id to s abi made in
        let (b, (found, made_so)) = analysed (analyse abi) k in
        (s, b, (refl, (direct, (ap analyse same ∙ found, made_so))))
