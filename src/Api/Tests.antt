-- ===== src/Api/Tests.antt =====
-- The theorems about lucent/api.py and lucent/hosted.py at a service that takes payments of one
-- cent, and runs of its handler.
use lucent.Prelude.{
  ℕ, ◌≤◌, ◌<◌, Text, Bool, String, string_eq, codes, Option, none, some, List, [], ◌∷◌, true, false,
  Result, ok, err, ◌≡◌, ◌↔◌, ◌⊎◌, length, refl, arith, ◌||◌, if◌then◌else◌, ltb,
}
use lucent.Prelude.Dict.{get}
use lucent.Access.Controller.{AccessController}
use lucent.Access.Idempotency.Store.{CacheKey, Store}
use lucent.Access.Idempotency.Response.{Response}
use lucent.Access.Errors.{access, quota_exceeded}
use lucent.Access.Idempotency.Perform.{IsPolicy}
use lucent.Access.Idempotency.Accounting.{build}
use lucent.Access.Idempotency.Validity.{IsValid-empty}
use lucent.Payments.Errors.{PaymentError, unavailable, final}
use lucent.Payments.Settle.{settle}
use lucent.Payments.Terms.{proof_fingerprint}
use lucent.Payments.Gateway.{Facilitator, second}
use lucent.Payments.Gateway.Preliminary.{settlements}
use lucent.Payments.Sample.{config, library, facilitator, signature, verified, broken}
use lucent.Api.Problems.{Failure, of_access, payment_failure_headers}
use lucent.Api.Problems.Retry.{settle-no_retry}
use lucent.Api.Hosted.{
  payment_policy, claims_policy, make_runtime, KeepsClaims, make_runtime-KeepsClaims,
}
use lucent.Api.BodySize.{
  Message, http_request, rejected, passed, awaiting, receive_request, first_request, is_complete,
  body_size, declares_more, receive_all, receive_request_lem,
}
use lucent.Api.Sample.{
  service, clear, request, at_time, idle, keyed_service, keyed_request, with_tenant,
}
use lucent.Api.Identity.{
  runtime_identity, ready_status, is_disabled, is_object_id, is_release_id, ready_status_iff,
}
use lucent.Api.Source.{CodeIdentity, Source, Assessment, attested, bind_verified_source}
use lucent.Api.Source.Laws.{IsDirect, bind_verified_source-IsDirect}
use lucent.Api.Service.{x402, Request, Timeline, Scope}
use lucent.Api.Admission.{Answer, Admission, served, replay_response, admit_key}
use lucent.Api.Admission.Replay.{replay_response-proof}
use lucent.Api.Handler.{transaction_preflight}
use lucent.Api.Once.{claim_key, times_settled, IsWithin, AreWithin, serve_all}
use lucent.Api.Once.Requests.{times_settled-serve_all}

-- The same payment twice, with another key the second time.
abbrev two_requests : List (Facilitator × (Timeline × Request))
two_requests =
    (facilitator, (at_time 10 "token-1", request))
    ∷ (facilitator, (at_time 20 "token-2", record request { idempotency_key = some "payment-2" }))
    ∷ []

abbrev key : CacheKey
key = claim_key service (codes "sha256:0x33")

at_time-IsWithin :
    (now : ℕ) (token : String) → now < 1000 → IsWithin claims_policy 1000 (at_time now token)
at_time-IsWithin now token early = record {
  verifying = tt;
  claiming = early;
  binding = tt;
  committing = early;
  recent = omega arith;
  settling = tt;
  aborting = early;
}

two_requests-AreWithin : AreWithin claims_policy 1000 two_requests
two_requests-AreWithin =
    (at_time-IsWithin 10 "token-1" (omega arith), (at_time-IsWithin 20 "token-2" (omega arith), tt))

claims-IsPolicy : IsPolicy claims_policy
claims-IsPolicy = omega arith

times_settled-serve_all_example :
    times_settled service key (settlements (serve_all service two_requests idle).calls) ≤ 1
times_settled-serve_all_example =
    times_settled-serve_all service claims_policy claims-IsPolicy refl key 1000 two_requests
      two_requests-AreWithin idle
      (record { entries = []; same = refl; valid = IsValid-empty claims_policy }) refl

two_requests_run :
    times_settled service key (settlements (serve_all service two_requests idle).calls) ≡ 1
unfolding serve_all transaction_preflight lucent.Access.Idempotency.Methods.reserve
    lucent.Access.Idempotency.Methods.commit lucent.Access.Idempotency.Methods.abort
    lucent.Access.Idempotency.Store.expire lucent.Access.Idempotency.Store.remove_all
    lucent.Access.Idempotency.Store.remove lucent.Access.Idempotency.Store.make_room
    lucent.Access.Idempotency.Store.owns lucent.Access.Idempotency.Response.size_bytes
    lucent.Access.Idempotency.Response.from_parts lucent.Payments.Gateway.verify
    lucent.Payments.Terms.same_terms lucent.Payments.Terms.authorization_fingerprint
    lucent.Payments.Gateway.payer_of lucent.Payments.Terms.proof_fingerprint
    lucent.Payments.Settle.settle lucent.Payments.Terms.is_hash
    lucent.Payments.Gateway.require_enabled lucent.Api.Source.bind_verified_source
    lucent.Access.Idempotency.History.run lucent.Api.Admission.admit_mode
two_requests_run = refl

runtime_run :
    make_runtime x402 []
    ≡ ok (record {
      access = none;
      payment_idempotency = some (build payment_policy []);
      payment_claims = some (build claims_policy []);
    })
unfolding make_runtime lucent.Access.Controller.make_store
runtime_run = refl

make_runtime-KeepsClaims_example : KeepsClaims (some (build claims_policy []))
make_runtime-KeepsClaims_example =
    make_runtime-KeepsClaims x402 []
      (record {
        access = none;
        payment_idempotency = some (build payment_policy []);
        payment_claims = some (build claims_policy []);
      })
      runtime_run refl

retry_run :
    payment_failure_headers none (unavailable "FACILITATOR_UNAVAILABLE" "down")
    ≡ ok (("Retry-After", "2") ∷ [])
unfolding payment_failure_headers
retry_run = refl

abbrev unknown_outcome : PaymentError
unknown_outcome =
    final 502 "FACILITATOR_UNAVAILABLE"
      "payment settlement outcome is unknown and requires reconciliation"

settle_broken : (settle library broken config verified []).0 ≡ err unknown_outcome
unfolding settle lucent.Payments.Gateway.require_enabled
settle_broken = refl

no_headers : payment_failure_headers none unknown_outcome ≡ ok []
unfolding payment_failure_headers
no_headers = refl

settle-no_retry_example : get {K = String} {V = String} "Retry-After" [] ≡ none
settle-no_retry_example =
    settle-no_retry library broken config verified [] refl unknown_outcome settle_broken none []
      no_headers

abbrev identity : CodeIdentity
identity = record { address = codes "0xAA"; keccak256 = codes "0x01"; size_bytes = 1 }

abbrev source : Source Text
source = record {
  chain_id = 8453;
  address = codes "0xaa";
  block = record { number = 7; hash = codes "0x07" };
  target = identity;
  effective_contract = identity;
  proxy_chain = [];
  verification_match = codes "match";
  abi_hash = codes "sha256:0x44";
  abi = codes "abi";
}

bound_run :
    bind_verified_source (some (ok source)) 8453 (codes "0xAA") (λ abi. ok clear) clear
    ≡ ok (attested source clear)
unfolding bind_verified_source
bound_run = refl

bound_limitations : (attested source clear).limitations ≡ (
    codes "The descriptor's display rules remain caller-supplied and are not a provenance claim."
    ∷ codes "ABI and runtime bytecode were bound through Sourcify at one finalized block."
    ∷ codes "Hosted V1 clears only direct deployments; proxy-backed contracts are rejected."
    ∷ codes "Another limitation."
    ∷ [])
unfolding attested
bound_limitations = refl

bind_verified_source-IsDirect_example :
    (s : Source Text) × (b : Assessment) × ((◌≡◌ {A = Result Failure (Source Text)}
        (ok source)
        (ok s))
      × (IsDirect 8453 (codes "0xAA") s
          × ((◌≡◌ {A = Result Failure Assessment} (ok clear) (ok b))
              × (attested source clear ≡ attested s b))))
bind_verified_source-IsDirect_example =
    bind_verified_source-IsDirect (ok source) 8453 (codes "0xAA") (λ abi. ok clear) clear
      (attested source clear) bound_run

abbrev cached : Response
cached = record {
  status_code = 200;
  body = [];
  headers = ("Lucent-Internal-Payment-Proof", "sha256:c2lnbmVk") ∷ [];
}

abbrev replayed : Answer
replayed = served (record {
  status_code = 200;
  body = [];
  headers = ("Idempotency-Replayed", "true") ∷ ("Content-Type", "application/json") ∷ [];
})

replay_run : replay_response service cached (some signature) [] ≡ ok replayed
unfolding replay_response lucent.Payments.Settle.assert_replay_proof proof_fingerprint
replay_run = refl

replay_response-proof_example :
    (t : Text) × ((◌≡◌ {A = Option Text} (some signature) (some t))
      × (proof_fingerprint library.sha256 t ≡ codes "sha256:c2lnbmVk"))
replay_response-proof_example =
    replay_response-proof service cached (some signature) [] "sha256:c2lnbmVk" replayed refl
      replay_run

abbrev source_commit : Text
source_commit = codes "0123456789abcdef0123456789abcdef01234567"

abbrev release : Text
release = codes "0123456789abcdef0123456789abcdef0123456789abcdef0123456789abcdef"

ready_status_iff_example :
    (ready_status (runtime_identity source_commit release true) x402 ≡ 200) ↔ (
      (is_disabled x402 ≡ false)
      × (((is_object_id source_commit ≡ true) × (is_release_id release ≡ true))
          ⊎ ((length source_commit ≡ 0) × ((length release ≡ 0) × (true ≡ false)))))
ready_status_iff_example = ready_status_iff source_commit release true x402

is_ready : ready_status (runtime_identity source_commit release true) x402 ≡ 200
unfolding ready_status runtime_identity
is_ready = refl

is_not_ready : ready_status (runtime_identity source_commit [] true) x402 ≡ 503
unfolding ready_status runtime_identity
is_not_ready = refl

abbrev pieces : List Message
pieces = http_request (codes "abc") true ∷ http_request (codes "de") false ∷ []

receive_request_lem_example : receive_request 4 none pieces ≡ (
    if declares_more 4 none || ltb 4 (body_size (first_request pieces))
    then rejected
    else if is_complete pieces
    then passed (first_request pieces)
    else awaiting)
receive_request_lem_example = receive_request_lem 4 none pieces

is_too_large : receive_request 4 none pieces ≡ rejected
unfolding receive_request receive_all
is_too_large = refl

is_small_enough : receive_request 5 (some 5) pieces ≡ passed pieces
unfolding receive_request receive_all
is_small_enough = refl

abbrev is_over_quota : Result Failure Admission → Bool
is_over_quota (err (of_access (access (quota_exceeded limit remaining retry)))) = true
is_over_quota _ = false

abbrev admitted_at : ℕ → String → Scope → Result Failure Admission × Scope
unfolding admit_key
admitted_at now key_name s =
    admit_key keyed_service (at_time now key_name) (keyed_request key_name) (codes "k") s

-- The first request is within the quota, the second one at the same time is not, and one that comes
-- a second later is again.
second_is_refused :
    (is_over_quota (admitted_at 0 "a" with_tenant).0 ≡ false)
    × ((is_over_quota (admitted_at 0 "b" (admitted_at 0 "a" with_tenant).1).0 ≡ true)
        × (is_over_quota (admitted_at second "b" (admitted_at 0 "a" with_tenant).1).0 ≡ false))
unfolding admitted_at admit_key lucent.Access.Controller.authorize lucent.Access.Auth.authenticate
    lucent.Access.Quota.consume lucent.Access.Controller.reserve_idempotency
    lucent.Access.Idempotency.Methods.reserve lucent.Access.Idempotency.Store.expire
    lucent.Access.Idempotency.Store.remove_all lucent.Access.Idempotency.Store.make_room
    lucent.Access.Auth.authenticate_candidate lucent.Access.Auth.candidate
    lucent.Access.Auth.secret_bytes lucent.Access.Auth.scan lucent.Access.Quota.charge
    lucent.Access.Quota.refilled lucent.Access.Auth.contains
second_is_refused = (refl, (refl, refl))
