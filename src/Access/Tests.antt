-- ===== src/Access/Tests.antt =====
-- The theorems about lucent/access.py at concrete inputs, and runs of its methods.
use lucent.Prelude.{
  ℕ, ◌+◌, ◌*◌, ◌≤◌, ◌≡◌, refl, String, string_eq, some, List, [], ◌∷◌, true, false, ok, err, arith,
  codes, ◌↔◌, length, codes_eq, if◌then◌else◌, ltb,
}
use lucent.Prelude.Dict.{get}
use lucent.Access.Errors.{whole, access, idempotency_in_progress, quota_exceeded}
use lucent.Access.Errors.{AccessError, as_problem}
use lucent.Access.Errors.Problem.{HasFields, as_problem-HasFields}
use lucent.Access.Quota.{QuotaPolicy, Limiter, consume, charge, refilled, token_unit}
use lucent.Access.Quota.Bounds
use lucent.Access.Quota.Bounds.{Request, spent, grants, spent-le}
use lucent.Access.Quota.Retry.{consume-retry}
use lucent.Access.Auth.{
  Digest, TenantConfig, Record, make_authenticator, parse_api_key_hash, authenticate,
  authenticate_candidate, make_tenant_config, scan, candidate, secret_bytes, contains,
}
use lucent.Access.Auth.Laws.{Proves, entry, authenticate_iff}
use lucent.Access.Controller.{AccessController, make_store, make_controller}
use lucent.Access.Controller.Known.{authenticate-known}
use lucent.Access.Idempotency.Response.{Response, size_bytes}
use lucent.Access.Idempotency.Store.{
  Policy, Reservation, granted, replay, remove, remove_all, expire, owns, make_room,
}
use lucent.Access.Idempotency.Methods.{new_reservation, reserve, commit, abort}
use lucent.Access.Idempotency.Validity.{IsValid-empty}
use lucent.Access.Idempotency.Change.{Call, reserving, perform}
use lucent.Access.Idempotency.Perform.{IsPolicy}
use lucent.Access.Idempotency.History.{IsWellFormed, build-IsWellFormed, Event, at, run, start}
use lucent.Access.Idempotency.Replay.{reserve-commit}
use lucent.Access.Idempotency.Exclusion.{reserve-reserve}
use lucent.Access.Idempotency.Outcomes.{
  run-IsWellFormed, commit_table, commit-result, reserve-abort,
}

-- A store for paid work: it does not evict, and holds two responses of up to 100 bytes.
abbrev paid : Policy
paid = record {
  ttl = 300;
  reservation_ttl = 60;
  max_entries = 2;
  max_response_bytes = 100;
  max_total_response_bytes = 200;
  evict_completed_entries = false;
}

abbrev plain_digest : String → String
plain_digest s = s

paid-IsPolicy : IsPolicy paid
paid-IsPolicy = omega arith

start-IsWellFormed : IsWellFormed (start paid)
start-IsWellFormed = build-IsWellFormed paid [] (IsValid-empty paid)

abbrev first_reservation : Reservation
first_reservation = new_reservation 10 ("tenant", "key") "request" "token-1" paid

abbrev done : Response
done = record { status_code = 200; body = 123 ∷ 125 ∷ []; headers = ("ETag", "abc") ∷ [] }

-- Work is reserved, and another tenant's work too.
abbrev busy : List Event
busy =
    at 10 (reserving "token-1" "tenant" "key" "request")
    ∷ at 12 (reserving "token-2" "other" "key" "r")
    ∷ []

busy_store : IsWellFormed (run plain_digest busy (start paid))
busy_store = run-IsWellFormed plain_digest busy (start paid) paid-IsPolicy start-IsWellFormed

run-IsWellFormed_example : IsWellFormed (run plain_digest busy (start paid))
run-IsWellFormed_example =
    run-IsWellFormed plain_digest busy (start paid) paid-IsPolicy start-IsWellFormed

first_reserve :
    (reserve plain_digest 10 "token-1" "tenant" "key" "request" (start paid)).0
    ≡ ok (granted first_reservation)
unfolding reserve expire remove_all make_room
first_reserve = refl

commits : (commit 20 first_reservation done (run plain_digest busy (start paid))).0 ≡ ok tt
unfolding run perform reserve expire remove_all make_room commit owns size_bytes
commits = refl

-- Between the commit and the replay: new work of the other tenant, which finds the store full.
abbrev later_calls : List Event
later_calls = at 30 (reserving "token-3" "other" "key-2" "r") ∷ at 200 Call.measuring ∷ []

reserve-commit_example :
    (reserve plain_digest 319 "token-4" "tenant" "key" "request" (
      run plain_digest later_calls
        (commit 20 first_reservation done (run plain_digest busy (start paid))).1)).0
    ≡ ok (replay done)
unfolding run perform reserve expire remove_all make_room
reserve-commit_example =
    reserve-commit plain_digest (run plain_digest busy (start paid)) paid-IsPolicy busy_store refl
      20 319 later_calls first_reservation done "token-4" "key" refl refl (omega arith)
      (omega arith) commits

reserve-reserve_example :
    (reserve plain_digest 69 "token-5" "tenant" "key" "request" (
      run plain_digest
        (at 30 (reserving "token-3" "other" "key-2" "r") ∷ [])
        (reserve plain_digest 10 "token-1" "tenant" "key" "request" (start paid)).1)).0
    ≡ err (access (idempotency_in_progress (whole 1)))
reserve-reserve_example =
    reserve-reserve plain_digest (start paid) paid-IsPolicy start-IsWellFormed 10 69
      (at 30 (reserving "token-3" "other" "key-2" "r") ∷ []) first_reservation "token-1" "token-5"
      "tenant" "key" "request" refl (omega arith, (λ h. h), tt) (omega arith) first_reserve

commit-result_example :
    (commit 20 first_reservation done (run plain_digest busy (start paid))).0
    ≡ commit_table 20 first_reservation done (run plain_digest busy (start paid))
unfolding run perform reserve expire remove_all make_room
commit-result_example =
    commit-result (run plain_digest busy (start paid)) paid-IsPolicy busy_store 20 first_reservation
      done

aborts : (abort 20 first_reservation (run plain_digest busy (start paid))).0 ≡ ok true
unfolding run perform reserve expire remove_all make_room abort owns remove
aborts = refl

reserve-abort_example :
    (reserve plain_digest 25 "token-6" "tenant" "key" "changed"
      (abort 20 first_reservation (run plain_digest busy (start paid))).1).0
    ≡ ok (granted (new_reservation 25 ("tenant", "key") "changed" "token-6" paid))
unfolding run perform reserve expire remove_all make_room
reserve-abort_example =
    reserve-abort plain_digest (run plain_digest busy (start paid)) busy_store 20 25
      first_reservation "token-6" "key" "changed" refl refl aborts

as_problem-HasFields_example :
    HasFields
      (AccessError.quota_exceeded 60 0 (whole 5))
      (some "r-1")
      (as_problem (AccessError.quota_exceeded 60 0 (whole 5)) (some "r-1"))
as_problem-HasFields_example =
    as_problem-HasFields (AccessError.quota_exceeded 60 0 (whole 5)) (some "r-1")

-- Two tokens, and one more for each second.
abbrev small_quota : QuotaPolicy
small_quota = record { capacity = 2; refill = 1000 }

abbrev limiter : Limiter
limiter = record { policies = ("tenant", small_quota) ∷ []; buckets = [] }

-- The third request comes too soon, the fourth does not.
abbrev requests : List Request
requests =
    record { time = 0; tenant_id = "tenant"; cost = token_unit }
    ∷ record { time = 0; tenant_id = "tenant"; cost = token_unit }
    ∷ record { time = 1_000; tenant_id = "tenant"; cost = token_unit }
    ∷ record { time = 1_000_000_000; tenant_id = "tenant"; cost = token_unit }
    ∷ []

three_granted : spent "tenant" requests limiter ≡ 3 * token_unit
unfolding spent consume charge refilled
three_granted = refl

spent-le_example :
    spent "tenant" requests limiter
    ≤ 2 * token_unit + 1_000_000_000 * 1000 + grants "tenant" requests limiter
spent-le_example =
    spent-le small_quota 0 1_000_000_000 "tenant" requests limiter refl refl (omega arith)

abbrev spent_limiter : Limiter
spent_limiter = record limiter { buckets = ("tenant", record { tokens = 0; last_refill = 0 }) ∷ [] }

refused_now :
    (consume 0 "tenant" token_unit spent_limiter).0
    ≡ err (access (quota_exceeded 2 0 (record { ticks = token_unit; over = 1000 })))
unfolding consume charge refilled
refused_now = refl

consume-retry_example :
    Bounds.granted token_unit
      (consume 1_000_000_000 "tenant" token_unit (consume 0 "tenant" token_unit spent_limiter).1).0
    ≡ token_unit
unfolding consume charge refilled
consume-retry_example =
    consume-retry small_quota 0 1_000_000_000 token_unit 2 0
      (record { ticks = token_unit; over = 1000 }) "tenant" spent_limiter
      (record { tokens = 0; last_refill = 0 }) refl refl refused_now refl (omega arith)

-- A stand-in for the digest: it tells keys of one byte from all others.
abbrev sample_digest : List ℕ → Digest
sample_digest bytes =
    if ltb (length bytes) 2
    then codes "0000000000000000000000000000000000000000000000000000000000000001"
    else codes "0000000000000000000000000000000000000000000000000000000000000002"

abbrev tenant_config : TenantConfig
tenant_config = record {
  tenant_id = "tenant";
  api_key_hash = codes "sha256:0000000000000000000000000000000000000000000000000000000000000001";
  quota = small_quota;
  enabled = true;
}

abbrev tenant_record : Record
tenant_record = entry tenant_config (sample_digest (codes "k"))

abbrev access_controller : AccessController
access_controller = record {
  authenticator = tenant_record ∷ [];
  quotas = limiter;
  idempotency = start paid;
  tenant_ids = "tenant" ∷ [];
}

built_authenticator : make_authenticator (tenant_config ∷ []) ≡ ok (tenant_record ∷ [])
unfolding make_authenticator parse_api_key_hash
built_authenticator = refl

built_controller : make_controller (tenant_config ∷ []) paid ≡ ok access_controller
unfolding make_controller make_authenticator parse_api_key_hash make_store
built_controller = refl

authenticate_iff_example :
    (authenticate sample_digest (tenant_record ∷ []) (some (codes "k")) ≡ ok "tenant")
    ↔ Proves sample_digest (tenant_record ∷ []) (some (codes "k")) "tenant"
authenticate_iff_example =
    authenticate_iff sample_digest (tenant_config ∷ []) (tenant_record ∷ []) (some (codes "k"))
      "tenant" built_authenticator

key_accepted : authenticate sample_digest (tenant_record ∷ []) (some (codes "k")) ≡ ok "tenant"
unfolding authenticate authenticate_candidate scan candidate secret_bytes
key_accepted = refl

authenticate-known_example :
    ((q : QuotaPolicy) × (get "tenant" access_controller.quotas.policies ≡ some q))
    × (contains "tenant" access_controller.tenant_ids ≡ true)
authenticate-known_example =
    authenticate-known sample_digest (tenant_config ∷ []) paid access_controller (some (codes "k"))
      "tenant" built_controller key_accepted

made_config :
    make_tenant_config tenant_config.tenant_id tenant_config.api_key_hash tenant_config.quota
      tenant_config.enabled
    ≡ ok tenant_config
unfolding make_tenant_config
made_config = refl
