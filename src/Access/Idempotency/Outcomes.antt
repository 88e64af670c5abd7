-- ===== src/Access/Idempotency/Outcomes.antt =====
-- `IdempotencyStore`: the invariant over every history, and how `commit` and `abort` end.
use lucent.Prelude.{
  ℕ, ◌<◌, ◌≤◌, ◌≡◌, sym, ◌∙◌, List, none, some, true, false, not, arith, if◌then◌else◌, length,
  String, inl, inr, Result, ok, err, Bool-cases, ltb, ap,
}
use mathlib.Core.Path.{subst}
use lucent.Prelude.Dict.{
  get, erase, sum_of, length-erase, sum_of-erase, length-retain-le, sum_of-retain-le,
  get-erase_self, get-retain-none, All-get,
}
use lucent.Access.Errors.{Error, access, invalid_reservation, idempotency_response_too_large}
use lucent.Access.Idempotency.Response.{Response, size_bytes}
use lucent.Access.Idempotency.Store.{
  CacheKey, key_eq, Entry, Policy, Store, Reservation, Decision, granted, reserved, is_expired,
  cached_size, owns, cache_key,
}
use lucent.Access.Idempotency.Methods.{new_reservation, reserve, reserve_at, abort, commit}
use lucent.Access.Idempotency.Accounting.{Entries, build, live, reserved_size}
use lucent.Access.Idempotency.Eviction.{Evicts, stop, evict}
use lucent.Access.Idempotency.Validity.{IsValid, IsShaped, live-IsValid, Evicts-none, erase-IsValid}
use lucent.Access.Idempotency.Behaviour.{is_over_budget, reserve_at-Admission}
use lucent.Access.Idempotency.Publishing.{
  owns-pending, abort-owned, abort-not_owned, commit-too_large, commit-not_owned, commit-Published,
}
use lucent.Access.Idempotency.Change.{is_input, reserve-accepted}
use lucent.Access.Idempotency.Perform.{IsPolicy, owned-cases}
use lucent.Access.Idempotency.History.{
  IsWellFormed, IsWellFormed-build, build-IsWellFormed, Event, run, run-IsValid,
}

-- Every history of calls, at any readings of the clock, keeps the invariant: the counters are the
-- sums over the entries, no key stands twice, at most `max_entries` entries are kept, and the
-- bytes that are cached and held are at most `max_total_response_bytes`.
pub run-IsWellFormed :
    (sha256 : String → String) (events : List Event) (s : Store)
    → IsPolicy s.policy
    → IsWellFormed s
    → IsWellFormed (run sha256 events s)
run-IsWellFormed sha256 events s ip w =
    let (ds, same, valid) = run-IsValid sha256 s.policy ip events s.entries w.valid in
    let same' : run sha256 events s ≡ build s.policy ds =
      ap (run sha256 events) (IsWellFormed-build s w) ∙ same in
    rw same' (build-IsWellFormed s.policy ds valid)

abbrev pub commit_table : ℕ → Reservation → Response → Store → Result Error (Unit {0})
commit_table now res r s =
    if ltb s.max_response_bytes (size_bytes r)
    then err (access (idempotency_response_too_large s.max_response_bytes))
    else if owns (get (cache_key res) (live now s.entries)) res
    then ok tt
    else err (access invalid_reservation)

commit-build :
    (p : Policy) (es : Entries)
    → IsPolicy p
    → IsValid p es
    → (now : ℕ) (res : Reservation) (r : Response)
    → (commit now res r (build p es)).0 ≡ commit_table now res r (build p es)
commit-build p es ip v now res r = elim (Bool-cases (ltb p.max_response_bytes (size_bytes r))) [
  | inl large ↦
      ap (λ (o : Result Error (Unit {0}) × Store). o.0) (commit-too_large p now es v res r large)
      ∙ ground arith
  | inr small ↦ elim (owned-cases p now es v res) [
    | inl other ↦
        ap (λ (o : Result Error (Unit {0}) × Store). o.0)
          (commit-not_owned p now es v res r small other)
        ∙ ground arith
    | inr (e, there, mine) ↦
        ap (λ (o : Result Error (Unit {0}) × Store). o.0)
          (commit-Published p now es v res e r ip.has_total small there mine).result
        ∙ sym (rw there (ground arith))
  ]
]

-- How `commit` ends, in every case: it refuses a response over the limit, it refuses a reservation
-- that does not own an entry that is still in time, and otherwise it succeeds. In particular
-- the owner is never refused for want of capacity, and no accounting underflow is met.
pub commit-result :
    (s : Store)
    → IsPolicy s.policy
    → IsWellFormed s
    → (now : ℕ) (res : Reservation) (r : Response)
    → (commit now res r s).0 ≡ commit_table now res r s
commit-result s ip w now res r =
    subst (λ (t : Store). (commit now res r t).0 ≡ commit_table now res r t)
      (sym (IsWellFormed-build s w)) (commit-build s.policy s.entries ip w.valid now res r)

Evicts-length : (p : Policy) {ds es : Entries} → Evicts p ds es → length ds ≤ length es
Evicts-length p stop = omega arith
Evicts-length p (evict {es = es} k e may there finished rest) =
    omega (arith, Evicts-length p rest, length-erase k e es there)

-- Where an entry and its share of the bytes are free, new work is granted.
reserve_at-granted :
    (p : Policy) (now : ℕ) (es : Entries)
    → IsValid p es
    → (token fingerprint : String) (k : CacheKey) → get k (live now es) ≡ none
    → length (live now es) < p.max_entries
    → is_over_budget p (live now es) ≡ false
    → (reserve_at now token k fingerprint (build p es)).0
      ≡ ok (granted (new_reservation now k fingerprint token p))
reserve_at-granted p now es v token fingerprint k new room within =
    let a = reserve_at-Admission p now es v token k fingerprint new in
    elim a.outcome [
      | inl (given, fits, budget) ↦ ap (λ (o : Result Error Decision × Store). o.0) given
      | inr (refused, inl (full, stuck)) ↦ absurd (ground (arith, Evicts-length p a.evicted))
      | inr (refused, inr over) ↦ absurd (unchanged a.left a.evicted over)
    ]
  where
    unchanged : (left : Entries) → Evicts p left (live now es) → is_over_budget p left ≡ true → ⊥
    unchanged left gone over =
        let off : p.evict_completed_entries ≡ false = ground arith in
        let kept : is_over_budget p (live now es) ≡ true =
          ap (is_over_budget p) (sym (Evicts-none p gone off)) ∙ over in
        cc

-- The share of an entry that is not finished is what a new reservation needs.
released_budget :
    (p : Policy) (k : CacheKey) (e : Entry) (ls ds : Entries)
    → IsValid p ls
    → get k ls ≡ some e
    → e.state ≡ reserved
    → sum_of cached_size ds ≤ sum_of cached_size (erase k ls)
    → sum_of reserved_size ds ≤ sum_of reserved_size (erase k ls)
    → is_over_budget p ds ≡ false
released_budget p k e ls ds v there pending cached held_bytes =
    let shape = All-get (IsShaped p) k e ls v.shaped there in
    ground (
      arith,
      shape,
      v.budget,
      sum_of-erase cached_size k e ls there,
      sum_of-erase reserved_size k e ls there,
    )

build-frees :
    (sha256 : String → String) (p : Policy) (es : Entries)
    → IsValid p es
    → (aborted now : ℕ) (res : Reservation) (token key fingerprint : String)
    → is_input res.tenant_id key fingerprint ≡ true
    → sha256 key ≡ res.key_digest
    → (abort aborted res (build p es)).0 ≡ ok true
    → (reserve sha256 now token res.tenant_id key fingerprint (abort aborted res (build p es)).1).0
      ≡ ok (granted (new_reservation now (cache_key res) fingerprint token p))
build-frees sha256 p es v aborted now res token key fingerprint good digest h =
    elim (owned-cases p aborted es v res) [
      | inl other ↦ absurd (cc (abort-not_owned p aborted es v res other))
      | inr (e, there, mine) ↦
          let k = cache_key res in
          let ls = live aborted es in
          let valid = live-IsValid p aborted es v in
          let rest = erase-IsValid p k e ls there valid in
          let keep = λ (f : Entry). not (is_expired now f) in
          rw
            (
              abort-owned p aborted es v res e there mine,
              reserve-accepted sha256 now token res.tenant_id key fingerprint (build p (erase k ls))
                  good,
              digest,
            )
            (reserve_at-granted p now (erase k ls) rest token fingerprint k
              (get-retain-none k keep (erase k ls) (get-erase_self k ls valid.unique))
              (omega (
                arith,
                length-retain-le keep (erase k ls),
                length-erase k e ls there,
                valid.bounded,
              ))
              (released_budget p k e ls (live now (erase k ls)) valid there
                (owns-pending e res mine) (sum_of-retain-le cached_size keep (erase k ls))
                (sum_of-retain-le reserved_size keep (erase k ls))))
    ]

-- After an abort by the owner the key is free: the next well-formed reservation of it is granted,
-- whatever its fingerprint and at any time.
pub reserve-abort :
    (sha256 : String → String) (s : Store)
    → IsWellFormed s
    → (aborted now : ℕ) (res : Reservation) (token key fingerprint : String)
    → is_input res.tenant_id key fingerprint ≡ true
    → sha256 key ≡ res.key_digest
    → (abort aborted res s).0 ≡ ok true
    → (reserve sha256 now token res.tenant_id key fingerprint (abort aborted res s).1).0
      ≡ ok (granted (new_reservation now (cache_key res) fingerprint token s.policy))
reserve-abort sha256 s w aborted now res token key fingerprint good digest =
    subst
      (λ (t : Store).
        (abort aborted res t).0 ≡ ok true
        → (reserve sha256 now token res.tenant_id key fingerprint (abort aborted res t).1).0
          ≡ ok (granted (new_reservation now (cache_key res) fingerprint token s.policy)))
      (sym (IsWellFormed-build s w))
      (build-frees sha256 s.policy s.entries w.valid aborted now res token key fingerprint good
        digest)
