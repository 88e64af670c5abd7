-- ===== src/Access/Idempotency/Replay.antt =====
-- What a client of `IdempotencyStore` relies on across calls: a paid response is replayed, work
-- in flight is not done twice, and a released key is free again.
use lucent.Prelude.{
  ℕ, ◌+◌, ◌<◌, ◌≡◌, refl, sym, ◌∙◌, List, some, true, false, arith, String, string_eq, ◌==◌, inl,
  inr, Result, ok, Bool-cases, ltb, ap,
}
use lucent.Prelude.Dict.{get, move_to_end, get-move_to_end_self}
use mathlib.Core.Path.{subst}
use lucent.Access.Errors.{Error}
use lucent.Access.Idempotency.Response.{Response, size_bytes}
use lucent.Access.Idempotency.Store.{
  key_eq, Entry, complete, Policy, Store, Reservation, Decision, replay, owns, cache_key,
}
use lucent.Access.Idempotency.Methods.{finished, reserve, commit}
use lucent.Access.Idempotency.Accounting.{Entries, build, live}
use lucent.Access.Idempotency.Validity.{IsValid, live-IsValid, Evicts-IsValid}
use lucent.Access.Idempotency.Behaviour.{reserve_at-replay}
use lucent.Access.Idempotency.Publishing.{commit-too_large, commit-not_owned, commit-Published}
use lucent.Access.Idempotency.Change.{is_input, reserve-accepted}
use lucent.Access.Idempotency.Perform.{IsPolicy, owned-cases}
use lucent.Access.Idempotency.History.{
  IsWellFormed, IsWellFormed-build, Event, run, AreBefore, AreBefore-AreQuiet, run-get, live-get,
}

-- A commit that has succeeded was of an entry that the reservation owned.
pub commit-ok :
    (p : Policy) (now : ℕ) (es : Entries) (v : IsValid p es) (res : Reservation) (r : Response)
    → (commit now res r (build p es)).0 ≡ ok tt
    → (ltb p.max_response_bytes (size_bytes r) ≡ false)
      × ((e : Entry) × (get (cache_key res) (live now es) ≡ some e) × (owns (some e) res ≡ true))
commit-ok p now es v res r done = elim (Bool-cases (ltb p.max_response_bytes (size_bytes r))) [
  | inl large ↦ absurd (cc (commit-too_large p now es v res r large))
  | inr small ↦ elim (owned-cases p now es v res) [
    | inl other ↦ absurd (cc (commit-not_owned p now es v res r small other))
    | inr (e, there, mine) ↦ (small, (e, there, mine))
  ]
]

owns-fingerprint :
    (e : Entry) (res : Reservation)
    → owns (some e) res ≡ true
    → (e.fingerprint == res.fingerprint) ≡ true
unfolding owns
owns-fingerprint e res h = ground arith

-- A fingerprint and a finished entry of it at the key give a replay.
reserve-replay :
    (sha256 : String → String) (p : Policy) (es : Entries)
    → IsValid p es
    → (now : ℕ) (token tenant_id key fingerprint : String) (e : Entry) (r : Response)
    → is_input tenant_id key fingerprint ≡ true
    → get (tenant_id, sha256 key) es ≡ some e
    → now < e.expires_at
    → (e.fingerprint == fingerprint) ≡ true
    → e.state ≡ complete
    → e.response ≡ some r
    → (reserve sha256 now token tenant_id key fingerprint (build p es)).0 ≡ ok (replay r)
reserve-replay sha256 p es v now token tenant_id key fingerprint e r good there early same done
      response =
    ap (λ (o : Result Error Decision × Store). o.0)
      (reserve-accepted sha256 now token tenant_id key fingerprint (build p es) good
        ∙ reserve_at-replay p now es v token (tenant_id, sha256 key) fingerprint e r
            (live-get p now (tenant_id, sha256 key) e es v.unique there early) same done response)

build-replays :
    (sha256 : String → String) (p : Policy) (es : Entries)
    → IsPolicy p
    → IsValid p es
    → p.evict_completed_entries ≡ false
    → (committed now : ℕ) (events : List Event) (res : Reservation) (r : Response)
      (token key : String)
    → is_input res.tenant_id key res.fingerprint ≡ true
    → sha256 key ≡ res.key_digest
    → AreBefore (committed + p.ttl) events
    → now < committed + p.ttl
    → (commit committed res r (build p es)).0 ≡ ok tt
    → (reserve sha256 now token res.tenant_id key res.fingerprint
        (run sha256 events (commit committed res r (build p es)).1)).0
      ≡ ok (replay r)
build-replays sha256 p es ip v off committed now events res r token key good digest before early
      done =
    let (small, owned) = commit-ok p committed es v res r done in
    let (e, there, mine) = owned in
    let d = commit-Published p committed es v res e r ip.has_total small there mine in
    let f = finished committed e r p in
    let (ds, same, valid, still) =
      run-get sha256 p ip (cache_key res) f (inl off) events (move_to_end (cache_key res) f d.left)
        (AreBefore-AreQuiet (cache_key res) f events refl before) d.valid
        (get-move_to_end_self (cache_key res) f d.left
          (Evicts-IsValid p d.evicted (live-IsValid p committed es v)).unique) in
    rw (d.result, same)
      (reserve-replay sha256 p ds valid now token res.tenant_id key res.fingerprint f r good
        (ap (λ x. get (res.tenant_id, x) ds) digest ∙ still) early (owns-fingerprint e res mine)
        refl refl)

-- In a store that does not evict, a response that was committed is what every later reservation
-- with the same tenant, key and fingerprint gets back, until its time is over: whatever calls come
-- in between, in any number, all before that time.
pub reserve-commit :
    (sha256 : String → String) (s : Store)
    → IsPolicy s.policy
    → IsWellFormed s
    → s.evict_completed_entries ≡ false
    → (committed now : ℕ) (events : List Event) (res : Reservation) (r : Response)
      (token key : String)
    → is_input res.tenant_id key res.fingerprint ≡ true
    → sha256 key ≡ res.key_digest
    → AreBefore (committed + s.ttl) events
    → now < committed + s.ttl
    → (commit committed res r s).0 ≡ ok tt
    → (reserve sha256 now token res.tenant_id key res.fingerprint
        (run sha256 events (commit committed res r s).1)).0
      ≡ ok (replay r)
reserve-commit sha256 s ip w off committed now events res r token key good digest before early =
    subst
      (λ (t : Store).
        (commit committed res r t).0 ≡ ok tt
        → (reserve sha256 now token res.tenant_id key res.fingerprint
            (run sha256 events (commit committed res r t).1)).0
          ≡ ok (replay r))
      (sym (IsWellFormed-build s w))
      (build-replays sha256 s.policy s.entries ip w.valid off committed now events res r token key
        good digest before early)
