-- ===== src/Access/Idempotency/Exclusion.antt =====
-- `IdempotencyStore` across calls: work in flight is not granted twice, and a released key is free.
use lucent.Prelude.{
  ℕ, ◌+◌, ◌-◌, ◌<◌, ◌≡◌, refl, sym, List, none, some, [], ◌∷◌, ◌++◌, true, arith, String, string_eq,
  ◌==◌, inl, inr, ok, err, Bool-cases, Option-cases,
}
use mathlib.Core.Path.{subst}
use lucent.Prelude.Dict.{get, All-get, get-snoc_self, beq_refl}
use lucent.Access.Errors.{whole, access, idempotency_in_progress}
use lucent.Access.Idempotency.Response.{Response}
use lucent.Access.Idempotency.Store.{
  CacheKey, key_eq, Entry, EntryState, reserved, complete, Policy, Store, Reservation, granted,
}
use lucent.Access.Idempotency.Methods.{new_entry, new_reservation, reserve, reserve_at}
use lucent.Access.Idempotency.Accounting.{Entries, build, live}
use lucent.Access.Idempotency.Validity.{
  IsValid, IsShaped, live-IsValid, Evicts-IsValid, Evicts-get-none,
}
use lucent.Access.Idempotency.Behaviour.{
  reserve_at-conflict, reserve_at-in_progress, reserve_at-replay, reserve_at-Admission,
}
use lucent.Access.Idempotency.Change.{is_input, reserve-accepted}
use lucent.Access.Idempotency.Perform.{IsPolicy, new_entry-IsValid}
use lucent.Access.Idempotency.History.{
  IsWellFormed, IsWellFormed-build, Event, run, AreQuiet, run-get, live-get,
}

module _ (p : Policy) (now : ℕ) (es : Entries) (v : IsValid p es) (token fingerprint : String)
    (k : CacheKey) (res : Reservation) where
  no_grant :
      (e : Entry) (st : EntryState)
      → get k (live now es) ≡ some e
      → e.state ≡ st
      → ¬ ((reserve_at now token k fingerprint (build p es)).0 ≡ ok (granted res))
  no_grant e st there is h = elim (Bool-cases (e.fingerprint == fingerprint)) [
    | inr differs ↦ cc (reserve_at-conflict p now es v token k fingerprint e there differs)
    | inl same ↦ in_state st is same
  ]
    where
      in_state : (st : EntryState) → e.state ≡ st → (e.fingerprint == fingerprint) ≡ true → ⊥
      in_state reserved is same =
          cc (reserve_at-in_progress p now es v token k fingerprint e there same is)
      in_state complete is same =
          let shape =
            All-get (IsShaped p) k e (live now es) (live-IsValid p now es v).shaped there in
          let response : (r : Response) × (e.response ≡ some r) = ground (arith, shape) in
          cc
            (reserve_at-replay p now es v token k fingerprint e response.0 there same is response.1)

  -- A grant is of new work.
  pub granted-new :
      (reserve_at now token k fingerprint (build p es)).0 ≡ ok (granted res)
      → (left : Entries) × (reserve_at now token k fingerprint (build p es) ≡ (
        ok (granted (new_reservation now k fingerprint token p)),
        build p (left ++ (k, new_entry now fingerprint token p) ∷ []),
      ))
        × IsValid p (left ++ (k, new_entry now fingerprint token p) ∷ [])
        × (get k left ≡ none)
  granted-new h = elim (Option-cases (get k (live now es))) [
    | inr (e, there) ↦ absurd (no_grant e e.state there refl h)
    | inl new ↦
        let a = reserve_at-Admission p now es v token k fingerprint new in
        let none_left = Evicts-get-none p k a.evicted new in
        elim a.outcome [
          | inr (refused, why) ↦ absurd (cc)
          | inl (given, room, within) ↦ (
            a.left,
            given,
            new_entry-IsValid p now token fingerprint k a.left none_left room within
                (Evicts-IsValid p a.evicted (live-IsValid p now es v)),
            none_left,
          )
        ]
  ]

build-excludes :
    (sha256 : String → String) (p : Policy) (es : Entries)
    → IsPolicy p
    → IsValid p es
    → (first now : ℕ) (events : List Event) (res : Reservation)
    → (token again tenant_id key fingerprint : String) → is_input tenant_id key fingerprint ≡ true
    → AreQuiet (tenant_id, sha256 key) (new_entry first fingerprint token p) events
    → now < first + p.reservation_ttl
    → (reserve sha256 first token tenant_id key fingerprint (build p es)).0 ≡ ok (granted res)
    → (reserve sha256 now again tenant_id key fingerprint
        (run sha256 events (reserve sha256 first token tenant_id key fingerprint (build p es)).1)).0
      ≡ err (access (idempotency_in_progress (whole (first + p.reservation_ttl - now))))
build-excludes sha256 p es ip v first now events res token again tenant_id key fingerprint good
      quiet early h =
    let k : CacheKey = (tenant_id, sha256 key) in
    let e = new_entry first fingerprint token p in
    let accept = reserve-accepted sha256 first token tenant_id key fingerprint (build p es) good in
    let (left, given, valid, new) =
      granted-new p first es v token fingerprint k res (rw accept at h) in
    let (ds, same, valid', still) =
      run-get sha256 p ip k e (inr refl) events (left ++ (k, e) ∷ []) quiet valid
        (get-snoc_self k e left new) in
    rw (
      accept,
      given,
      same,
      reserve-accepted sha256 now again tenant_id key fingerprint (build p ds) good,
      reserve_at-in_progress p now ds valid' again k fingerprint e
          (live-get p now k e ds valid'.unique still early) (beq_refl fingerprint) refl,
    )

-- Once a reservation is granted, a reservation of the same work is answered with the time that is
-- left, until the reservation expires: whatever calls come in between, in any number, all before
-- that time, if none of them completes or aborts the reservation with its token.
pub reserve-reserve :
    (sha256 : String → String) (s : Store)
    → IsPolicy s.policy
    → IsWellFormed s
    → (first now : ℕ) (events : List Event) (res : Reservation)
    → (token again tenant_id key fingerprint : String) → is_input tenant_id key fingerprint ≡ true
    → AreQuiet (tenant_id, sha256 key) (new_entry first fingerprint token s.policy) events
    → now < first + s.reservation_ttl
    → (reserve sha256 first token tenant_id key fingerprint s).0 ≡ ok (granted res)
    → (reserve sha256 now again tenant_id key fingerprint
        (run sha256 events (reserve sha256 first token tenant_id key fingerprint s).1)).0
      ≡ err (access (idempotency_in_progress (whole (first + s.reservation_ttl - now))))
reserve-reserve sha256 s ip w first now events res token again tenant_id key fingerprint good quiet
      early =
    subst
      (λ (t : Store).
        (reserve sha256 first token tenant_id key fingerprint t).0 ≡ ok (granted res)
        → (reserve sha256 now again tenant_id key fingerprint
            (run sha256 events (reserve sha256 first token tenant_id key fingerprint t).1)).0
          ≡ err (access (idempotency_in_progress (whole (first + s.reservation_ttl - now)))))
      (sym (IsWellFormed-build s w))
      (build-excludes sha256 s.policy s.entries ip w.valid first now events res token again
        tenant_id key fingerprint good quiet early)
