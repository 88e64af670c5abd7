-- ===== src/Access/Idempotency/Perform.antt =====
-- Every call of a method of `IdempotencyStore` is one of the changes of `Change`.
use lucent.Prelude.{
  ℕ, ◌<◌, ◌≤◌, ◌≡◌, refl, none, some, [], ◌∷◌, ◌++◌, true, false, arith, length, String, string_eq,
  ◌==◌, ◌⊎◌, inl, inr, Result, Bool-cases, Option-cases, ltb, ap,
}
use lucent.Prelude.Dict.{get, erase, move_to_end, All-get}
use lucent.Access.Idempotency.Response.{Response, size_bytes}
use lucent.Access.Idempotency.Store.{
  CacheKey, key_eq, Entry, EntryState, reserved, complete, Policy, Store, Reservation, owns,
  cache_key,
}
use lucent.Access.Idempotency.Methods.{finished, new_entry, reserve, reserve_at, commit, abort}
use lucent.Access.Idempotency.Accounting.{Entries, build, live}
use lucent.Access.Idempotency.Eviction.{stop}
use lucent.Access.Idempotency.Validity.{
  IsValid, IsShaped, live-IsValid, Evicts-IsValid, snoc-IsValid, Evicts-get-none,
}
use lucent.Access.Idempotency.Behaviour.{
  is_over_budget, reserve_at-conflict, reserve_at-in_progress, reserve_at-replay,
  reserve_at-Admission,
}
use lucent.Access.Idempotency.Publishing.{
  commit-too_large, commit-not_owned, commit-Published, abort-owned, abort-not_owned,
  len_entries-build, cached_response_bytes-build,
}
use lucent.Access.Idempotency.Change.{
  Call, reserving, committing, aborting, counting, measuring, perform, Change, untouched, swept,
  touched, added, published, released, is_input, reserve-accepted, reserve-rejected,
}

-- The constructor of the class checks these.
pub record IsPolicy (p : Policy) : Type 0 where
  pub has_entries : 0 < p.max_entries
  pub has_bytes : 0 < p.max_response_bytes
  pub has_total : p.max_response_bytes ≤ p.max_total_response_bytes

-- The store that a call leaves has right counters, and its entries have changed in one of the ways.
abbrev pub Leaves : Policy → ℕ → Call → Entries → Store → Type 0
Leaves p now call es s = (ds : Entries) × (s ≡ build p ds) × Change p now call es ds

pub new_entry-IsValid :
    (p : Policy) (now : ℕ) (token fingerprint : String) (k : CacheKey) (ds : Entries)
    → get k ds ≡ none
    → length ds < p.max_entries
    → is_over_budget p ds ≡ false
    → IsValid p ds
    → IsValid p (ds ++ (k, new_entry now fingerprint token p) ∷ [])
new_entry-IsValid p now token fingerprint k ds new room within v =
    snoc-IsValid p k (new_entry now fingerprint token p) ds new (refl, refl) room
      (ground (arith, v.budget)) v

module _ (p : Policy) (now : ℕ) (es : Entries) (v : IsValid p es) where
  admission-Leaves :
      (call : Call) (token : String) (k : CacheKey) (fingerprint : String)
      → get k (live now es) ≡ none
      → Leaves p now call es (reserve_at now token k fingerprint (build p es)).1
  admission-Leaves call token k fingerprint new =
      let a = reserve_at-Admission p now es v token k fingerprint new in
      elim a.outcome [
        | inr (refused, why) ↦
            (a.left, ap (λ (o : Result _ _ × Store). o.1) refused, swept a.evicted)
        | inl (granted, room, within) ↦ (
          a.left ++ (k, new_entry now fingerprint token p) ∷ [],
          ap (λ (o : Result _ _ × Store). o.1) granted,
          added k (new_entry now fingerprint token p) a.left a.evicted new
              (new_entry-IsValid p now token fingerprint k a.left
                (Evicts-get-none p k a.evicted new) room within
                (Evicts-IsValid p a.evicted (live-IsValid p now es v)))
              refl,
        )
      ]

  present-Leaves :
      (call : Call) (token : String) (k : CacheKey) (fingerprint : String) (e : Entry)
      (st : EntryState)
      → get k (live now es) ≡ some e
      → e.state ≡ st
      → (e.fingerprint == fingerprint) ≡ true
      → Leaves p now call es (reserve_at now token k fingerprint (build p es)).1
  present-Leaves call token k fingerprint e reserved there is same =
      rw (reserve_at-in_progress p now es v token k fingerprint e there same is)
        (live now es, refl, swept stop)
  present-Leaves call token k fingerprint e complete there is same =
      let shape = All-get (IsShaped p) k e (live now es) (live-IsValid p now es v).shaped there in
      let response : (r : Response) × (e.response ≡ some r) = ground (arith, shape) in
      rw (reserve_at-replay p now es v token k fingerprint e response.0 there same is response.1)
        (move_to_end k e (live now es), refl, touched k e there refl)

  reserve_at-Leaves :
      (call : Call) (token : String) (k : CacheKey) (fingerprint : String)
      → Leaves p now call es (reserve_at now token k fingerprint (build p es)).1
  reserve_at-Leaves call token k fingerprint = elim (Option-cases (get k (live now es))) [
    | inl new ↦ admission-Leaves call token k fingerprint new
    | inr (e, there) ↦ elim (Bool-cases (e.fingerprint == fingerprint)) [
      | inl same ↦ present-Leaves call token k fingerprint e e.state there refl same
      | inr differs ↦
          rw (reserve_at-conflict p now es v token k fingerprint e there differs)
            (live now es, refl, swept stop)
    ]
  ]

  reserving-Leaves :
      (sha256 : String → String) (call : Call) (token tenant_id key fingerprint : String)
      → Leaves p now call es (reserve sha256 now token tenant_id key fingerprint (build p es)).1
  reserving-Leaves sha256 call token tenant_id key fingerprint =
      elim (Bool-cases (is_input tenant_id key fingerprint)) [
        | inl good ↦
            rw (reserve-accepted sha256 now token tenant_id key fingerprint (build p es) good)
              (reserve_at-Leaves call token (tenant_id, sha256 key) fingerprint)
        | inr bad ↦ (
          es,
          reserve-rejected sha256 now token tenant_id key fingerprint (build p es) bad,
          untouched refl,
        )
      ]

  pub owned-cases :
      (res : Reservation)
      → (owns (get (cache_key res) (live now es)) res ≡ false)
        ⊎ ((e : Entry) × (get (cache_key res) (live now es) ≡ some e) × (owns (some e) res ≡ true))
  unfolding owns
  owned-cases res = elim (Option-cases (get (cache_key res) (live now es))) [
    | inl nothing ↦ inl (rw nothing)
    | inr (e, there) ↦ elim (Bool-cases (owns (some e) res)) [
      | inl mine ↦ inr (e, there, mine)
      | inr other ↦ inl (rw there other)
    ]
  ]

  committing-Leaves :
      (res : Reservation) (r : Response)
      → IsPolicy p
      → Leaves p now (committing res r) es (commit now res r (build p es)).1
  committing-Leaves res r ip = elim (Bool-cases (ltb p.max_response_bytes (size_bytes r))) [
    | inl large ↦ rw (commit-too_large p now es v res r large) (es, refl, untouched refl)
    | inr small ↦ elim (owned-cases res) [
      | inl other ↦
          rw (commit-not_owned p now es v res r small other) (live now es, refl, swept stop)
      | inr (e, there, mine) ↦
          let d = commit-Published p now es v res e r ip.has_total small there mine in
          (
            move_to_end (cache_key res) (finished now e r p) d.left,
            ap (λ (o : Result _ _ × Store). o.1) d.result,
            published (cache_key res) e (finished now e r p) d.left d.evicted there (refl, mine)
                d.valid refl,
          )
    ]
  ]

  aborting-Leaves :
      (res : Reservation) → Leaves p now (aborting res) es (abort now res (build p es)).1
  aborting-Leaves res = elim (owned-cases res) [
    | inl other ↦ rw (abort-not_owned p now es v res other) (live now es, refl, swept stop)
    | inr (e, there, mine) ↦ rw (abort-owned p now es v res e there mine) (
      erase (cache_key res) (live now es),
      refl,
      released (cache_key res) e there (refl, mine) refl,
    )
  ]

  pub perform-Leaves :
      (sha256 : String → String) (call : Call)
      → IsPolicy p
      → Leaves p now call es (perform sha256 now call (build p es))
  unfolding perform
  perform-Leaves sha256 (reserving token tenant_id key fingerprint) ip =
      reserving-Leaves sha256 (reserving token tenant_id key fingerprint) token tenant_id key
        fingerprint
  perform-Leaves sha256 (committing res r) ip = committing-Leaves res r ip
  perform-Leaves sha256 (aborting res) ip = aborting-Leaves res
  perform-Leaves sha256 counting ip =
      (live now es, ap (λ (o : Result _ _ × Store). o.1) (len_entries-build p now es v), swept stop)
  perform-Leaves sha256 measuring ip = (
    live now es,
    ap (λ (o : Result _ _ × Store). o.1) (cached_response_bytes-build p now es v),
    swept stop,
  )
