-- ===== src/Access/Idempotency/Eviction.antt =====
-- Eviction under pressure: `_make_room` and `_make_response_room` drop completed entries only, and
-- only where the store may evict.
use lucent.Prelude.{
  ℕ, zero, suc, ◌+◌, ◌<◌, ◌≤◌, ◌≡◌, refl, none, some, [], ◌∷◌, Bool, true, false, not, ltb, arith,
  Result, ok, err, length, Bool-cases, Option-cases, ◌⊎◌, inl, inr,
}
use lucent.Prelude.Dict.{get, erase, IsUnique, sum_of, length-erase, erase-IsUnique, beq_refl}
use lucent.Access.Errors.{Error}
use lucent.Access.Idempotency.Store.{
  CacheKey, key_eq, Entry, Policy, Store, is_complete, cached_size, remove, oldest_completed_key,
  make_room, capacity_error, response_room, make_response_room,
}
use lucent.Access.Idempotency.Accounting.{Entries, build, remove-build}

-- `Evicts p ds es`: `ds` is what evictions of completed entries leave of `es`.
pub data Evicts (p : Policy) (ds : Entries) : Entries → Type 0 where
  stop : Evicts p ds ds
  evict :
      {es : Entries} (k : CacheKey) (e : Entry)
      → p.evict_completed_entries ≡ true
      → get k es ≡ some e
      → is_complete e.state ≡ true
      → Evicts p ds (erase k es)
      → Evicts p ds es

oldest_completed_key-get :
    (k : CacheKey) (es : Entries)
    → IsUnique es
    → oldest_completed_key es ≡ some k
    → (e : Entry) × (get k es ≡ some e) × (is_complete e.state ≡ true)
unfolding oldest_completed_key
oldest_completed_key-get k [] u h = absurd (cc)
oldest_completed_key-get k ((j, d) ∷ es) u h = elim (Bool-cases (is_complete d.state)) [
  | inl finished ↦ let same : j ≡ k = ground arith in (d, rw (← same, beq_refl j), finished)
  | inr pending ↦
      let (e, there, finished) = oldest_completed_key-get k es u.1 (ground arith) in
      (e, ground (arith, key_eq.same_iff k j), finished)
]

-- Why a store has no room: it may not evict, or nothing is left to evict.
abbrev pub IsStuck : Policy → Entries → Type 0
IsStuck p es = (p.evict_completed_entries ≡ false) ⊎ (oldest_completed_key es ≡ none)

-- How an attempt to make room ends.
pub record Room (p : Policy) (now : ℕ) (fits : Entries → Bool) (es : Entries)
    (out : Result Error (Unit {0}) × Store) : Type 0 where
  pub left : Entries
  pub evicted : Evicts p left es
  pub state : out.1 ≡ build p left
  pub outcome :
      ((out.0 ≡ ok tt) × (fits left ≡ true))
      ⊎ ((out.0 ≡ err (capacity_error now (build p left))) × (fits left ≡ false) × IsStuck p left)

module _ (p : Policy) (now : ℕ) (es : Entries) where
  make_room-free :
      ltb (length es) p.max_entries ≡ true → make_room now (build p es) ≡ (ok tt, build p es)
  unfolding make_room
  make_room-free free = ground arith

  make_room-stuck :
      ltb (length es) p.max_entries ≡ false
      → IsStuck p es
      → make_room now (build p es) ≡ (err (capacity_error now (build p es)), build p es)
  unfolding make_room
  make_room-stuck full stuck = ground arith

  make_room-evict :
      (k : CacheKey)
      → ltb (length es) p.max_entries ≡ false
      → p.evict_completed_entries ≡ true
      → oldest_completed_key es ≡ some k
      → make_room now (build p es) ≡ remove k (build p es)
  unfolding make_room
  make_room-evict k full may oldest = ground arith

  module _ (required fuel : ℕ) where
    response_room-free :
        ltb p.max_total_response_bytes (sum_of cached_size es + required) ≡ false
        → response_room (suc fuel) required now (build p es) ≡ (ok tt, build p es)
    unfolding response_room
    response_room-free free = ground arith

    response_room-stuck :
        ltb p.max_total_response_bytes (sum_of cached_size es + required) ≡ true
        → IsStuck p es
        → response_room (suc fuel) required now (build p es)
          ≡ (err (capacity_error now (build p es)), build p es)
    unfolding response_room
    response_room-stuck full stuck = ground arith

    response_room-evict :
        (k : CacheKey)
        → ltb p.max_total_response_bytes (sum_of cached_size es + required) ≡ true
        → p.evict_completed_entries ≡ true
        → oldest_completed_key es ≡ some k
        → remove k (build p es) ≡ (ok tt, build p (erase k es))
        → response_room (suc fuel) required now (build p es)
          ≡ response_room fuel required now (build p (erase k es))
    unfolding response_room
    response_room-evict k full may oldest gone = ground arith

-- `_make_room` leaves room for one entry, or nothing can be evicted.
pub make_room-Room :
    (p : Policy) (now : ℕ) (es : Entries)
    → IsUnique es
    → length es ≤ p.max_entries
    → Room p now (λ ds. ltb (length ds) p.max_entries) es (make_room now (build p es))
make_room-Room p now es u bound = elim (Bool-cases (ltb (length es) p.max_entries)) [
  | inl free ↦
      rw (make_room-free p now es free)
        (record { left = es; evicted = stop; state = refl; outcome = inl (refl, free) })
  | inr full ↦ elim (Bool-cases p.evict_completed_entries) [
    | inr may_not ↦ stuck full (inl may_not)
    | inl may ↦ elim (Option-cases (oldest_completed_key es)) [
      | inl nothing ↦ stuck full (inr nothing)
      | inr (k, oldest) ↦
          let (e, there, finished) = oldest_completed_key-get k es u oldest in
          rw (make_room-evict p now es k full may oldest, remove-build p k e es there)
            (record {
              left = erase k es;
              evicted = evict k e may there finished stop;
              state = refl;
              outcome = inl (refl, ground (arith, length-erase k e es there));
            })
    ]
  ]
]
  where
    stuck :
        ltb (length es) p.max_entries ≡ false
        → IsStuck p es
        → Room p now (λ ds. ltb (length ds) p.max_entries) es (make_room now (build p es))
    stuck full why =
        rw (make_room-stuck p now es full why)
          (record { left = es; evicted = stop; state = refl; outcome = inr (refl, full, why) })

-- The response fits beside what the cache holds.
abbrev pub fits_beside : Policy → ℕ → Entries → Bool
fits_beside p required es = not (ltb p.max_total_response_bytes (sum_of cached_size es + required))

response_room-Room :
    (p : Policy) (required now fuel : ℕ) (es : Entries)
    → IsUnique es
    → length es < fuel
    → Room p now (fits_beside p required) es (response_room fuel required now (build p es))
response_room-Room p required now zero es u enough = absurd (omega arith)
response_room-Room p required now (suc fuel) es u enough =
    elim (Bool-cases (ltb p.max_total_response_bytes (sum_of cached_size es + required))) [
      | inr free ↦
          rw (response_room-free p now es required fuel free)
            (record { left = es; evicted = stop; state = refl; outcome = inl (refl, ground arith) })
      | inl full ↦ elim (Bool-cases p.evict_completed_entries) [
        | inr may_not ↦ stuck full (inl may_not)
        | inl may ↦ elim (Option-cases (oldest_completed_key es)) [
          | inl nothing ↦ stuck full (inr nothing)
          | inr (k, oldest) ↦
              let (e, there, finished) = oldest_completed_key-get k es u oldest in
              let r =
                response_room-Room p required now fuel (erase k es) (erase-IsUnique k es u)
                  (omega (arith, length-erase k e es there)) in
              rw
                (response_room-evict p now es required fuel k full may oldest
                  (remove-build p k e es there))
                (record {
                  left = r.left;
                  evicted = evict k e may there finished r.evicted;
                  state = r.state;
                  outcome = r.outcome;
                })
        ]
      ]
    ]
  where
    stuck :
        ltb p.max_total_response_bytes (sum_of cached_size es + required) ≡ true
        → IsStuck p es
        → Room p now
            (fits_beside p required)
            es
            (response_room (suc fuel) required now (build p es))
    stuck full why = rw (response_room-stuck p now es required fuel full why) (record {
      left = es;
      evicted = stop;
      state = refl;
      outcome = inr (refl, ground arith, why);
    })

-- `_make_response_room` ends, with room for the response or with nothing left to evict.
pub make_response_room-Room :
    (p : Policy) (required now : ℕ) (es : Entries)
    → IsUnique es
    → Room p now (fits_beside p required) es (make_response_room required now (build p es))
unfolding make_response_room
make_response_room-Room p required now es u =
    response_room-Room p required now (suc (length es)) es u (omega arith)
