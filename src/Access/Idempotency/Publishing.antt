-- ===== src/Access/Idempotency/Publishing.antt =====
-- What `commit` and `abort` of `IdempotencyStore` do to a store whose counters are right.
use lucent.Prelude.{
  ℕ, ◌+◌, ◌-◌, ◌≤◌, ◌≡◌, refl, ◌∙◌, Option, none, some, [], ◌∷◌, true, false, arith, if◌then◌else◌,
  length, string_eq, inl, inr, Result, ok, err, Bool-cases, ltb, continue,
}
use lucent.Prelude.Dict.{
  get, erase, move_to_end, sum_of, sum_of-erase, sum_of-move_to_end, set-erase-snoc, All, All-get,
}
use lucent.Access.Errors.{Error, access, invalid_reservation, idempotency_response_too_large}
use lucent.Access.Idempotency.Response.{Response, size_bytes}
use lucent.Access.Idempotency.Store.{
  CacheKey, key_eq, Entry, reserved, Policy, Store, Reservation, cached_size, make_response_room,
  owns, cache_key, oldest_completed_key,
}
use lucent.Access.Idempotency.Methods.{
  finished, commit, abort, len_entries, cached_response_bytes, settle_room, publish, commit_owned,
}
use lucent.Access.Idempotency.Accounting.{
  Entries, build, live, reserved_size, remove-build, expire-build,
}
use lucent.Access.Idempotency.Eviction.{Evicts, stop, Room, fits_beside, make_response_room-Room}
use lucent.Access.Idempotency.Validity.{
  IsValid, IsShaped, live-IsValid, move_to_end-IsValid, Evicts-IsValid, Evicts-get_pending,
}

pub owns-pending : (e : Entry) (res : Reservation) → owns (some e) res ≡ true → e.state ≡ reserved
unfolding owns
owns-pending e res h = ground arith

-- Where nothing is finished, nothing is cached.
oldest_none-cached :
    (p : Policy) (es : Entries)
    → All (IsShaped p) es
    → oldest_completed_key es ≡ none
    → sum_of cached_size es ≡ 0
unfolding oldest_completed_key
oldest_none-cached p [] h o = refl
oldest_none-cached p ((k, e) ∷ es) h o = ground (arith, h.0, oldest_none-cached p es h.1)

publish-build :
    (p : Policy) (now : ℕ) (k : CacheKey) (e : Entry) (r : Response) (ds : Entries)
    → get k ds ≡ some e
    → IsShaped p e
    → e.state ≡ reserved
    → publish now k e r (record (build p ds) {
      reserved_bytes =
          sum_of reserved_size ds
          - (if p.evict_completed_entries then 0 else e.reserved_response_bytes);
    })
      ≡ (ok tt, build p (move_to_end k (finished now e r p) ds))
unfolding publish
publish-build p now k e r ds there shape pending = ground (
  arith,
  shape,
  set-erase-snoc k (finished now e r p) (finished now e r p) ds,
  sum_of-move_to_end cached_size k e (finished now e r p) ds there,
  sum_of-move_to_end reserved_size k e (finished now e r p) ds there,
)

module _ (p : Policy) (now : ℕ) (e : Entry) (r : Response) (es : Entries) where
  settle_room-evicting :
      p.evict_completed_entries ≡ true
      → settle_room now e r (build p es) ≡ make_response_room (size_bytes r) now (build p es)
  unfolding settle_room
  settle_room-evicting may = ground arith

  settle_room-keeping :
      p.evict_completed_entries ≡ false
      → size_bytes r ≤ e.reserved_response_bytes
      → e.reserved_response_bytes ≤ sum_of reserved_size es
      → sum_of cached_size es + sum_of reserved_size es ≤ p.max_total_response_bytes
      → settle_room now e r (build p es) ≡ (
        ok tt,
        record (build p es) {
          reserved_bytes = sum_of reserved_size es - e.reserved_response_bytes;
        },
      )
  unfolding settle_room
  settle_room-keeping off fits part budget = ground arith

-- Room for the response of an entry that its reservation holds is always found.
pub record Settled (p : Policy) (e : Entry) (r : Response) (ls : Entries)
    (out : Result Error (Unit {0}) × Store) : Type 0 where
  pub left : Entries
  pub evicted : Evicts p left ls
  pub fits :
      sum_of cached_size left + size_bytes r + sum_of reserved_size left
      ≤ p.max_total_response_bytes + e.reserved_response_bytes
  pub result : out ≡ (
    ok tt,
    record (build p left) {
      reserved_bytes =
          sum_of reserved_size left
          - (if p.evict_completed_entries then 0 else e.reserved_response_bytes);
    },
  )

-- While an evicting store is well formed, its reservations hold nothing.
evicting-reserved :
    (p : Policy) (es : Entries)
    → p.evict_completed_entries ≡ true
    → All (IsShaped p) es
    → sum_of reserved_size es ≡ 0
evicting-reserved p [] may h = refl
evicting-reserved p ((k, e) ∷ es) may h = ground (arith, h.0, evicting-reserved p es may h.1)

settle_room-Settled :
    (p : Policy) (now : ℕ) (k : CacheKey) (e : Entry) (r : Response) (ls : Entries)
    → p.max_response_bytes ≤ p.max_total_response_bytes
    → size_bytes r ≤ p.max_response_bytes
    → get k ls ≡ some e
    → e.state ≡ reserved
    → IsValid p ls
    → Settled p e r ls (settle_room now e r (build p ls))
settle_room-Settled p now k e r ls total small there pending v =
    let shape = All-get (IsShaped p) k e ls v.shaped there in
    elim (Bool-cases p.evict_completed_entries) [
      | inr off ↦
          let part = sum_of-move_to_end reserved_size k e e ls there in
          rw
            (settle_room-keeping p now e r ls off (ground (arith, shape)) (reserved-le-sum ls there)
              v.budget)
            (record {
              left = ls;
              evicted = stop;
              fits = ground (arith, shape, v.budget);
              result = ground arith;
            })
      | inl may ↦
          let room = make_response_room-Room p (size_bytes r) now ls v.unique in
          rw (settle_room-evicting p now e r ls may)
            (done may room (Evicts-IsValid p room.evicted v))
    ]
  where
    reserved-le-sum :
        (ds : Entries) → get k ds ≡ some e → e.reserved_response_bytes ≤ sum_of reserved_size ds
    reserved-le-sum ds h = omega (arith, sum_of-erase reserved_size k e ds h)

    done :
        p.evict_completed_entries ≡ true
        → (room : Room p now
            (fits_beside p (size_bytes r))
            ls
            (make_response_room (size_bytes r) now (build p ls)))
        → IsValid p room.left
        → Settled p e r ls (make_response_room (size_bytes r) now (build p ls))
    done may room valid = elim room.outcome [
      | inl (made, free) ↦ record {
        left = room.left;
        evicted = room.evicted;
        fits = ground (arith, evicting-reserved p room.left may valid.shaped);
        result = ground (arith, room.state, evicting-reserved p room.left may valid.shaped);
      }
      | inr (failed, full, stuck) ↦
          absurd (ground (arith, stuck, oldest_none-cached p room.left valid.shaped))
    ]

-- What a commit by the owner leaves.
pub record Published (p : Policy) (now : ℕ) (res : Reservation) (e : Entry) (r : Response)
    (ls : Entries) (out : Result Error (Unit {0}) × Store) : Type 0 where
  pub left : Entries
  pub evicted : Evicts p left ls
  pub there : get (cache_key res) left ≡ some e
  pub valid : IsValid p (move_to_end (cache_key res) (finished now e r p) left)
  pub result : out ≡ (ok tt, build p (move_to_end (cache_key res) (finished now e r p) left))

finished-IsValid :
    (p : Policy) (now : ℕ) (k : CacheKey) (e : Entry) (r : Response) (ds : Entries)
    → size_bytes r ≤ p.max_response_bytes
    → get k ds ≡ some e
    → e.state ≡ reserved
    → sum_of cached_size ds + size_bytes r + sum_of reserved_size ds
      ≤ p.max_total_response_bytes + e.reserved_response_bytes
    → IsValid p ds
    → IsValid p (move_to_end k (finished now e r p) ds)
finished-IsValid p now k e r ds small there pending fits v =
    let shape = All-get (IsShaped p) k e ds v.shaped there in
    move_to_end-IsValid p k e (finished now e r p) ds there
      ((r, refl, small), ground (arith, shape)) (ground (arith, shape)) v

module _ (p : Policy) (now : ℕ) (es : Entries) (v : IsValid p es) (res : Reservation) where
  commit_owned-run :
      (e : Entry) (r : Response) (s : Store)
      → owns (some e) res ≡ true
      → commit_owned now res (some e) r s
        ≡ continue
            (settle_room now e r s).0
            (λ _. publish now (cache_key res) e r)
            (settle_room now e r s).1
  unfolding commit_owned
  commit_owned-run e r s owned = rw owned

  commit-run :
      (r : Response)
      → ltb p.max_response_bytes (size_bytes r) ≡ false
      → commit now res r (build p es)
        ≡ commit_owned now res (get (cache_key res) (live now es)) r (build p (live now es))
  unfolding commit
  commit-run r small = rw (small, expire-build p now es v.unique)

  pub commit-too_large :
      (r : Response)
      → ltb p.max_response_bytes (size_bytes r) ≡ true
      → commit now res r (build p es)
        ≡ (err (access (idempotency_response_too_large p.max_response_bytes)), build p es)
  unfolding commit
  commit-too_large r large = rw large

  commit_owned-refused :
      (o : Option Entry) (r : Response) (s : Store)
      → owns o res ≡ false
      → commit_owned now res o r s ≡ (err (access invalid_reservation), s)
  unfolding commit_owned owns
  commit_owned-refused none r s h = refl
  commit_owned-refused (some e) r s h = rw h

  pub commit-not_owned :
      (r : Response)
      → ltb p.max_response_bytes (size_bytes r) ≡ false
      → owns (get (cache_key res) (live now es)) res ≡ false
      → commit now res r (build p es) ≡ (err (access invalid_reservation), build p (live now es))
  commit-not_owned r small other =
      commit-run r small
      ∙ commit_owned-refused (get (cache_key res) (live now es)) r (build p (live now es)) other

  pub commit-Published :
      (e : Entry) (r : Response)
      → p.max_response_bytes ≤ p.max_total_response_bytes
      → ltb p.max_response_bytes (size_bytes r) ≡ false
      → get (cache_key res) (live now es) ≡ some e
      → owns (some e) res ≡ true
      → Published p now res e r (live now es) (commit now res r (build p es))
  commit-Published e r total small there owned =
      let pending = owns-pending e res owned in
      let valid = live-IsValid p now es v in
      let small' : size_bytes r ≤ p.max_response_bytes = ground arith in
      let settled =
        settle_room-Settled p now (cache_key res) e r (live now es) total small' there pending
          valid in
      let still = Evicts-get_pending p (cache_key res) e settled.evicted there (ground arith) in
      let left_valid = Evicts-IsValid p settled.evicted valid in
      rw
        (
          commit-run r small,
          there,
          commit_owned-run e r (build p (live now es)) owned,
          settled.result,
        )
        (record {
          left = settled.left;
          evicted = settled.evicted;
          there = still;
          valid =
              finished-IsValid p now (cache_key res) e r settled.left small' still pending
                settled.fits left_valid;
          result =
              publish-build p now (cache_key res) e r settled.left still
                (All-get (IsShaped p) (cache_key res) e settled.left left_valid.shaped still)
                pending;
        })

  pub abort-owned :
      (e : Entry)
      → get (cache_key res) (live now es) ≡ some e
      → owns (some e) res ≡ true
      → abort now res (build p es) ≡ (ok true, build p (erase (cache_key res) (live now es)))
  unfolding abort
  abort-owned e there owned = rw (
    expire-build p now es v.unique,
    there,
    owned,
    remove-build p (cache_key res) e (live now es) there,
  )

  pub abort-not_owned :
      owns (get (cache_key res) (live now es)) res ≡ false
      → abort now res (build p es) ≡ (ok false, build p (live now es))
  unfolding abort
  abort-not_owned other = rw (expire-build p now es v.unique, other)

module _ (p : Policy) (now : ℕ) (es : Entries) (v : IsValid p es) where
  pub len_entries-build :
      len_entries now (build p es) ≡ (ok (length (live now es)), build p (live now es))
  unfolding len_entries
  len_entries-build = rw (expire-build p now es v.unique)

  pub cached_response_bytes-build :
      cached_response_bytes now (build p es)
      ≡ (ok (sum_of cached_size (live now es)), build p (live now es))
  unfolding cached_response_bytes
  cached_response_bytes-build = rw (expire-build p now es v.unique)
