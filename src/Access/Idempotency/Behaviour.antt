-- ===== src/Access/Idempotency/Behaviour.antt =====
-- What each public method of `IdempotencyStore` does to a store whose counters are right.
use lucent.Prelude.{
  ℕ, ◌+◌, ◌-◌, ◌<◌, ◌≡◌, refl, ◌∙◌, none, some, [], ◌∷◌, ◌++◌, Bool, true, false, not, ◌&&◌, arith,
  length, String, string_eq, ◌==◌, ◌⊎◌, inl, inr, Result, ok, err, Bool-cases, ltb, continue, ap,
}
use lucent.Prelude.Dict.{get, move_to_end, sum_of, set-new, sum_of-append, sum_of-move_to_end}
use lucent.Access.Errors.{whole, Error, access, idempotency_conflict, idempotency_in_progress}
use lucent.Access.Idempotency.Response.{Response}
use lucent.Access.Idempotency.Store.{
  CacheKey, key_eq, Entry, reserved, complete, Policy, Store, Decision, granted, replay,
  cached_size, held, make_room, capacity_error,
}
use lucent.Access.Idempotency.Methods.{reuse, admit, new_entry, new_reservation, reserve_at}
use lucent.Access.Idempotency.Accounting.{Entries, build, live, reserved_size, expire-build}
use lucent.Access.Idempotency.Eviction.{Evicts, IsStuck, make_room-Room}
use lucent.Access.Idempotency.Validity.{IsValid, live-IsValid, Evicts-get-none}

module _ (p : Policy) (now : ℕ) (es : Entries) (v : IsValid p es) where
  pub reserve_at-conflict :
      (token : String) (k : CacheKey) (fingerprint : String) (e : Entry)
      → get k (live now es) ≡ some e
      → (e.fingerprint == fingerprint) ≡ false
      → reserve_at now token k fingerprint (build p es)
        ≡ (err (access idempotency_conflict), build p (live now es))
  unfolding reserve_at
  reserve_at-conflict token k fingerprint e there differs =
      rw (expire-build p now es v.unique, there) (ground arith)

  pub reserve_at-in_progress :
      (token : String) (k : CacheKey) (fingerprint : String) (e : Entry)
      → get k (live now es) ≡ some e
      → (e.fingerprint == fingerprint) ≡ true
      → e.state ≡ reserved
      → reserve_at now token k fingerprint (build p es) ≡ (
        err (access (idempotency_in_progress (whole (e.expires_at - now)))),
        build p (live now es),
      )
  unfolding reserve_at
  reserve_at-in_progress token k fingerprint e there same pending =
      rw (expire-build p now es v.unique, there) (ground arith)

  reuse-replay :
      (k : CacheKey) (fingerprint : String) (e : Entry) (r : Response) (s : Store)
      → (e.fingerprint == fingerprint) ≡ true
      → e.state ≡ complete
      → e.response ≡ some r
      → reuse now k fingerprint e s
        ≡ (ok (replay r), record s { entries = move_to_end k e s.entries })
  unfolding reuse
  reuse-replay k fingerprint e r s same done response = ground arith

  move-build :
      (k : CacheKey) (e : Entry) (ls : Entries)
      → get k ls ≡ some e
      → record (build p ls) { entries = move_to_end k e ls } ≡ build p (move_to_end k e ls)
  move-build k e ls there = ground (
    arith,
    sum_of-move_to_end cached_size k e e ls there,
    sum_of-move_to_end reserved_size k e e ls there,
  )

  pub reserve_at-replay :
      (token : String) (k : CacheKey) (fingerprint : String) (e : Entry) (r : Response)
      → get k (live now es) ≡ some e
      → (e.fingerprint == fingerprint) ≡ true
      → e.state ≡ complete
      → e.response ≡ some r
      → reserve_at now token k fingerprint (build p es)
        ≡ (ok (replay r), build p (move_to_end k e (live now es)))
  unfolding reserve_at
  reserve_at-replay token k fingerprint e r there same done response =
      rw (expire-build p now es v.unique, there)
        (reuse-replay k fingerprint e r (build p (live now es)) same done response
          ∙ ap (λ (s : Store). (ok (replay r), s)) (move-build k e (live now es) there))

abbrev pub is_over_budget : Policy → Entries → Bool
is_over_budget p ds =
    not p.evict_completed_entries
    && ltb p.max_total_response_bytes (sum_of cached_size ds + sum_of reserved_size ds + held p)

-- How a reservation of new work ends: it is granted, or the store is at its capacity.
pub record Admission (p : Policy) (now : ℕ) (token : String) (k : CacheKey) (fingerprint : String)
    (ls : Entries) (out : Result Error Decision × Store) : Type 0 where
  pub left : Entries
  pub evicted : Evicts p left ls
  pub outcome :
      ((out ≡ (
        ok (granted (new_reservation now k fingerprint token p)),
        build p (left ++ (k, new_entry now fingerprint token p) ∷ []),
      ))
        × (length left < p.max_entries)
        × (is_over_budget p left ≡ false))
      ⊎ ((out ≡ (err (capacity_error now (build p left)), build p left))
          × (((ltb (length left) p.max_entries ≡ false) × IsStuck p left)
              ⊎ (is_over_budget p left ≡ true)))

module _ (p : Policy) (now : ℕ) (token : String) (k : CacheKey) (fingerprint : String)
    (ds : Entries) where
  admit-granted :
      get k ds ≡ none
      → is_over_budget p ds ≡ false
      → admit now token k fingerprint (build p ds) ≡ (
        ok (granted (new_reservation now k fingerprint token p)),
        build p (ds ++ (k, new_entry now fingerprint token p) ∷ []),
      )
  unfolding admit
  admit-granted new within = ground (
    arith,
    set-new k (new_entry now fingerprint token p) ds new,
    sum_of-append cached_size ds ((k, new_entry now fingerprint token p) ∷ []),
    sum_of-append reserved_size ds ((k, new_entry now fingerprint token p) ∷ []),
  )

  admit-refused :
      is_over_budget p ds ≡ true
      → admit now token k fingerprint (build p ds)
        ≡ (err (capacity_error now (build p ds)), build p ds)
  unfolding admit
  admit-refused over = ground arith

module _ (p : Policy) (now : ℕ) (es : Entries) (v : IsValid p es) where
  reserve_at-new :
      (token : String) (k : CacheKey) (fingerprint : String)
      → get k (live now es) ≡ none
      → reserve_at now token k fingerprint (build p es)
        ≡ continue
            (make_room now (build p (live now es))).0
            (λ _. admit now token k fingerprint)
            (make_room now (build p (live now es))).1
  unfolding reserve_at
  reserve_at-new token k fingerprint new = rw (expire-build p now es v.unique, new)

  pub reserve_at-Admission :
      (token : String) (k : CacheKey) (fingerprint : String)
      → get k (live now es) ≡ none
      → Admission p now token k fingerprint
          (live now es)
          (reserve_at now token k fingerprint (build p es))
  reserve_at-Admission token k fingerprint new =
      let valid = live-IsValid p now es v in
      let room = make_room-Room p now (live now es) valid.unique valid.bounded in
      rw (reserve_at-new token k fingerprint new, room.state)
        (elim room.outcome [
          | inr (failed, full, stuck) ↦ rw failed (record {
            left = room.left;
            evicted = room.evicted;
            outcome = inr (refl, inl (full, stuck));
          })
          | inl (made, free) ↦ elim (Bool-cases (is_over_budget p room.left)) [
            | inl over ↦
                rw (made, admit-refused p now token k fingerprint room.left over)
                  (record {
                    left = room.left;
                    evicted = room.evicted;
                    outcome = inr (refl, inr over);
                  })
            | inr within ↦
                rw
                  (
                    made,
                    admit-granted p now token k fingerprint room.left
                        (Evicts-get-none p k room.evicted new) within,
                  )
                  (record {
                    left = room.left;
                    evicted = room.evicted;
                    outcome = inl (refl, ground arith, within);
                  })
          ]
        ])
