-- ===== src/Access/Idempotency/History.antt =====
-- Histories of calls on an `IdempotencyStore`: the invariant, and the entries that survive.
use lucent.Prelude.{
  ℕ, ◌<◌, ◌≡◌, refl, sym, ◌∙◌, List, some, [], ◌∷◌, true, false, not, arith, String, ◌==◌, ◌⊎◌, inl,
  inr, Bool-cases, ap,
}
use mathlib.Core.Path.{subst₂}
use lucent.Prelude.Dict.{
  get, move_to_end, sum_of, IsUnique, get-retain, retain-IsUnique, get-erase_ne, get-move_to_end_ne,
  get-move_to_end_self, get-append_some,
}
use lucent.Access.Idempotency.Store.{
  CacheKey, key_eq, Entry, Policy, Store, is_complete, cached_size, is_expired, owns,
}
use lucent.Access.Idempotency.Accounting.{Entries, build, live, reserved_size}
use lucent.Access.Idempotency.Eviction.{Evicts}
use lucent.Access.Idempotency.Validity.{IsValid, Evicts-none, Evicts-get_pending}
use lucent.Access.Idempotency.Change.{
  Call, reserving, committing, aborting, counting, measuring, perform, Owns, Change, untouched,
  swept, touched, added, published, released, Change-IsValid,
}
use lucent.Access.Idempotency.Perform.{IsPolicy, perform-Leaves}

pub record IsWellFormed (s : Store) : Type 0 where
  pub cached : s.cached_bytes ≡ sum_of cached_size s.entries
  pub held : s.reserved_bytes ≡ sum_of reserved_size s.entries
  pub valid : IsValid s.policy s.entries

pub IsWellFormed-build : (s : Store) → IsWellFormed s → s ≡ build s.policy s.entries
IsWellFormed-build s w = λ i. record {
  policy = s.policy;
  entries = s.entries;
  cached_bytes = w.cached i;
  reserved_bytes = w.held i;
}

pub build-IsWellFormed : (p : Policy) (es : Entries) → IsValid p es → IsWellFormed (build p es)
build-IsWellFormed p es v = record { cached = refl; held = refl; valid = v }

-- A fresh store.
abbrev pub start : Policy → Store
start p = build p []

pub data Event : Type 0 where
  at : ℕ → Call → Event

-- Calls one after the other, each at the reading of the clock that it takes.
unfoldable pub run : (String → String) → List Event → Store → Store
run sha256 [] s = s
run sha256 (at now call ∷ events) s = run sha256 events (perform sha256 now call s)

module _ (sha256 : String → String) (p : Policy) (ip : IsPolicy p) where
  pub run-IsValid :
      (events : List Event) (es : Entries)
      → IsValid p es
      → (ds : Entries) × (run sha256 events (build p es) ≡ build p ds) × IsValid p ds
  unfolding run
  run-IsValid [] es v = (es, refl, v)
  run-IsValid (at now call ∷ events) es v =
      let (ds, same, change) = perform-Leaves p now es v sha256 call ip in
      rw same (run-IsValid events ds (Change-IsValid p now call change v))

-- The store keeps its finished entries, or the entry is not finished.
abbrev pub IsKept : Policy → Entry → Type 0
IsKept p e = (p.evict_completed_entries ≡ false) ⊎ (is_complete e.state ≡ false)

module _ (p : Policy) (now : ℕ) (k : CacheKey) (e : Entry) where
  pub live-get :
      (es : Entries)
      → IsUnique es
      → get k es ≡ some e
      → now < e.expires_at
      → get k (live now es) ≡ some e
  live-get es u there early = get-retain k (λ e. not (is_expired now e)) e es u there ∙ ground arith

  Evicts-get :
      {ds es : Entries} → Evicts p ds es → get k es ≡ some e → IsKept p e → get k ds ≡ some e
  Evicts-get gone there (inl off) = rw (Evicts-none p gone off) there
  Evicts-get gone there (inr pending) = Evicts-get_pending p k e gone there pending

  -- The entry at an equal key is the same entry.
  same_entry :
      (j : CacheKey) (f : Entry) (es : Entries)
      → (k == j) ≡ true
      → get k es ≡ some e
      → get j es ≡ some f
      → (j ≡ k) × (f ≡ e)
  same_entry j f es equal there found =
      let same : j ≡ k = sym ((key_eq.same_iff k j).0 equal) in
      let equal_entries : some f ≡ some e = sym found ∙ ap (λ i. get i es) same ∙ there in
      (same, cc)

  pub Change-get :
      (call : Call) {es ds : Entries}
      → Change p now call es ds
      → IsUnique es
      → get k es ≡ some e
      → now < e.expires_at
      → IsKept p e
      → ¬ Owns call k e
      → get k ds ≡ some e
  Change-get call {es} (untouched same) u there early kept free = rw same there
  Change-get call {es} (swept gone) u there early kept free =
      Evicts-get gone (live-get es u there early) kept
  Change-get call {es} (touched j f found same) u there early kept free =
      elim (Bool-cases (k == j)) [
        | inr other ↦
            rw (same, get-move_to_end_ne k j f (live now es) other) (live-get es u there early)
        | inl equal ↦
            let (q, same_f) =
              same_entry j f (live now es) equal (live-get es u there early) found in
            rw same (
              ap (λ i. get i (move_to_end j f (live now es))) (sym q)
              ∙ get-move_to_end_self j f (live now es) (retain-IsUnique _ es u)
              ∙ ap some same_f)
      ]
  Change-get call {es} (added j f left gone new valid same) u there early kept free =
      rw same
        (get-append_some k e left ((j, f) ∷ []) (Evicts-get gone (live-get es u there early) kept))
  Change-get call {es} (published j d f left gone found owned valid same) u there early kept free =
      elim (Bool-cases (k == j)) [
        | inr other ↦
            rw (same, get-move_to_end_ne k j f left other)
              (Evicts-get gone (live-get es u there early) kept)
        | inl equal ↦
            let (q, same_d) =
              same_entry j d (live now es) equal (live-get es u there early) found in
            absurd (free (subst₂ (Owns call) q same_d owned))
      ]
  Change-get call {es} (released j d found owned same) u there early kept free =
      elim (Bool-cases (k == j)) [
        | inr other ↦ rw (same, get-erase_ne k j (live now es) other) (live-get es u there early)
        | inl equal ↦
            let (q, same_d) =
              same_entry j d (live now es) equal (live-get es u there early) found in
            absurd (free (subst₂ (Owns call) q same_d owned))
      ]

-- Every call of the history comes before the entry `e` at `k` expires, and does not own it.
abbrev pub AreQuiet : CacheKey → Entry → List Event → Type 0
AreQuiet k e [] = Unit
AreQuiet k e (at now call ∷ events) = (now < e.expires_at) × (¬ Owns call k e) × AreQuiet k e events

-- An entry that is kept survives a quiet history.
pub run-get :
    (sha256 : String → String) (p : Policy)
    → IsPolicy p
    → (k : CacheKey) (e : Entry) → IsKept p e
    → (events : List Event) (es : Entries) → AreQuiet k e events
    → IsValid p es
    → get k es ≡ some e
    → (ds : Entries) × (run sha256 events (build p es) ≡ build p ds)
      × IsValid p ds
      × (get k ds ≡ some e)
unfolding run
run-get sha256 p ip k e kept [] es quiet v there = (es, refl, v, there)
run-get sha256 p ip k e kept (at now call ∷ events) es quiet v there =
    let (ds, same, change) = perform-Leaves p now es v sha256 call ip in
    rw same (
      run-get sha256 p ip k e kept events ds quiet.2 (Change-IsValid p now call change v)
        (Change-get p now k e call change v.unique there quiet.0 kept quiet.1))

-- Every call of the history comes before the deadline.
abbrev pub AreBefore : ℕ → List Event → Type 0
AreBefore deadline [] = Unit
AreBefore deadline (at now call ∷ events) = (now < deadline) × AreBefore deadline events

Owns-complete :
    (k : CacheKey) (e : Entry) (call : Call) → is_complete e.state ≡ true → ¬ Owns call k e
unfolding owns
Owns-complete k e (committing res r) done (_, mine) = ground arith
Owns-complete k e (aborting res) done (_, mine) = ground arith
Owns-complete k e (reserving _ _ _ _) done h = h
Owns-complete k e counting done h = h
Owns-complete k e measuring done h = h

-- Nobody owns a finished entry.
pub AreBefore-AreQuiet :
    (k : CacheKey) (e : Entry) (events : List Event)
    → is_complete e.state ≡ true
    → AreBefore e.expires_at events
    → AreQuiet k e events
AreBefore-AreQuiet k e [] done h = tt
AreBefore-AreQuiet k e (at now call ∷ events) done h =
    (h.0, Owns-complete k e call done, AreBefore-AreQuiet k e events done h.1)
