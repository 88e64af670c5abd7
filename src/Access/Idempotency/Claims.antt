-- ===== src/Access/Idempotency/Claims.antt =====
-- What a response that is committed under a key says to every other reservation of the key: for as
-- long as it is kept, nobody can commit under the key again.
use lucent.Prelude.{
  ℕ, ◌+◌, ◌<◌, ◌≤◌, ◌≡◌, refl, sym, ap, ◌∙◌, List, [], ◌∷◌, some, false, true, arith, String,
  string_eq, inl, inr, ok, Bool-cases,
}
use lucent.Prelude.Dict.{get, move_to_end, get-move_to_end_self}
use lucent.Access.Idempotency.Response.{Response}
use lucent.Access.Idempotency.Store.{
  CacheKey, key_eq, Entry, Policy, Store, Reservation, Decision, granted, cache_key, is_complete,
}
use lucent.Access.Idempotency.Methods.{finished, reserve, commit, new_reservation}
use lucent.Access.Idempotency.Accounting.{Entries, build}
use lucent.Access.Idempotency.Validity.{IsValid, live-IsValid, Evicts-IsValid}
use lucent.Access.Idempotency.Publishing.{commit-Published, owns-pending}
use lucent.Access.Idempotency.Change.{is_input, reserve-accepted}
use lucent.Access.Idempotency.Perform.{IsPolicy}
use lucent.Access.Idempotency.Replay.{commit-ok}
use lucent.Access.Idempotency.Exclusion.{granted-new}
use lucent.Access.Idempotency.History.{
  Event, run, run-IsValid, run-get, AreBefore, AreBefore-AreQuiet, live-get,
}

-- A well-formed store under the policy `p`.
pub record IsSound (p : Policy) (s : Store) : Type 0 where
  pub entries : Entries
  pub same : s ≡ build p entries
  pub valid : IsValid p entries

-- The store holds a finished entry at `k` until `deadline` at least.
pub record IsClaimed (p : Policy) (k : CacheKey) (deadline : ℕ) (s : Store) : Type 0 where
  pub entries : Entries
  pub same : s ≡ build p entries
  pub valid : IsValid p entries
  pub entry : Entry
  pub there : get k entries ≡ some entry
  pub done : is_complete entry.state ≡ true
  pub kept : deadline ≤ entry.expires_at

pub IsClaimed-IsSound :
    {p : Policy} {k : CacheKey} {deadline : ℕ} {s : Store} → IsClaimed p k deadline s → IsSound p s
IsClaimed-IsSound c = record { entries = c.entries; same = c.same; valid = c.valid }

AreBefore-le : {a b : ℕ} (events : List Event) → a ≤ b → AreBefore a events → AreBefore b events
AreBefore-le [] le h = tt
AreBefore-le (Event.at now call ∷ events) le h =
    (omega (arith, le, h.0), AreBefore-le events le h.1)

module _ (sha256 : String → String) (p : Policy) (ip : IsPolicy p) where
  pub run-IsSound :
      (events : List Event) {s : Store} → IsSound p s → IsSound p (run sha256 events s)
  run-IsSound events sound =
      let (ds, same, valid) = run-IsValid sha256 p ip events sound.entries sound.valid in
      rw sound.same (record { entries = ds; same = same; valid = valid })

  pub run-IsClaimed :
      p.evict_completed_entries ≡ false
      → {k : CacheKey} {deadline : ℕ} (events : List Event) {s : Store} → AreBefore deadline events
      → IsClaimed p k deadline s
      → IsClaimed p k deadline (run sha256 events s)
  run-IsClaimed off {k} events before c =
      let (ds, same, valid, there) =
        run-get sha256 p ip k c.entry (inl off) events c.entries
          (AreBefore-AreQuiet k c.entry events c.done (AreBefore-le events c.kept before)) c.valid
          c.there in
      rw c.same (record {
        entries = ds;
        same = same;
        valid = valid;
        entry = c.entry;
        there = there;
        done = c.done;
        kept = c.kept;
      })

  reserve-refused :
      (now : ℕ) (token tenant_id key fingerprint : String) (d : Decision) (s : Store)
      → is_input tenant_id key fingerprint ≡ false
      → ¬ ((reserve sha256 now token tenant_id key fingerprint s).0 ≡ ok d)
  unfolding reserve
  reserve-refused now token tenant_id key fingerprint d s bad h = ground arith

  granted_key :
      (now : ℕ) (token tenant_id key fingerprint : String) (res : Reservation) (es : Entries)
      → IsValid p es
      → is_input tenant_id key fingerprint ≡ true
      → (reserve sha256 now token tenant_id key fingerprint (build p es)).0 ≡ ok (granted res)
      → cache_key res ≡ (tenant_id, sha256 key)
  granted_key now token tenant_id key fingerprint res es valid good h =
      let h' =
        rw (reserve-accepted sha256 now token tenant_id key fingerprint (build p es) good) at h in
      let (left, given, valid', new) =
        granted-new p now es valid token fingerprint (tenant_id, sha256 key) res h' in
      let same : res ≡ new_reservation now (tenant_id, sha256 key) fingerprint token p = cc in
      ap cache_key same

  -- A grant is a reservation of the key that it was asked for.
  pub reserve-cache_key :
      (now : ℕ) (token tenant_id key fingerprint : String) (res : Reservation) {s : Store}
      → IsSound p s
      → (reserve sha256 now token tenant_id key fingerprint s).0 ≡ ok (granted res)
      → cache_key res ≡ (tenant_id, sha256 key)
  reserve-cache_key now token tenant_id key fingerprint res {s} sound h =
      elim (Bool-cases (is_input tenant_id key fingerprint)) [
        | inl good ↦
            granted_key now token tenant_id key fingerprint res sound.entries sound.valid good
              (rw sound.same at h)
        | inr bad ↦
            absurd (reserve-refused now token tenant_id key fingerprint (granted res) s bad h)
      ]

  -- A commit that succeeds leaves its key claimed.
  pub commit-IsClaimed :
      (now deadline : ℕ) (res : Reservation) (r : Response) {s : Store}
      → IsSound p s
      → deadline ≤ now + p.ttl
      → (commit now res r s).0 ≡ ok tt
      → IsClaimed p (cache_key res) deadline (commit now res r s).1
  commit-IsClaimed now deadline res r {s} sound later = rw sound.same (λ done.
      let (small, (e, there, mine)) = commit-ok p now sound.entries sound.valid res r done in
      let d =
        commit-Published p now sound.entries sound.valid res e r ip.has_total small there mine in
      rw d.result (record {
        entries = move_to_end (cache_key res) (finished now e r p) d.left;
        same = refl;
        valid = d.valid;
        entry = finished now e r p;
        there =
            get-move_to_end_self (cache_key res) (finished now e r p) d.left
              (Evicts-IsValid p d.evicted (live-IsValid p now sound.entries sound.valid)).unique;
        done = refl;
        kept = later;
      }))

  -- Under a claimed key no commit succeeds before the deadline.
  pub IsClaimed-commit :
      (now : ℕ) {deadline : ℕ} (res : Reservation) (r : Response) {s : Store}
      → IsClaimed p (cache_key res) deadline s
      → now < deadline
      → ¬ ((commit now res r s).0 ≡ ok tt)
  IsClaimed-commit now res r c early = rw c.same (λ done.
      let (small, (e, there, mine)) = commit-ok p now c.entries c.valid res r done in
      let pending = owns-pending e res mine in
      let still =
        live-get p now (cache_key res) c.entry c.entries c.valid.unique c.there
          (omega (arith, early, c.kept)) in
      let same : some e ≡ some c.entry = sym there ∙ still in ground (arith, c.done, pending))
