-- ===== src/Access/Idempotency/Change.antt =====
-- The changes that one call of a method of `IdempotencyStore` makes to the entries of the store.
use Prim.Native.String.{len}
use lucent.Prelude.{
  ℕ, ◌≡◌, none, some, [], ◌∷◌, ◌++◌, Bool, true, false, not, ◌&&◌, ◌||◌, arith, String, string_eq,
  ◌==◌, ltb,
}
use lucent.Prelude.Dict.{get, erase, move_to_end, All-get}
use lucent.Access.Idempotency.Response.{Response}
use lucent.Access.Idempotency.Store.{
  CacheKey, key_eq, Entry, Policy, Store, Reservation, owns, cache_key, max_tenant_id_bytes,
  max_idempotency_key_bytes, max_fingerprint_bytes,
}
use lucent.Access.Idempotency.Methods.{
  reserve, reserve_at, commit, abort, len_entries, cached_response_bytes,
}
use lucent.Access.Idempotency.Accounting.{Entries, live}
use lucent.Access.Idempotency.Eviction.{Evicts}
use lucent.Access.Idempotency.Validity.{
  IsValid, IsShaped, live-IsValid, Evicts-IsValid, move_to_end-IsValid, erase-IsValid,
}

-- The text is within its bound.
abbrev pub is_bounded : String → ℕ → Bool
is_bounded value max_bytes = not (value == "" || ltb max_bytes (len value))

-- The arguments of `reserve` are well formed.
abbrev pub is_input : String → String → String → Bool
is_input tenant_id key fingerprint =
    is_bounded tenant_id max_tenant_id_bytes
    && is_bounded key max_idempotency_key_bytes
    && is_bounded fingerprint max_fingerprint_bytes

module _ (sha256 : String → String) (now : ℕ) (token tenant_id key fingerprint : String)
    (s : Store) where
  pub reserve-accepted :
      is_input tenant_id key fingerprint ≡ true
      → reserve sha256 now token tenant_id key fingerprint s
        ≡ reserve_at now token (tenant_id, sha256 key) fingerprint s
  unfolding reserve
  reserve-accepted good = ground arith

  pub reserve-rejected :
      is_input tenant_id key fingerprint ≡ false
      → (reserve sha256 now token tenant_id key fingerprint s).1 ≡ s
  unfolding reserve
  reserve-rejected bad = ground arith

pub data Call : Type 0 where
  reserving : String → String → String → String → Call
  committing : Reservation → Response → Call
  aborting : Reservation → Call
  counting measuring : Call

-- The state that a call leaves.
unfoldable pub perform : (String → String) → ℕ → Call → Store → Store
perform sha256 now (reserving token tenant_id key fingerprint) s =
    (reserve sha256 now token tenant_id key fingerprint s).1
perform sha256 now (committing res r) s = (commit now res r s).1
perform sha256 now (aborting res) s = (abort now res s).1
perform sha256 now counting s = (len_entries now s).1
perform sha256 now measuring s = (cached_response_bytes now s).1

-- The call proves that it owns the entry `e` at `k`.
abbrev pub Owns : Call → CacheKey → Entry → Type 0
Owns (committing res r) k e = (cache_key res ≡ k) × (owns (some e) res ≡ true)
Owns (aborting res) k e = (cache_key res ≡ k) × (owns (some e) res ≡ true)
Owns _ k e = ⊥

-- What a call at the time `now` may do to the entries.
pub data Change (p : Policy) (now : ℕ) (call : Call) (es ds : Entries) : Type 0 where
  untouched : ds ≡ es → Change p now call es ds
  swept : Evicts p ds (live now es) → Change p now call es ds
  touched :
      (k : CacheKey) (e : Entry)
      → get k (live now es) ≡ some e
      → ds ≡ move_to_end k e (live now es)
      → Change p now call es ds
  added :
      (k : CacheKey) (f : Entry) (left : Entries)
      → Evicts p left (live now es)
      → get k (live now es) ≡ none
      → IsValid p ds
      → ds ≡ left ++ (k, f) ∷ []
      → Change p now call es ds
  published :
      (k : CacheKey) (e f : Entry) (left : Entries)
      → Evicts p left (live now es)
      → get k (live now es) ≡ some e
      → Owns call k e
      → IsValid p ds
      → ds ≡ move_to_end k f left
      → Change p now call es ds
  released :
      (k : CacheKey) (e : Entry)
      → get k (live now es) ≡ some e
      → Owns call k e
      → ds ≡ erase k (live now es)
      → Change p now call es ds

-- A call keeps the invariant.
pub Change-IsValid :
    (p : Policy) (now : ℕ) (call : Call) {es ds : Entries}
    → Change p now call es ds
    → IsValid p es
    → IsValid p ds
Change-IsValid p now call (untouched same) v = rw same v
Change-IsValid p now call {es} (swept gone) v = Evicts-IsValid p gone (live-IsValid p now es v)
Change-IsValid p now call {es} (touched k e there same) v =
    let valid = live-IsValid p now es v in
    rw same (
      move_to_end-IsValid p k e e (live now es) there
        (All-get (IsShaped p) k e (live now es) valid.shaped there) (omega (arith, valid.budget))
        valid)
Change-IsValid p now call (added k f left gone new valid same) v = valid
Change-IsValid p now call (published k e f left gone there owned valid same) v = valid
Change-IsValid p now call {es} (released k e there owned same) v =
    rw same (erase-IsValid p k e (live now es) there (live-IsValid p now es v))
