-- ===== src/Access/Idempotency/Validity.antt =====
-- The invariant of `IdempotencyStore`, on its entries, and the changes of the entries that keep it.
use lucent.Prelude.{
  ℕ, ◌+◌, ◌<◌, ◌≤◌, ◌≡◌, refl, ◌∙◌, none, some, [], ◌∷◌, ◌++◌, false, not, arith, length,
  length-append,
}
use lucent.Prelude.Dict.{
  get, erase, move_to_end, All, IsUnique, sum_of, length-erase, erase-IsUnique, sum_of-erase,
  get-erase_ne, get-erase-none, All-erase, All-retain, retain-IsUnique, sum_of-retain-le,
  length-retain-le, snoc-IsUnique, All-append, sum_of-append, move_to_end-IsUnique,
  sum_of-move_to_end, length-move_to_end, All-move_to_end,
}
use lucent.Access.Idempotency.Response.{Response, size_bytes}
use lucent.Access.Idempotency.Store.{
  CacheKey, key_eq, Entry, EntryState, reserved, complete, Policy, held, is_complete, cached_size,
  is_expired,
}
use lucent.Access.Idempotency.Accounting.{Entries, live, reserved_size}
use lucent.Access.Idempotency.Eviction.{Evicts, stop, evict}

-- A reservation has no response and holds its share; a finished entry has a response within the
-- limit and holds nothing.
abbrev pub IsShapedAt : Policy → EntryState → Entry → Type 0
IsShapedAt p reserved e = (e.response ≡ none) × (e.reserved_response_bytes ≡ held p)
IsShapedAt p complete e =
    ((r : Response) × (e.response ≡ some r) × (size_bytes r ≤ p.max_response_bytes))
    × (e.reserved_response_bytes ≡ 0)

abbrev pub IsShaped : Policy → Entry → Type 0
IsShaped p e = IsShapedAt p e.state e

pub record IsValid (p : Policy) (es : Entries) : Type 0 where
  pub unique : IsUnique es
  pub shaped : All (IsShaped p) es
  pub bounded : length es ≤ p.max_entries
  pub budget : sum_of cached_size es + sum_of reserved_size es ≤ p.max_total_response_bytes

pub IsValid-empty : (p : Policy) → IsValid p []
IsValid-empty p = record { unique = tt; shaped = tt; bounded = omega arith; budget = omega arith }

pub live-IsValid : (p : Policy) (now : ℕ) (es : Entries) → IsValid p es → IsValid p (live now es)
live-IsValid p now es v = record {
  unique = retain-IsUnique (λ e. not (is_expired now e)) es v.unique;
  shaped = All-retain (IsShaped p) (λ e. not (is_expired now e)) es v.shaped;
  bounded = omega (arith, length-retain-le (λ (e : Entry). not (is_expired now e)) es);
  budget = omega (
    arith,
    sum_of-retain-le cached_size (λ e. not (is_expired now e)) es,
    sum_of-retain-le reserved_size (λ e. not (is_expired now e)) es,
  );
}

pub erase-IsValid :
    (p : Policy) (k : CacheKey) (e : Entry) (es : Entries)
    → get k es ≡ some e
    → IsValid p es
    → IsValid p (erase k es)
erase-IsValid p k e es h v = record {
  unique = erase-IsUnique k es v.unique;
  shaped = All-erase (IsShaped p) k es v.shaped;
  bounded = omega (arith, length-erase k e es h);
  budget = omega (arith, sum_of-erase cached_size k e es h, sum_of-erase reserved_size k e es h);
}

pub Evicts-IsValid : (p : Policy) {ds es : Entries} → Evicts p ds es → IsValid p es → IsValid p ds
Evicts-IsValid p stop v = v
Evicts-IsValid p (evict {es = es} k e may there finished rest) v =
    Evicts-IsValid p rest (erase-IsValid p k e es there v)

-- The entry at `k` changes to `f` and moves to the end.
pub move_to_end-IsValid :
    (p : Policy) (k : CacheKey) (e f : Entry) (es : Entries)
    → get k es ≡ some e
    → IsShaped p f
    → sum_of cached_size es + sum_of reserved_size es + cached_size f + reserved_size f
      ≤ p.max_total_response_bytes + cached_size e + reserved_size e
    → IsValid p es
    → IsValid p (move_to_end k f es)
move_to_end-IsValid p k e f es there shape fits v = record {
  unique = move_to_end-IsUnique k f es v.unique;
  shaped = All-move_to_end (IsShaped p) k f es v.shaped shape;
  bounded = omega (arith, length-move_to_end k e f es there);
  budget = omega (
    arith,
    sum_of-move_to_end cached_size k e f es there,
    sum_of-move_to_end reserved_size k e f es there,
  );
}

-- A new entry `f` at `k`.
pub snoc-IsValid :
    (p : Policy) (k : CacheKey) (f : Entry) (es : Entries)
    → get k es ≡ none
    → IsShaped p f
    → length es < p.max_entries
    → sum_of cached_size es + sum_of reserved_size es + cached_size f + reserved_size f
      ≤ p.max_total_response_bytes
    → IsValid p es
    → IsValid p (es ++ (k, f) ∷ [])
snoc-IsValid p k f es new shape room fits v = record {
  unique = snoc-IsUnique k f es new v.unique;
  shaped = All-append (IsShaped p) es ((k, f) ∷ []) v.shaped (shape, tt);
  bounded = omega (arith, length-append es ((k, f) ∷ []));
  budget = omega (
    arith,
    sum_of-append cached_size es ((k, f) ∷ []),
    sum_of-append reserved_size es ((k, f) ∷ []),
  );
}

-- Without eviction nothing goes.
pub Evicts-none :
    (p : Policy) {ds es : Entries} → Evicts p ds es → p.evict_completed_entries ≡ false → ds ≡ es
Evicts-none p stop off = refl
Evicts-none p (evict k e may there finished rest) off = absurd (cc)

pub Evicts-get-none :
    (p : Policy) (k : CacheKey) {ds es : Entries}
    → Evicts p ds es
    → get k es ≡ none
    → get k ds ≡ none
Evicts-get-none p k stop h = h
Evicts-get-none p k (evict {es = es} j e may there finished rest) h =
    Evicts-get-none p k rest (get-erase-none k j es h)

-- An entry that is not finished is not evicted.
pub Evicts-get_pending :
    (p : Policy) (k : CacheKey) (e : Entry) {ds es : Entries}
    → Evicts p ds es
    → get k es ≡ some e
    → is_complete e.state ≡ false
    → get k ds ≡ some e
Evicts-get_pending p k e stop h pending = h
Evicts-get_pending p k e (evict {es = es} j f may there finished rest) h pending =
    Evicts-get_pending p k e rest (get-erase_ne k j es (ground (arith, key_eq.same_iff k j)) ∙ h)
      pending
