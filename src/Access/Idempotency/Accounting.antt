-- ===== src/Access/Idempotency/Accounting.antt =====
-- The store whose counters are the sums over its entries. The methods of `IdempotencyStore` that
-- start from such a store end in one, so they never meet an accounting underflow, and they act on
-- the entries alone.
use lucent.Prelude.{
  ℕ, ◌+◌, ◌≡◌, refl, Option, none, some, List, [], ◌∷◌, Bool, not, arith, ok, Bool-cases, inl, inr,
}
use lucent.Prelude.Dict.{
  Dict, sum_of, get, erase, IsUnique, retain, keys_where, erase_all, Misses, sum_of-erase,
  erase_all-keys_where, beq_refl, keys_where-Misses,
}
use lucent.Access.Idempotency.Response.{Response, size_bytes}
use lucent.Access.Idempotency.Store.{
  CacheKey, key_eq, Entry, Policy, Store, cached_size, remove, remove_all, expire, is_expired,
  drop_response,
}

abbrev pub Entries : Type 0
Entries = Dict CacheKey Entry

abbrev pub reserved_size : Entry → ℕ
reserved_size e = e.reserved_response_bytes

abbrev pub build : Policy → Entries → Store
build p es = record {
  policy = p;
  entries = es;
  cached_bytes = sum_of cached_size es;
  reserved_bytes = sum_of reserved_size es;
}

drop_response-ok :
    (o : Option Response) (n : ℕ) (s : Store)
    → s.cached_bytes ≡ n + (elim o [ none ↦ 0 | some r ↦ size_bytes r ])
    → drop_response o s ≡ (ok tt, record s { cached_bytes = n })
unfolding drop_response
drop_response-ok none n s h = ground arith
drop_response-ok (some r) n s h = ground arith

pub remove-build :
    (p : Policy) (k : CacheKey) (e : Entry) (es : Entries)
    → get k es ≡ some e
    → remove k (build p es) ≡ (ok tt, build p (erase k es))
unfolding remove
remove-build p k e es h =
    ground (arith, sum_of-erase cached_size k e es h, sum_of-erase reserved_size k e es h)

abbrev pub live : ℕ → Entries → Entries
live now = retain (λ e. not (is_expired now e))

-- Each key is there when its turn to be removed comes.
abbrev Present : List CacheKey → Entries → Type 0
Present [] es = Unit
Present (k ∷ ks) es = ((e : Entry) × (get k es ≡ some e)) × Present ks (erase k es)

Present-cons :
    (ks : List CacheKey) (k : CacheKey) (e : Entry) (es : Entries)
    → Misses k ks
    → Present ks es
    → Present ks ((k, e) ∷ es)
Present-cons [] k e es m h = tt
Present-cons (j ∷ ks) k e es m h = rw m.0 (h.0, Present-cons ks k e (erase j es) m.1 h.1)

keys_where-Present :
    (test : Entry → Bool) (es : Entries) → IsUnique es → Present (keys_where test es) es
keys_where-Present test [] u = tt
keys_where-Present test ((k, e) ∷ es) u = elim (Bool-cases (test e)) [
  | inl gone ↦ rw (gone, beq_refl k) ((e, refl), keys_where-Present test es u.1)
  | inr stays ↦ rw stays (
      Present-cons (keys_where test es) k e es (keys_where-Misses k test es u.0)
        (keys_where-Present test es u.1))
]

remove_all-build :
    (p : Policy) (ks : List CacheKey) (es : Entries)
    → Present ks es
    → remove_all ks (build p es) ≡ (ok tt, build p (erase_all ks es))
unfolding remove_all
remove_all-build p [] es h = refl
remove_all-build p (k ∷ ks) es h =
    rw (remove-build p k h.0.0 es h.0.1) (remove_all-build p ks (erase k es) h.1)

-- `_expire` leaves exactly the entries that are not past their time.
pub expire-build :
    (p : Policy) (now : ℕ) (es : Entries)
    → IsUnique es
    → expire now (build p es) ≡ (ok tt, build p (live now es))
unfolding expire
expire-build p now es u = rw (
  remove_all-build p (keys_where (is_expired now) es) es (keys_where-Present _ es u),
  erase_all-keys_where (is_expired now) (λ e. not (is_expired now e)) es (λ e. refl) u,
)
