-- ===== src/Access/Idempotency/Store.antt =====
-- lucent/access.py, `class IdempotencyStore`: its state and its methods.
-- Every method takes the reading of the clock; `reserve` takes the SHA-256 digest of the standard
-- library and the fresh token of `secrets.token_urlsafe`. The lock is held for a whole method, so
-- a method is one step. The counters are natural numbers: the negative value that a counter would
-- hold after an accounting underflow is not kept.
use Prim.Native.String.{len, ◌++◌}
use lucent.Prelude.{
  ℕ, zero, suc, ◌+◌, ◌-◌, min, String, Option, none, some, List, [], ◌∷◌, Bool, decimal, true,
  false, not, ◌&&◌, ◌||◌, ltb, leb, if◌then◌else◌, ◌==◌, Equality, string_eq, pair_beq,
  pair_beq_iff, Result, ok, err, Exec, pure, ◌>>◌, length,
}
use lucent.Prelude.Dict.{Dict, get, erase, keys_where}
use lucent.Access.Errors.{
  whole, Error, access, key_error, runtime_error, no_fuel, idempotency_capacity,
}
use lucent.Access.Idempotency.Response.{Response, size_bytes}

abbrev pub max_tenant_id_bytes : ℕ
max_tenant_id_bytes = 128

abbrev pub max_idempotency_key_bytes : ℕ
max_idempotency_key_bytes = 256

abbrev pub max_fingerprint_bytes : ℕ
max_fingerprint_bytes = 256

-- `_bounded_text`, for a value that is text
unfoldable pub bounded_text : String → String → ℕ → Result String String
bounded_text value name max_bytes =
    if value == "" || ltb max_bytes (len value)
    then err (name ++ " must contain 1 to " ++ decimal max_bytes ++ " encoded bytes")
    else ok value

abbrev pub CacheKey : Type 0
CacheKey = String × String

instance abbrev pub key_eq : Equality CacheKey
key_eq = record { same = pair_beq string_eq string_eq; same_iff = pair_beq_iff string_eq string_eq }

pub data EntryState : Type 0 where
  reserved complete : EntryState

pub record Entry : Type 0 where
  pub fingerprint : String
  pub token : String
  pub state : EntryState
  pub expires_at : ℕ
  pub response : Option Response
  pub reserved_response_bytes : ℕ

pub record Reservation : Type 0 where
  pub tenant_id : String
  pub expires_at : ℕ
  pub key_digest : String
  pub fingerprint : String
  pub token : String

pub data Decision : Type 0 where
  granted : Reservation → Decision
  replay : Response → Decision

-- What the constructor fixes.
pub record Policy : Type 0 where
  pub ttl : ℕ
  pub reservation_ttl : ℕ
  pub max_entries : ℕ
  pub max_response_bytes : ℕ
  pub max_total_response_bytes : ℕ
  pub evict_completed_entries : Bool

-- The capacity that a new reservation holds.
abbrev pub held : Policy → ℕ
held p = if p.evict_completed_entries then 0 else p.max_response_bytes

pub record Store : Type 0 where
  pub policy : Policy
  pub open policy use *
  pub entries : Dict CacheKey Entry
  pub cached_bytes : ℕ
  pub reserved_bytes : ℕ

abbrev pub Action {ℓ} : Type ℓ → Type ℓ
Action A = Exec Error Store A

abbrev pub is_complete : EntryState → Bool
is_complete reserved = false
is_complete complete = true

-- the bytes that an entry's response holds in the cache
abbrev pub cached_size : Entry → ℕ
cached_size e = elim e.response [ none ↦ 0 | some r ↦ size_bytes r ]

unfoldable pub drop_response : Option Response → Action (Unit {0})
drop_response none s = (ok tt, s)
drop_response (some r) s =
    let left = record s { cached_bytes = s.cached_bytes - size_bytes r } in
    if ltb s.cached_bytes (size_bytes r)
    then (err (runtime_error "idempotency response-byte accounting underflow"), left)
    else (ok tt, left)

unfoldable pub drop_entry : CacheKey → Option Entry → Action (Unit {0})
unfolding drop_response
drop_entry key none s = (err key_error, s)
drop_entry key (some entry) s =
    let left = record s {
      entries = erase key s.entries;
      reserved_bytes = s.reserved_bytes - entry.reserved_response_bytes;
    } in
    if ltb s.reserved_bytes entry.reserved_response_bytes
    then (err (runtime_error "idempotency response reservation accounting underflow"), left)
    else drop_response entry.response left

-- `_remove`
unfoldable pub remove : CacheKey → Action (Unit {0})
unfolding drop_entry
remove key s = drop_entry key (get key s.entries) s

unfoldable pub remove_all : List CacheKey → Action (Unit {0})
remove_all [] = pure tt
remove_all (key ∷ keys) = remove key >> remove_all keys

abbrev pub is_expired : ℕ → Entry → Bool
is_expired now entry = leb entry.expires_at now

-- `_expire`
unfoldable pub expire : ℕ → Action (Unit {0})
expire now s = remove_all (keys_where (is_expired now) s.entries) s

-- `_oldest_completed_key`
unfoldable pub oldest_completed_key : Dict CacheKey Entry → Option CacheKey
oldest_completed_key [] = none
oldest_completed_key ((key, entry) ∷ rest) =
    if is_complete entry.state then some key else oldest_completed_key rest

-- the least time that an entry has left, if there is an entry
unfoldable pub least_wait : ℕ → Dict CacheKey Entry → Option ℕ
least_wait now [] = none
least_wait now ((key, entry) ∷ rest) = elim (least_wait now rest) [
  | none ↦ some (entry.expires_at - now)
  | some wait ↦ some (min (entry.expires_at - now) wait)
]

-- `_capacity_error`
unfoldable pub capacity_error : ℕ → Store → Error
unfolding least_wait
capacity_error now s = elim (least_wait now s.entries) [
  | none ↦ access (idempotency_capacity (whole s.reservation_ttl))
  | some wait ↦ access (idempotency_capacity (whole wait))
]

unfoldable pub raise_capacity : {A : Type 0} → ℕ → Action A
unfolding capacity_error
raise_capacity now s = (err (capacity_error now s), s)

unfoldable pub evict_oldest : ℕ → Option CacheKey → Action (Unit {0})
unfolding raise_capacity
evict_oldest now none = raise_capacity now
evict_oldest now (some key) = remove key

-- `_make_room`
unfoldable pub make_room : ℕ → Action (Unit {0})
unfolding raise_capacity evict_oldest oldest_completed_key
make_room now s =
    if ltb (length s.entries) s.max_entries
    then (ok tt, s)
    else if s.evict_completed_entries
    then evict_oldest now (oldest_completed_key s.entries) s
    else raise_capacity now s

-- `_make_response_room`; the fuel bounds the rounds of the loop
unfoldable pub response_room : ℕ → ℕ → ℕ → Action (Unit {0})
unfolding raise_capacity evict_oldest oldest_completed_key
response_room zero required now s = (err no_fuel, s)
response_room (suc fuel) required now s =
    let again =
      (evict_oldest now (oldest_completed_key s.entries) >> response_room fuel required now) s in
    if ltb s.max_total_response_bytes (s.cached_bytes + required)
    then (if s.evict_completed_entries then again else raise_capacity now s)
    else (ok tt, s)

unfoldable pub make_response_room : ℕ → ℕ → Action (Unit {0})
make_response_room required now s = response_room (suc (length s.entries)) required now s

-- `_owns`
unfoldable pub owns : Option Entry → Reservation → Bool
owns none reservation = false
owns (some entry) reservation =
    not (is_complete entry.state)
    && entry.token == reservation.token
    && entry.fingerprint == reservation.fingerprint

abbrev pub cache_key : Reservation → CacheKey
cache_key reservation = (reservation.tenant_id, reservation.key_digest)
