-- ===== src/Access/Idempotency/Methods.antt =====
-- lucent/access.py, `IdempotencyStore`: the public methods.
-- Each takes the reading of the clock; `reserve` takes the SHA-256 digest of the standard library
-- and the fresh token of `secrets.token_urlsafe`.
use lucent.Prelude.{
  ℕ, ◌+◌, ◌-◌, String, Option, none, some, Bool, true, false, not, ◌&&◌, ltb, if◌then◌else◌, ◌==◌,
  string_eq, ok, err, pure, raise, gets, ◌>>=◌, ◌>>◌, length,
}
use lucent.Prelude.Dict.{get, set, move_to_end}
use lucent.Access.Errors.{
  whole, Error, access, idempotency_conflict, idempotency_in_progress, invalid_idempotency_input,
  invalid_reservation, idempotency_response_too_large,
}
use lucent.Access.Idempotency.Response.{Response, size_bytes}
use lucent.Access.Idempotency.Store.{
  max_tenant_id_bytes, max_idempotency_key_bytes, max_fingerprint_bytes, bounded_text, CacheKey,
  key_eq, reserved, complete, Entry, Reservation, Policy, held, Decision, granted, replay, Action,
  is_complete, remove, expire, capacity_error, make_room, make_response_room, owns, cache_key,
}

unfoldable pub invalid_input : String → Error
invalid_input why = access (invalid_idempotency_input why)

-- a `_bounded_text` failure becomes an `InvalidIdempotencyInputError`
unfoldable pub checked_text : String → String → ℕ → Action String
unfolding bounded_text invalid_input
checked_text value name max_bytes s = elim (bounded_text value name max_bytes) [
  | ok checked ↦ (ok checked, s)
  | err why ↦ (err (invalid_input why), s)
]

-- the branch of `reserve` for a key that is there
unfoldable pub reuse : ℕ → CacheKey → String → Entry → Action Decision
reuse now key fingerprint existing s =
    if not (existing.fingerprint == fingerprint)
    then (err (access idempotency_conflict), s)
    else if not (is_complete existing.state)
    then (err (access (idempotency_in_progress (whole (existing.expires_at - now)))), s)
    else elim existing.response [
      | none ↦ (err (access invalid_reservation), s)
      | some response ↦
          (ok (replay response), record s { entries = move_to_end key existing s.entries })
    ]

abbrev pub new_entry : ℕ → String → String → Policy → Entry
new_entry now fingerprint token p = record {
  fingerprint = fingerprint;
  token = token;
  state = reserved;
  expires_at = now + p.reservation_ttl;
  response = none;
  reserved_response_bytes = held p;
}

abbrev pub new_reservation : ℕ → CacheKey → String → String → Policy → Reservation
new_reservation now key fingerprint token p = record {
  tenant_id = key.0;
  expires_at = now + p.reservation_ttl;
  key_digest = key.1;
  fingerprint = fingerprint;
  token = token;
}

-- the branch of `reserve` for new work, once there is room for an entry
unfoldable pub admit : ℕ → String → CacheKey → String → Action Decision
admit now token key fingerprint s =
    if not s.evict_completed_entries
      && ltb s.max_total_response_bytes (s.cached_bytes + s.reserved_bytes + held s.policy)
    then (err (capacity_error now s), s)
    else (
      ok (granted (new_reservation now key fingerprint token s.policy)),
      record s {
        entries = set key (new_entry now fingerprint token s.policy) s.entries;
        reserved_bytes = s.reserved_bytes + held s.policy;
      },
    )

unfoldable pub reserve_at : ℕ → String → CacheKey → String → Action Decision
unfolding reuse admit
reserve_at now token key fingerprint = do
  expire now
  found ← gets (λ s. get key s.entries)
  elim found [
    | some existing ↦ reuse now key fingerprint existing
    | none ↦ make_room now >> admit now token key fingerprint
  ]

unfoldable pub reserve : (String → String) → ℕ → String → String → String → String → Action Decision
unfolding checked_text reserve_at
reserve sha256 now token tenant_id key fingerprint = do
  tenant ← checked_text tenant_id "tenant_id" max_tenant_id_bytes
  checked_key ← checked_text key "idempotency key" max_idempotency_key_bytes
  checked_fingerprint ← checked_text fingerprint "request fingerprint" max_fingerprint_bytes
  reserve_at now token (tenant, sha256 checked_key) checked_fingerprint

-- `commit` of an entry that the reservation owns, up to the publication: the room for the response
unfoldable pub settle_room : ℕ → Entry → Response → Action (Unit {0})
settle_room now entry response s =
    if s.evict_completed_entries
    then make_response_room (size_bytes response) now s
    else if ltb s.max_total_response_bytes
        (s.cached_bytes + s.reserved_bytes - entry.reserved_response_bytes + size_bytes response)
    then (err (capacity_error now s), s)
    else (ok tt, record s { reserved_bytes = s.reserved_bytes - entry.reserved_response_bytes })

abbrev pub finished : ℕ → Entry → Response → Policy → Entry
finished now entry response p = record entry {
  state = complete;
  response = some response;
  expires_at = now + p.ttl;
  reserved_response_bytes = if p.evict_completed_entries then entry.reserved_response_bytes else 0;
}

unfoldable pub publish : ℕ → CacheKey → Entry → Response → Action (Unit {0})
publish now key entry response s = (
  ok tt,
  record s {
    entries =
        move_to_end key (finished now entry response s.policy)
          (set key (finished now entry response s.policy) s.entries);
    cached_bytes = s.cached_bytes + size_bytes response;
  },
)

unfoldable pub commit_owned : ℕ → Reservation → Option Entry → Response → Action (Unit {0})
unfolding settle_room publish
commit_owned now reservation none response = raise (access invalid_reservation)
commit_owned now reservation (some entry) response =
    if owns (some entry) reservation
    then settle_room now entry response >> publish now (cache_key reservation) entry response
    else raise (access invalid_reservation)

unfoldable pub commit : ℕ → Reservation → Response → Action (Unit {0})
unfolding commit_owned
commit now reservation response s =
    if ltb s.max_response_bytes (size_bytes response)
    then (err (access (idempotency_response_too_large s.max_response_bytes)), s)
    else (do
      expire now
      found ← gets (λ t. get (cache_key reservation) t.entries)
      commit_owned now reservation found response)
        s

unfoldable pub abort : ℕ → Reservation → Action Bool
abort now reservation = do
  expire now
  found ← gets (λ s. get (cache_key reservation) s.entries)
  if owns found reservation then remove (cache_key reservation) >> pure true else pure false

-- `__len__`
unfoldable pub len_entries : ℕ → Action ℕ
len_entries now = do expire now; gets (λ s. length s.entries)

unfoldable pub cached_response_bytes : ℕ → Action ℕ
cached_response_bytes now = do expire now; gets (λ s. s.cached_bytes)
