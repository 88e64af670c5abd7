-- ===== src/Access/Quota.antt =====
-- lucent/access.py, `QuotaPolicy` and `TokenBucketLimiter`: token buckets for each tenant.
-- An amount of tokens is a whole number of picotokens, the source's tolerance 1e-12, and a refill
-- rate is the picotokens for each nanosecond, which is a thousandth of a token for each second.
-- The rounding of the source's floats is not modelled.
pub mod Bounds
pub mod Retry
use lucent.Prelude.{
  ℕ, ◌+◌, ◌-◌, ◌*◌, ◌/◌, min, max, String, Option, none, some, Bool, ltb, nat_beq, if◌then◌else◌,
  string_eq, Result, ok, err, Exec, length,
}
use lucent.Prelude.Dict.{Dict, get, set}
use lucent.Access.Errors.{Duration, Error, access, quota_exceeded, value_error}

abbrev pub token_unit : ℕ
token_unit = 1_000_000_000_000

abbrev pub max_quota_capacity : ℕ
max_quota_capacity = 1_000_000

-- 100 000 tokens for each second
abbrev pub max_quota_refill : ℕ
max_quota_refill = 100_000_000

pub record QuotaPolicy : Type 0 where
  pub capacity : ℕ
  pub refill : ℕ

-- `QuotaPolicy.__post_init__`
unfoldable pub make_policy : ℕ → ℕ → Result Error QuotaPolicy
make_policy capacity refill =
    if nat_beq capacity 0
    then err (value_error "capacity must be positive")
    else if ltb max_quota_capacity capacity
    then err (value_error "capacity may not exceed 1000000")
    else if nat_beq refill 0
    then err (value_error "refill_tokens_per_second must be positive and finite")
    else if ltb max_quota_refill refill
    then err (value_error "refill_tokens_per_second may not exceed 100000")
    else ok (record { capacity = capacity; refill = refill })

-- the capacity, in picotokens
abbrev pub full : QuotaPolicy → ℕ
full p = p.capacity * token_unit

pub record Bucket : Type 0 where
  pub tokens : ℕ
  pub last_refill : ℕ

pub record QuotaReceipt : Type 0 where
  pub limit : ℕ
  pub remaining : ℕ
  pub reset_after : Duration

pub record Limiter : Type 0 where
  pub policies : Dict String QuotaPolicy
  pub buckets : Dict String Bucket

-- The bucket at the reading `now` of the clock: a new one is full, an old one is refilled.
unfoldable pub refilled : QuotaPolicy → ℕ → Option Bucket → Bucket
refilled p now none = record { tokens = full p; last_refill = now }
refilled p now (some b) = record {
  tokens = min (full p) (b.tokens + (now - b.last_refill) * p.refill);
  last_refill = max b.last_refill now;
}

-- The bucket after the charge: a tolerance of one picotoken, and no debt.
unfoldable pub charge : QuotaPolicy → ℕ → Bucket → Result Error QuotaReceipt × Bucket
charge p cost b =
    if ltb (b.tokens + 1) cost
    then (
      err (
          access (
            quota_exceeded p.capacity (b.tokens / token_unit)
              (record { ticks = cost - b.tokens; over = p.refill }))),
      b,
    )
    else (let left = b.tokens - cost in
        (
          ok (record {
            limit = p.capacity;
            remaining = (left + 1) / token_unit;
            reset_after = record { ticks = full p - left; over = p.refill };
          }),
          record b { tokens = left },
        ))

unfoldable pub consume_with : ℕ → String → ℕ → Option QuotaPolicy → Exec Error Limiter QuotaReceipt
consume_with now tenant_id cost none l =
    (err (value_error "tenant has no configured quota policy"), l)
consume_with now tenant_id cost (some p) l =
    if nat_beq cost 0
    then (err (value_error "cost must be positive and finite"), l)
    else if ltb (full p) cost
    then (err (value_error "cost may not exceed tenant quota capacity"), l)
    else (let (receipt, b) = charge p cost (refilled p now (get tenant_id l.buckets)) in
        (receipt, record l { buckets = set tenant_id b l.buckets }))

-- `TokenBucketLimiter.consume`
unfoldable pub consume : ℕ → String → ℕ → Exec Error Limiter QuotaReceipt
unfolding consume_with
consume now tenant_id cost l = consume_with now tenant_id cost (get tenant_id l.policies) l
