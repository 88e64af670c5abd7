-- ===== src/Access/Quota/Retry.antt =====
-- The waiting time that a refusal names is enough.
use lucent.Prelude.{
  ℕ, ◌+◌, ◌-◌, ◌*◌, ◌<◌, ◌≤◌, ◌≡◌, ◌∙◌, sym, String, Option, some, false, string_eq, Result, err,
  arith, ap,
}
use mathlib.Core.Path.{subst}
use lucent.Prelude.Dict.{get, get-set_self}
use lucent.Access.Errors.{Error, Duration, access, quota_exceeded}
use lucent.Access.Quota.{
  QuotaPolicy, full, Bucket, QuotaReceipt, Limiter, refilled, charge, consume,
}
use lucent.Access.Quota.Bounds.{is_bad_cost, consume-charged, consume-others, granted}

-- The bucket is refused the cost and the duration is what the refusal names.
charge-refused :
    (p : QuotaPolicy) (cost limit remaining : ℕ) (d : Duration) (b : Bucket)
    → (charge p cost b).0 ≡ err (access (quota_exceeded limit remaining d))
    → ((charge p cost b).1 ≡ b)
      × (d ≡ record { ticks = cost - b.tokens; over = p.refill })
      × (b.tokens + 1 < cost)
unfolding charge
charge-refused p cost limit remaining d b h = ground arith

charge-granted :
    (p : QuotaPolicy) (cost : ℕ) (b : Bucket)
    → cost ≤ b.tokens
    → granted cost (charge p cost b).0 ≡ cost
unfolding charge
charge-granted p cost b h = ground arith

refilled-enough :
    (p : QuotaPolicy) (cost now : ℕ) (b : Bucket)
    → cost ≤ full p
    → cost - b.tokens ≤ (now - b.last_refill) * p.refill
    → cost ≤ (refilled p now (some b)).tokens
unfolding refilled
refilled-enough p cost now b h k = omega arith

waited_tokens :
    (p : QuotaPolicy) (cost : ℕ) (d : Duration) (first b : Bucket) (elapsed : ℕ)
    → d ≡ record { ticks = cost - first.tokens; over = p.refill }
    → b ≡ first
    → d.ticks ≤ elapsed * d.over
    → cost - b.tokens ≤ elapsed * p.refill
waited_tokens p cost d first b elapsed named same waited =
    rw same (subst (λ (x : Duration). x.ticks ≤ elapsed * x.over) named waited)

-- When a tenant is refused for want of tokens, and its next request, for the same cost, comes once
-- the named duration has passed since the bucket's clock, that request is granted.
pub consume-retry :
    (p : QuotaPolicy) (now later cost limit remaining : ℕ) (d : Duration) (t : String) (l : Limiter)
    (b : Bucket)
    → get t l.policies ≡ some p
    → is_bad_cost p cost ≡ false
    → (consume now t cost l).0 ≡ err (access (quota_exceeded limit remaining d))
    → get t (consume now t cost l).1.buckets ≡ some b
    → d.ticks ≤ (later - b.last_refill) * d.over
    → granted cost (consume later t cost (consume now t cost l).1).0 ≡ cost
consume-retry p now later cost limit remaining d t l b has good refused after waited =
    let first = refilled p now (get t l.buckets) in
    let c = consume-charged p now cost t l has good in
    let l' : Limiter = (consume now t cost l).1 in
    let (same, named, short) =
      charge-refused p cost limit remaining d first
        (sym (ap (λ (o : Result Error QuotaReceipt × Limiter). o.0) c) ∙ refused) in
    let stored : get t l'.buckets ≡ some first =
      ap (λ (o : Result Error QuotaReceipt × Limiter). get t o.1.buckets) c
      ∙ get-set_self t (charge p cost first).1 l.buckets
      ∙ ap some same in
    let known : some b ≡ some first = sym after ∙ stored in
    let is_first : b ≡ first = cc in
    let has' : get t l'.policies ≡ some p = (consume-others now cost t t l).0 ∙ has in
    let enough : cost ≤ (refilled p later (some b)).tokens =
      refilled-enough p cost later b (ground arith)
        (waited_tokens p cost d first b (later - b.last_refill) named is_first waited) in
    ap (λ (o : Result Error QuotaReceipt × Limiter). granted cost o.0)
      (consume-charged p later cost t l' has' good)
    ∙ ap (λ (o : Option Bucket). granted cost (charge p cost (refilled p later o)).0) after
    ∙ charge-granted p cost (refilled p later (some b)) enough
