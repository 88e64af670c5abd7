-- ===== src/Access/Quota/Bounds.antt =====
-- What a tenant can spend: buckets stay within their capacity, and over any history a tenant is
-- granted no more than one full bucket and the refill of the time that has passed.
use lucent.Prelude.{
  ℕ, ◌+◌, ◌-◌, ◌*◌, ◌≤◌, ◌≡◌, refl, ◌∙◌, max, String, Option, none, some, List, [], ◌∷◌, Bool, true,
  false, ltb, nat_beq, ◌||◌, if◌then◌else◌, string_eq, Result, ok, err, arith, inl, inr, Bool-cases,
  Option-cases, ◌==◌, ap,
}
use mathlib.Core.Path.{subst}
use lucent.Prelude.Dict.{get, set, get-set_self, get-set_ne}
use lucent.Access.Errors.{Error, value_error}
use lucent.Access.Quota.{
  QuotaPolicy, full, Bucket, QuotaReceipt, Limiter, refilled, charge, consume,
}

-- What a charge granted.
abbrev pub granted : ℕ → Result Error QuotaReceipt → ℕ
granted cost (ok receipt) = cost
granted cost (err why) = 0

-- Whether it was granted, as a number.
abbrev pub count : Result Error QuotaReceipt → ℕ
count (ok receipt) = 1
count (err why) = 0

-- A charge takes what it grants from the bucket, up to the tolerance.
charge-spends :
    (p : QuotaPolicy) (cost : ℕ) (b : Bucket)
    → (granted cost (charge p cost b).0 + (charge p cost b).1.tokens
        ≤ b.tokens + count (charge p cost b).0)
      × ((charge p cost b).1.last_refill ≡ b.last_refill)
      × ((charge p cost b).1.tokens ≤ b.tokens)
unfolding charge
charge-spends p cost b = ground arith

refilled-le :
    (p : QuotaPolicy) (now : ℕ) (b : Bucket)
    → ((refilled p now (some b)).tokens
        ≤ b.tokens + ((refilled p now (some b)).last_refill - b.last_refill) * p.refill)
      × (b.last_refill ≤ (refilled p now (some b)).last_refill)
      × ((refilled p now (some b)).tokens ≤ full p)
unfolding refilled
refilled-le p now b = elim (Bool-cases (ltb b.last_refill now)) [
  | inl later ↦ let e : max b.last_refill now ≡ now = ground arith in rw e (omega arith)
  | inr earlier ↦
      let e : now - b.last_refill ≡ 0 = ground arith in
      let z : (now - b.last_refill) * p.refill ≡ 0 = rw e (omega arith) in omega arith
]

pub record Request : Type 0 where
  pub time : ℕ
  pub tenant_id : String
  pub cost : ℕ

-- The state after the requests, one after the other.
unfoldable pub serve : List Request → Limiter → Limiter
serve [] l = l
serve (r ∷ rs) l = serve rs (consume r.time r.tenant_id r.cost l).1

-- What the tenant is granted in all, in picotokens.
unfoldable pub spent : String → List Request → Limiter → ℕ
spent tenant_id [] l = 0
spent tenant_id (r ∷ rs) l =
    let (receipt, l') = consume r.time r.tenant_id r.cost l in
    (if tenant_id == r.tenant_id then granted r.cost receipt else 0) + spent tenant_id rs l'

-- How many of the tenant's requests are granted.
unfoldable pub grants : String → List Request → Limiter → ℕ
grants tenant_id [] l = 0
grants tenant_id (r ∷ rs) l =
    let (receipt, l') = consume r.time r.tenant_id r.cost l in
    (if tenant_id == r.tenant_id then count receipt else 0) + grants tenant_id rs l'

abbrev pub AreWithin : ℕ → ℕ → List Request → Type 0
AreWithin from to [] = Unit
AreWithin from to (r ∷ rs) = (from ≤ r.time) × (r.time ≤ to) × AreWithin from to rs

-- What a tenant can still be granted until the time `to`.
abbrev pub level : QuotaPolicy → ℕ → ℕ → Option Bucket → ℕ
level p from to none = full p + (to - from) * p.refill
level p from to (some b) = b.tokens + (to - b.last_refill) * p.refill

abbrev pub IsTimely : ℕ → Option Bucket → Type 0
IsTimely to none = Unit
IsTimely to (some b) = b.last_refill ≤ to

split_time : (a b c r : ℕ) → a ≤ b → b ≤ c → (b - a) * r + (c - b) * r ≡ (c - a) * r
split_time a b c r h k = let e : c - a ≡ (b - a) + (c - b) = omega arith in rw e (omega arith)

refilled-level :
    (p : QuotaPolicy) (from now to : ℕ) (o : Option Bucket)
    → from ≤ now
    → now ≤ to
    → IsTimely to o
    → (level p from to (some (refilled p now o)) ≤ level p from to o)
      × ((refilled p now o).last_refill ≤ to)
refilled-level p from now to none h k t =
    unfold refilled in (omega (arith, split_time from now to p.refill h k), k)
refilled-level p from now to (some b) h k t =
    let timely : (refilled p now (some b)).last_refill ≤ to = unfold refilled in (ground arith) in
    let (tokens, later, _) = refilled-le p now b in
    (
      omega (
        arith,
        split_time b.last_refill (refilled p now (some b)).last_refill to p.refill later timely,
      ),
      timely,
    )

charge-level :
    (p : QuotaPolicy) (from to cost : ℕ) (b : Bucket)
    → granted cost (charge p cost b).0 + level p from to (some (charge p cost b).1)
      ≤ level p from to (some b) + count (charge p cost b).0
charge-level p from to cost b =
    let (spends, same, _) = charge-spends p cost b in rw same (omega arith)

-- The source refuses the cost before it looks at the bucket.
abbrev pub is_bad_cost : QuotaPolicy → ℕ → Bool
is_bad_cost p cost = nat_beq cost 0 || ltb (full p) cost

module _ (p : QuotaPolicy) (now cost : ℕ) (t : String) (l : Limiter)
    (has : get t l.policies ≡ some p) where
  consume-refused :
      is_bad_cost p cost ≡ true → (why : Error) × (consume now t cost l ≡ (err why, l))
  unfolding consume
  consume-refused bad = elim (Bool-cases (nat_beq cost 0)) [
    | inl zero_cost ↦ (value_error "cost must be positive and finite", rw has (ground arith))
    | inr positive ↦
        (value_error "cost may not exceed tenant quota capacity", rw has (ground arith))
  ]

  pub consume-charged :
      is_bad_cost p cost ≡ false
      → consume now t cost l ≡ (
        (charge p cost (refilled p now (get t l.buckets))).0,
        record l { buckets = set t (charge p cost (refilled p now (get t l.buckets))).1 l.buckets },
      )
  unfolding consume
  consume-charged good = rw has (ground arith)

-- One request of the tenant: what it is granted is taken from the level.
consume-level :
    (p : QuotaPolicy) (from now to cost : ℕ) (t : String) (l : Limiter)
    → get t l.policies ≡ some p
    → from ≤ now
    → now ≤ to
    → IsTimely to (get t l.buckets)
    → (granted cost (consume now t cost l).0
          + level p from to (get t (consume now t cost l).1.buckets)
        ≤ level p from to (get t l.buckets) + count (consume now t cost l).0)
      × IsTimely to (get t (consume now t cost l).1.buckets)
consume-level p from now to cost t l has h k timely = elim (Bool-cases (is_bad_cost p cost)) [
  | inl bad ↦
      let (why, same) = consume-refused p now cost t l has bad in rw same (omega arith, timely)
  | inr good ↦
      let b = refilled p now (get t l.buckets) in
      let (lower, on_time) = refilled-level p from now to (get t l.buckets) h k timely in
      let spends = charge-level p from to cost b in
      rw (consume-charged p now cost t l has good, get-set_self t (charge p cost b).1 l.buckets)
        (omega arith, rw ((charge-spends p cost b).1) on_time)
]

-- A request of one tenant leaves the buckets of the others alone, and no request changes a policy.
pub consume-others :
    (now cost : ℕ) (t j : String) (l : Limiter)
    → (get j (consume now t cost l).1.policies ≡ get j l.policies)
      × ((j == t) ≡ false → get j (consume now t cost l).1.buckets ≡ get j l.buckets)
unfolding consume
consume-others now cost t j l = elim (Option-cases (get t l.policies)) [
  | inl nothing ↦ rw nothing (refl, λ _. refl)
  | inr (p, has) ↦ rw has (
    ground arith,
    λ other. ground (
      arith,
      get-set_ne j t (charge p cost (refilled p now (get t l.buckets))).1 l.buckets other,
    ),
  )
]

-- A request of `u`, whether or not `u` is the tenant `t`.
request-level :
    (p : QuotaPolicy) (from now to cost : ℕ) (t u : String) (l : Limiter)
    → get t l.policies ≡ some p
    → from ≤ now
    → now ≤ to
    → IsTimely to (get t l.buckets)
    → ((if t == u then granted cost (consume now u cost l).0 else 0)
          + level p from to (get t (consume now u cost l).1.buckets)
        ≤ level p from to (get t l.buckets)
          + (if t == u then count (consume now u cost l).0 else 0))
      × IsTimely to (get t (consume now u cost l).1.buckets)
request-level p from now to cost t u l has h k timely = elim (Bool-cases (t == u)) [
  | inl mine ↦ rw mine (
      subst
        (λ j.
          (granted cost (consume now j cost l).0
              + level p from to (get t (consume now j cost l).1.buckets)
            ≤ level p from to (get t l.buckets) + count (consume now j cost l).0)
          × IsTimely to (get t (consume now j cost l).1.buckets))
        ((string_eq.same_iff t u).0 mine) (consume-level p from now to cost t l has h k timely))
  | inr other ↦ rw (other, (consume-others now cost u t l).1 other) (omega arith, timely)
]

spent-level :
    (p : QuotaPolicy) (from to : ℕ) (t : String) (rs : List Request) (l : Limiter)
    → get t l.policies ≡ some p
    → AreWithin from to rs
    → IsTimely to (get t l.buckets)
    → spent t rs l ≤ level p from to (get t l.buckets) + grants t rs l
unfolding spent grants
spent-level p from to t [] l has within timely = omega arith
spent-level p from to t (r ∷ rs) l has within timely =
    let (step, timely') =
      request-level p from r.time to r.cost t r.tenant_id l has within.0 within.1 timely in
    let l' = (consume r.time r.tenant_id r.cost l).1 in
    let has' : get t l'.policies ≡ some p =
      (consume-others r.time r.cost r.tenant_id t l).0 ∙ has in
    let rest = spent-level p from to t rs l' has' within.2 timely' in omega arith

-- Over any requests of any tenants, at readings of the clock between `from` and `to` in any order,
-- a tenant that has no bucket yet is granted at most its full bucket, the refill of the time between
-- `from` and `to`, and one picotoken for each granted request.
pub spent-le :
    (p : QuotaPolicy) (from to : ℕ) (t : String) (rs : List Request) (l : Limiter)
    → get t l.policies ≡ some p
    → get t l.buckets ≡ none
    → AreWithin from to rs
    → spent t rs l ≤ full p + (to - from) * p.refill + grants t rs l
spent-le p from to t rs l has fresh within =
    let bound = spent-level p from to t rs l has within (rw fresh tt) in
    let start : level p from to (get t l.buckets) ≡ full p + (to - from) * p.refill =
      ap (level p from to) fresh in
    omega arith
