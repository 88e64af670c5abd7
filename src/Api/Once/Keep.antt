-- ===== src/Api/Once/Keep.antt =====
-- The steps of the handler that keep the claims of an authorization, and so its single settlement.
use lucent.Prelude.{
  ℕ, ◌+◌, ◌<◌, ◌≤◌, String, List, [], ◌∷◌, false, ok, ◌≡◌, inl, inr, refl, sym, ap, ◌∙◌,
}
use mathlib.Core.Path.{subst}
use lucent.Access.Idempotency.Store.{CacheKey, key_eq, Policy, Reservation, granted, cache_key}
use lucent.Access.Idempotency.Response.{Response}
use lucent.Access.Idempotency.Methods.{reserve, commit, abort}
use lucent.Access.Idempotency.Change.{reserving, committing, aborting, perform}
use lucent.Access.Idempotency.Perform.{IsPolicy}
use lucent.Access.Idempotency.History.{Event, at, run, AreBefore}
use lucent.Access.Idempotency.Claims.{
  IsSound, IsClaimed, IsClaimed-IsSound, run-IsSound, run-IsClaimed, reserve-cache_key,
  commit-IsClaimed, IsClaimed-commit,
}
use lucent.Payments.Gateway.{Call as Facilitated}
use lucent.Payments.Gateway.Preliminary.{settlements}
use lucent.Api.Problems.{of_access}
use lucent.Api.Service.{Service, Others, Scope, on_claims, elapse}
use lucent.Api.Triples.{mapped_ok, IsSafe, IsOfClaims}
use lucent.Api.Once.{IsReady, IsOnce, times_settled}

module _ (svc : Service) (p : Policy) (ip : IsPolicy p) (off : p.evict_completed_entries ≡ false)
    (k : CacheKey) (deadline : ℕ) where
  pub IsReady-IsOfClaims : IsOfClaims (IsReady svc p k deadline)
  IsReady-IsOfClaims s t claims calls (c, n) = (
    subst (IsClaimed p k deadline) (sym claims) c,
    ap (λ x. times_settled svc k (settlements x)) calls ∙ n,
  )

  pub IsOnce-IsOfClaims : IsOfClaims (IsOnce svc p k deadline)
  IsOnce-IsOfClaims s t claims calls (inl (c, n)) =
      inl
        (subst (IsSound p) (sym claims) c, ap (λ x. times_settled svc k (settlements x)) calls ∙ n)
  IsOnce-IsOfClaims s t claims calls (inr (c, n)) = inr (
    subst (IsClaimed p k deadline) (sym claims) c,
    subst (λ x. times_settled svc k (settlements x) ≤ 1) (sym calls) n,
  )

  pub IsOnce-settlements :
      (s : Scope) (calls : List Facilitated)
      → settlements calls ≡ settlements s.calls
      → IsOnce svc p k deadline s
      → IsOnce svc p k deadline (record s { calls = calls })
  IsOnce-settlements s calls same (inl (c, n)) = inl (c, ap (times_settled svc k) same ∙ n)
  IsOnce-settlements s calls same (inr (c, n)) =
      inr (c, subst (λ x. times_settled svc k x ≤ 1) (sym same) n)

  pub IsReady-IsOnce : (s : Scope) → IsReady svc p k deadline s → IsOnce svc p k deadline s
  IsReady-IsOnce s (c, n) = inl (IsClaimed-IsSound c, n)

  pub IsOnce-IsSound : (s : Scope) → IsOnce svc p k deadline s → IsSound p s.payment_claims
  IsOnce-IsSound s (inl (c, n)) = c
  IsOnce-IsSound s (inr (c, n)) = IsClaimed-IsSound c

  -- Other calls on the claims, before the deadline.
  IsOnce-run :
      (events : List Event)
      → AreBefore deadline events
      → (s t : Scope) → t.payment_claims ≡ run svc.key_digest events s.payment_claims
      → t.calls ≡ s.calls
      → IsOnce svc p k deadline s
      → IsOnce svc p k deadline t
  IsOnce-run events before s t claims calls (inl (c, n)) = inl (
    subst (IsSound p) (sym claims) (run-IsSound svc.key_digest p ip events c),
    ap (λ x. times_settled svc k (settlements x)) calls ∙ n,
  )
  IsOnce-run events before s t claims calls (inr (c, n)) = inr (
    subst (IsClaimed p k deadline) (sym claims)
        (run-IsClaimed svc.key_digest p ip off events before c),
    subst (λ x. times_settled svc k (settlements x) ≤ 1) (sym calls) n,
  )

  pub elapse-IsOnce :
      (o : Others)
      → AreBefore deadline o.claims
      → IsSafe
          (IsOnce svc p k deadline)
          (IsOnce svc p k deadline)
          (elapse svc.key_digest o)
          (λ a. IsOnce svc p k deadline)
  elapse-IsOnce o before = record {
    returns = λ s h b e. IsOnce-run o.claims before s (elapse svc.key_digest o s).1 refl refl h;
    raises = λ s h x e. absurd (cc);
  }

  pub elapse-IsReady :
      (o : Others)
      → AreBefore deadline o.claims
      → IsSafe
          (IsReady svc p k deadline)
          (IsOnce svc p k deadline)
          (elapse svc.key_digest o)
          (λ a. IsReady svc p k deadline)
  elapse-IsReady o before = record {
    returns = λ s h b e. (run-IsClaimed svc.key_digest p ip off o.claims before h.0, h.1);
    raises = λ s h x e. absurd (cc);
  }

  -- A call of the store of claims, before the deadline.
  reserve_after :
      (now : ℕ) (token tenant_id key fingerprint : String)
      → now < deadline
      → (s : Scope) → IsOnce svc p k deadline s
      → IsOnce svc p k deadline
          (on_claims (reserve svc.key_digest now token tenant_id key fingerprint) s).1
  unfolding perform run
  reserve_after now token tenant_id key fingerprint early s h =
      IsOnce-run (at now (reserving token tenant_id key fingerprint) ∷ []) (early, tt) s
        (on_claims (reserve svc.key_digest now token tenant_id key fingerprint) s).1 refl refl h

  abort_after :
      (now : ℕ) (res : Reservation)
      → now < deadline
      → (s : Scope) → IsOnce svc p k deadline s
      → IsOnce svc p k deadline (on_claims (abort now res) s).1
  unfolding perform run
  abort_after now res early s h =
      IsOnce-run (at now (aborting res) ∷ []) (early, tt) s (on_claims (abort now res) s).1 refl
        refl h

  pub commit_after :
      (now : ℕ) (res : Reservation) (r : Response)
      → now < deadline
      → (s : Scope) → IsOnce svc p k deadline s
      → IsOnce svc p k deadline (on_claims (commit now res r) s).1
  unfolding perform run
  commit_after now res r early s h =
      IsOnce-run (at now (committing res r) ∷ []) (early, tt) s (on_claims (commit now res r) s).1
        refl refl h

  pub reserve-IsOnce :
      (now : ℕ) (token tenant_id key fingerprint : String)
      → now < deadline
      → IsSafe
          (IsOnce svc p k deadline)
          (IsOnce svc p k deadline)
          (on_claims (reserve svc.key_digest now token tenant_id key fingerprint))
          (λ d s.
            IsOnce svc p k deadline s
            × ((res : Reservation)
                → d ≡ granted res
                → cache_key res ≡ (tenant_id, svc.key_digest key)))
  reserve-IsOnce now token tenant_id key fingerprint early = record {
    returns = λ s h d e. (
      reserve_after now token tenant_id key fingerprint early s h,
      λ res g.
          reserve-cache_key svc.key_digest p ip now token tenant_id key fingerprint res
            (IsOnce-IsSound s h) (mapped_ok of_access _ d e ∙ ap (λ x. ok x) g),
    );
    raises = λ s h x e. reserve_after now token tenant_id key fingerprint early s h;
  }

  pub abort-IsOnce :
      (now : ℕ) (res : Reservation)
      → now < deadline
      → IsSafe
          (IsOnce svc p k deadline)
          (IsOnce svc p k deadline)
          (on_claims (abort now res))
          (λ d. IsOnce svc p k deadline)
  abort-IsOnce now res early = record {
    returns = λ s h b e. abort_after now res early s h;
    raises = λ s h x e. abort_after now res early s h;
  }

  pub commit-IsOnce :
      (now : ℕ) (res : Reservation) (r : Response)
      → now < deadline
      → IsSafe
          (IsOnce svc p k deadline)
          (IsOnce svc p k deadline)
          (on_claims (commit now res r))
          (λ d. IsOnce svc p k deadline)
  commit-IsOnce now res r early = record {
    returns = λ s h b e. commit_after now res r early s h;
    raises = λ s h x e. commit_after now res r early s h;
  }

  -- A commit of the claim on this very authorization: if it succeeds, it is the first one.
  pub commit-IsReady :
      (now : ℕ) (res : Reservation) (r : Response)
      → now < deadline
      → deadline ≤ now + p.ttl
      → cache_key res ≡ k
      → IsSafe
          (IsOnce svc p k deadline)
          (IsOnce svc p k deadline)
          (on_claims (commit now res r))
          (λ d. IsReady svc p k deadline)
  commit-IsReady now res r early recent same = record {
    returns = λ s h b e. ready s h (mapped_ok of_access _ b e);
    raises = λ s h x e. commit_after now res r early s h;
  }
    where
      ready :
          (s : Scope) {u : Unit {0}}
          → IsOnce svc p k deadline s
          → (commit now res r s.payment_claims).0 ≡ ok u
          → IsReady svc p k deadline (on_claims (commit now res r) s).1
      ready s (inl (c, n)) done = (
        subst (λ j. IsClaimed p j deadline (commit now res r s.payment_claims).1) same
            (commit-IsClaimed svc.key_digest p ip now deadline res r c recent done),
        n,
      )
      ready s (inr (c, n)) done = absurd (
          IsClaimed-commit svc.key_digest p ip now res r
            (subst (λ j. IsClaimed p j deadline s.payment_claims) (sym same) c) early done)
