-- ===== src/Api/Once/Steps.antt =====
-- The steps of a paid request, over the claims and the settlements of one authorization.
use lucent.Prelude.{
  ℕ, ◌+◌, ◌≤◌, Text, String, Option, some, List, [], ◌∷◌, Bool, true, false, if◌then◌else◌, ◌==◌,
  Result, ok, err, ◌≡◌, inl, inr, refl, sym, ap, ◌∙◌, arith, codes, Bool-cases,
}
use lucent.Access.Idempotency.Store.{
  CacheKey, key_eq, Policy, Reservation, Decision, granted, replay, cache_key,
}
use lucent.Access.Idempotency.Methods.{commit}
use lucent.Access.Idempotency.Response.{Response, from_parts}
use lucent.Access.Idempotency.Perform.{IsPolicy}
use lucent.Payments.Errors.{PaymentError}
use lucent.Payments.Gateway.{VerifiedPayment, Receipt, Call, verify, build_requirements}
use lucent.Payments.Gateway.Examination.{IsExamined-fingerprint}
use lucent.Payments.Gateway.Laws.{verify-IsVerified}
use lucent.Payments.Gateway.Preliminary.{settlements, verify-settlements}
use lucent.Payments.Settle.{settle}
use lucent.Payments.Settle.Laws.{settle-settlements}
use lucent.Api.Problems.{Failure, of_access, of_payment, payment_failure_headers}
use lucent.Api.Service.{mapped, Service, Request, Timeline, Scope, on_gateway}
use lucent.Api.Handler.{
  Claim, hold, claim_payment, commit_claim, terminal_response, commit_terminal, after_settlement,
  settle_payment, settle_claim,
}
use lucent.Api.Triples.{
  mapped_ok, IsSafe, bind-IsSafe, pure-IsSafe, raise-IsSafe, lift-IsSafe, raise_if-IsSafe,
  modify-IsSafe, frame-IsSafe, rescue-IsSafe, on_payments-IsSafe,
}
use lucent.Api.Once.{claim_key, settlement_key, is_key, IsReady, IsOnce, times_settled, IsWithin}
use lucent.Api.Once.Keep.{
  IsOnce-settlements, IsOnce-IsOfClaims, elapse-IsOnce, elapse-IsReady, reserve-IsOnce,
  commit-IsOnce, commit-IsReady,
}

module _ (svc : Service) (p : Policy) (ip : IsPolicy p) (off : p.evict_completed_entries ≡ false)
    (k : CacheKey) (deadline : ℕ) where
  Once : Scope → Type 0
  Once = IsOnce svc p k deadline

  -- The reservation is of the key of the payment's authorization.
  abbrev pub IsLinked : Claim → Type 0
  IsLinked claim =
      settlement_key svc claim.payment.payload (build_requirements svc.payment)
      ≡ some (cache_key claim.reservation)

  commit_terminal-IsOnce :
      (t : Timeline) (res : Reservation) (v : VerifiedPayment) (e : PaymentError)
      → IsSafe
          (IsOnce svc p k deadline)
          (IsOnce svc p k deadline)
          (commit_terminal svc t res v e)
          (λ a. IsOnce svc p k deadline)
  unfolding commit_terminal
  commit_terminal-IsOnce t res v e =
      bind-IsSafe
        (lift-IsSafe (mapped of_payment (payment_failure_headers (some svc.challenge) e)) λ s h. h)
        λ headers.
          bind-IsSafe (lift-IsSafe (terminal_response svc v e headers) λ s h. h) λ terminal.
            rescue-IsSafe _ _
              (on_payments-IsSafe (IsOnce-IsOfClaims svc p ip off k deadline) (λ s h. h)
                (commit t.committing res terminal))
              (pure-IsSafe tt λ s h. h)

  after_settlement-IsOnce :
      (t : Timeline) (res : Reservation) (v : VerifiedPayment) (r : Result PaymentError Receipt)
      → IsSafe
          (IsOnce svc p k deadline)
          (IsOnce svc p k deadline)
          (after_settlement svc t res v r)
          (λ a. IsOnce svc p k deadline)
  unfolding after_settlement
  after_settlement-IsOnce t res v (ok receipt) = pure-IsSafe receipt λ s h. h
  after_settlement-IsOnce t res v (err e) =
      bind-IsSafe (commit_terminal-IsOnce t res v e) λ u. raise-IsSafe (of_payment e) λ s h. h

  -- The scope after the call of the facilitator.
  abbrev settled : VerifiedPayment → Scope → Scope
  settled v s = record s { calls = (settle svc.library svc.facilitator svc.payment v s.calls).1 }

  settle_payment-IsSafe :
      {P : Scope → Type 0} (t : Timeline) (res : Reservation) (v : VerifiedPayment)
      → ((s : Scope) → P s → IsOnce svc p k deadline (settled v s))
      → IsSafe P
          (IsOnce svc p k deadline)
          (settle_payment svc t res v)
          (λ a. IsOnce svc p k deadline)
  unfolding settle_payment
  settle_payment-IsSafe t res v into = record {
    returns = λ s h b e.
        (after_settlement-IsOnce t res v
            (settle svc.library svc.facilitator svc.payment v s.calls).0).returns
          (settled v s) (into s h) b e;
    raises = λ s h x e.
        (after_settlement-IsOnce t res v
            (settle svc.library svc.facilitator svc.payment v s.calls).0).raises
          (settled v s) (into s h) x e;
  }

  one_or_none : (b : Bool) → (if b then 1 else 0) ≤ 1
  one_or_none b = ground arith

  settled-times :
      (v : VerifiedPayment) (s : Scope)
      → times_settled svc k (settlements (settled v s).calls)
        ≡ times_settled svc k (settlements s.calls)
          + (if svc.payment.enabled
              then (if is_key (settlement_key svc v.payload (build_requirements svc.payment)) k
                  then 1
                  else 0)
              else 0)
  settled-times v s =
      ap (times_settled svc k)
        (settle-settlements svc.library svc.facilitator svc.payment v s.calls)
      ∙ elim (Bool-cases svc.payment.enabled) [
        | inl on ↦ rw on refl
        | inr disabled ↦ rw disabled (omega arith)
      ]

  settled-IsOnce :
      (v : VerifiedPayment) (s : Scope)
      → IsReady svc p k deadline s
      → IsOnce svc p k deadline (settled v s)
  settled-IsOnce v s (c, n) = inr (c, rw (settled-times v s, n) (ground arith))

  settled-other :
      (v : VerifiedPayment)
      → is_key (settlement_key svc v.payload (build_requirements svc.payment)) k ≡ false
      → (s : Scope) → IsOnce svc p k deadline s
      → IsOnce svc p k deadline (settled v s)
  settled-other v other s (inl (c, n)) = inl (c, rw (settled-times v s, other) (ground (arith, n)))
  settled-other v other s (inr (c, n)) = inr (c, rw (settled-times v s, other) (ground (arith, n)))

  verify-IsOnce :
      (t : Timeline) (signature : Text) (key : Option Text)
      → IsSafe
          (IsOnce svc p k deadline)
          (IsOnce svc p k deadline)
          (on_gateway (verify svc.library svc.facilitator svc.payment t.paying signature key))
          (λ v s.
            IsOnce svc p k deadline s
            × (settlement_key svc v.payload (build_requirements svc.payment)
                ≡ some (claim_key svc v.authorization_fingerprint)))
  verify-IsOnce t signature key = record {
    returns = λ s h v e. (after s h, linked s v (mapped_ok of_payment _ v e));
    raises = λ s h x e. after s h;
  }
    where
      verification : Scope → Result PaymentError VerifiedPayment × List Call
      verification s = verify svc.library svc.facilitator svc.payment t.paying signature key s.calls

      after :
          (s : Scope)
          → IsOnce svc p k deadline s
          → IsOnce svc p k deadline (record s { calls = (verification s).1 })
      after s h =
          IsOnce-settlements svc p ip off k deadline s (verification s).1
            (verify-settlements svc.library svc.facilitator svc.payment t.paying signature key
              s.calls)
            h

      linked :
          (s : Scope) (v : VerifiedPayment)
          → (verification s).0 ≡ ok v
          → settlement_key svc v.payload (build_requirements svc.payment)
            ≡ some (claim_key svc v.authorization_fingerprint)
      linked s v e =
          rw
            (IsExamined-fingerprint
              (verify-IsVerified svc.library svc.facilitator svc.payment t.paying signature key
                s.calls v (verification s).1 (ap (λ r. (r, (verification s).1)) e)).0.examined)
            refl

  hold-IsSafe :
      {F : Type 0} {j : CacheKey} (d : Decision)
      → IsSafe
          (λ s.
            (IsOnce svc p k deadline s
              × ((res : Reservation) → d ≡ granted res → cache_key res ≡ j))
            × F)
          (IsOnce svc p k deadline)
          (hold d)
          (λ res s. IsOnce svc p k deadline s × ((cache_key res ≡ j) × F))
  unfolding hold
  hold-IsSafe (granted res) = record {
    returns = λ s h b e. (h.0.0, (let q : b ≡ res = cc in ap cache_key q ∙ h.0.1 res refl, h.1));
    raises = λ s h x e. absurd (cc);
  }
  hold-IsSafe (replay response) = record {
    returns = λ s h b e. absurd (cc);
    raises = λ s h x e. h.0.0;
  }

  pub claim_payment-IsSafe :
      (t : Timeline) (request : Request) (signature : Text) (key : String)
      → IsWithin p deadline t
      → IsSafe
          (IsOnce svc p k deadline)
          (IsOnce svc p k deadline)
          (claim_payment svc t request signature key)
          (λ claim s. IsOnce svc p k deadline s × IsLinked claim)
  unfolding claim_payment
  claim_payment-IsSafe t request signature key within =
      bind-IsSafe (raise_if-IsSafe _ _ λ s h. h) λ u.
        bind-IsSafe (elapse-IsOnce svc p ip off k deadline t.while_verifying within.verifying) λ u'.
          bind-IsSafe (verify-IsOnce t signature (some (codes key))) λ v.
            bind-IsSafe
              (frame-IsSafe (
                reserve-IsOnce svc p ip off k deadline t.claiming t.claim_token "x402-authorization"
                  (svc.shown v.authorization_fingerprint) request.fingerprint within.claiming))
              λ d. bind-IsSafe (hold-IsSafe d) λ res.
                pure-IsSafe (record { payment = v; reservation = res })
                  λ s h. (h.0, h.1.1 ∙ ap some (sym h.1.0))

  tombstone : Result Failure Response
  tombstone =
      mapped of_access (from_parts 204 [] (("Content-Type", "application/octet-stream") ∷ []))

  commit_claim-IsReady :
      (t : Timeline) (res : Reservation)
      → IsWithin p deadline t
      → cache_key res ≡ k
      → IsSafe
          (IsOnce svc p k deadline)
          (IsOnce svc p k deadline)
          (commit_claim svc t res)
          (λ u. IsReady svc p k deadline)
  unfolding commit_claim tombstone
  commit_claim-IsReady t res within same = bind-IsSafe (lift-IsSafe tombstone λ s h. h) λ r.
      commit-IsReady svc p ip off k deadline t.claim_committing res r within.committing
        within.recent same

  commit_claim-IsOnce :
      (t : Timeline) (res : Reservation)
      → IsWithin p deadline t
      → IsSafe
          (IsOnce svc p k deadline)
          (IsOnce svc p k deadline)
          (commit_claim svc t res)
          (λ u. IsOnce svc p k deadline)
  unfolding commit_claim tombstone
  commit_claim-IsOnce t res within =
      bind-IsSafe (lift-IsSafe tombstone λ s h. h)
        λ r. commit-IsOnce svc p ip off k deadline t.claim_committing res r within.committing

  pub settle_claim-IsOnce :
      (t : Timeline) (res : Reservation) (claim : Claim)
      → IsWithin p deadline t
      → IsLinked claim
      → IsSafe
          (IsOnce svc p k deadline)
          (IsOnce svc p k deadline)
          (settle_claim svc t res claim)
          (λ u. IsOnce svc p k deadline)
  unfolding settle_claim
  settle_claim-IsOnce t res claim within linked =
      elim (Bool-cases (cache_key claim.reservation == k)) [
        | inl same ↦
            bind-IsSafe
              (commit_claim-IsReady t claim.reservation within
                ((key_eq.same_iff (cache_key claim.reservation) k).0 same))
              λ u. bind-IsSafe (modify-IsSafe (λ s. record s { attempted = true }) λ s h. h) λ u'.
                bind-IsSafe
                  (elapse-IsReady svc p ip off k deadline t.while_settling within.settling)
                  λ v. settle_payment-IsSafe t res claim.payment (settled-IsOnce claim.payment)
        | inr other ↦ bind-IsSafe (commit_claim-IsOnce t claim.reservation within) λ u.
            bind-IsSafe (modify-IsSafe (λ s. record s { attempted = true }) λ s h. h) λ u'.
              bind-IsSafe (elapse-IsOnce svc p ip off k deadline t.while_settling within.settling)
                λ v.
                  settle_payment-IsSafe t res claim.payment
                    (settled-other claim.payment (ap (λ o. is_key o k) linked ∙ other))
      ]
