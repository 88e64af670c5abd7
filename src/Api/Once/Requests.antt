-- ===== src/Api/Once/Requests.antt =====
-- A payment authorization is settled once.
use lucent.Prelude.{
  string_eq, ℕ, ◌≤◌, Option, none, List, [], ◌∷◌, Bool, true, false, if◌then◌else◌, Result, ok, err,
  pure, ◌>>◌, ◌≡◌, inl, inr, arith,
}
use lucent.Prelude.Dict.{set}
use lucent.Access.Idempotency.Store.{CacheKey, key_eq, Policy, Reservation}
use lucent.Access.Idempotency.Methods.{commit}
use lucent.Access.Idempotency.Response.{Response, from_parts}
use lucent.Access.Idempotency.Perform.{IsPolicy}
use lucent.Access.Idempotency.Claims.{IsSound}
use lucent.Payments.Gateway.{Facilitator}
use lucent.Payments.Gateway.Preliminary.{settlements}
use lucent.Api.Problems.{Failure, of_access, Headers}
use lucent.Api.Service.{
  mapped, Service, AccessMode, disabled, open_access, api_key_access, x402, api_key_or_x402,
  Request, Timeline, Scope,
}
use lucent.Api.Admission.{Answer, Ticket, unkeyed, keyed, paid, Admission, answered, admitted}
use lucent.Api.Handler.{
  Claim, abort_ticket, abort_claim, commit_ticket, cached_headers, answer, attempt, roll_back,
  not_configured, on_failure, proceed, serve, transaction_preflight,
}
use lucent.Api.Triples.{
  bind-IsSafe, pure-IsSafe, raise-IsSafe, lift-IsSafe, modify-IsSafe, gets-IsSafe, assume-IsSafe,
  rescue-IsSafe, on_payments-IsSafe, on_controller-IsSafe, IsSafe-scope,
}
use lucent.Api.Once.{IsOnce, times_settled, IsWithin, AreWithin, serve_all}
use lucent.Api.Once.Keep.{IsOnce-IsOfClaims}
use lucent.Api.Once.Branches.{
  Keeps, admit_mode-IsOnce, claim_ticket-IsSafe, assess-IsOnce, settle_ticket-IsOnce,
  abort_ticket-IsOnce, abort_claim-IsOnce,
}

module _ (svc : Service) (p : Policy) (ip : IsPolicy p) (off : p.evict_completed_entries ≡ false)
    (k : CacheKey) (deadline : ℕ) where
  commit_ticket-IsOnce :
      (t : Timeline) (ticket : Ticket) (r : Response)
      → Keeps svc p ip off k deadline (commit_ticket svc t ticket r)
  unfolding commit_ticket
  commit_ticket-IsOnce t unkeyed r = pure-IsSafe tt λ s h. h
  commit_ticket-IsOnce t (keyed res) r =
      on_controller-IsSafe (IsOnce-IsOfClaims svc p ip off k deadline) (λ s h. h)
        (λ c.
          let (x, store) = commit t.committing res r c.idempotency in
          (x, record c { idempotency = store }))
  commit_ticket-IsOnce t (paid res signature key) r =
      on_payments-IsSafe (IsOnce-IsOfClaims svc p ip off k deadline) (λ s h. h)
        (commit t.committing res r)

  unless_attempted :
      (t : Timeline) (ticket : Ticket) (attempted : Bool)
      → Keeps svc p ip off k deadline (if attempted then pure tt else abort_ticket svc t ticket)
  unless_attempted t ticket true = pure-IsSafe tt λ s h. h
  unless_attempted t ticket false = abort_ticket-IsOnce svc p ip off k deadline t ticket

  answer-IsOnce :
      (t : Timeline) (ticket : Ticket) (claim : Option Claim) (body : List ℕ) (headers : Headers)
      → Keeps svc p ip off k deadline (answer svc t ticket claim body headers)
  unfolding answer
  answer-IsOnce t ticket claim body headers =
      bind-IsSafe
        (lift-IsSafe (mapped of_access (from_parts 200 body (cached_headers svc claim headers)))
          λ s h. h)
        λ cached.
          bind-IsSafe
            (rescue-IsSafe (commit_ticket svc t ticket cached) _
              (commit_ticket-IsOnce t ticket cached)
              (bind-IsSafe (gets-IsSafe (λ (s : Scope). s.attempted))
                λ attempted. unless_attempted t ticket attempted))
            λ u. pure-IsSafe _ λ s h. h

  attempt-IsOnce :
      (t : Timeline) (request : Request) (ticket : Ticket) (headers : Headers)
      → IsWithin p deadline t
      → Keeps svc p ip off k deadline (attempt svc t request ticket headers)
  unfolding attempt
  attempt-IsOnce t request ticket headers within =
      bind-IsSafe (lift-IsSafe request.baseline λ s h. h) λ baseline.
        bind-IsSafe (claim_ticket-IsSafe svc p ip off k deadline t request ticket within) λ claim.
          assume-IsSafe λ linked.
            bind-IsSafe (assess-IsOnce svc p ip off k deadline t request baseline within) λ body.
              bind-IsSafe
                (settle_ticket-IsOnce svc p ip off k deadline t ticket claim headers within linked)
                λ paid_headers.
                  answer-IsOnce t ticket claim body
                    (set "Content-Type" "application/json" paid_headers)

  roll_back-IsOnce :
      (t : Timeline) (ticket : Ticket)
      → IsWithin p deadline t
      → Keeps svc p ip off k deadline (roll_back svc t ticket)
  unfolding roll_back
  roll_back-IsOnce t ticket within = record {
    returns = λ s h. (undone s.attempted s.claim).returns s h;
    raises = λ s h. (undone s.attempted s.claim).raises s h;
  }
    where
      undone :
          (attempted : Bool) (claim : Option Reservation)
          → Keeps svc p ip off k deadline (λ s.
            if attempted
            then (ok tt, s)
            else (abort_ticket svc t ticket >> abort_claim svc t claim) s)
      undone true claim = pure-IsSafe tt λ s h. h
      undone false claim =
          bind-IsSafe (abort_ticket-IsOnce svc p ip off k deadline t ticket)
            λ u. abort_claim-IsOnce svc p ip off k deadline t claim within

  on_failure-IsOnce :
      (t : Timeline) (ticket : Ticket) (r : Result Failure Answer)
      → IsWithin p deadline t
      → Keeps svc p ip off k deadline (on_failure svc t ticket r)
  unfolding on_failure
  on_failure-IsOnce t ticket (ok a) within = pure-IsSafe a λ s h. h
  on_failure-IsOnce t ticket (err e) within =
      bind-IsSafe (roll_back-IsOnce t ticket within) λ u. raise-IsSafe e λ s h. h

  proceed-IsOnce :
      (t : Timeline) (request : Request) (admission : Admission)
      → IsWithin p deadline t
      → Keeps svc p ip off k deadline (proceed svc t request admission)
  unfolding proceed
  proceed-IsOnce t request (answered a) within = pure-IsSafe a λ s h. h
  proceed-IsOnce t request (admitted ticket headers) within = record {
    returns = λ s h b e.
        (on_failure-IsOnce t ticket (attempt svc t request ticket headers s).0 within).returns
          (attempt svc t request ticket headers s).1
          (IsSafe-scope (attempt-IsOnce t request ticket headers within) s h) b e;
    raises = λ s h x e.
        (on_failure-IsOnce t ticket (attempt svc t request ticket headers s).0 within).raises
          (attempt svc t request ticket headers s).1
          (IsSafe-scope (attempt-IsOnce t request ticket headers within) s h) x e;
  }

  serve-IsOnce :
      (t : Timeline) (request : Request)
      → IsWithin p deadline t
      → Keeps svc p ip off k deadline (serve svc t request)
  unfolding serve
  serve-IsOnce t request within =
      bind-IsSafe (modify-IsSafe (λ s. record s { claim = none; attempted = false }) λ s h. h) λ u.
        bind-IsSafe (admit_mode-IsOnce svc p ip off k deadline svc.mode t request request.api_key)
          λ admission. proceed-IsOnce t request admission within

  transaction_preflight-IsOnce :
      (t : Timeline) (request : Request)
      → IsWithin p deadline t
      → (s : Scope) → IsOnce svc p k deadline s
      → IsOnce svc p k deadline (transaction_preflight svc t request s).1
  unfolding transaction_preflight
  transaction_preflight-IsOnce t request within s h = IsSafe-scope (by_mode svc.mode) s h
    where
      by_mode :
          (mode : AccessMode)
          → Keeps svc p ip off k deadline
              (elim mode [ disabled ↦ pure (not_configured svc) | _ ↦ serve svc t request ])
      by_mode disabled = pure-IsSafe _ λ s h. h
      by_mode open_access = serve-IsOnce t request within
      by_mode api_key_access = serve-IsOnce t request within
      by_mode x402 = serve-IsOnce t request within
      by_mode api_key_or_x402 = serve-IsOnce t request within

module _ (svc : Service) (p : Policy) (ip : IsPolicy p) (off : p.evict_completed_entries ≡ false)
    (k : CacheKey) (deadline : ℕ) where
  serve_all-IsOnce :
      (requests : List (Facilitator × (Timeline × Request)))
      → AreWithin p deadline requests
      → (s : Scope) → IsOnce svc p k deadline s
      → IsOnce svc p k deadline (serve_all svc requests s)
  unfolding serve_all
  serve_all-IsOnce [] within s h = h
  serve_all-IsOnce ((f, (t, request)) ∷ rest) within s h =
      serve_all-IsOnce rest within.1
        (transaction_preflight (record svc { facilitator = f }) t request s).1
        (transaction_preflight-IsOnce (record svc { facilitator = f }) p ip off k deadline t request
          within.0 s h)

-- When requests are served one after the other, with any keys and bodies, any answers of the
-- facilitator to each, and any calls of other requests on the stores during their awaits, these
-- requests settle a payment authorization at most once: from a scope with sound claims that keep
-- what is finished, where it has not been settled, and for as long as the clock of the claims is
-- before a deadline that is at most one lifetime of a claim after each reading at which a claim is
-- committed.
pub times_settled-serve_all :
    (svc : Service) (p : Policy)
    → IsPolicy p
    → p.evict_completed_entries ≡ false
    → (k : CacheKey) (deadline : ℕ) (requests : List (Facilitator × (Timeline × Request)))
    → AreWithin p deadline requests
    → (s : Scope) → IsSound p s.payment_claims
    → times_settled svc k (settlements s.calls) ≡ 0
    → times_settled svc k (settlements (serve_all svc requests s).calls) ≤ 1
times_settled-serve_all svc p ip off k deadline requests within s sound fresh =
    elim (serve_all-IsOnce svc p ip off k deadline requests within s (inl (sound, fresh))) [
      | inl (c, n) ↦ omega (arith, n)
      | inr (c, n) ↦ n
    ]
