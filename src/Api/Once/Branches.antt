-- ===== src/Api/Once/Branches.antt =====
-- The branches of a request, over the claims and the settlements of one authorization.
use lucent.Prelude.{ℕ, Text, String, Option, none, some, List, [], ◌∷◌, false, ltb, length, ◌≡◌}
use lucent.Access.Quota.{token_unit}
use lucent.Access.Controller.{authorize, reserve_idempotency}
use lucent.Access.Auth.{authenticate}
use lucent.Access.Idempotency.Store.{
  CacheKey, key_eq, Policy, Reservation, Decision, granted, replay,
}
use lucent.Access.Idempotency.Methods.{reserve, abort}
use lucent.Access.Idempotency.Perform.{IsPolicy}
use lucent.Api.Problems.{Headers, internal}
use lucent.Api.Source.{Assessment, bind_verified_source}
use lucent.Api.Service.{
  Service, AccessMode, disabled, open_access, api_key_access, x402, api_key_or_x402, Request,
  Timeline, Step, key_text,
}
use lucent.Api.Admission.{
  Ticket, unkeyed, keyed, paid, answered, quota_headers, replay_response, payment_required,
  decided_key, admit_key, decided_payment, admit_payment, admit_mode,
}
use lucent.Api.Hosted.{max_cached_result_bytes}
use lucent.Api.Handler.{Claim, claim_ticket, assess, settle_ticket, abort_ticket, abort_claim}
use lucent.Api.Triples.{
  IsSafe, bind-IsSafe, pure-IsSafe, lift-IsSafe, raise_if-IsSafe, on_payments-IsSafe,
  on_controller-IsSafe,
}
use lucent.Api.Once.{IsOnce, IsWithin}
use lucent.Api.Once.Keep.{IsOnce-IsOfClaims, elapse-IsOnce, abort-IsOnce}
use lucent.Api.Once.Steps.{IsLinked, claim_payment-IsSafe, settle_claim-IsOnce}

module _ (svc : Service) (p : Policy) (ip : IsPolicy p) (off : p.evict_completed_entries ≡ false)
    (k : CacheKey) (deadline : ℕ) where
  -- The step keeps the claims of the authorization.
  abbrev pub Keeps : {A : Type 0} → Step A → Type 0
  Keeps m =
      IsSafe (IsOnce svc p k deadline) (IsOnce svc p k deadline) m (λ a. IsOnce svc p k deadline)

  decided_key-IsOnce : (headers : Headers) (d : Decision) → Keeps (decided_key svc headers d)
  unfolding decided_key
  decided_key-IsOnce headers (granted res) = pure-IsSafe _ λ s h. h
  decided_key-IsOnce headers (replay response) =
      bind-IsSafe (lift-IsSafe (replay_response svc response none headers) λ s h. h)
        λ a. pure-IsSafe (answered a) λ s h. h

  admit_key-IsOnce :
      (t : Timeline) (request : Request) (api_key : List ℕ)
      → Keeps (admit_key svc t request api_key)
  unfolding admit_key
  admit_key-IsOnce t request api_key =
      bind-IsSafe
        (on_controller-IsSafe (IsOnce-IsOfClaims svc p ip off k deadline) (λ s h. h)
          (authorize svc.api_digest t.charging (some api_key) token_unit))
        λ grant. bind-IsSafe (lift-IsSafe (key_text request.idempotency_key) λ s h. h) λ key.
          bind-IsSafe
            (on_controller-IsSafe (IsOnce-IsOfClaims svc p ip off k deadline) (λ s h. h)
              (reserve_idempotency svc.key_digest t.reserving t.token grant.tenant key
                request.fingerprint))
            λ d. decided_key-IsOnce (("X-Lucent-Access", "api_key") ∷ quota_headers grant.quota) d

  decided_payment-IsOnce :
      (signature : Text) (key : String) (d : Decision) → Keeps (decided_payment svc signature key d)
  unfolding decided_payment
  decided_payment-IsOnce signature key (granted res) = pure-IsSafe _ λ s h. h
  decided_payment-IsOnce signature key (replay response) =
      bind-IsSafe (lift-IsSafe (replay_response svc response (some signature) []) λ s h. h)
        λ a. pure-IsSafe (answered a) λ s h. h

  admit_payment-IsOnce :
      (t : Timeline) (request : Request) (signature : Option Text)
      → Keeps (admit_payment svc t request signature)
  unfolding admit_payment
  admit_payment-IsOnce t request none =
      bind-IsSafe (lift-IsSafe (payment_required svc) λ s h. h)
        λ a. pure-IsSafe (answered a) λ s h. h
  admit_payment-IsOnce t request (some signature) =
      bind-IsSafe (lift-IsSafe (key_text request.idempotency_key) λ s h. h) λ key.
        bind-IsSafe
          (on_payments-IsSafe (IsOnce-IsOfClaims svc p ip off k deadline) (λ s h. h)
            (reserve svc.key_digest t.reserving t.token "x402" key request.fingerprint))
          λ d. decided_payment-IsOnce signature key d

  pub admit_mode-IsOnce :
      (mode : AccessMode) (t : Timeline) (request : Request) (api_key : Option (List ℕ))
      → Keeps (admit_mode svc mode t request api_key)
  unfolding admit_mode
  admit_mode-IsOnce open_access t request api_key = pure-IsSafe _ λ s h. h
  admit_mode-IsOnce api_key_access t request (some api_key) = admit_key-IsOnce t request api_key
  admit_mode-IsOnce api_key_access t request none =
      bind-IsSafe
        (on_controller-IsSafe (IsOnce-IsOfClaims svc p ip off k deadline) (λ s h. h)
          (λ c. (authenticate svc.api_digest c.authenticator none, c)))
        λ tenant. pure-IsSafe _ λ s h. h
  admit_mode-IsOnce api_key_or_x402 t request (some api_key) = admit_key-IsOnce t request api_key
  admit_mode-IsOnce api_key_or_x402 t request none =
      admit_payment-IsOnce t request request.payment_signature
  admit_mode-IsOnce x402 t request api_key =
      admit_payment-IsOnce t request request.payment_signature
  admit_mode-IsOnce disabled t request api_key =
      admit_payment-IsOnce t request request.payment_signature

  -- A claim that is there is linked to its payment.
  abbrev AreLinked : Option Claim → Type 0
  AreLinked none = Unit
  AreLinked (some claim) = IsLinked svc p ip off k deadline claim

  pub claim_ticket-IsSafe :
      (t : Timeline) (request : Request) (ticket : Ticket)
      → IsWithin p deadline t
      → IsSafe
          (IsOnce svc p k deadline)
          (IsOnce svc p k deadline)
          (claim_ticket svc t request ticket)
          (λ claim s. IsOnce svc p k deadline s × AreLinked claim)
  unfolding claim_ticket
  claim_ticket-IsSafe t request unkeyed within = pure-IsSafe none λ s h. (h, tt)
  claim_ticket-IsSafe t request (keyed res) within = pure-IsSafe none λ s h. (h, tt)
  claim_ticket-IsSafe t request (paid res signature key) within =
      bind-IsSafe (claim_payment-IsSafe svc p ip off k deadline t request signature key within)
        λ claim. pure-IsSafe (some claim) λ s h. h

  pub assess-IsOnce :
      (t : Timeline) (request : Request) (baseline : Assessment)
      → IsWithin p deadline t
      → Keeps (assess svc t request baseline)
  unfolding assess
  assess-IsOnce t request baseline within =
      bind-IsSafe (elapse-IsOnce svc p ip off k deadline t.while_binding within.binding) λ u.
        bind-IsSafe
          (lift-IsSafe
            (bind_verified_source request.source request.chain_id request.to request.analysis
              baseline)
            λ s h. h)
          λ result. bind-IsSafe (lift-IsSafe (request.response result) λ s h. h) λ body.
            bind-IsSafe
              (raise_if-IsSafe (ltb max_cached_result_bytes (length body)) internal λ s h. h)
              λ u'. pure-IsSafe body λ s h. h

  pub settle_ticket-IsOnce :
      (t : Timeline) (ticket : Ticket) (claim : Option Claim) (headers : Headers)
      → IsWithin p deadline t
      → AreLinked claim
      → Keeps (settle_ticket svc t ticket claim headers)
  unfolding settle_ticket
  settle_ticket-IsOnce t (paid res signature key) (some claim) headers within linked =
      bind-IsSafe (settle_claim-IsOnce svc p ip off k deadline t res claim within linked)
        λ receipt. pure-IsSafe _ λ s h. h
  settle_ticket-IsOnce t (paid res signature key) none headers within linked =
      pure-IsSafe _ λ s h. h
  settle_ticket-IsOnce t unkeyed claim headers within linked = pure-IsSafe _ λ s h. h
  settle_ticket-IsOnce t (keyed res) claim headers within linked = pure-IsSafe _ λ s h. h

  pub abort_ticket-IsOnce : (t : Timeline) (ticket : Ticket) → Keeps (abort_ticket svc t ticket)
  unfolding abort_ticket
  abort_ticket-IsOnce t unkeyed = pure-IsSafe tt λ s h. h
  abort_ticket-IsOnce t (keyed res) =
      bind-IsSafe
        (on_controller-IsSafe (IsOnce-IsOfClaims svc p ip off k deadline) (λ s h. h)
          (λ c.
            let (r, store) = abort t.aborting res c.idempotency in
            (r, record c { idempotency = store })))
        λ b. pure-IsSafe tt λ s h. h
  abort_ticket-IsOnce t (paid res signature key) =
      bind-IsSafe
        (on_payments-IsSafe (IsOnce-IsOfClaims svc p ip off k deadline) (λ s h. h)
          (abort t.aborting res))
        λ b. pure-IsSafe tt λ s h. h

  pub abort_claim-IsOnce :
      (t : Timeline) (claim : Option Reservation)
      → IsWithin p deadline t
      → Keeps (abort_claim svc t claim)
  unfolding abort_claim
  abort_claim-IsOnce t none within = pure-IsSafe tt λ s h. h
  abort_claim-IsOnce t (some res) within =
      bind-IsSafe (abort-IsOnce svc p ip off k deadline t.claim_aborting res within.aborting)
        λ b. pure-IsSafe tt λ s h. h
