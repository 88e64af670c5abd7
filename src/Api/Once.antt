-- ===== src/Api/Once.antt =====
-- A payment authorization is settled once, whatever requests bring it again, one after the other.
pub mod Keep
pub mod Steps
pub mod Branches
pub mod Requests
use lucent.Prelude.{
  ℕ, ◌+◌, ◌<◌, ◌≤◌, Text, String, Option, none, some, List, [], ◌∷◌, Bool, true, false,
  if◌then◌else◌, ◌==◌, Result, ok, err, ◌≡◌, ◌⊎◌,
}
use lucent.Access.Idempotency.Store.{CacheKey, key_eq, Policy}
use lucent.Access.Idempotency.History.{AreBefore}
use lucent.Access.Idempotency.Claims.{IsSound, IsClaimed}
use lucent.Payments.Errors.{PaymentError}
use lucent.Payments.Terms.{Requirements, Payload, authorization_fingerprint}
use lucent.Payments.Gateway.{Facilitator}
use lucent.Payments.Gateway.Preliminary.{settlements}
use lucent.Api.Service.{Service, Request, Others, Timeline, Scope}
use lucent.Api.Handler.{transaction_preflight}

abbrev pub is_key : Option CacheKey → CacheKey → Bool
is_key none k = false
is_key (some j) k = j == k

module _ (svc : Service) where
  -- The key of the store of claims for an authorization's fingerprint.
  abbrev pub claim_key : Text → CacheKey
  claim_key fingerprint = ("x402-authorization", svc.key_digest (svc.shown fingerprint))

  abbrev key_of : Result PaymentError Text → Option CacheKey
  key_of (ok fingerprint) = some (claim_key fingerprint)
  key_of (err e) = none

  -- The key of a settlement's authorization.
  abbrev pub settlement_key : Payload → Requirements → Option CacheKey
  settlement_key payload r =
      key_of (authorization_fingerprint svc.library.sha256 svc.library.dumps payload r)

  -- How many of the settlements have the authorization of the key `k`.
  abbrev pub times_settled : CacheKey → List (Payload × Requirements) → ℕ
  times_settled k [] = 0
  times_settled k ((payload, r) ∷ rest) =
      times_settled k rest + (if is_key (settlement_key payload r) k then 1 else 0)

  -- Requests one after the other, each with the answers of the facilitator to it, and with the calls
  -- that other requests make on the stores during its awaits.
  unfoldable pub serve_all : List (Facilitator × (Timeline × Request)) → Scope → Scope
  serve_all [] s = s
  serve_all ((f, (t, request)) ∷ rest) s =
      serve_all rest (transaction_preflight (record svc { facilitator = f }) t request s).1

-- The readings of the clock of the claims are before the deadline, which is at most one lifetime of
-- a claim after the reading at which the claim is committed.
pub record IsWithin (p : Policy) (deadline : ℕ) (t : Timeline) : Type 0 where
  pub verifying : AreBefore deadline t.while_verifying.claims
  pub claiming : t.claiming < deadline
  pub binding : AreBefore deadline t.while_binding.claims
  pub committing : t.claim_committing < deadline
  pub recent : deadline ≤ t.claim_committing + p.ttl
  pub settling : AreBefore deadline t.while_settling.claims
  pub aborting : t.claim_aborting < deadline

abbrev pub AreWithin : Policy → ℕ → List (Facilitator × (Timeline × Request)) → Type 0
AreWithin p deadline [] = Unit
AreWithin p deadline ((f, (t, request)) ∷ rest) = IsWithin p deadline t × AreWithin p deadline rest

module _ (svc : Service) (p : Policy) (k : CacheKey) (deadline : ℕ) where
  -- The claims are in order, and the authorization has not been settled.
  abbrev pub IsOpen : Scope → Type 0
  IsOpen s = IsSound p s.payment_claims × (times_settled svc k (settlements s.calls) ≡ 0)

  -- The authorization is claimed, and has not been settled.
  abbrev pub IsReady : Scope → Type 0
  IsReady s =
      IsClaimed p k deadline s.payment_claims × (times_settled svc k (settlements s.calls) ≡ 0)

  -- The authorization is claimed, and has been settled once at most.
  abbrev pub IsDone : Scope → Type 0
  IsDone s =
      IsClaimed p k deadline s.payment_claims × (times_settled svc k (settlements s.calls) ≤ 1)

  abbrev pub IsOnce : Scope → Type 0
  IsOnce s = IsOpen s ⊎ IsDone s
