-- ===== src/Payments/Client/Laws.antt =====
-- The errors of the client of the facilitator.
use lucent.Prelude.{
  ℕ, ◌+◌, Text, String, Option, List, true, false, if◌then◌else◌, ◌≡◌, ◌↔◌, refl, iff_trans, arith,
}
use lucent.Payments.Errors.{PaymentError}
use lucent.Payments.Terms.{Requirements, Payload}
use lucent.Payments.Gateway.{
  Reply, returned, raised, failed, Config, Verification, Settlement, Library, Call,
}
use lucent.Payments.Gateway.Preliminary.{settle_count}
use lucent.Payments.Settle.{verify_and_settle}
use lucent.Payments.Settle.Laws.{is_final, settle_count-verify_and_settle}
use lucent.Payments.Json.{Json}
use lucent.Payments.Client.{
  Exchange, unreachable, broken_off, received, decoded_answer, post, modelled, urllib_client,
}

-- A failure that may pass: the status 502, to be tried again, and not terminal.
pub record IsPassing (e : PaymentError) : Type 0 where
  pub status : e.status ≡ 502
  pub retryable : e.retryable ≡ true
  pub terminal : e.terminal ≡ false

post-IsPassing : (x : Exchange) (e : PaymentError) → post x ≡ raised e → IsPassing e
unfolding post decoded_answer
post-IsPassing unreachable e h = ground arith
post-IsPassing broken_off e h = absurd (cc)
post-IsPassing (received r) e h = ground arith

-- A reply is a failure only where the exchange is broken off.
post-failed : (x : Exchange) → (post x ≡ failed) ↔ (x ≡ broken_off)
unfolding post decoded_answer
post-failed unreachable = (λ h. absurd (cc), λ h. absurd (cc))
post-failed broken_off = (λ h. refl, λ h. refl)
post-failed (received r) = (λ h. ground arith, λ h. absurd (cc))

modelled-IsPassing :
    {A : Type 0} (message : String) (model : Json → Option A) (r : Reply Json)
    → ((e : PaymentError) → r ≡ raised e → IsPassing e)
    → (e : PaymentError) → modelled message model r ≡ raised e
    → IsPassing e
unfolding modelled
modelled-IsPassing message model (raised x) passing e h = passing e (ground arith)
modelled-IsPassing message model failed passing e h = absurd (cc)
modelled-IsPassing message model (returned value) passing e h = ground arith

modelled-failed :
    {A : Type 0} (message : String) (model : Json → Option A) (r : Reply Json)
    → (modelled message model r ≡ failed) ↔ (r ≡ failed)
unfolding modelled
modelled-failed message model (raised x) = (λ h. absurd (cc), λ h. absurd (cc))
modelled-failed message model failed = (λ h. refl, λ h. refl)
modelled-failed message model (returned value) = (λ h. ground arith, λ h. absurd (cc))

-- Whatever the network and the facilitator do, a `PaymentError` that the client raises for a
-- verification or a settlement may pass; it is the gateway that makes an error of a settlement
-- terminal. Any other exception leaves the client exactly where one that it does not catch breaks
-- off the exchange.
pub urllib_client-IsPassing :
    (verifying settling : Payload → Requirements → Exchange)
    (verify_response : Json → Option Verification) (settle_response : Json → Option Settlement)
    (p : Payload) (r : Requirements) (e : PaymentError)
    → (((urllib_client verifying settling verify_response settle_response).verify p r ≡ raised e
          → IsPassing e)
        × ((urllib_client verifying settling verify_response settle_response).settle p r ≡ raised e
            → IsPassing e))
      × ((((urllib_client verifying settling verify_response settle_response).verify p r ≡ failed)
            ↔ (verifying p r ≡ broken_off))
          × (((urllib_client verifying settling verify_response settle_response).settle p r
                ≡ failed)
              ↔ (settling p r ≡ broken_off)))
unfolding urllib_client
urllib_client-IsPassing verifying settling verify_response settle_response p r e = (
  (
    modelled-IsPassing "payment verifier returned an invalid response" verify_response
        (post (verifying p r)) (post-IsPassing (verifying p r)) e,
    modelled-IsPassing "payment settlement returned an invalid response" settle_response
        (post (settling p r)) (post-IsPassing (settling p r)) e,
  ),
  (
    iff_trans
        (modelled-failed "payment verifier returned an invalid response" verify_response
          (post (verifying p r)))
        (post-failed (verifying p r)),
    iff_trans
        (modelled-failed "payment settlement returned an invalid response" settle_response
          (post (settling p r)))
        (post-failed (settling p r)),
  ),
)

-- With the service's own client of the facilitator and payments enabled, `verify_and_settle` submits
-- one settlement exactly when it ends with a receipt or a terminal error, whatever the network does.
pub settle_count-urllib_client :
    (lib : Library) (verifying settling : Payload → Requirements → Exchange)
    (verify_response : Json → Option Verification) (settle_response : Json → Option Settlement)
    (c : Config) (now : Option ℕ) (signature : Text) (calls : List Call)
    → c.enabled ≡ true
    → settle_count
        (verify_and_settle lib
          (urllib_client verifying settling verify_response settle_response)
          c
          now
          signature
          calls).1
      ≡ settle_count calls
        + (if is_final
              (verify_and_settle lib
                (urllib_client verifying settling verify_response settle_response)
                c
                now
                signature
                calls).0
            then 1
            else 0)
settle_count-urllib_client lib verifying settling verify_response settle_response c now signature
      calls =
    settle_count-verify_and_settle lib
      (urllib_client verifying settling verify_response settle_response) c now signature calls
      λ p r e h.
        ((urllib_client-IsPassing verifying settling verify_response settle_response p r e).0.0
          h).terminal
