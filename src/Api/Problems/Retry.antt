-- ===== src/Api/Problems/Retry.antt =====
-- What a failed payment says of another try.
use lucent.Prelude.{
  String, string_eq, Option, none, some, List, [], ◌∷◌, Bool, true, false, not, ◌&&◌, nat_beq,
  if◌then◌else◌, Result, ok, err, ◌≡◌, refl, sym, ◌∙◌,
}
use mathlib.Core.Path.{subst}
use lucent.Prelude.Dict.{get}
use lucent.Payments.Errors.{PaymentError}
use lucent.Payments.Gateway.{Config, Library, Facilitator, Call, VerifiedPayment}
use lucent.Payments.Settle.{settle}
use lucent.Payments.Settle.Laws.{IsFinal, settle-IsFinal}
use lucent.Api.Problems.{Headers, Challenge, payment_failure_headers}

-- The header of a retry, beside one that is none.
alone :
    (b : Bool)
    → get {K = String} {V = String} "Retry-After" (if b then ("Retry-After", "2") ∷ [] else [])
      ≡ (if b then some "2" else none)
alone true = refl
alone false = refl

beside_challenge :
    (value : String) (b : Bool)
    → get {K = String} {V = String} "Retry-After"
        (("PAYMENT-REQUIRED", value) ∷ (if b then ("Retry-After", "2") ∷ [] else []))
      ≡ (if b then some "2" else none)
beside_challenge value true = refl
beside_challenge value false = refl

ok_headers : {x y : Headers} → ◌≡◌ {A = Result PaymentError Headers} (ok x) (ok y) → x ≡ y
ok_headers h = cc

-- The header of a retry stands beside any challenge, or beside none.
get-payment_failure_headers :
    (gateway : Option Challenge) (e : PaymentError) (headers : Headers)
    → payment_failure_headers gateway e ≡ ok headers
    → get {K = String} {V = String} "Retry-After" headers
      ≡ (if e.retryable && not e.terminal then some "2" else none)
unfolding payment_failure_headers
get-payment_failure_headers gateway e headers h = by_status (nat_beq e.status 402) h
  where
    retry : Headers
    retry = if e.retryable && not e.terminal then ("Retry-After", "2") ∷ [] else []

    by_challenge :
        (r : Result PaymentError String)
        → elim r [ ok value ↦ ok (("PAYMENT-REQUIRED", value) ∷ retry) | err x ↦ err x ]
          ≡ ok headers
        → get {K = String} {V = String} "Retry-After" headers
          ≡ (if e.retryable && not e.terminal then some "2" else none)
    by_challenge (ok value) k =
        rw (sym (ok_headers k)) (beside_challenge value (e.retryable && not e.terminal))
    by_challenge (err x) k = absurd (cc)

    by_gateway :
        (g : Option Challenge)
        → elim g [
          | none ↦ ok retry
          | some challenge ↦ elim (challenge (some e.code)) [
            | ok value ↦ ok (("PAYMENT-REQUIRED", value) ∷ retry)
            | err x ↦ err x
          ]
        ]
          ≡ ok headers
        → get {K = String} {V = String} "Retry-After" headers
          ≡ (if e.retryable && not e.terminal then some "2" else none)
    by_gateway none k = rw (sym (ok_headers k)) (alone (e.retryable && not e.terminal))
    by_gateway (some challenge) k = by_challenge (challenge (some e.code)) k

    by_status :
        (b : Bool)
        → (if b
            then elim gateway [
              | none ↦ ok retry
              | some challenge ↦ elim (challenge (some e.code)) [
                | ok value ↦ ok (("PAYMENT-REQUIRED", value) ∷ retry)
                | err x ↦ err x
              ]
            ]
            else ok retry)
          ≡ ok headers
        → get {K = String} {V = String} "Retry-After" headers
          ≡ (if e.retryable && not e.terminal then some "2" else none)
    by_status true k = by_gateway gateway k
    by_status false k = rw (sym (ok_headers k)) (alone (e.retryable && not e.terminal))

-- Whatever the facilitator does with a submitted settlement, the headers of the response to its
-- error, with a challenge or without, have no `Retry-After`: with payments enabled, no client is
-- invited to pay again.
pub settle-no_retry :
    (lib : Library) (f : Facilitator) (c : Config) (v : VerifiedPayment) (calls : List Call)
    → c.enabled ≡ true
    → (e : PaymentError) → (settle lib f c v calls).0 ≡ err e
    → (gateway : Option Challenge) (headers : Headers)
    → payment_failure_headers gateway e ≡ ok headers
    → get {K = String} {V = String} "Retry-After" headers ≡ none
settle-no_retry lib f c v calls on e failed_so gateway headers made =
    get-payment_failure_headers gateway e headers made
    ∙ by_finality (subst IsFinal failed_so (settle-IsFinal lib f c v calls on).0)
  where
    by_finality :
        IsFinal (err e)
        → ◌≡◌ {A = Option String} (if e.retryable && not e.terminal then some "2" else none) none
    by_finality (terminal, kept) = rw (kept) refl
