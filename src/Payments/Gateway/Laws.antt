-- ===== src/Payments/Gateway/Laws.antt =====
-- What a verified payment is.
use lucent.Prelude.{
  ℕ, Text, codes_eq, Option, some, List, ◌∷◌, true, not, ok, ◌>>=◌, bind_ok, guard_ok, pure_ok, ◌≡◌,
  refl, sym, ap, ◌∙◌, arith,
}
use mathlib.Core.Path.{subst}
use lucent.Payments.Errors.{PaymentError}
use lucent.Payments.Terms.{
  Requirements, Authorization, Payload, Canonical, address_field, proof_fingerprint, Field,
}
use lucent.Payments.Terms.Laws.{IsCanonical, canonical-IsCanonical}
use lucent.Payments.Gateway.{
  Config, returned, Verification, Facilitator, Library, Call, verify_call, VerifiedPayment,
  build_requirements, require_enabled, payer_of, payer_text, Examined, examine, ask, confirm,
  verify, is_no_address, payers_differ, decoded,
}
use lucent.Payments.Gateway.Examination.{not-false, IsExpected, IsExamined, examine_ok}

-- The payment that `verify` makes of an examined payload.
abbrev verified : Library → Text → Examined → VerifiedPayment
verified lib signature x = record {
  payer = some (payer_of x.payload.authorization);
  payment_identifier = x.identifier;
  proof_fingerprint = proof_fingerprint lib.sha256 signature;
  authorization_fingerprint = x.fingerprint;
  payload = x.payload;
}

confirm_ok :
    (lib : Library) (signature : Text) (x : Examined) (a : Verification) (calls : List Call)
    (v : VerifiedPayment) (t : List Call)
    → confirm lib signature x a calls ≡ (ok v, t)
    → (t ≡ calls) × ((a.is_valid ≡ true) × (v ≡ verified lib signature x))
unfolding confirm
confirm_ok lib signature x a calls v t h =
    let (valid, h1) = guard_ok (not a.is_valid) _ _ calls h in
    let (address, h2) = guard_ok (is_no_address a.payer) _ _ calls h1 in
    let (signer, h3) =
      guard_ok (payers_differ a.payer (some (payer_of x.payload.authorization))) _ _ calls h2 in
    let (all, last) = pure_ok {E = PaymentError} (verified lib signature x) calls h3 in
    (last, (not-false a.is_valid valid, all))

pub require_enabled_ok :
    (c : Config) (calls : List Call) (r : Requirements) (t : List Call)
    → require_enabled c calls ≡ (ok r, t)
    → (r ≡ build_requirements c) × (t ≡ calls)
unfolding require_enabled
require_enabled_ok c calls r t h = ground arith

ask_ok :
    (f : Facilitator) (p : Payload) (r : Requirements) (calls : List Call) (a : Verification)
    (t : List Call)
    → ask f p r calls ≡ (ok a, t)
    → (f.verify p r ≡ returned a) × (t ≡ verify_call p r ∷ calls)
unfolding ask
ask_ok f p r calls a t h = ground arith

payer_text_lem : (x : Field) (t : Text) → address_field x ≡ some t → payer_text x ≡ t
unfolding address_field
payer_text_lem (Field.text u) t h = ground arith
payer_text_lem Field.absent t h = absurd (cc)
payer_text_lem (Field.natural n) t h = absurd (cc)
payer_text_lem (Field.negative n) t h = absurd (cc)
payer_text_lem (Field.boolean b) t h = absurd (cc)
payer_text_lem Field.other t h = absurd (cc)

-- What a payment is that has been verified at the reading `now` of the clock: its header decodes to
-- the payload, whose identifier is the expected one; the accepted terms, the resource, the payee,
-- the amount and the time window are the server's; the facilitator has called it valid; its payer
-- is the one who signed.
pub record IsVerified (lib : Library) (f : Facilitator) (c : Config) (now : Option ℕ)
    (signature : Text) (expected : Option Text) (v : VerifiedPayment) : Type 0 where
  pub header : lib.decode_header signature ≡ decoded v.payload
  pub identifier : lib.valid_identifier v.payload ≡ some v.payment_identifier
  pub expectation : IsExpected expected v.payment_identifier
  pub proof : v.proof_fingerprint ≡ proof_fingerprint lib.sha256 signature
  pub examined : IsExamined lib c (build_requirements c) now v.payload v.authorization_fingerprint
  pub answer :
      (a : Verification) × ((f.verify v.payload (build_requirements c) ≡ returned a)
        × (a.is_valid ≡ true))
  pub transfer :
      (a : Authorization) × ((v.payload.authorization ≡ some a)
        × ((k : Canonical) × (IsCanonical (build_requirements c) a k
              × (v.payer ≡ address_field a.from))))

verified_of :
    (lib : Library) (f : Facilitator) (c : Config) (now : Option ℕ) (signature : Text)
    (expected : Option Text) (x : Examined) (a : Verification)
    → lib.decode_header signature ≡ decoded x.payload
    → lib.valid_identifier x.payload ≡ some x.identifier
    → IsExpected expected x.identifier
    → IsExamined lib c (build_requirements c) now x.payload x.fingerprint
    → f.verify x.payload (build_requirements c) ≡ returned a
    → a.is_valid ≡ true
    → IsVerified lib f c now signature expected (verified lib signature x)
unfolding payer_of
verified_of lib f c now signature expected x a header named expects ex answer valid =
    let (k, (made, hash)) = ex.authorized in
    let (z, (has, canon)) =
      canonical-IsCanonical (build_requirements c) x.payload.authorization k made in
    let (t, (from, same)) = canon.payer in
    record {
      header = header;
      identifier = named;
      expectation = expects;
      proof = refl;
      examined = ex;
      answer = (a, (answer, valid));
      transfer = (
        z,
        (
          has,
          (
            k,
            (
              canon,
              ap (λ o. some (payer_of o)) has ∙ ap some (payer_text_lem z.from t from) ∙ sym from,
            ),
          ),
        ),
      );
    }

-- Every payment that `verify` returns is verified in that sense, and the facilitator has been asked
-- once, about its payload and the server's terms.
pub verify-IsVerified :
    (lib : Library) (f : Facilitator) (c : Config) (now : Option ℕ) (signature : Text)
    (expected : Option Text) (calls : List Call) (v : VerifiedPayment) (calls' : List Call)
    → verify lib f c now signature expected calls ≡ (ok v, calls')
    → IsVerified lib f c now signature expected v
      × (calls' ≡ verify_call v.payload (build_requirements c) ∷ calls)
unfolding verify
verify-IsVerified lib f c now signature expected calls v calls' h =
    let (r, (s1, (on, h1))) = bind_ok (require_enabled c) _ calls h in
    let (terms, same) = require_enabled_ok c calls r s1 on in
    let (x, (s2, (found, h2))) = bind_ok (examine lib c r now signature expected) _ s1 h1 in
    let (p, (i, (fingerprint, (all, (kept, (header, (named, (expects, ex)))))))) =
      examine_ok lib c r now signature expected s1 x s2 found in
    let y : Examined = record { payload = p; identifier = i; fingerprint = fingerprint } in
    let h3 : (ask f p r >>= confirm lib signature y) s2 ≡ (ok v, calls') =
      subst (λ (z : Examined). (ask f z.payload r >>= confirm lib signature z) s2 ≡ (ok v, calls'))
        all h2 in
    let (a, (s3, (asked, h4))) = bind_ok (ask f p r) (confirm lib signature y) s2 h3 in
    let (answer, logged) = ask_ok f p r s2 a s3 asked in
    let (last, (valid, made)) = confirm_ok lib signature y a s3 v calls' h4 in
    let fine =
      verified_of lib f c now signature expected y a header named expects
        (subst (λ z. IsExamined lib c z now p fingerprint) terms ex)
        (sym (ap (f.verify p) terms) ∙ answer) valid in
    (
      subst (IsVerified lib f c now signature expected) (sym made) fine,
      last
          ∙ logged
          ∙ ap (λ z. verify_call p z ∷ s2) terms
          ∙ ap (λ z. verify_call p (build_requirements c) ∷ z) (kept ∙ same)
          ∙ sym (
              ap (λ (z : VerifiedPayment). verify_call z.payload (build_requirements c) ∷ calls)
                made),
    )
