-- ===== src/Api/Admission/Replay.antt =====
-- What a replay of a paid response takes.
use lucent.Prelude.{
  Text, String, string_eq, codes, codes_eq, Option, none, some, [], Result, ok, err, ◌≡◌, refl, sym,
  ap, ◌∙◌, arith,
}
use lucent.Prelude.Dict.{get}
use lucent.Access.Idempotency.Response.{Response}
use lucent.Payments.Errors.{PaymentError}
use lucent.Payments.Terms.{proof_fingerprint}
use lucent.Payments.Settle.{assert_replay_proof}
use lucent.Api.Problems.{Headers, Failure, of_payment}
use lucent.Api.Service.{Service}
use lucent.Api.Admission.{Answer, proof_header, updated, check_proof, replay_response}

check_proof_ok :
    (svc : Service) (proof : String) (signature : Option Text) (u : Unit {0})
    → check_proof svc (some proof) signature ≡ ok u
    → (t : Text) × ((signature ≡ some t) × (proof_fingerprint svc.library.sha256 t ≡ codes proof))
unfolding check_proof assert_replay_proof
check_proof_ok svc proof none u h = absurd (cc)
check_proof_ok svc proof (some t) u h = (
  t,
  (
    refl,
    (codes_eq.same_iff (proof_fingerprint svc.library.sha256 t) (codes proof)).0
        (ground (arith, h)),
  ),
)

checked_ok :
    (r : Result PaymentError (Unit {0})) (x a : Answer)
    → ◌≡◌ {A = Result Failure Answer} (elim r [ err e ↦ err (of_payment e) | ok _ ↦ ok x ]) (ok a)
    → (u : Unit {0}) × (r ≡ ok u)
checked_ok (ok u) x a h = (u, refl)
checked_ok (err e) x a h = absurd (cc)

-- A cached response that names a payment proof is replayed only to a request with a signature that
-- has the fingerprint of this proof.
pub replay_response-proof :
    (svc : Service) (cached : Response) (signature : Option Text) (overrides : Headers)
    (proof : String) (a : Answer)
    → get proof_header (updated [] cached.headers) ≡ some proof
    → replay_response svc cached signature overrides ≡ ok a
    → (t : Text) × ((signature ≡ some t) × (proof_fingerprint svc.library.sha256 t ≡ codes proof))
unfolding replay_response
replay_response-proof svc cached signature overrides proof a named h =
    let (u, passed) =
      checked_ok (check_proof svc (get proof_header (updated [] cached.headers)) signature) _ a h in
    check_proof_ok svc proof signature u
      (sym (ap (λ o. check_proof svc o signature) named) ∙ passed)
