-- ===== src/Payments/Settle.antt =====
-- lucent/payments.py, `PaymentGateway.settle` and `verify_and_settle`: a verified payment is
-- submitted once, and every failure from then on is terminal.
pub mod Laws
use lucent.Prelude.{
  ℕ, Text, lower, codes, codes_eq, ltb, length, Option, none, some, List, [], ◌∷◌, Bool, true,
  false, not, ◌&&◌, ◌||◌, if◌then◌else◌, ◌==◌, Result, ok, err, pure, raise, raise_if, ◌>>=◌, ◌>>◌,
  continue,
}
use lucent.Payments.Errors.{PaymentError, rejected, final}
use lucent.Payments.Terms.{Requirements, Payload, is_address, is_hash, proof_fingerprint}
use lucent.Payments.Gateway.{
  Config, Reply, returned, raised, failed, Settlement, Facilitator, Library, Call, settle_call,
  Action, VerifiedPayment, Receipt, all_ascii, require_enabled, is_no_address, payers_differ,
  max_payment_header_bytes, verify,
}

-- the change that `settle` makes to a `PaymentError` of the facilitator
abbrev pub terminalized : PaymentError → PaymentError
terminalized e = record e { retryable = false; terminal = true }

-- `await facilitator.settle(...)`, and what becomes of its exceptions
unfoldable pub submit : Facilitator → Payload → Requirements → Action Settlement
submit f payload r calls = (
  elim (f.settle payload r) [
    | returned s ↦ ok s
    | raised e ↦ err (terminalized e)
    | failed ↦ err (
        final 502 "FACILITATOR_UNAVAILABLE"
          "payment settlement outcome is unknown and requires reconciliation")
  ],
  settle_call payload r ∷ calls,
)

-- An optional amount that is there and is another one.
abbrev pub is_other : Option Text → Text → Bool
is_other none amount = false
is_other (some t) amount = not (t == amount)

-- `settled.payer or verified_payment.payer`, and so for the amount: an empty text counts as none.
abbrev pub payer_or : Option Text → Option Text → Option Text
payer_or (some (c ∷ t)) other = some (c ∷ t)
payer_or _ other = other

abbrev pub amount_or : Option Text → Text → Text
amount_or (some (c ∷ t)) amount = c ∷ t
amount_or _ amount = amount

-- the `SettleResponse` that goes into the header
abbrev pub receipt_model : Config → VerifiedPayment → Settlement → Settlement
receipt_model c v s = record {
  success = true;
  payer = payer_or s.payer v.payer;
  transaction = s.transaction;
  network = s.network;
  amount = some (amount_or s.amount c.amount);
}

-- The checks of `settle` on the facilitator's answer, and the receipt.
unfoldable pub receive : Library → Config → VerifiedPayment → Settlement → Action Receipt
receive lib c v s = do
  raise_if (not s.success) (final 402 "PAYMENT_NOT_SETTLED" "payment could not be settled")
  raise_if (not (s.network == c.network)) (
      final 502 "FACILITATOR_INVALID_RESPONSE"
        "payment receipt did not match the configured network")
  raise_if (is_other s.amount c.amount) (
      final 502 "FACILITATOR_INVALID_RESPONSE"
        "payment receipt did not match the configured amount")
  raise_if (not (is_hash s.transaction)) (
      final 502 "FACILITATOR_INVALID_RESPONSE"
        "payment receipt did not contain a Base transaction hash")
  raise_if (is_no_address s.payer)
      (final 502 "FACILITATOR_INVALID_RESPONSE" "payment receipt did not contain a valid payer")
  raise_if (payers_differ v.payer s.payer) (
      final 502 "FACILITATOR_INVALID_RESPONSE"
        "payment receipt payer did not match the verified payer")
  raise_if (ltb max_payment_header_bytes (length (lib.encode_receipt (receipt_model c v s)))) (
      final 502 "FACILITATOR_INVALID_RESPONSE" "payment receipt exceeded its response-header limit")
  pure (record {
    payer = payer_or s.payer v.payer;
    transaction = s.transaction;
    network = s.network;
    amount = amount_or s.amount c.amount;
    response_header = lib.encode_receipt (receipt_model c v s);
    proof_fingerprint = v.proof_fingerprint;
  })

-- `PaymentGateway.settle`
unfoldable pub settle : Library → Facilitator → Config → VerifiedPayment → Action Receipt
unfolding submit receive
settle lib f c v = do r ← require_enabled c; s ← submit f v.payload r; receive lib c v s

unfoldable pub verify_and_settle : Library → Facilitator → Config → Option ℕ → Text → Action Receipt
unfolding settle
verify_and_settle lib f c now payment_signature = do
  v ← verify lib f c now payment_signature none
  settle lib f c v

-- `PaymentGateway.assert_replay_proof`
unfoldable pub assert_replay_proof : Library → Text → Text → Result PaymentError (Unit {0})
assert_replay_proof lib payment_signature expected =
    if not (all_ascii payment_signature)
    then err (rejected "INVALID_PAYMENT_SIGNATURE" "PAYMENT-SIGNATURE is malformed")
    else if not (proof_fingerprint lib.sha256 payment_signature == expected)
    then err
        (rejected "PAYMENT_REPLAY_PROOF_MISMATCH" "paid replay requires the original payment proof")
    else ok tt
