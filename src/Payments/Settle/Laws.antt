-- ===== src/Payments/Settle/Laws.antt =====
-- How often a payment is submitted, and what a receipt says.
use lucent.Prelude.{
  Bool-cases, inl, inr, length, ℕ, ◌+◌, Text, Option, none, some, List, [], ◌∷◌, Bool, true, false,
  Result, ok, err, continue, ◌>>=◌, ◌≡◌, refl, sym, ap, ◌∙◌, arith, bind_ok, codes_eq, ◌==◌,
  if◌then◌else◌,
}
use lucent.Payments.Errors.{PaymentError}
use lucent.Payments.Terms.{Requirements, Payload, is_hash}
use lucent.Payments.Gateway.{
  Config, Reply, returned, raised, failed, Settlement, Facilitator, Library, Call, settle_call,
  VerifiedPayment, Receipt, build_requirements, require_enabled, verify, is_no_address,
  payers_differ,
}
use lucent.Payments.Gateway.Preliminary.{
  settlements, settle_count, VerifiesMildly, verify-IsPreliminary, IsPreliminary,
}
use lucent.Payments.Gateway.Examination.{not-false}
use lucent.Payments.Gateway.Laws.{require_enabled_ok}
use lucent.Payments.Settle.{
  submit, receive, settle, verify_and_settle, payer_or, amount_or, is_other,
}

-- A result after which the payment may not be tried again: a receipt, or a terminal error.
abbrev pub is_final : Result PaymentError Receipt → Bool
is_final (ok receipt) = true
is_final (err e) = e.terminal

-- A receipt, or an error that is terminal and not to be tried again.
abbrev pub IsFinal : Result PaymentError Receipt → Type 0
IsFinal (ok receipt) = Unit
IsFinal (err e) = (e.terminal ≡ true) × (e.retryable ≡ false)

receive-IsFinal :
    (lib : Library) (c : Config) (v : VerifiedPayment) (s : Settlement) (calls : List Call)
    → IsFinal (receive lib c v s calls).0 × ((receive lib c v s calls).1 ≡ calls)
unfolding receive
receive-IsFinal lib c v s calls = ground arith

-- With payments enabled, `settle` sends exactly one settlement and ends with a receipt or with an
-- error that is terminal and not to be tried again, whatever the facilitator does.
pub settle-IsFinal :
    (lib : Library) (f : Facilitator) (c : Config) (v : VerifiedPayment) (calls : List Call)
    → c.enabled ≡ true
    → IsFinal (settle lib f c v calls).0
      × ((settle lib f c v calls).1 ≡ settle_call v.payload (build_requirements c) ∷ calls)
unfolding settle require_enabled
settle-IsFinal lib f c v calls on = rw on (answer (f.settle v.payload (build_requirements c)) refl)
  where
    answer :
        (a : Reply Settlement)
        → f.settle v.payload (build_requirements c) ≡ a
        → IsFinal ((submit f v.payload (build_requirements c) >>= receive lib c v) calls).0
          × (((submit f v.payload (build_requirements c) >>= receive lib c v) calls).1
              ≡ settle_call v.payload (build_requirements c) ∷ calls)
    answer (returned s) same =
        rw (same, submit)
          (receive-IsFinal lib c v s (settle_call v.payload (build_requirements c) ∷ calls))
    answer (raised e) same = rw (same, submit) ((refl, refl), refl)
    answer failed same = rw (same, submit) ((refl, refl), refl)

final_is_final : (r : Result PaymentError Receipt) → IsFinal r → is_final r ≡ true
final_is_final (ok receipt) h = refl
final_is_final (err e) h = h.0

-- Whatever a signature is and whatever the facilitator answers, `verify_and_settle` submits one
-- settlement exactly when it ends with a receipt or with a terminal error, and none when it ends
-- with any other error: so an error that allows another try has moved no money. The facilitator is
-- one whose verification raises no terminal error.
pub settle_count-verify_and_settle :
    (lib : Library) (f : Facilitator) (c : Config) (now : Option ℕ) (signature : Text)
    (calls : List Call)
    → VerifiesMildly f
    → c.enabled ≡ true
    → settle_count (verify_and_settle lib f c now signature calls).1
      ≡ settle_count calls
        + (if is_final (verify_and_settle lib f c now signature calls).0 then 1 else 0)
unfolding verify_and_settle
settle_count-verify_and_settle lib f c now signature calls mild on =
    after (verify lib f c now signature none calls) (first.keeps calls) (first.mild calls)
  where
    first : IsPreliminary (verify lib f c now signature none)
    first = verify-IsPreliminary lib f c now signature none mild

    after :
        (r : Result PaymentError VerifiedPayment × List Call)
        → settlements r.1 ≡ settlements calls
        → ((e : PaymentError) → r.0 ≡ err e → e.terminal ≡ false)
        → settle_count (continue r.0 (settle lib f c) r.1).1
          ≡ settle_count calls + (if is_final (continue r.0 (settle lib f c) r.1).0 then 1 else 0)
    after (ok v, t) same mild' =
        let done = settle-IsFinal lib f c v t on in
        rw (done.1, final_is_final (settle lib f c v t).0 done.0) (omega (arith, ap length same))
    after (err e, t) same mild' = rw (mild' e refl) (omega (arith, ap length same))

amount_or_same :
    (o : Option Text) (amount : Text) → is_other o amount ≡ false → amount_or o amount ≡ amount
amount_or_same none amount h = refl
amount_or_same (some []) amount h = refl
amount_or_same (some (c ∷ t)) amount h =
    (codes_eq.same_iff (c ∷ t) amount).0 (not-false (c ∷ t == amount) h)

-- The receipt of a successful settlement `s`: in the server's network and amount, with the
-- settlement's transaction, which is a hash, and the fingerprint of the verified proof. The payer
-- is the settlement's, where it names one: an address, and the verified payer but for the case of
-- letters. Else it is the verified payer.
pub record IsReceipt (c : Config) (v : VerifiedPayment) (s : Settlement) (receipt : Receipt)
    : Type 0 where
  pub success : s.success ≡ true
  pub network : receipt.network ≡ c.network
  pub amount : receipt.amount ≡ c.amount
  pub transaction : receipt.transaction ≡ s.transaction
  pub hash : is_hash receipt.transaction ≡ true
  pub proof : receipt.proof_fingerprint ≡ v.proof_fingerprint
  pub payer : receipt.payer ≡ payer_or s.payer v.payer
  pub address : is_no_address s.payer ≡ false
  pub same_payer : payers_differ v.payer s.payer ≡ false

receive_receipt :
    (lib : Library) (c : Config) (v : VerifiedPayment) (s : Settlement) (calls : List Call)
    (receipt : Receipt) (calls' : List Call)
    → receive lib c v s calls ≡ (ok receipt, calls')
    → (calls' ≡ calls) × IsReceipt c v s receipt
unfolding receive
receive_receipt lib c v s calls receipt calls' h =
    ground (arith, codes_eq.same_iff s.network c.network, amount_or_same s.amount c.amount)

submit_ok :
    (f : Facilitator) (p : Payload) (r : Requirements) (calls : List Call) (s : Settlement)
    (t : List Call)
    → submit f p r calls ≡ (ok s, t)
    → (f.settle p r ≡ returned s) × (t ≡ settle_call p r ∷ calls)
unfolding submit
submit_ok f p r calls s t h = ground arith

-- A receipt is that of the one settlement which the facilitator is sent, with the server's terms,
-- and has called successful: its network and amount are the server's, its transaction is the
-- facilitator's and a hash, its proof is the verified one, and its payer is the verified payer but
-- for the case of letters.
pub settle_receipt :
    (lib : Library) (f : Facilitator) (c : Config) (v : VerifiedPayment) (calls : List Call)
    (receipt : Receipt) (calls' : List Call)
    → settle lib f c v calls ≡ (ok receipt, calls')
    → (calls' ≡ settle_call v.payload (build_requirements c) ∷ calls)
      × ((s : Settlement) × ((f.settle v.payload (build_requirements c) ≡ returned s)
            × IsReceipt c v s receipt))
unfolding settle
settle_receipt lib f c v calls receipt calls' h =
    let (r, (t, (enabled, h1))) =
      bind_ok (require_enabled c) (λ r. submit f v.payload r >>= receive lib c v) calls h in
    let (terms, same) = require_enabled_ok c calls r t enabled in
    let (s, (u, (sent, h2))) = bind_ok (submit f v.payload r) (receive lib c v) t h1 in
    let (answer, logged) = submit_ok f v.payload r t s u sent in
    let (last, fine) = receive_receipt lib c v s u receipt calls' h2 in
    (
      last
          ∙ logged
          ∙ ap (λ x. settle_call v.payload x ∷ t) terms
          ∙ ap (λ x. settle_call v.payload (build_requirements c) ∷ x) same,
      (s, (sym (ap (f.settle v.payload) terms) ∙ answer, fine)),
    )

-- The settlements that `settle` adds.
pub settle-settlements :
    (lib : Library) (f : Facilitator) (c : Config) (v : VerifiedPayment) (calls : List Call)
    → settlements (settle lib f c v calls).1 ≡ (
        if c.enabled
        then (v.payload, build_requirements c) ∷ settlements calls
        else settlements calls)
unfolding settle require_enabled
settle-settlements lib f c v calls = elim (Bool-cases c.enabled) [
  | inl on ↦ ap settlements (settle-IsFinal lib f c v calls on).1 ∙ rw on refl
  | inr off ↦ rw off refl
]
