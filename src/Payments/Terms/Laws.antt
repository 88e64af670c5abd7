-- ===== src/Payments/Terms/Laws.antt =====
-- What an authorization with a fingerprint is: a transfer of the server's amount to the server.
use lucent.Prelude.{
  Text, lower, codes_eq, Option, none, some, not, ◌||◌, ◌==◌, Result, ok, ◌≡◌, refl, arith,
  Bool-cases, inl, inr,
}
use lucent.Payments.Errors.{PaymentError}
use lucent.Payments.Terms.{
  Requirements, Authorization, Canonical, address_field, hash_field, decimal_field, required,
  canonical_of, canonical,
}

required_ok :
    {A : Type 0} (o : Option A) (k : A → Result PaymentError Canonical) (c : Canonical)
    → required o k ≡ ok c
    → (a : A) × ((o ≡ some a) × (k a ≡ ok c))
required_ok none k c h = absurd (cc)
required_ok (some a) k c h = (a, (refl, h))

-- The authorization pays the server's amount to the server, whose address is written in letters of
-- any case, and the canonical object holds it all in lower case.
pub record IsCanonical (r : Requirements) (a : Authorization) (c : Canonical) : Type 0 where
  pub payer : (t : Text) × ((address_field a.from ≡ some t) × (c.from ≡ lower t))
  pub payee :
      (t : Text) × ((address_field a.to ≡ some t) × ((c.to ≡ lower t) × (lower t ≡ lower r.pay_to)))
  pub nonce : (t : Text) × ((hash_field a.nonce ≡ some t) × (c.nonce ≡ lower t))
  pub value : (decimal_field a.value ≡ some r.amount) × (c.value ≡ r.amount)
  pub valid_after : decimal_field a.valid_after ≡ some c.valid_after
  pub valid_before : decimal_field a.valid_before ≡ some c.valid_before

canonical_of_ok :
    (r : Requirements) (a : Authorization) (payer pay_to nonce value : Text) (c : Canonical)
    → canonical_of r a payer pay_to nonce value ≡ ok c
    → address_field a.from ≡ some payer
    → address_field a.to ≡ some pay_to
    → hash_field a.nonce ≡ some nonce
    → decimal_field a.value ≡ some value
    → IsCanonical r a c
unfolding canonical_of
canonical_of_ok r a payer pay_to nonce value c h from to unique amount =
    elim (Bool-cases (not (lower pay_to == lower r.pay_to) || not (value == r.amount))) [
      | inl other ↦ absurd (let it = rw other at h in cc)
      | inr same ↦
          let (after, (has_after, h1)) =
            required_ok (decimal_field a.valid_after) _ c (rw same at h) in
          let (before, (has_before, h2)) = required_ok (decimal_field a.valid_before) _ c h1 in
          let paid : lower pay_to ≡ lower r.pay_to =
            ground (arith, codes_eq.same_iff (lower pay_to) (lower r.pay_to)) in
          let whole : value ≡ r.amount = ground (arith, codes_eq.same_iff value r.amount) in
          record {
            payer = (payer, (from, cc));
            payee = (pay_to, (to, (cc, paid)));
            nonce = (nonce, (unique, cc));
            value = (cc, cc);
            valid_after = cc;
            valid_before = cc;
          }
    ]

pub canonical-IsCanonical :
    (r : Requirements) (o : Option Authorization) (c : Canonical)
    → canonical r o ≡ ok c
    → (a : Authorization) × ((o ≡ some a) × IsCanonical r a c)
unfolding canonical
canonical-IsCanonical r o c h =
    let (a, (has, h1)) = required_ok o _ c h in
    let (payer, (from, h2)) = required_ok (address_field a.from) _ c h1 in
    let (pay_to, (to, h3)) = required_ok (address_field a.to) _ c h2 in
    let (nonce, (unique, h4)) = required_ok (hash_field a.nonce) _ c h3 in
    let (value, (amount, h5)) = required_ok (decimal_field a.value) _ c h4 in
    (a, (has, canonical_of_ok r a payer pay_to nonce value c h5 from to unique amount))
