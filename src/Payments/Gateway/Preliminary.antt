-- ===== src/Payments/Gateway/Preliminary.antt =====
-- The verification of a payment submits no settlement, and raises no terminal error.
use lucent.Prelude.{
  length, ℕ, Text, Option, none, some, List, [], ◌∷◌, Bool, true, false, not, ◌||◌, Result, ok, err,
  raise_if, raise, pure, lift, continue, ◌>>=◌, ◌≡◌, inl, inr, refl, ◌∙◌, arith, codes_eq, lower,
  ◌==◌, Bool-cases,
}
use lucent.Payments.Errors.{PaymentError, unavailable}
use lucent.Payments.Terms.{
  Requirements, Payload, authorization_fingerprint, Canonical, Authorization, canonical,
  canonical_of, hashed, required, address_field, hash_field, decimal_field,
}
use lucent.Payments.Gateway.{
  Config, Reply, returned, raised, failed, Verification, Facilitator, Library, Call, verify_call,
  settle_call, Action, require_enabled, verify, read_header, check_terms, examine, ask, confirm,
  payload_of, identifier_of, check_window, Decoded, undecodable, other_version, decoded, Examined,
  is_outside,
}

-- The settlements that the facilitator has been sent, the last one first.
abbrev pub settlements : List Call → List (Payload × Requirements)
settlements [] = []
settlements (verify_call p r ∷ calls) = settlements calls
settlements (settle_call p r ∷ calls) = (p, r) ∷ settlements calls

-- How many they are.
abbrev pub settle_count : List Call → ℕ
settle_count calls = length (settlements calls)

-- An action that submits no settlement and raises no terminal error.
pub record IsPreliminary {A : Type 0} (m : Action A) : Type 0 where
  pub keeps : (calls : List Call) → settlements (m calls).1 ≡ settlements calls
  pub mild : (calls : List Call) (e : PaymentError) → (m calls).0 ≡ err e → e.terminal ≡ false

bind-IsPreliminary :
    {A B : Type 0} (m : Action A) (f : A → Action B)
    → IsPreliminary m
    → ((a : A) → IsPreliminary (f a))
    → IsPreliminary (m >>= f)
bind-IsPreliminary {A} m f first later = record {
  keeps = λ calls. (split calls (m calls) (first.keeps calls) (first.mild calls)).0;
  mild = λ calls. (split calls (m calls) (first.keeps calls) (first.mild calls)).1;
}
  where
    split :
        (calls : List Call) (r : Result PaymentError A × List Call)
        → settlements r.1 ≡ settlements calls
        → ((e : PaymentError) → r.0 ≡ err e → e.terminal ≡ false)
        → (settlements (continue r.0 f r.1).1 ≡ settlements calls)
          × ((e : PaymentError) → (continue r.0 f r.1).0 ≡ err e → e.terminal ≡ false)
    split calls (ok a, t) same mild = ((later a).keeps t ∙ same, (later a).mild t)
    split calls (err x, t) same mild = (same, λ e h. mild e (ground arith))

raise_if-IsPreliminary :
    (test : Bool) (x : PaymentError) → x.terminal ≡ false → IsPreliminary (raise_if test x)
raise_if-IsPreliminary true x mild = record {
  keeps = λ calls. refl;
  mild = λ calls e h. ground arith;
}
raise_if-IsPreliminary false x mild = record {
  keeps = λ calls. refl;
  mild = λ calls e h. absurd (cc);
}

raise-IsPreliminary :
    {A : Type 0} (x : PaymentError) → x.terminal ≡ false → IsPreliminary {A = A} (raise x)
raise-IsPreliminary x mild = record { keeps = λ calls. refl; mild = λ calls e h. ground arith }

pure-IsPreliminary : {A : Type 0} (a : A) → IsPreliminary (pure a)
pure-IsPreliminary a = record { keeps = λ calls. refl; mild = λ calls e h. absurd (cc) }

-- A result that is no terminal error.
abbrev IsMild : {A : Type 0} → Result PaymentError A → Type 0
IsMild r = (e : PaymentError) → r ≡ err e → e.terminal ≡ false

lift-IsPreliminary : {A : Type 0} (r : Result PaymentError A) → IsMild r → IsPreliminary (lift r)
lift-IsPreliminary r mild = record { keeps = λ calls. refl; mild = λ calls. mild }

required-IsMild :
    {A : Type 0} (o : Option A) (k : A → Result PaymentError Canonical)
    → ((a : A) → IsMild (k a))
    → IsMild (required o k)
required-IsMild none k mild e h = ground arith
required-IsMild (some a) k mild e h = mild a e h

canonical_of-IsMild :
    (r : Requirements) (a : Authorization) (payer pay_to nonce value : Text)
    → IsMild (canonical_of r a payer pay_to nonce value)
unfolding canonical_of
canonical_of-IsMild r a payer pay_to nonce value =
    elim (Bool-cases (not (lower pay_to == lower r.pay_to) || not (value == r.amount))) [
      | inl other ↦ rw other (λ e h. ground arith)
      | inr same ↦ rw same (
          required-IsMild (decimal_field a.valid_after) _ λ valid_after.
            required-IsMild (decimal_field a.valid_before) _ λ valid_before e h. absurd (cc))
    ]

canonical-IsMild : (r : Requirements) (a : Option Authorization) → IsMild (canonical r a)
unfolding canonical
canonical-IsMild r a = required-IsMild a _ λ a'. required-IsMild (address_field a'.from) _ λ payer.
    required-IsMild (address_field a'.to) _ λ pay_to.
      required-IsMild (hash_field a'.nonce) _ λ nonce.
        required-IsMild (decimal_field a'.value) _
          λ value. canonical_of-IsMild r a' payer pay_to nonce value

hashed-IsMild :
    (sha256 : Text → Text) (dumps : Canonical → Text) (x : Result PaymentError Canonical)
    → IsMild x
    → IsMild (hashed sha256 dumps x)
unfolding hashed
hashed-IsMild sha256 dumps (ok c) mild e h = absurd (cc)
hashed-IsMild sha256 dumps (err x) mild e h = mild e (ground arith)

fingerprint-IsMild :
    (sha256 : Text → Text) (dumps : Canonical → Text) (p : Payload) (r : Requirements)
    → IsMild (authorization_fingerprint sha256 dumps p r)
unfolding authorization_fingerprint
fingerprint-IsMild sha256 dumps p r =
    hashed-IsMild sha256 dumps (canonical r p.authorization) (canonical-IsMild r p.authorization)

payload_of-IsPreliminary : (d : Decoded) → IsPreliminary (payload_of d)
unfolding payload_of
payload_of-IsPreliminary undecodable = raise-IsPreliminary _ refl
payload_of-IsPreliminary other_version = raise-IsPreliminary _ refl
payload_of-IsPreliminary (decoded p) = pure-IsPreliminary _

identifier_of-IsPreliminary : (o : Option Text) → IsPreliminary (identifier_of o)
unfolding identifier_of
identifier_of-IsPreliminary none = raise-IsPreliminary _ refl
identifier_of-IsPreliminary (some t) = pure-IsPreliminary _

check_window-IsPreliminary :
    (c : Config) (now valid_after valid_before : Option ℕ)
    → IsPreliminary (check_window c now valid_after valid_before)
unfolding check_window
check_window-IsPreliminary c (some n) (some a) (some b) =
    raise_if-IsPreliminary (is_outside c n a b) _ refl
check_window-IsPreliminary c none (some a) (some b) = raise-IsPreliminary _ refl
check_window-IsPreliminary c none none b = raise-IsPreliminary _ refl
check_window-IsPreliminary c none (some a) none = raise-IsPreliminary _ refl
check_window-IsPreliminary c (some n) none b = raise-IsPreliminary _ refl
check_window-IsPreliminary c (some n) (some a) none = raise-IsPreliminary _ refl

read_header-IsPreliminary :
    (lib : Library) (signature : Text) (identifier : Option Text)
    → IsPreliminary (read_header lib signature identifier)
unfolding read_header
read_header-IsPreliminary lib signature identifier = record {
  keeps = λ calls. ground arith;
  mild = λ calls e h. ground arith;
}

check_terms-IsPreliminary :
    (lib : Library) (c : Config) (r : Requirements) (now : Option ℕ) (p : Payload) (i : Text)
    → IsPreliminary (check_terms lib c r now p i)
unfolding check_terms
check_terms-IsPreliminary lib c r now p i = record {
  keeps = λ calls. ground arith;
  mild = λ calls e h. ground (arith, fingerprint-IsMild lib.sha256 lib.dumps p r e);
}

examine-IsPreliminary :
    (lib : Library) (c : Config) (r : Requirements) (now : Option ℕ) (signature : Text)
    (identifier : Option Text)
    → IsPreliminary (examine lib c r now signature identifier)
unfolding examine
examine-IsPreliminary lib c r now signature identifier =
    bind-IsPreliminary (read_header lib signature identifier) (λ x. check_terms lib c r now x.0 x.1)
      (read_header-IsPreliminary lib signature identifier)
      λ x. check_terms-IsPreliminary lib c r now x.0 x.1

confirm-IsPreliminary :
    (lib : Library) (signature : Text) (x : Examined) (v : Verification)
    → IsPreliminary (confirm lib signature x v)
unfolding confirm
confirm-IsPreliminary lib signature x v = record {
  keeps = λ calls. ground arith;
  mild = λ calls e h. ground arith;
}

-- A facilitator whose verification raises no terminal error.
abbrev pub VerifiesMildly : Facilitator → Type 0
VerifiesMildly f =
    (p : Payload) (r : Requirements) (e : PaymentError)
    → f.verify p r ≡ raised e
    → e.terminal ≡ false

ask-IsPreliminary :
    (f : Facilitator) (p : Payload) (r : Requirements)
    → VerifiesMildly f
    → IsPreliminary (ask f p r)
unfolding ask
ask-IsPreliminary f p r mild = record {
  keeps = λ calls. refl;
  mild = λ calls. answer (f.verify p r) refl;
}
  where
    answer :
        (a : Reply Verification)
        → f.verify p r ≡ a
        → IsMild (elim a [
          | returned v ↦ ok v
          | raised e ↦ err e
          | failed ↦
              err (
                unavailable "FACILITATOR_UNAVAILABLE" "payment verifier is temporarily unavailable")
        ])
    answer (returned v) same e h = absurd (cc)
    answer (raised x) same e h = ground (arith, mild p r x same)
    answer failed same e h = ground arith

require_enabled-IsPreliminary : (c : Config) → IsPreliminary (require_enabled c)
unfolding require_enabled
require_enabled-IsPreliminary c = elim (Bool-cases c.enabled) [
  | inl on ↦ rw on (pure-IsPreliminary _)
  | inr off ↦ rw off (raise-IsPreliminary _ refl)
]

pub verify-IsPreliminary :
    (lib : Library) (f : Facilitator) (c : Config) (now : Option ℕ) (signature : Text)
    (identifier : Option Text)
    → VerifiesMildly f
    → IsPreliminary (verify lib f c now signature identifier)
unfolding verify
verify-IsPreliminary lib f c now signature identifier mild =
    bind-IsPreliminary _ _ (require_enabled-IsPreliminary c) λ r.
      bind-IsPreliminary _ _ (examine-IsPreliminary lib c r now signature identifier) λ x.
        bind-IsPreliminary _ _ (ask-IsPreliminary f x.payload r mild)
          λ v. confirm-IsPreliminary lib signature x v

bind-settlements :
    {A B : Type 0} (m : Action A) (f : A → Action B)
    → ((calls : List Call) → settlements (m calls).1 ≡ settlements calls)
    → ((a : A) (calls : List Call) → settlements (f a calls).1 ≡ settlements calls)
    → (calls : List Call) → settlements ((m >>= f) calls).1 ≡ settlements calls
bind-settlements {A} m f first later calls = split (m calls) (first calls)
  where
    split :
        (r : Result PaymentError A × List Call)
        → settlements r.1 ≡ settlements calls
        → settlements (continue r.0 f r.1).1 ≡ settlements calls
    split (ok a, t) same = later a t ∙ same
    split (err x, t) same = same

-- Whatever the facilitator raises, the verification of a payment submits no settlement.
pub verify-settlements :
    (lib : Library) (f : Facilitator) (c : Config) (now : Option ℕ) (signature : Text)
    (identifier : Option Text) (calls : List Call)
    → settlements (verify lib f c now signature identifier calls).1 ≡ settlements calls
unfolding verify ask
verify-settlements lib f c now signature identifier =
    bind-settlements (require_enabled c) _ (require_enabled-IsPreliminary c).keeps λ r.
      bind-settlements (examine lib c r now signature identifier) _
        (examine-IsPreliminary lib c r now signature identifier).keeps
        λ x.
          bind-settlements (ask f x.payload r) _ (λ calls. refl)
            λ v. (confirm-IsPreliminary lib signature x v).keeps
