-- ===== src/Payments/Config/Laws.antt =====
-- What the settings of enabled payments are.
use lucent.Prelude.{
  ℕ, ◌+◌, ◌-◌, ◌*◌, ◌≤◌, Text, codes, codes_eq, ltb, length, String, Option, none, some, [], ◌∷◌,
  Bool, true, false, not, if◌then◌else◌, ◌==◌, Result, ok, err, ◌≡◌, refl, arith,
}
use mathlib.Core.Path.{subst}
use lucent.Payments.Terms.{is_address, max_str_digits}
use lucent.Payments.Gateway.{digits_value, second, is_accepted}
use lucent.Payments.Config.{
  base_mainnet, base_mainnet_usdc, max_price_atomic, Settings, Url, refuse, after, strict_bool,
  is_positive_decimal, is_bad_token, is_allowed_host, in_range, facilitator_timeout,
  with_facilitator, checked_terms, server_https_url, enabled_settings, from_env, or_empty,
  or_default, disabled_settings,
}
use lucent.Payments.Gateway.Examination.{not-false}

module _ {A : Type 0} where
  refuse_ok :
      (b : Bool) (why : String) (r : Result String A) {a : A}
      → refuse b why r ≡ ok a
      → (b ≡ false) × (r ≡ ok a)
  refuse_ok true why r h = absurd (cc)
  refuse_ok false why r h = (refl, h)

  after_ok :
      {B : Type 0} (r : Result String A) (f : A → Result String B) {b : B}
      → after r f ≡ ok b
      → (a : A) × ((r ≡ ok a) × (f a ≡ ok b))
  after_ok (ok a) f h = (a, (refl, h))
  after_ok (err why) f h = absurd (cc)

digits_value-le : (acc : ℕ) (t : Text) → acc ≤ digits_value acc t
digits_value-le acc [] = omega arith
digits_value-le acc (c ∷ t) = omega (arith, digits_value-le (acc * 10 + (c - b'0')) t)

positive_value : (t : Text) → is_positive_decimal t ≡ true → 1 ≤ digits_value 0 t
positive_value [] h = absurd (cc)
positive_value (c ∷ t) h =
    let le = digits_value-le (0 * 10 + (c - b'0')) t in
    let first : 49 ≤ c = ground (arith, h) in omega (arith, le, first)

-- The settings of payments that are enabled: on Base, in USDC, to an address, at a positive price of
-- at most 100 USDC, in terms that the gateway accepts, for a resource, with an allowed facilitator
-- whose time limit is one to fifteen seconds, and a token, if there is one, of visible ASCII.
pub record IsConfigured (urlsplit : Text → Result String Url) (env : String → Option Text)
    (s : Settings) : Type 0 where
  pub network : s.terms.network ≡ base_mainnet
  pub asset : s.terms.asset ≡ base_mainnet_usdc
  pub payee : is_address s.terms.pay_to ≡ true
  pub price :
      (1 ≤ digits_value 0 s.terms.amount) × (digits_value 0 s.terms.amount ≤ max_price_atomic)
  pub accepted : is_accepted s.terms ≡ true
  pub resource : (url : Text) × (s.terms.resource_url ≡ some url)
  pub facilitator :
      (url : Text) × (u : Url) × ((s.facilitator_url ≡ some url)
        × ((urlsplit url ≡ ok u)
            × (is_allowed_host u.hostname (or_empty (env "LUCENT_X402_ALLOWED_FACILITATOR_HOSTS"))
                ≡ true)))
  pub timeout : (second ≤ s.facilitator_timeout) × (s.facilitator_timeout ≤ 15 * second)
  pub token : is_bad_token s.bearer_token ≡ false

timeout_ok :
    (o : Option (Option ℕ)) (n : ℕ)
    → facilitator_timeout o ≡ ok n
    → (second ≤ n) × (n ≤ 15 * second)
unfolding facilitator_timeout
timeout_ok (some (some m)) n h =
    let (inside, same) =
      refuse_ok (not (in_range (some m) second (15 * second)))
        "LUCENT_X402_FACILITATOR_TIMEOUT must be between 1 and 15 seconds" (ok m) h in
    ground arith
timeout_ok (some none) n h = absurd (cc)
timeout_ok none n h = absurd (cc)

checked_terms_ok :
    (network pay_to amount : Text) (u : Unit {0})
    → checked_terms network pay_to amount ≡ ok u
    → (network ≡ base_mainnet)
      × ((is_address pay_to ≡ true)
          × ((is_positive_decimal amount ≡ true) × (digits_value 0 amount ≤ max_price_atomic)))
unfolding checked_terms
checked_terms_ok network pay_to amount u h =
    let (on_base, h1) = refuse_ok (not (network == base_mainnet)) _ _ h in
    let (address, h2) = refuse_ok (not (is_address pay_to)) _ _ h1 in
    let (decimal, h3) = refuse_ok (not (is_positive_decimal amount)) _ _ h2 in
    let (short, h4) = refuse_ok (ltb max_str_digits (length amount)) _ _ h3 in
    let (cheap, h5) = refuse_ok (ltb max_price_atomic (digits_value 0 amount)) _ _ h4 in
    (
      (codes_eq.same_iff network base_mainnet).0 (not-false (network == base_mainnet) on_base),
      (
        not-false (is_address pay_to) address,
        (not-false (is_positive_decimal amount) decimal, ground (arith, cheap)),
      ),
    )

module _ (urlsplit : Text → Result String Url) (shown : Text → String)
    (urlunsplit : Text → Text → Text) (float : Text → Option (Option ℕ))
    (env : String → Option Text) where
  enabled_settings-IsConfigured :
      (network pay_to amount : Text) (s : Settings)
      → enabled_settings urlsplit shown urlunsplit float env network pay_to amount ≡ ok s
      → IsConfigured urlsplit env s
  unfolding enabled_settings with_facilitator is_accepted
  enabled_settings-IsConfigured network pay_to amount s h =
      let (u, (checked, h1)) = after_ok (checked_terms network pay_to amount) _ h in
      let (on_base, (address, (decimal, cheap))) =
        checked_terms_ok network pay_to amount u checked in
      let (resource, (made, h2)) =
        after_ok
          (server_https_url urlsplit shown urlunsplit float
            (or_empty (env "LUCENT_X402_RESOURCE_URL")) "LUCENT_X402_RESOURCE_URL"
            (some (codes "/v1/preflight")))
          _ h1 in
      let (url, (made', h3)) =
        after_ok
          (server_https_url urlsplit shown urlunsplit float
            (or_empty (env "LUCENT_X402_FACILITATOR_URL")) "LUCENT_X402_FACILITATOR_URL" none)
          _ h2 in
      let (u', (split, h3')) = after_ok (urlsplit url) _ h3 in
      let (allowed, h4) =
        refuse_ok
          (not
            (is_allowed_host u'.hostname (or_empty (env "LUCENT_X402_ALLOWED_FACILITATOR_HOSTS"))))
          _ _ h3' in
      let (timeout, (timed, h5)) =
        after_ok
          (facilitator_timeout
            (float (or_default (env "LUCENT_X402_FACILITATOR_TIMEOUT") (codes "8"))))
          _ h4 in
      let (token, h6) =
        refuse_ok (is_bad_token (env "LUCENT_X402_FACILITATOR_BEARER_TOKEN")) _ _ h5 in
      subst (IsConfigured urlsplit env) (ok_settings h6) (record {
        network = on_base;
        asset = refl;
        payee = address;
        price = (positive_value amount decimal, cheap);
        accepted = refl;
        resource = (resource, refl);
        facilitator = (url, u', (refl, (split, not-false _ allowed)));
        timeout =
            timeout_ok (float (or_default (env "LUCENT_X402_FACILITATOR_TIMEOUT") (codes "8")))
              timeout timed;
        token = token;
      })
    where
      ok_settings : {x y : Settings} → ◌≡◌ {A = Result String Settings} (ok x) (ok y) → x ≡ y
      ok_settings e = cc

  -- Settings that are read with payments enabled are configured: Base, USDC, an address, a positive
  -- price of at most 100 USDC, terms that the gateway's constructor accepts, a resource, an allowed
  -- facilitator, a time limit of one to fifteen seconds, and a token of visible ASCII, if any.
  pub from_env-IsConfigured :
      (s : Settings)
      → from_env urlsplit shown urlunsplit float env ≡ ok s
      → s.terms.enabled ≡ true
      → IsConfigured urlsplit env s
  unfolding from_env
  from_env-IsConfigured s h on =
      let (enabled, (read, h1)) = after_ok (strict_bool (env "LUCENT_X402_ENABLED") false) _ h in
      by_switch enabled h1
    where
      by_switch :
          (enabled : Bool)
          → (if enabled
              then enabled_settings urlsplit shown urlunsplit float env
                  (or_default (env "LUCENT_X402_NETWORK") base_mainnet)
                  (or_empty (env "LUCENT_X402_PAY_TO"))
                  (or_default (env "LUCENT_X402_AMOUNT") (codes "10000"))
              else ok disabled_settings)
            ≡ ok s
          → IsConfigured urlsplit env s
      by_switch true k =
          enabled_settings-IsConfigured (or_default (env "LUCENT_X402_NETWORK") base_mainnet)
            (or_empty (env "LUCENT_X402_PAY_TO"))
            (or_default (env "LUCENT_X402_AMOUNT") (codes "10000")) s k
      by_switch false k = absurd (cc)
