-- ===== src/Payments/Config.antt =====
-- lucent/payments.py, `PaymentConfig.from_env`: the settings of the payments are read from the
-- environment, which is a function from names. The parsing of a URL and of a float are parameters.
-- White space and letters are those of ASCII, and a duration is nanoseconds.
pub mod Laws
use lucent.Prelude.{
  ℕ, ◌+◌, ◌-◌, ◌*◌, Text, lower, codes, codes_eq, nat_beq, nat_eq, ltb, leb, length, String, Option,
  none, some, List, [], ◌∷◌, ◌++◌, Bool, true, false, not, ◌&&◌, ◌||◌, if◌then◌else◌, ◌==◌, Result,
  ok, err,
}
use lucent.Payments.Errors.{about}
use lucent.Payments.Terms.{is_address, all_digits, max_str_digits}
use lucent.Payments.Gateway.{Config, digits_value, second}

abbrev pub base_mainnet : Text
base_mainnet = codes "eip155:8453"

abbrev pub base_mainnet_usdc : Text
base_mainnet_usdc = codes "0x833589fCD6eDb6E08f4c7C32D4f71b54bdA02913"

abbrev pub default_allowed_facilitator_hosts : List Text
default_allowed_facilitator_hosts = codes "api.cdp.coinbase.com" ∷ codes "x402.org" ∷ []

abbrev pub max_price_atomic : ℕ
max_price_atomic = 100_000_000

-- `PaymentConfig`, with the part that the gateway reads
pub record Settings : Type 0 where
  pub terms : Config
  pub facilitator_url : Option Text
  pub bearer_token : Option Text
  pub facilitator_timeout : ℕ

-- The result of `urllib.parse.urlsplit`: `port` is absent where there is none, and the text of the
-- error where reading it raises one.
pub record Url : Type 0 where
  pub scheme : Text
  pub netloc : Text
  pub hostname : Option Text
  pub username : Option Text
  pub password : Option Text
  pub port : Result String (Option ℕ)
  pub path : Text
  pub query : Text
  pub fragment : Text

module _ {ℓ} {A : Type ℓ} where
  -- A test that raises, and what comes after it.
  abbrev pub refuse : Bool → String → Result String A → Result String A
  refuse true why rest = err why
  refuse false why rest = rest

  abbrev pub after {κ} : {B : Type κ} → Result String A → (A → Result String B) → Result String B
  after (ok a) f = f a
  after (err why) f = err why

abbrev is_space : ℕ → Bool
is_space c = nat_beq c 32 || (leb 9 c && leb c 13) || (leb 28 c && leb c 31)

abbrev drop_spaces : Text → Text
drop_spaces [] = []
drop_spaces (c ∷ t) = if is_space c then drop_spaces t else c ∷ t

abbrev trimmed_cons : ℕ → Text → Text
trimmed_cons c [] = if is_space c then [] else c ∷ []
trimmed_cons c (d ∷ t) = c ∷ d ∷ t

abbrev trim_end : Text → Text
trim_end [] = []
trim_end (c ∷ t) = trimmed_cons c (trim_end t)

-- `str.strip`
abbrev pub stripped : Text → Text
stripped t = trim_end (drop_spaces t)

abbrev pub one_of : Text → List Text → Bool
one_of t [] = false
one_of t (u ∷ us) = t == u || one_of t us

-- `_strict_bool`
unfoldable pub strict_bool : Option Text → Bool → Result String Bool
strict_bool none default = ok default
strict_bool (some value) default =
    let normalized = lower (stripped value) in
    if one_of normalized (codes "1" ∷ codes "true" ∷ codes "yes" ∷ codes "on" ∷ [])
    then ok true
    else if one_of normalized (codes "0" ∷ codes "false" ∷ codes "no" ∷ codes "off" ∷ [])
    then ok false
    else err "boolean setting must be true or false"

-- an optional text that is there and not empty
abbrev is_given : Option Text → Bool
is_given none = false
is_given (some t) = not (nat_beq (length t) 0)

abbrev is_there : Option Text → Bool
is_there none = false
is_there (some t) = true

-- `parsed.port not in {None, 443}`
abbrev is_other_port : Option ℕ → Bool
is_other_port none = false
is_other_port (some n) = not (nat_beq n 443)

-- The test of `_server_https_url` on a parsed URL, before that of the port.
abbrev pub is_canonical : Url → Bool
is_canonical u =
    u.scheme == codes "https"
    && is_given u.hostname
    && not (is_there u.username)
    && not (is_there u.password)
    && nat_beq (length u.query) 0
    && nat_beq (length u.fragment) 0

abbrev slash_cons : ℕ → Text → Text
slash_cons c [] = if nat_beq c b'/' then [] else c ∷ []
slash_cons c (d ∷ t) = c ∷ d ∷ t

-- `path.rstrip("/")`
abbrev pub without_slashes : Text → Text
without_slashes [] = []
without_slashes (c ∷ t) = slash_cons c (without_slashes t)

-- A path, if one is wanted, is another one.
abbrev is_other_path : Option Text → Text → Bool
is_other_path none path = false
is_other_path (some wanted) path = not (path == wanted)

abbrev pub or_empty : Option Text → Text
or_empty none = []
or_empty (some t) = t

abbrev pub or_default : Option Text → Text → Text
or_default none t = t
or_default (some u) t = u

-- the amount in atomic units, `[1-9][0-9]*`
abbrev pub is_positive_decimal : Text → Bool
is_positive_decimal [] = false
is_positive_decimal (c ∷ t) = leb b'1' c && leb c b'9' && all_digits t

abbrev is_visible : Text → Bool
is_visible [] = true
is_visible (c ∷ t) = leb 33 c && leb c 126 && is_visible t

-- A bearer token that is empty, too long or not of visible ASCII.
abbrev pub is_bad_token : Option Text → Bool
is_bad_token none = false
is_bad_token (some t) = nat_beq (length t) 0 || ltb 8192 (length t) || not (is_visible t)

abbrev comma_cons : ℕ → List Text → List Text
comma_cons c [] = (c ∷ []) ∷ []
comma_cons c (t ∷ ts) = if nat_beq c b',' then [] ∷ t ∷ ts else (c ∷ t) ∷ ts

-- `text.split(",")`
abbrev pub split_commas : Text → List Text
split_commas [] = [] ∷ []
split_commas (c ∷ t) = comma_cons c (split_commas t)

-- `{item.strip().lower() for item in items if item.strip()}`
abbrev pub host_names : List Text → List Text
host_names [] = []
host_names (t ∷ ts) =
    if nat_beq (length (stripped t)) 0 then host_names ts else lower (stripped t) ∷ host_names ts

-- The host is one of the built-in ones, or of the configured ones.
abbrev pub is_allowed_host : Option Text → Text → Bool
is_allowed_host none hosts = false
is_allowed_host (some host) hosts =
    one_of (lower host) (default_allowed_facilitator_hosts ++ host_names (split_commas hosts))

abbrev pub disabled_settings : Settings
disabled_settings = record {
  terms = record {
    enabled = false;
    network = base_mainnet;
    asset = base_mainnet_usdc;
    amount = codes "10000";
    pay_to = [];
    resource_url = none;
    max_timeout_seconds = 300;
  };
  facilitator_url = none;
  bearer_token = none;
  facilitator_timeout = 8 * second;
}

-- A float that is not a number, or is negative or infinite, is out of every range.
abbrev pub in_range : Option ℕ → ℕ → ℕ → Bool
in_range none low high = false
in_range (some n) low high = leb low n && leb n high

-- `float(...)` and the test of its range
unfoldable pub facilitator_timeout : Option (Option ℕ) → Result String ℕ
facilitator_timeout (some (some n)) =
    refuse (not (in_range (some n) second (15 * second)))
      "LUCENT_X402_FACILITATOR_TIMEOUT must be between 1 and 15 seconds" (ok n)
facilitator_timeout (some none) =
    err "LUCENT_X402_FACILITATOR_TIMEOUT must be between 1 and 15 seconds"
facilitator_timeout none = err "LUCENT_X402_FACILITATOR_TIMEOUT must be numeric"

-- the tests of the network, the payee and the amount
unfoldable pub checked_terms : Text → Text → Text → Result String (Unit {0})
checked_terms network pay_to amount =
    refuse (not (network == base_mainnet)) "LUCENT_X402_NETWORK must be eip155:8453" (
      refuse (not (is_address pay_to)) "LUCENT_X402_PAY_TO must be a 20-byte EVM address" (
        refuse (not (is_positive_decimal amount))
          "LUCENT_X402_AMOUNT must be a positive atomic-unit integer"
          (refuse (ltb max_str_digits (length amount))
            "Exceeds the limit (4300 digits) for integer string conversion"
            (refuse (ltb max_price_atomic (digits_value 0 amount))
              "LUCENT_X402_AMOUNT exceeds the 100 USDC safety ceiling" (ok tt)))))

module _ (urlsplit : Text → Result String Url) (shown : Text → String)
    (urlunsplit : Text → Text → Text) (float : Text → Option (Option ℕ)) where
  -- the text of the error about the path
  abbrev wrong_path : String → Option Text → String
  wrong_path setting none = about setting " must end at None"
  wrong_path setting (some path) = about setting (about " must end at " (shown path))

  -- the tests of a parsed URL; a text that does not parse has the error of the library
  unfoldable pub canonical_url : Result String Url → String → Option Text → Result String Text
  canonical_url (err why) setting path = err why
  canonical_url (ok u) setting path =
      refuse (not (is_canonical u))
        (about setting " must be a canonical HTTPS URL without credentials")
        (after u.port λ port.
          refuse (is_other_port port)
            (about setting " must be a canonical HTTPS URL without credentials")
            (refuse (is_other_path path u.path) (wrong_path setting path)
              (ok (urlunsplit u.netloc (without_slashes u.path)))))

  -- `_server_https_url`
  unfoldable pub server_https_url : Text → String → Option Text → Result String Text
  unfolding canonical_url
  server_https_url value setting path =
      refuse (nat_beq (length value) 0 || ltb 2048 (length value))
        (about setting " must be a non-empty HTTPS URL")
        (canonical_url (urlsplit value) setting path)

  module _ (env : String → Option Text) where
    -- the settings of the facilitator, once the terms are read
    unfoldable pub with_facilitator : Config → Text → Result String Settings
    unfolding facilitator_timeout
    with_facilitator terms url = after (urlsplit url) λ u.
        refuse
          (not
            (is_allowed_host u.hostname (or_empty (env "LUCENT_X402_ALLOWED_FACILITATOR_HOSTS"))))
          "LUCENT_X402_FACILITATOR_URL host is not allowlisted"
          (after
            (facilitator_timeout
              (float (or_default (env "LUCENT_X402_FACILITATOR_TIMEOUT") (codes "8"))))
            λ timeout.
              refuse (is_bad_token (env "LUCENT_X402_FACILITATOR_BEARER_TOKEN"))
                "LUCENT_X402_FACILITATOR_BEARER_TOKEN must be bounded visible ASCII"
                (ok (record {
                  terms = terms;
                  facilitator_url = some url;
                  bearer_token = env "LUCENT_X402_FACILITATOR_BEARER_TOKEN";
                  facilitator_timeout = timeout;
                })))

    -- `from_env`, with payments enabled
    unfoldable pub enabled_settings : Text → Text → Text → Result String Settings
    unfolding checked_terms server_https_url with_facilitator
    enabled_settings network pay_to amount = after (checked_terms network pay_to amount) λ _.
        after
          (server_https_url (or_empty (env "LUCENT_X402_RESOURCE_URL")) "LUCENT_X402_RESOURCE_URL"
            (some (codes "/v1/preflight")))
          λ resource_url.
            after
              (server_https_url (or_empty (env "LUCENT_X402_FACILITATOR_URL"))
                "LUCENT_X402_FACILITATOR_URL" none)
              λ facilitator_url.
                with_facilitator
                  (record {
                    enabled = true;
                    network = network;
                    asset = base_mainnet_usdc;
                    amount = amount;
                    pay_to = pay_to;
                    resource_url = some resource_url;
                    max_timeout_seconds = 300;
                  })
                  facilitator_url

    -- `PaymentConfig.from_env`
    unfoldable pub from_env : Result String Settings
    unfolding strict_bool enabled_settings
    from_env = after (strict_bool (env "LUCENT_X402_ENABLED") false) λ enabled.
        if enabled
        then enabled_settings (or_default (env "LUCENT_X402_NETWORK") base_mainnet)
            (or_empty (env "LUCENT_X402_PAY_TO"))
            (or_default (env "LUCENT_X402_AMOUNT") (codes "10000"))
        else ok disabled_settings
