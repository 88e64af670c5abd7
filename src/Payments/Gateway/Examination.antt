-- ===== src/Payments/Gateway/Examination.antt =====
-- What the checks before the facilitator is asked have found.
use lucent.Prelude.{
  ℕ, ◌+◌, ◌*◌, ◌≤◌, ◌<◌, Text, codes, codes_eq, Option, none, some, List, ◌++◌, Bool, true, false,
  not, ◌==◌, Result, ok, err, lift, bind_ok, guard_ok, lift_ok, pure_ok, ◌≡◌, inl, inr, refl, sym,
  ap, ◌∙◌, arith, Bool-cases,
}
use mathlib.Core.Path.{subst}
use lucent.Payments.Errors.{PaymentError}
use lucent.Payments.Terms.{
  Requirements, same_terms, Payload, Canonical, canonical, hashed, authorization_fingerprint,
}
use lucent.Payments.Gateway.{
  Config, Library, Call, second, is_resource, differs, integer_of, is_outside, check_window,
  Examined, read_header, check_terms, examine, Decoded, undecodable, other_version, decoded,
  is_malformed, payload_of, identifier_of,
}

-- Seconds on the authorization's side, nanoseconds on the clock's: it is valid now, and expires
-- within the server's timeout.
abbrev pub IsInWindow : Config → ℕ → ℕ → ℕ → Type 0
IsInWindow c now valid_after valid_before =
    (valid_after * second ≤ now)
    × ((now < valid_before * second)
        × (valid_before * second ≤ now + c.max_timeout_seconds * second))

-- What the examination of a payload has found.
pub record IsExamined (lib : Library) (c : Config) (r : Requirements) (now : Option ℕ) (p : Payload)
    (fingerprint : Text) : Type 0 where
  pub terms : same_terms p.accepted r ≡ true
  pub resource : is_resource p.resource c.resource_url ≡ true
  pub authorized :
      (k : Canonical) × ((canonical r p.authorization ≡ ok k)
        × (fingerprint ≡ codes "sha256:" ++ lib.sha256 (lib.dumps k)))
  pub window :
      (n : ℕ) × ((now ≡ some n)
        × ((valid_after : ℕ) × ((integer_of p.authorization (λ a. a.valid_after) ≡ some valid_after)
              × ((valid_before : ℕ) × ((integer_of p.authorization (λ a. a.valid_before)
                      ≡ some valid_before)
                    × IsInWindow c n valid_after valid_before)))))

pub not-false : (b : Bool) → not b ≡ false → b ≡ true
not-false b h = ground arith

is_outside_window : (c : Config) (n a b : ℕ) → is_outside c n a b ≡ false → IsInWindow c n a b
unfolding is_outside
is_outside_window c n a b h = ground arith

check_window_ok :
    (c : Config) (now a b : Option ℕ) (calls : List Call) (u : Unit {0}) (t : List Call)
    → check_window c now a b calls ≡ (ok u, t)
    → (t ≡ calls)
      × ((n : ℕ) × ((now ≡ some n)
            × ((m : ℕ) × ((a ≡ some m) × ((k : ℕ) × ((b ≡ some k) × IsInWindow c n m k))))))
unfolding check_window
check_window_ok c (some n) (some m) (some k) calls u t h = elim (Bool-cases (is_outside c n m k)) [
  | inl out ↦ absurd (let it = rw out at h in cc)
  | inr inside ↦
      let it = rw inside at h in
      (cc, (n, (refl, (m, (refl, (k, (refl, is_outside_window c n m k inside)))))))
]
check_window_ok c none (some m) (some k) calls u t h = absurd (cc)
check_window_ok c none none b calls u t h = absurd (cc)
check_window_ok c none (some m) none calls u t h = absurd (cc)
check_window_ok c (some n) none b calls u t h = absurd (cc)
check_window_ok c (some n) (some m) none calls u t h = absurd (cc)

hashed_ok :
    (sha256 : Text → Text) (dumps : Canonical → Text) (x : Result PaymentError Canonical) (t : Text)
    → hashed sha256 dumps x ≡ ok t
    → (k : Canonical) × ((x ≡ ok k) × (t ≡ codes "sha256:" ++ sha256 (dumps k)))
unfolding hashed
hashed_ok sha256 dumps (ok k) t h = (k, (refl, cc))
hashed_ok sha256 dumps (err e) t h = absurd (cc)

fingerprint_ok :
    (lib : Library) (r : Requirements) (p : Payload) (t : Text)
    → authorization_fingerprint lib.sha256 lib.dumps p r ≡ ok t
    → (k : Canonical) × ((canonical r p.authorization ≡ ok k)
        × (t ≡ codes "sha256:" ++ lib.sha256 (lib.dumps k)))
unfolding authorization_fingerprint
fingerprint_ok lib r p t h = hashed_ok lib.sha256 lib.dumps (canonical r p.authorization) t h

check_terms_ok :
    (lib : Library) (c : Config) (r : Requirements) (now : Option ℕ) (p : Payload) (i : Text)
    (calls : List Call) (x : Examined) (t : List Call)
    → check_terms lib c r now p i calls ≡ (ok x, t)
    → (t ≡ calls)
      × ((fingerprint : Text) × ((x
              ≡ record { payload = p; identifier = i; fingerprint = fingerprint })
            × IsExamined lib c r now p fingerprint))
unfolding check_terms
check_terms_ok lib c r now p i calls x t h =
    let (same, h1) = guard_ok (not (same_terms p.accepted r)) _ _ calls h in
    let (at_url, h2) = guard_ok (not (is_resource p.resource c.resource_url)) _ _ calls h1 in
    let (fingerprint, (s, (made, h3))) =
      bind_ok (lift (authorization_fingerprint lib.sha256 lib.dumps p r)) _ calls h2 in
    let (u, (s', (timed, h4))) =
      bind_ok
        (check_window c now (integer_of p.authorization (λ a. a.valid_after))
          (integer_of p.authorization (λ a. a.valid_before)))
        _ s h3 in
    let (kept, window) =
      check_window_ok c now (integer_of p.authorization (λ a. a.valid_after))
        (integer_of p.authorization (λ a. a.valid_before)) s u s' timed in
    let (hash, first) = lift_ok (authorization_fingerprint lib.sha256 lib.dumps p r) calls made in
    let (all, last) =
      pure_ok {E = PaymentError} (record { payload = p; identifier = i; fingerprint = fingerprint })
        s' h4 in
    (
      last ∙ kept ∙ first,
      (
        fingerprint,
        (
          all,
          record {
            terms = not-false (same_terms p.accepted r) same;
            resource = not-false (is_resource p.resource c.resource_url) at_url;
            authorized = fingerprint_ok lib r p fingerprint hash;
            window = window;
          },
        ),
      ),
    )

-- The identifier of a proof is the one that is expected, if one is.
abbrev pub IsExpected : Option Text → Text → Type 0
IsExpected none identifier = Unit
IsExpected (some expected) identifier = identifier ≡ expected

differs-IsExpected : (o : Option Text) (t : Text) → differs o t ≡ false → IsExpected o t
differs-IsExpected none t h = tt
differs-IsExpected (some u) t h = (codes_eq.same_iff t u).0 (not-false (t == u) h)

payload_of_ok :
    (d : Decoded) (calls : List Call) (p : Payload) (t : List Call)
    → payload_of d calls ≡ (ok p, t)
    → (d ≡ decoded p) × (t ≡ calls)
unfolding payload_of
payload_of_ok undecodable calls p t h = absurd (cc)
payload_of_ok other_version calls p t h = absurd (cc)
payload_of_ok (decoded q) calls p t h = let (e, s) = pure_ok q calls h in (ap decoded (sym e), s)

identifier_of_ok :
    (o : Option Text) (calls : List Call) (i : Text) (t : List Call)
    → identifier_of o calls ≡ (ok i, t)
    → (o ≡ some i) × (t ≡ calls)
unfolding identifier_of
identifier_of_ok none calls i t h = absurd (cc)
identifier_of_ok (some j) calls i t h = let (e, s) = pure_ok j calls h in (ap some (sym e), s)

read_header_ok :
    (lib : Library) (signature : Text) (expected : Option Text) (calls : List Call)
    (x : Payload × Text) (t : List Call)
    → read_header lib signature expected calls ≡ (ok x, t)
    → (t ≡ calls)
      × ((lib.decode_header signature ≡ decoded x.0)
          × ((lib.valid_identifier x.0 ≡ some x.1) × IsExpected expected x.1))
unfolding read_header
read_header_ok lib signature expected calls x t h =
    let (well_formed, h1) = guard_ok (is_malformed signature) _ _ calls h in
    let (base64, h2) = guard_ok (not (lib.is_base64 signature)) _ _ calls h1 in
    let (p, (s, (has_payload, h3))) =
      bind_ok (payload_of (lib.decode_header signature)) _ calls h2 in
    let (i, (s', (has_identifier, h4))) = bind_ok (identifier_of (lib.valid_identifier p)) _ s h3 in
    let (expects, h5) = guard_ok (differs expected i) _ _ s' h4 in
    let (all, last) = pure_ok (p, i) s' h5 in
    let (made, first) = payload_of_ok (lib.decode_header signature) calls p s has_payload in
    let (named, next) = identifier_of_ok (lib.valid_identifier p) s i s' has_identifier in
    (
      last ∙ next ∙ first,
      subst
          (λ (y : Payload × Text).
            (lib.decode_header signature ≡ decoded y.0)
            × ((lib.valid_identifier y.0 ≡ some y.1) × IsExpected expected y.1))
          (sym all) (made, (named, differs-IsExpected expected i expects)),
    )

pub examine_ok :
    (lib : Library) (c : Config) (r : Requirements) (now : Option ℕ) (signature : Text)
    (expected : Option Text) (calls : List Call) (x : Examined) (t : List Call)
    → examine lib c r now signature expected calls ≡ (ok x, t)
    → (p : Payload) × ((i : Text) × ((fingerprint : Text) × ((x
              ≡ record { payload = p; identifier = i; fingerprint = fingerprint })
            × ((t ≡ calls)
                × ((lib.decode_header signature ≡ decoded p)
                    × ((lib.valid_identifier p ≡ some i)
                        × (IsExpected expected i × IsExamined lib c r now p fingerprint)))))))
unfolding examine
examine_ok lib c r now signature expected calls x t h =
    let (y, (s, (read, h1))) =
      bind_ok (read_header lib signature expected) (λ y. check_terms lib c r now y.0 y.1) calls h in
    let (first, (header, (named, expects))) =
      read_header_ok lib signature expected calls y s read in
    let (last, (fingerprint, (all, ex))) = check_terms_ok lib c r now y.0 y.1 s x t h1 in
    (y.0, (y.1, (fingerprint, (all, (last ∙ first, (header, (named, (expects, ex))))))))

pub IsExamined-fingerprint :
    {lib : Library} {c : Config} {r : Requirements} {now : Option ℕ} {p : Payload}
    {fingerprint : Text}
    → IsExamined lib c r now p fingerprint
    → authorization_fingerprint lib.sha256 lib.dumps p r ≡ ok fingerprint
unfolding authorization_fingerprint hashed
IsExamined-fingerprint x = let (k, (made, hash)) = x.authorized in rw (made, hash) refl
