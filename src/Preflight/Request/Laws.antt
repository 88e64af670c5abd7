-- ===== src/Preflight/Request/Laws.antt =====
-- A call is bound to the one function of the ABI that its selector names, and refused otherwise.
use lucent.Prelude.{
  ℕ, ◌≤◌, Text, false, Option, none, ltb, ◌||◌, ◌==◌, lower, In, filter_sound, In-filter, codes_eq,
  nat_eq, any_sound, any_complete, some, List, [], ◌∷◌, true, ok, ◌≡◌, ◌↔◌, inl, inr, refl, sym, ap,
  ◌∙◌, arith,
}
use mathlib.Core.Path.{subst}
use lucent.Payments.Terms.{is_address}
use lucent.Preflight.Abi.{Function, signature, signable_functions}
use lucent.Preflight.Request.{
  is_selected, matches, only_match, resolve_call, Scalar, boolean, natural, negative, string, other,
  max_chain_id, normalize_chain_id, normalize_address, Deployment, deployment, no_object, is_same,
  is_deployed, deployment_matches,
}

-- The function is signable and has the selector of the call.
abbrev pub IsCalled : (Text → List ℕ) → List Function → List ℕ → Function → Type 0
IsCalled keccak abi calldata f =
    In f (signable_functions abi) × (is_selected keccak calldata f ≡ true)

only_match_sound :
    (fs : List Function) (f : Function) (s : Text)
    → only_match fs ≡ ok (f, s)
    → (fs ≡ f ∷ []) × (s ≡ signature f)
unfolding only_match
only_match_sound [] f s h = absurd (cc)
only_match_sound (g ∷ []) f s h =
    let e : ◌≡◌ {A = Function × Text} (g, signature g) (f, s) = cc in
    (
      ap (λ (p : Function × Text). p.0 ∷ []) e,
      sym (ap (λ (p : Function × Text). p.1) e) ∙ ap (λ (p : Function × Text). signature p.0) e,
    )
only_match_sound (g ∷ k ∷ fs) f s h = absurd (cc)

-- A call that is resolved names the signature of a signable function that has the selector of the
-- calldata, and no other signable function has it.
pub resolve_call_sound :
    (keccak : Text → List ℕ) (abi : List Function) (calldata : List ℕ) (f : Function) (s : Text)
    → resolve_call keccak abi calldata ≡ ok (f, s)
    → (s ≡ signature f)
      × (IsCalled keccak abi calldata f × ((g : Function) → IsCalled keccak abi calldata g → g ≡ f))
unfolding resolve_call
resolve_call_sound keccak abi calldata f s h =
    let (one, named) = only_match_sound (matches keccak abi calldata) f s h in
    (named, (called one, λ g k. only one g k))
  where
    called : matches keccak abi calldata ≡ f ∷ [] → IsCalled keccak abi calldata f
    called one =
        filter_sound (is_selected keccak calldata) f (signable_functions abi)
          (subst (λ xs. In f xs) (sym one) (inl refl))

    only :
        matches keccak abi calldata ≡ f ∷ []
        → (g : Function) → IsCalled keccak abi calldata g
        → g ≡ f
    only one g (inside, selected) =
        elim (subst (λ xs. In g xs) one
          (In-filter (is_selected keccak calldata) g (signable_functions abi) selected inside)) [
            | inl same ↦ same
            | inr h ↦ elim h [ ]
          ]

-- The deployment names the chain as an integer within bounds, and the address in any case of letters.
abbrev pub IsNamed : ℕ → Text → Deployment → Type 0
IsNamed chain_id address d =
    ((1 ≤ chain_id) × (chain_id ≤ max_chain_id))
    × ((at : Text) × ((◌≡◌ {A = Deployment} d (deployment (natural chain_id) (string at)))
          × ((is_address at ≡ true) × (lower at ≡ address))))

chain_read :
    (c : Scalar) (n : ℕ)
    → normalize_chain_id c ≡ some n
    → (c ≡ natural n) × ((1 ≤ n) × (n ≤ max_chain_id))
unfolding normalize_chain_id
chain_read (natural m) n h = (ground (arith, h), ground (arith, h))
chain_read (boolean b) n h = absurd (cc)
chain_read (negative m) n h = absurd (cc)
chain_read (string t) n h = absurd (cc)
chain_read other n h = absurd (cc)

address_read :
    (a : Scalar) (address : Text)
    → normalize_address a ≡ some address
    → (at : Text) × ((a ≡ string at) × ((is_address at ≡ true) × (lower at ≡ address)))
unfolding normalize_address
address_read (string t) address h = (t, (refl, (ground (arith, h), ground (arith, h))))
address_read (natural m) address h = absurd (cc)
address_read (boolean b) address h = absurd (cc)
address_read (negative m) address h = absurd (cc)
address_read other address h = absurd (cc)

same_read :
    (chain_id : ℕ) (address : Text) (c : Option ℕ) (a : Option Text)
    → is_same chain_id address c a ≡ true
    → (c ≡ some chain_id) × (a ≡ some address)
same_read chain_id address (some n) (some t) h = (
  ground (arith, h, nat_eq.same_iff n chain_id),
  ap (λ x. some x) ((codes_eq.same_iff t address).0 (ground (arith, h))),
)
same_read chain_id address (some n) none h = absurd (cc)
same_read chain_id address none a h = absurd (cc)

named_here :
    (chain_id : ℕ) (address at : Text)
    → 1 ≤ chain_id
    → chain_id ≤ max_chain_id
    → is_address at ≡ true
    → lower at ≡ address
    → is_deployed chain_id address (deployment (natural chain_id) (string at)) ≡ true
unfolding is_deployed normalize_chain_id normalize_address
named_here chain_id address at low high well_formed lowered =
    let small : (ltb chain_id 1 || ltb max_chain_id chain_id) ≡ false = ground arith in
    let chain_same : (chain_id == chain_id) ≡ true = (nat_eq.same_iff chain_id chain_id).1 refl in
    rw (small, well_formed, chain_same) ((codes_eq.same_iff (lower at) address).1 lowered)

is_deployed_iff :
    (chain_id : ℕ) (address : Text) (d : Deployment)
    → (is_deployed chain_id address d ≡ true) ↔ IsNamed chain_id address d
unfolding is_deployed
is_deployed_iff chain_id address no_object =
    (λ h. absurd (cc), λ (bounds, (at, (e, r))). absurd (cc))
is_deployed_iff chain_id address (deployment chain a) = (
  λ h.
      let (c, t) = same_read chain_id address (normalize_chain_id chain) (normalize_address a) h in
      let (on_chain, bounds) = chain_read chain chain_id c in
      let (at, (named, rest)) = address_read a address t in
      (
        bounds,
        (at, (ap (λ x. deployment x a) on_chain ∙ ap (deployment (natural chain_id)) named, rest)),
      ),
  λ (bounds, (at, (e, (well_formed, lowered)))).
      ap (is_deployed chain_id address) e
      ∙ named_here chain_id address at bounds.0 bounds.1 well_formed lowered,
)

-- A call is bound to a descriptor exactly when the chain of the call is within bounds and one of the
-- descriptor's deployments names it as an integer, with a well-formed address that is the call's but
-- for the case of letters; deployments that are malformed do not count.
pub deployment_matches_iff :
    (deployments : List Deployment) (chain_id : ℕ) (address : Text)
    → (deployment_matches (some deployments) chain_id address ≡ true)
      ↔ ((d : Deployment) × (In d deployments × IsNamed chain_id address d))
unfolding deployment_matches
deployment_matches_iff deployments chain_id address = (
  λ h.
      let (d, (inside, passes)) = any_sound (is_deployed chain_id address) deployments h in
      (d, (inside, (is_deployed_iff chain_id address d).0 passes)),
  λ (d, (inside, named)).
      any_complete (is_deployed chain_id address) d deployments inside
        ((is_deployed_iff chain_id address d).1 named),
)
