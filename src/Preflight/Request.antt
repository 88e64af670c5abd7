-- ===== src/Preflight/Request.antt =====
-- lucent/preflight.py: how the bytes of a call are bound to one function of the ABI, and its chain and
-- address to a deployment of the descriptor. The hash of a signature is a parameter.
pub mod Laws
use lucent.Prelude.{
  ℕ, zero, suc, ltb, ◌||◌, lower, Text, any, filter, codes_eq, nat_eq, String, Option, none, some,
  List, [], ◌∷◌, Bool, true, false, ◌&&◌, if◌then◌else◌, ◌==◌, Result, ok, err,
}
use lucent.Payments.Terms.{is_address}
use lucent.Preflight.Abi.{Function, signature, signable_functions}

-- `PreflightInputError`, by its code
pub data InputError : Type 0 where
  input_error : String → InputError

-- `data[:4]`
abbrev pub first_four : List ℕ → List ℕ
first_four (a ∷ b ∷ c ∷ d ∷ rest) = a ∷ b ∷ c ∷ d ∷ []
first_four short = short

module _ (keccak : Text → List ℕ) where
  -- The selector of the function is that of the call.
  abbrev pub is_selected : List ℕ → Function → Bool
  is_selected calldata f = first_four (keccak (signature f)) == first_four calldata

  unfoldable pub matches : List Function → List ℕ → List Function
  matches abi calldata = filter (is_selected calldata) (signable_functions abi)

-- one match, with its signature
unfoldable pub only_match : List Function → Result InputError (Function × Text)
only_match [] = err (input_error "UNKNOWN_SELECTOR")
only_match (f ∷ []) = ok (f, signature f)
only_match (f ∷ g ∷ fs) = err (input_error "SELECTOR_COLLISION")

unfoldable pub resolve_call :
    (Text → List ℕ) → List Function → List ℕ → Result InputError (Function × Text)
unfolding matches only_match
resolve_call keccak abi calldata = only_match (matches keccak abi calldata)

-- A value of the descriptor, as far as a deployment's chain and address are read from it; `other` is
-- any value that is neither a boolean, an integer nor a text, and stands for an absent one too.
pub data Scalar : Type 0 where
  boolean : Bool → Scalar
  natural : ℕ → Scalar
  negative : ℕ → Scalar
  string : Text → Scalar
  other : Scalar

-- `common.MAX_CHAIN_ID`
abbrev pub max_chain_id : ℕ
max_chain_id = 9_223_372_036_854_775_807

-- `common.normalize_chain_id`, with nothing for a `ValueError`
unfoldable pub normalize_chain_id : Scalar → Option ℕ
normalize_chain_id (natural n) = if ltb n 1 || ltb max_chain_id n then none else some n
normalize_chain_id _ = none

-- `common.normalize_address`, with nothing for a `ValueError`; `common.ADDRESS_RE` is the expression
-- of the payments
unfoldable pub normalize_address : Scalar → Option Text
normalize_address (string t) = if is_address t then some (lower t) else none
normalize_address _ = none

-- A deployment, by its `chainId` and `address`, or a value that is no object.
pub data Deployment : Type 0 where
  deployment : Scalar → Scalar → Deployment
  no_object : Deployment

-- one round of the loop of `_deployment_matches`, on what the two functions make of the deployment
abbrev pub is_same : ℕ → Text → Option ℕ → Option Text → Bool
is_same chain_id address (some dep_chain) (some dep_address) =
    dep_chain == chain_id && dep_address == address
is_same chain_id address _ _ = false

unfoldable pub is_deployed : ℕ → Text → Deployment → Bool
unfolding normalize_chain_id normalize_address
is_deployed chain_id address (deployment chain at) =
    is_same chain_id address (normalize_chain_id chain) (normalize_address at)
is_deployed chain_id address no_object = false

-- `_deployment_matches`; the deployments are absent where the descriptor has no list of them.
unfoldable pub deployment_matches : Option (List Deployment) → ℕ → Text → Bool
unfolding is_deployed
deployment_matches none chain_id address = false
deployment_matches (some deployments) chain_id address =
    any (is_deployed chain_id address) deployments
