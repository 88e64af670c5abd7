-- ===== src/Preflight/Comprehension/Refined.antt =====
-- lucent/preflight.py, `_apply_call_dependent_comprehension`: a comprehension refined by the exact
-- arguments of the call.
use lucent.Prelude.{
  Text, lower, occurs, codes, codes_eq, String, Option, none, some, List, [], ◌∷◌, ◌++◌, Bool, true,
  false, not, if◌then◌else◌, ◌==◌,
}
use lucent.Preflight.Abi.{Function}
use lucent.Preflight.Arguments.{
  Value, boolean, shown, Argument, first_bool, is_withdrawn, first_typed, first_address,
}
use lucent.Preflight.Comprehension.{tier, Comprehension, first_of}
use lucent.Preflight.Danger.{critical, low}

-- 2^256 - 1 in decimal
abbrev pub uint256_max : String
uint256_max = "115792089237316195423570985008687907853269984665640564039457584007913129639935"

-- `by_name.get("spender")`, where the last argument of a name stays
unfoldable pub by_name : Text → List Argument → Option Argument
by_name name [] = none
by_name name (x ∷ xs) =
    let later = by_name name xs in first_of later (if lower x.name == name then some x else none)

abbrev pub name_or : String → Option Argument → Text
name_or default none = codes default
name_or default (some x) = x.name

abbrev pub is_shown : Value → String → Bool
is_shown (boolean b) s = false
is_shown (shown t) s = t == codes s

unfoldable pub revoked : String → Text → Comprehension → Comprehension
revoked reason sentence c = record c {
  tier_of = tier low;
  revocation = true;
  reason = reason;
  sentence = sentence;
}

abbrev pub unlimited : Comprehension → Comprehension
unlimited c = record c {
  tier_of = tier critical;
  unlimited_approval = true;
  reason =
      "the calldata grants the maximum uint256 allowance, allowing the spender to pull tokens until the approval is changed or revoked";
}

-- the amount of `approve`, unless it is the id of a token
unfoldable pub allowance : Option Argument → Option Value
allowance none = none
allowance (some x) = if occurs (codes "tokenid") (lower x.name) then none else some x.value

unfoldable pub refine_allowance : Option Value → List Argument → Comprehension → Comprehension
unfolding by_name revoked
refine_allowance none decoded c = c
refine_allowance (some amount) decoded c =
    if is_shown amount "0"
    then revoked "sets the fungible-token allowance to zero, revoking future spending"
        (codes "You revoke {"
          ++ name_or "spender"
              (first_of (by_name (codes "spender") decoded) (first_address decoded))
          ++ codes "}'s token allowance.")
        c
    else if not (is_shown amount uint256_max)
    then c
    else unlimited c

unfoldable pub apply_call_dependent_comprehension :
    Function → List Argument → Comprehension → Comprehension
unfolding revoked allowance refine_allowance
apply_call_dependent_comprehension f decoded c =
    if lower f.name == codes "setapprovalforall"
    then (if is_withdrawn (first_bool decoded)
        then revoked "removes an operator's collection-wide transfer authority"
            (codes "You revoke {"
              ++ name_or "operator" (first_address decoded)
              ++ codes "}'s authority over all tokens.")
            c
        else c)
    else if not (lower f.name == codes "approve")
    then c
    else refine_allowance (allowance (first_typed (codes "uint") decoded)) decoded c
