-- ===== src/Preflight/Arguments.antt =====
-- lucent/preflight.py: the decoded arguments of a call, and what the call-dependent rules read of
-- them.
use lucent.Prelude.{
  Text, starts_with, codes, codes_eq, Option, none, some, List, [], ◌∷◌, Bool, false, not,
  if◌then◌else◌, ◌==◌,
}

-- A decoded argument: a value is a Boolean or what is shown of it.
pub data Value : Type 0 where
  boolean : Bool → Value
  shown : Text → Value

pub record Argument : Type 0 where
  pub name : Text
  pub abi_type : Text
  pub value : Value

-- `next((item for item in decoded if item["type"] == "bool"), None)`
abbrev pub first_bool : List Argument → Option Argument
first_bool [] = none
first_bool (x ∷ xs) = if x.abi_type == codes "bool" then some x else first_bool xs

-- `approved and approved["value"] is False`
abbrev pub is_withdrawn : Option Argument → Bool
is_withdrawn none = false
is_withdrawn (some x) = elim x.value [ boolean b ↦ not b | shown t ↦ false ]

-- The first argument whose type starts so.
abbrev pub first_typed : Text → List Argument → Option Argument
first_typed prefix [] = none
first_typed prefix (x ∷ xs) =
    if starts_with prefix x.abi_type then some x else first_typed prefix xs

-- The first argument of type address.
abbrev pub first_address : List Argument → Option Argument
first_address [] = none
first_address (x ∷ xs) = if x.abi_type == codes "address" then some x else first_address xs
