-- ===== src/Preflight/Abi.antt =====
-- scripts/common.py, the ABI utilities: canonical types, signatures and the functions that a user
-- can sign. An ABI entry is one that the checks of `validate_abi` and
-- `_validate_selected_function` let through, so its names and types are there and are ASCII.
use lucent.Prelude.{
  Text, starts_with, join, codes, filter, Option, none, some, List, [], ◌∷◌, ◌++◌, map, Bool, true,
  false, not, ◌&&◌, ◌||◌, if◌then◌else◌, ◌==◌, string_eq, String,
}

-- An input has a name, a type and the components of a tuple.
mutual
  pub data Input : Type 0 where
    input : Text → Text → Components → Input

  pub data Components : Type 0 where
    no_components : Components
    component : Input → Components → Components

abbrev pub name_of : Input → Text
name_of (input name type _) = name

abbrev pub type_of : Input → Text
type_of (input name type _) = type

pub data EntryType : Type 0 where
  function_entry : EntryType
  event_entry : EntryType
  other_entry : EntryType

pub record Function : Type 0 where
  pub entry_type : EntryType
  pub name : Text
  pub inputs : List Input
  pub state_mutability : Option String
  pub payable : Option Bool

-- `t[len('tuple'):]`
abbrev pub drop_five : Text → Text
drop_five (a ∷ b ∷ c ∷ d ∷ e ∷ rest) = rest
drop_five _ = []

unfoldable mutual
  pub canonical_type : Input → Text
  canonical_type (input name type parts) =
      if starts_with (codes "tuple") type
      then codes "(" ++ join (codes ",") (canonical_types parts) ++ codes ")" ++ drop_five type
      else type

  pub canonical_types : Components → List Text
  canonical_types no_components = []
  canonical_types (component i rest) = canonical_type i ∷ canonical_types rest

unfoldable pub signature : Function → Text
unfolding canonical_type
signature f = f.name ++ codes "(" ++ join (codes ",") (map canonical_type f.inputs) ++ codes ")"

abbrev pub is_function : EntryType → Bool
is_function function_entry = true
is_function _ = false

-- `stateMutability not in VIEW`
abbrev pub may_change : Option String → Bool
may_change none = true
may_change (some m) = not (m == "view" || m == "pure")

unfoldable pub signable_functions : List Function → List Function
signable_functions abi = filter (λ f. is_function f.entry_type && may_change f.state_mutability) abi
