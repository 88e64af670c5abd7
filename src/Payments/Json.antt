-- ===== src/Payments/Json.antt =====
-- lucent/payments.py, `_validate_facilitator_json`: the walk over a decoded answer of the
-- facilitator, with a stack. A number is a float that is finite or not, or an integer.
pub mod Laws
use lucent.Prelude.{
  ℕ, zero, suc, ◌+◌, Text, String, List, [], ◌∷◌, length, Bool, true, false, not, ◌&&◌, ◌||◌, ltb,
  leb, if◌then◌else◌, Result, ok, err,
}

abbrev pub max_facilitator_json_depth : ℕ
max_facilitator_json_depth = 32

abbrev pub max_facilitator_json_nodes : ℕ
max_facilitator_json_nodes = 20_000

abbrev pub max_facilitator_json_string : ℕ
max_facilitator_json_string = 65_536

-- A value of Python's `json`, or any other one. Of an object only the values are looked at.
mutual
  pub data Json : Type 0 where
    null : Json
    boolean : Bool → Json
    integer : Json
    float : Bool → Json
    string : Text → Json
    array : Items → Json
    object : Items → Json
    foreign : Json

  pub data Items : Type 0 where
    nil : Items
    cons : Json → Items → Items

-- The stack, its top first: values with their depth.
abbrev pub Stack : Type 0
Stack = List (Json × ℕ)

-- What the walk raises; `no_fuel` is the model's own.
pub data JsonError : Type 0 where
  structure_limit string_limit non_finite non_json no_fuel : JsonError

-- `stack.extend((child, depth) for child in items)`
unfoldable pub push_all : Items → ℕ → Stack → Stack
push_all nil depth stack = stack
push_all (cons x xs) depth stack = push_all xs depth ((x, depth) ∷ stack)

-- The stack after a value, or an error.
unfoldable pub visit : Json → ℕ → Stack → Result JsonError Stack
unfolding push_all
visit (string t) depth stack =
    if ltb max_facilitator_json_string (length t) then err string_limit else ok stack
visit (object items) depth stack = ok (push_all items (depth + 1) stack)
visit (array items) depth stack = ok (push_all items (depth + 1) stack)
visit null depth stack = ok stack
visit (boolean b) depth stack = ok stack
visit integer depth stack = ok stack
visit (float finite) depth stack = if finite then ok stack else err non_finite
visit foreign depth stack = err non_json

-- The loop, for `nodes` that have been popped.
unfoldable pub walk : ℕ → ℕ → Stack → Result JsonError (Unit {0})
unfolding visit
walk zero nodes stack = err no_fuel
walk (suc fuel) nodes [] = ok tt
walk (suc fuel) nodes ((item, depth) ∷ stack) =
    if ltb max_facilitator_json_nodes (nodes + 1) || ltb max_facilitator_json_depth depth
    then err structure_limit
    else elim (visit item depth stack) [ err e ↦ err e | ok rest ↦ walk fuel (nodes + 1) rest ]

-- `_validate_facilitator_json`: every round pops a node, and no more than the limit are popped.
unfoldable pub validate_facilitator_json : Json → Result JsonError (Unit {0})
unfolding walk
validate_facilitator_json value = walk (max_facilitator_json_nodes + 1) 0 ((value, 0) ∷ [])
