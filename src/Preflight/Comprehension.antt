-- ===== src/Preflight/Comprehension.antt =====
-- scripts/comprehend.py, `classify`: the consequence of a function, its tier and its sentence; and
-- what lucent/preflight.py refines in it from the arguments of the call.
pub mod Refined
pub mod Laws
use lucent.Prelude.{
  Text, lower, starts_with, occurs, any, codes, codes_eq, string_eq, String, Option, none, some,
  List, [], ◌∷◌, ◌++◌, Bool, true, false, not, ◌&&◌, ◌||◌, if◌then◌else◌, ◌==◌,
}
use lucent.Preflight.Abi.{Input, name_of, type_of, Function, canonical_type}
use lucent.Preflight.Arguments.{
  Value, boolean, shown, Argument, first_bool, is_withdrawn, first_typed, first_address,
}
use lucent.Preflight.Danger.{Severity, critical, high, medium, low, among, mentions}

-- The tier of a comprehension result.
pub data Tier : Type 0 where
  tier : Severity → Tier
  info : Tier

pub record Comprehension : Type 0 where
  pub tier_of : Tier
  pub reason : String
  pub sentence : Text
  pub unlimited_approval : Bool
  pub revocation : Bool

-- `tier in ("CRITICAL", "HIGH")`
abbrev pub is_consequential : Tier → Bool
is_consequential (tier critical) = true
is_consequential (tier high) = true
is_consequential _ = false

pub record Field : Type 0 where
  pub path : Option Text
  pub format : Option String
  pub visible : Option String

-- A format of the descriptor, as far as `classify` reads it.
pub record Format : Type 0 where
  pub intent : Option String
  pub interpolated_intent : Option String
  pub fields : List Field

-- the first input whose canonical type starts so and whose name holds the hint
unfoldable pub has_input : Text → Text → List Input → Option Input
unfolding canonical_type
has_input prefix hint [] = none
has_input prefix hint (i ∷ inputs) =
    if starts_with prefix (canonical_type i) && occurs (lower hint) (lower (name_of i))
    then some i
    else has_input prefix hint inputs

abbrev pub is_some {ℓ} : {A : Type ℓ} → Option A → Bool
is_some none = false
is_some (some a) = true

-- `x or y`, of two optional values
abbrev pub first_of {ℓ} : {A : Type ℓ} → Option A → Option A → Option A
first_of none y = y
first_of (some x) y = some x

-- `lbl`
unfoldable pub lbl : Text → Text → Text
lbl [] default = codes "{" ++ default ++ codes "}"
lbl (c ∷ leaf) default = codes "{" ++ (c ∷ leaf) ++ codes "}"

-- how an optional input is named in the sentence
abbrev pub named : Option Input → String → String → Text
unfolding lbl
named none default absent = codes absent
named (some i) default absent = lbl (name_of i) (codes default)

abbrev pub ends_with : Text → Text → Bool
ends_with suffix [] = suffix == []
ends_with suffix (c ∷ t) = suffix == c ∷ t || ends_with suffix t

-- `fields.get(path)` in the dictionary from paths to fields, where the last field of a path stays
unfoldable pub field_at : Text → List Field → Option Field
field_at path [] = none
field_at path (f ∷ fields) =
    let later = field_at path fields in
    first_of later (elim f.path [ some p ↦ if p == path then some f else none | none ↦ none ])

abbrev pub is_named : Option String → String → Bool
is_named none s = false
is_named (some t) s = t == s

-- The field does not show an address by name.
abbrev pub shown_raw : Option Field → Bool
shown_raw none = true
shown_raw (some f) = is_named f.visible "never" || not (is_named f.format "addressName")

unfoldable pub recipient_shown_raw : Function → Option Format → Bool
unfolding canonical_type has_input field_at
recipient_shown_raw f none = is_some (has_input (codes "address") [] f.inputs)
recipient_shown_raw f (some fmt) =
    any
      (λ i.
        starts_with (codes "address") (canonical_type i)
        && shown_raw (field_at (codes "#." ++ name_of i) fmt.fields))
      f.inputs

abbrev pub result : Severity → String → Text → Comprehension
result severity reason sentence = record {
  tier_of = tier severity;
  reason = reason;
  sentence = sentence;
  unlimited_approval = false;
  revocation = false;
}

unfoldable pub classify_operator : Function → Comprehension
unfolding has_input
classify_operator f =
    result critical
      "grants operator control over your ENTIRE collection/balance, not a single asset — the approval persists until you revoke it"
      (codes "You let "
        ++ named (has_input (codes "address") [] f.inputs) "operator" "an operator"
        ++ codes " transfer ANY of your tokens in this contract, at any time, until you revoke it.")

-- the amount of an approval is the id of a token
abbrev pub names_token : Option Input → Bool
names_token none = false
names_token (some i) = occurs (codes "tokenid") (lower (name_of i))

unfoldable pub classify_approval : Function → Comprehension
unfolding has_input
classify_approval f =
    let amount = has_input (codes "uint") [] f.inputs in
    let who = named (has_input (codes "address") [] f.inputs) "spender" "a spender" in
    if names_token amount
    then result high
        "grants control of ONE specific NFT (by token id) to the approved address — they can transfer that NFT out of your wallet until you revoke it"
        (codes "You let "
          ++ who
          ++ codes " take the NFT with id "
          ++ named amount "token id" ""
          ++ codes " from your wallet, until you revoke it.")
    else result high
        "an ERC-20 allowance lets the spender pull tokens from YOUR wallet later, without another signature — check for an UNLIMITED amount, the single most-exploited drainer pattern"
        (codes "You let "
          ++ who
          ++ codes " spend up to "
          ++ named amount "amount" "an amount"
          ++ codes " of your tokens on your behalf, until you change or revoke it.")

unfoldable pub classify_control : Function → Comprehension
classify_control f =
    result critical
      "changes WHO controls the contract or WHAT code runs — a consequence far beyond moving your own funds"
      (codes "You change the control or code of the contract ("
        ++ f.name
        ++ codes "), affecting everyone who uses it.")

unfoldable pub classify_permit : Function → Comprehension
unfolding has_input
classify_permit f =
    let spender =
      first_of (has_input (codes "address") (codes "spend") f.inputs)
        (has_input (codes "address") [] f.inputs) in
    result high
      "a permit is an OFF-CHAIN approval — no transaction appears in your history, so it is easy to grant and forget"
      (codes "You sign an off-chain approval letting "
        ++ named spender "spender" "a spender"
        ++ codes " spend your tokens — it takes effect with no transaction from you.")

abbrev pub name_or_empty : Option Input → Text
name_or_empty none = []
name_or_empty (some i) = name_of i

unfoldable pub classify_transfer : Function → Option Format → Bool → Comprehension
unfolding has_input lbl recipient_shown_raw
classify_transfer f fmt payable =
    let to =
      first_of (has_input (codes "address") (codes "to") f.inputs)
        (has_input (codes "address") [] f.inputs) in
    let amount =
      first_of (has_input (codes "uint") (codes "amount") f.inputs)
        (has_input (codes "uint") [] f.inputs) in
    let amt = lbl (if payable then codes "@value" else name_or_empty amount) (codes "amount") in
    let sentence =
      codes "You send "
      ++ amt
      ++ codes " to "
      ++ named to "recipient" "a recipient"
      ++ codes " now." in
    if recipient_shown_raw f fmt
    then result high
        "moves value out of your wallet now — verify the recipient is who you expect; the recipient is shown as RAW HEX, which is unreadable and the exact surface address-poisoning attacks exploit"
        sentence
    else result medium "moves value out of your wallet now — verify the recipient is who you expect"
        sentence

-- a text that is there and not empty
abbrev pub is_given : Option String → Bool
is_given none = false
is_given (some s) = not (s == "")

abbrev pub has_intent : Option Format → Bool
has_intent none = false
has_intent (some fmt) = is_given fmt.intent || is_given fmt.interpolated_intent

unfoldable pub classify_other : Function → Option Format → Comprehension
classify_other f fmt =
    if has_intent fmt
    then result high
        "Lucent has not classified this function's consequence; caller-authored intent cannot substitute for policy semantics"
        (codes "You call " ++ f.name ++ codes "; Lucent has not classified its consequence.")
    else result high
        "unclassified consequence AND no intent on the screen — the human has nothing to understand the action from (an unexplained screen is worse than none: it invites blind approval)"
        (codes "You call " ++ f.name ++ codes " — the screen does not explain what this does.")

-- the tests of `classify`, in its order
unfoldable pub is_operator_grant : Function → Bool
unfolding has_input
is_operator_grant f =
    lower f.name == codes "setapprovalforall"
    || (occurs (codes "approval") (lower f.name) && is_some (has_input (codes "bool") [] f.inputs))

unfoldable pub is_approval : Function → Bool
is_approval f =
    among ("approve" ∷ "increaseallowance" ∷ []) (lower f.name)
    || ends_with (codes "approve") (lower f.name)

unfoldable pub is_control : Function → Bool
is_control f =
    mentions
      ("upgrade" ∷ "setimplementation" ∷ "setadmin" ∷ "transferownership" ∷ "setowner" ∷ "grantrole"
        ∷ [])
      (lower f.name)

unfoldable pub is_permit : Function → Bool
is_permit f = occurs (codes "permit") (lower f.name)

abbrev pub is_payable_now : Function → Bool
is_payable_now f = is_named f.state_mutability "payable"

unfoldable pub is_transfer : Function → Bool
is_transfer f =
    occurs (codes "transfer") (lower f.name)
    || among ("send" ∷ "withdraw" ∷ []) (lower f.name)
    || is_payable_now f

unfoldable pub classify : Function → Option Format → Comprehension
unfolding classify_operator classify_approval classify_control classify_permit classify_transfer
    classify_other is_operator_grant is_approval is_control is_permit is_transfer
classify f fmt =
    if is_operator_grant f
    then classify_operator f
    else if is_approval f
    then classify_approval f
    else if is_control f
    then classify_control f
    else if is_permit f
    then classify_permit f
    else if is_transfer f
    then classify_transfer f fmt (is_payable_now f)
    else classify_other f fmt
