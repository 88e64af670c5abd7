-- ===== src/Preflight/Danger.antt =====
-- scripts/danger.py: findings on the shape of a function, and their scan over an ABI.
pub mod Laws
use lucent.Prelude.{
  ℕ, Text, lower, starts_with, occurs, any, codes, codes_eq, String, Option, none, some, List, [],
  ◌∷◌, ◌++◌, map, Bool, true, false, not, ◌&&◌, ◌||◌, if◌then◌else◌, leb, length, ◌==◌, filter,
}
use lucent.Preflight.Abi.{Input, name_of, type_of, Function, canonical_type, signable_functions}

pub data Severity : Type 0 where
  critical : Severity
  high : Severity
  medium : Severity
  low : Severity

-- `SEV_ORDER.index(severity)`; no finding of this module is LOW
abbrev pub rank : Severity → ℕ
rank critical = 0
rank high = 1
rank medium = 2
rank low = 3

abbrev pub is_critical : Severity → Bool
is_critical critical = true
is_critical _ = false

pub record Finding : Type 0 where
  pub severity : Severity
  pub function : Text
  pub primitive : String
  pub why : String

-- One of the words.
abbrev pub among : List String → Text → Bool
among words t = any (λ w. codes w == t) words

-- One of the words occurs.
abbrev pub mentions : List String → Text → Bool
mentions words t = any (λ w. occurs (codes w) t) words

abbrev pub begins_with : List String → Text → Bool
begins_with words t = any (λ w. starts_with (codes w) t) words

abbrev pub call_words : List String
call_words =
    "execute" ∷ "exec" ∷ "multicall" ∷ "aggregate" ∷ "tryaggregate" ∷ "forward" ∷ "proxy" ∷ "call"
    ∷ "functioncall" ∷ "delegatecall" ∷ "dispatch" ∷ "relay" ∷ "batch" ∷ []

abbrev pub sweep_words : List String
sweep_words = "withdraw" ∷ "sweep" ∷ "drain" ∷ "rescue" ∷ "recover" ∷ "skim" ∷ "collect" ∷ []

abbrev pub admin_words : List String
admin_words =
    "transferownership" ∷ "setadmin" ∷ "setowner" ∷ "grantrole" ∷ "renounce" ∷ "setimplementation"
    ∷ []

abbrev pub target_names : List String
target_names = "target" ∷ "dest" ∷ "destination" ∷ "callee" ∷ "impl" ∷ "implementation" ∷ []

abbrev pub calldata_names : List String
calldata_names = "data" ∷ "calldata" ∷ "payload" ∷ "_data" ∷ "callback" ∷ "bytecode" ∷ []

abbrev pub receiver_hooks : List String
receiver_hooks =
    "onerc721received" ∷ "onerc1155received" ∷ "onerc1155batchreceived" ∷ "tokensreceived"
    ∷ "safetransferfrom" ∷ "safebatchtransferfrom" ∷ []

unfoldable pub types : Function → List Text
unfolding canonical_type
types f = map canonical_type f.inputs

unfoldable pub named_target_and_calldata : Function → Bool
named_target_and_calldata f =
    any (λ i. starts_with (codes "address") (type_of i) && among target_names (lower (name_of i)))
      f.inputs
    && any (λ i. type_of i == codes "bytes" && among calldata_names (lower (name_of i))) f.inputs

unfoldable pub is_call_fn : Function → Bool
is_call_fn f = begins_with call_words (lower f.name)

unfoldable pub multicall : Function → Bool
unfolding types
multicall f =
    any (λ t. t == codes "bytes[]") (types f)
    && mentions ("multicall" ∷ "aggregate" ∷ "batch" ∷ "execute" ∷ []) (lower f.name)

-- Some input is an address, or several.
unfoldable pub takes_address : Function → Bool
unfolding types
takes_address f = any (starts_with (codes "address")) (types f)

-- `if test: flag(severity, primitive, why)`
abbrev pub flag_if : Bool → Severity → Text → String → String → List Finding
flag_if false severity function primitive why = []
flag_if true severity function primitive why =
    record { severity = severity; function = function; primitive = primitive; why = why } ∷ []

-- arbitrary external call
unfoldable pub external_call : Function → List Finding
unfolding is_call_fn named_target_and_calldata multicall
external_call f =
    if among receiver_hooks (lower f.name)
    then []
    else if is_call_fn f || named_target_and_calldata f
    then flag_if true critical f.name "arbitrary-external-call"
        "declares an unbounded external call (call-family name or a target-address + calldata-blob signature) — the signer cannot bound its effect by reading the screen; the canonical wallet-drainer primitive. A clear sentence cannot make it safe."
    else flag_if (multicall f) critical f.name "multicall"
        "aggregates a bytes[] batch of raw calls — the combined effect is unbounded and cannot be summarised on one screen."

-- what `assess` looks for after the external call
unfoldable pub other_dangers : Function → List Finding
unfolding named_target_and_calldata takes_address
other_dangers f =
    let name = lower f.name in
    flag_if
      (mentions ("delegatecall" ∷ "delegate" ∷ []) name
        && occurs (codes "delegate") name
        && takes_address f)
      critical f.name "delegatecall"
      "name implies DELEGATECALL — runs foreign code in this contract's own storage/authority context; a compromised or swapped target owns everything."
    ++ flag_if
        (among ("selfdestruct" ∷ "kill" ∷ "destroy" ∷ "destruct" ∷ []) name
          || occurs (codes "selfdestruct") name)
        critical f.name "self-destruct"
        "reachable SELFDESTRUCT — can delete the contract and force-send its balance; irreversible."
    ++ flag_if
        (name == codes "upgradetoandcall"
          || (occurs (codes "upgrade") name && named_target_and_calldata f))
        critical f.name "upgrade-and-execute"
        "swaps the contract's code AND runs a call in one signature — the single most powerful action a proxy exposes."
    ++ flag_if (name == codes "setapprovalforall") high f.name "unbounded-delegation"
        "grants an operator control over ALL of the signer's assets in this contract until revoked."
    ++ flag_if (mentions admin_words name) high f.name "authority-transfer"
        "changes who controls the contract (ownership/admin/role) — affects every user, not just the signer's funds."
    ++ flag_if (mentions sweep_words name && takes_address f) medium f.name
        "value-sweep-to-arbitrary-address"
        "moves held value to a caller-supplied address — verify the destination is not attacker-controlled."

unfoldable pub assess : Function → List Finding
unfolding external_call other_dangers
assess f = external_call f ++ other_dangers f

-- One step of a stable sort by severity.
abbrev pub insert : Finding → List Finding → List Finding
insert x [] = x ∷ []
insert x (y ∷ ys) = if leb (rank x.severity) (rank y.severity) then x ∷ y ∷ ys else y ∷ insert x ys

-- `sort(key=SEV_ORDER.index(severity))`
abbrev pub sort : List Finding → List Finding
sort [] = []
sort (x ∷ xs) = insert x (sort xs)

abbrev pub worst_of : List Finding → Option Severity
worst_of [] = none
worst_of (x ∷ xs) = some x.severity

-- the findings of every signable function, in their order
unfoldable pub assess_all : List Function → List Finding
unfolding assess
assess_all [] = []
assess_all (f ∷ fs) = assess f ++ assess_all fs

pub record Scan : Type 0 where
  pub danger_findings : List Finding
  pub critical_count : ℕ
  pub worst_severity : Option Severity
  pub signable_count : ℕ

unfoldable pub scan_abi : List Function → Scan
unfolding signable_functions assess_all
scan_abi abi =
    let findings = sort (assess_all (signable_functions abi)) in
    record {
      danger_findings = findings;
      critical_count = length (filter (λ x. is_critical x.severity) findings);
      worst_severity = worst_of findings;
      signable_count = length (signable_functions abi);
    }
