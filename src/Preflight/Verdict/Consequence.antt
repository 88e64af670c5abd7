-- ===== src/Preflight/Verdict/Consequence.antt =====
-- What a call that is safe to present can do, by its own name, inputs and arguments.
use lucent.Prelude.{
  ℕ, starts_with, codes, any_complete, Bool-cases, string_eq, String, Option, none, some, List,
  ◌++◌, true, false, ◌||◌, ◌&&◌, In, ◌≡◌, ◌⊎◌, inl, inr, refl, arith,
}
use lucent.Preflight.Abi.{Input, name_of, Function, canonical_type}
use lucent.Preflight.Arguments.{Argument}
use lucent.Preflight.Comprehension.{
  Field, Format, field_at, is_named, shown_raw, is_some, classify, is_operator_grant, is_approval,
  is_control, is_permit, is_transfer, recipient_shown_raw,
}
use lucent.Preflight.Comprehension.Refined.{apply_call_dependent_comprehension}
use lucent.Preflight.Comprehension.Laws.{
  IsShownTransfer, IsRevocation, apply_call_dependent_comprehension-calm,
}
use lucent.Preflight.Verdict.{Issue, safe_to_present, preflight_verdict}
use lucent.Preflight.Verdict.Laws.{preflight_verdict-safe_iff}

-- The format shows the input by name: the last field with its path has the format `addressName`, and
-- is not hidden.
abbrev pub IsShown : Format → Input → Type 0
IsShown fmt i =
    (field : Field) × ((field_at (codes "#." ++ name_of i) fmt.fields ≡ some field)
      × ((is_named field.format "addressName" ≡ true) × (is_named field.visible "never" ≡ false)))

-- The function is none of those that grant or change an authority, its name is that of a transfer or
-- it is payable, and every address among its inputs is shown by name.
pub record IsClearTransfer (f : Function) (fmt : Format) : Type 0 where
  pub no_authority : is_operator_grant f || is_approval f || is_control f || is_permit f ≡ false
  pub moves : is_transfer f ≡ true
  pub recipients :
      (i : Input)
      → In i f.inputs
      → starts_with (codes "address") (canonical_type i) ≡ true
      → IsShown fmt i

field_shown :
    (o : Option Field)
    → shown_raw o ≡ false
    → (field : Field) × ((o ≡ some field)
        × ((is_named field.format "addressName" ≡ true) × (is_named field.visible "never" ≡ false)))
field_shown none h = absurd (cc)
field_shown (some field) h = (field, (refl, (ground (arith, h), ground (arith, h))))

recipient_shown_raw-IsShown :
    (f : Function) (fmt : Format)
    → recipient_shown_raw f (some fmt) ≡ false
    → (i : Input) → In i f.inputs
    → starts_with (codes "address") (canonical_type i) ≡ true
    → IsShown fmt i
unfolding recipient_shown_raw
recipient_shown_raw-IsShown f fmt h i inside address =
    field_shown (field_at (codes "#." ++ name_of i) fmt.fields)
      (elim (Bool-cases (shown_raw (field_at (codes "#." ++ name_of i) fmt.fields))) [
        | inr clear ↦ clear
        | inl raw ↦ absurd (
            let found =
              any_complete
                (λ j.
                  starts_with (codes "address") (canonical_type j)
                  && shown_raw (field_at (codes "#." ++ name_of j) fmt.fields))
                i f.inputs inside (rw (address, raw) refl) in
            cc)
      ])

IsShownTransfer-IsClearTransfer :
    (f : Function) (fmt : Option Format)
    → is_some fmt ≡ true
    → IsShownTransfer f fmt
    → (g : Format) × ((fmt ≡ some g) × IsClearTransfer f g)
IsShownTransfer-IsClearTransfer f none given h = absurd (cc)
IsShownTransfer-IsClearTransfer f (some g) given (none_of, (moves, shown)) = (
  g,
  (
    refl,
    record {
      no_authority = none_of;
      moves = moves;
      recipients = recipient_shown_raw-IsShown f g shown;
    },
  ),
)

-- With the comprehension that the source computes from the function, its format and the arguments, a
-- call is safe to present only if its function neither grants nor changes an authority by its name,
-- has the name of a transfer or is payable, and shows every input of an address type by name in the
-- format; or if the call withdraws an operator or sets an allowance to zero: whatever the audit and
-- the binding say.
pub preflight_verdict-classify :
    (f : Function) (fmt : Option Format) (decoded : List Argument) (value : ℕ) (issues : List Issue)
    (unbound : List String)
    → (preflight_verdict f decoded value
        (is_some fmt)
        issues
        (apply_call_dependent_comprehension f decoded (classify f fmt))
        unbound).gate
      ≡ safe_to_present
    → ((g : Format) × ((fmt ≡ some g) × IsClearTransfer f g)) ⊎ IsRevocation f decoded
preflight_verdict-classify f fmt decoded value issues unbound safe =
    let c = apply_call_dependent_comprehension f decoded (classify f fmt) in
    let parts =
      (preflight_verdict-safe_iff f decoded value (is_some fmt) issues c unbound).0 safe in
    elim (apply_call_dependent_comprehension-calm f fmt decoded parts.0.1.1.1) [
      | inl transfer ↦ inl (IsShownTransfer-IsClearTransfer f fmt parts.0.0 transfer)
      | inr revocation ↦ inr revocation
    ]
