-- ===== src/Preflight/Comprehension/Laws.antt =====
-- Which calls are of little consequence: a plain transfer whose recipients are shown by name, and
-- the two kinds of revocation that the arguments show.
use lucent.Prelude.{
  lower, codes, codes_eq, string_eq, Option, none, some, List, [], Bool, true, false, not, ◌||◌,
  if◌then◌else◌, ◌==◌, ◌≡◌, ◌⊎◌, inl, inr, refl, sym, ap, ◌∙◌, Bool-cases,
}
use lucent.Preflight.Abi.{Function}
use lucent.Preflight.Arguments.{Value, Argument, first_bool, is_withdrawn, first_typed}
use lucent.Preflight.Comprehension.{
  is_consequential, Comprehension, Format, recipient_shown_raw, classify_operator,
  classify_approval, classify_control, classify_permit, classify_transfer, classify_other,
  is_operator_grant, is_approval, is_control, is_permit, is_transfer, classify, names_token,
  has_intent, has_input, is_payable_now,
}
use lucent.Preflight.Comprehension.Refined.{
  uint256_max, unlimited, is_shown, allowance, refine_allowance, apply_call_dependent_comprehension,
}

-- A function that is classified as a plain transfer, none of whose recipients is shown raw.
abbrev pub IsShownTransfer : Function → Option Format → Type 0
IsShownTransfer f fmt =
    (is_operator_grant f || is_approval f || is_control f || is_permit f ≡ false)
    × ((is_transfer f ≡ true) × (recipient_shown_raw f fmt ≡ false))

-- A call that takes an authority back.
abbrev pub IsRevocation : Function → List Argument → Type 0
IsRevocation f decoded =
    ((lower f.name == codes "setapprovalforall" ≡ true)
      × (is_withdrawn (first_bool decoded) ≡ true))
    ⊎ ((lower f.name == codes "approve" ≡ true)
        × ((amount : Value) × ((allowance (first_typed (codes "uint") decoded) ≡ some amount)
              × (is_shown amount "0" ≡ true))))

approval-tier : (f : Function) → is_consequential (classify_approval f).tier_of ≡ true
unfolding classify_approval
approval-tier f = elim (Bool-cases (names_token (has_input (codes "uint") [] f.inputs))) [
  | inl token ↦ rw token refl
  | inr amount ↦ rw amount refl
]

other-tier :
    (f : Function) (fmt : Option Format) → is_consequential (classify_other f fmt).tier_of ≡ true
unfolding classify_other
other-tier f fmt = elim (Bool-cases (has_intent fmt)) [
  | inl given ↦ rw given refl
  | inr absent ↦ rw absent refl
]

transfer-tier :
    (f : Function) (fmt : Option Format) (payable : Bool)
    → is_consequential (classify_transfer f fmt payable).tier_of ≡ recipient_shown_raw f fmt
unfolding classify_transfer
transfer-tier f fmt payable = elim (Bool-cases (recipient_shown_raw f fmt)) [
  | inl raw ↦ rw raw refl
  | inr clear ↦ rw clear refl
]

-- Of six results in the order of their tests, only the fifth can be of little consequence.
module _ (operator approval control permit transfer other : Comprehension)
    (loud1 : is_consequential operator.tier_of ≡ true)
    (loud2 : is_consequential approval.tier_of ≡ true)
    (loud3 : is_consequential control.tier_of ≡ true)
    (loud4 : is_consequential permit.tier_of ≡ true)
    (loud6 : is_consequential other.tier_of ≡ true) where
  chosen :
      (a b c d e : Bool)
      → is_consequential
          (if a
            then operator
            else if b
            then approval
            else if c
            then control
            else if d
            then permit
            else if e
            then transfer
            else other).tier_of
        ≡ false
      → (a || b || c || d ≡ false) × ((e ≡ true) × (is_consequential transfer.tier_of ≡ false))
  chosen true b c d e h = absurd (cc)
  chosen false true c d e h = absurd (cc)
  chosen false false true d e h = absurd (cc)
  chosen false false false true e h = absurd (cc)
  chosen false false false false true h = (refl, (refl, h))
  chosen false false false false false h = absurd (cc)

-- A function is of little consequence only if it is a plain transfer with no raw recipient.
classify-calm :
    (f : Function) (fmt : Option Format)
    → is_consequential (classify f fmt).tier_of ≡ false
    → IsShownTransfer f fmt
unfolding classify
classify-calm f fmt h =
    let (first, (fifth, calm)) =
      chosen (classify_operator f) (classify_approval f) (classify_control f) (classify_permit f)
        (classify_transfer f fmt (is_payable_now f)) (classify_other f fmt) refl (approval-tier f)
        refl refl (other-tier f fmt) (is_operator_grant f) (is_approval f) (is_control f)
        (is_permit f) (is_transfer f) h in
    (first, (fifth, sym (transfer-tier f fmt (is_payable_now f)) ∙ calm))

calm_at :
    (x y : Comprehension)
    → x ≡ y
    → is_consequential x.tier_of ≡ false
    → is_consequential y.tier_of ≡ false
calm_at x y same h = sym (ap (λ (z : Comprehension). is_consequential z.tier_of) same) ∙ h

refine_allowance-calm :
    (amount : Option Value) (decoded : List Argument) (c : Comprehension)
    → is_consequential (refine_allowance amount decoded c).tier_of ≡ false
    → (is_consequential c.tier_of ≡ false)
      ⊎ ((v : Value) × ((amount ≡ some v) × (is_shown v "0" ≡ true)))
unfolding refine_allowance
refine_allowance-calm none decoded c h = inl h
refine_allowance-calm (some v) decoded c h = elim (Bool-cases (is_shown v "0")) [
  | inl zero_amount ↦ inr (v, (refl, zero_amount))
  | inr other ↦ elim (Bool-cases (not (is_shown v uint256_max))) [
    | inl bounded ↦
        inl (calm_at (refine_allowance (some v) decoded c) c (rw (other, bounded) refl) h)
    | inr full ↦ absurd (
        let loud =
          calm_at (refine_allowance (some v) decoded c) (unlimited c) (rw (other, full) refl) h in
        cc)
  ]
]

-- A call is of little consequence, its arguments considered, only if it is a plain transfer whose
-- recipients are all shown by name, or takes an authority back.
pub apply_call_dependent_comprehension-calm :
    (f : Function) (fmt : Option Format) (decoded : List Argument)
    → is_consequential (apply_call_dependent_comprehension f decoded (classify f fmt)).tier_of
      ≡ false
    → IsShownTransfer f fmt ⊎ IsRevocation f decoded
unfolding apply_call_dependent_comprehension
apply_call_dependent_comprehension-calm f fmt decoded h =
    elim (Bool-cases (lower f.name == codes "setapprovalforall")) [
      | inl grant ↦ elim (Bool-cases (is_withdrawn (first_bool decoded))) [
        | inl withdrawn ↦ inr (inl (grant, withdrawn))
        | inr kept ↦ inl (
            classify-calm f fmt (
              calm_at (apply_call_dependent_comprehension f decoded (classify f fmt))
                (classify f fmt) (rw (grant, kept) refl) h))
      ]
      | inr other ↦ elim (Bool-cases (lower f.name == codes "approve")) [
        | inr neither ↦ inl (
            classify-calm f fmt (
              calm_at (apply_call_dependent_comprehension f decoded (classify f fmt))
                (classify f fmt) (rw (other, neither) refl) h))
        | inl approve ↦
            elim (refine_allowance-calm (allowance (first_typed (codes "uint") decoded)) decoded
              (classify f fmt)
              (calm_at (apply_call_dependent_comprehension f decoded (classify f fmt))
                (refine_allowance (allowance (first_typed (codes "uint") decoded)) decoded
                  (classify f fmt))
                (rw (other, approve) refl) h)) [
                  | inl calm ↦ inl (classify-calm f fmt calm)
                  | inr zero_amount ↦ inr (inr (approve, zero_amount))
                ]
      ]
    ]
