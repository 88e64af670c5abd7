-- ===== src/Preflight/Quantity/Laws.antt =====
-- A value that is printed is read back.
use lucent.Prelude.{
  ℕ, zero, suc, ◌+◌, ◌*◌, ◌/◌, ◌%◌, ◌≤◌, ◌<◌, Text, [], ◌∷◌, ◌++◌, Bool, true, false, not, ◌&&◌,
  ltb, nat_beq, ok, ◌≡◌, inl, inr, refl, arith, Bool-cases,
}
use lucent.Preflight.Quantity.{
  max_uint256, text, is_hex_digit, all_hex, is_canonical_hex, digit_value, hex_value, parse_value,
  digit_code, hex_digits, printed,
}

hex_value-snoc :
    (acc : ℕ) (t : Text) (c : ℕ)
    → hex_value acc (t ++ c ∷ []) ≡ hex_value acc t * 16 + digit_value c
hex_value-snoc acc [] c = refl
hex_value-snoc acc (d ∷ t) c = hex_value-snoc (acc * 16 + digit_value d) t c

all_hex-snoc : (t : Text) (c : ℕ) → all_hex (t ++ c ∷ []) ≡ all_hex t && is_hex_digit c
all_hex-snoc [] c = ground arith
all_hex-snoc (d ∷ t) c = ground (arith, all_hex-snoc t c)

digit_value-digit_code : (d : ℕ) → d < 16 → digit_value (digit_code d) ≡ d
digit_value-digit_code d small = ground arith

is_hex_digit-digit_code : (d : ℕ) → d < 16 → is_hex_digit (digit_code d) ≡ true
is_hex_digit-digit_code d small = ground arith

-- Hexadecimal digits of which the first is not zero.
abbrev leads : Text → Bool
leads [] = false
leads (c ∷ t) = not (nat_beq c b'0') && is_hex_digit c && all_hex t

leads-snoc :
    (t : Text) (c : ℕ) → leads t ≡ true → is_hex_digit c ≡ true → leads (t ++ c ∷ []) ≡ true
leads-snoc [] c h hex = absurd (cc)
leads-snoc (d ∷ t) c h hex = ground (arith, all_hex-snoc t c)

leads-is_canonical_hex : (t : Text) → leads t ≡ true → is_canonical_hex t ≡ true
leads-is_canonical_hex [] h = absurd (cc)
leads-is_canonical_hex (c ∷ []) h = ground arith
leads-is_canonical_hex (c ∷ d ∷ t) h = h

hex_value-hex_digits : (fuel n : ℕ) → n < fuel → hex_value 0 (hex_digits fuel n) ≡ n
hex_value-hex_digits zero n less = absurd (omega (arith, less))
hex_value-hex_digits (suc fuel) n less = elim (Bool-cases (ltb n 16)) [
  | inl small ↦ rw small (ground (arith, digit_value-digit_code n))
  | inr large ↦
      let sixteen : 16 ≤ n = ground (arith, large) in
      let below : n / 16 < fuel = omega (arith, less, sixteen) in
      let digit : n % 16 < 16 = omega arith in
      rw
        (
          large,
          hex_value-snoc 0 (hex_digits fuel (n / 16)) (digit_code (n % 16)),
          hex_value-hex_digits fuel (n / 16) below,
          digit_value-digit_code (n % 16) digit,
        )
        (omega arith)
]

leads-hex_digits : (fuel n : ℕ) → n < fuel → 1 ≤ n → leads (hex_digits fuel n) ≡ true
leads-hex_digits zero n less positive = absurd (omega (arith, less))
leads-hex_digits (suc fuel) n less positive = elim (Bool-cases (ltb n 16)) [
  | inl small ↦ rw small (ground arith)
  | inr large ↦
      let sixteen : 16 ≤ n = ground (arith, large) in
      rw large (
        leads-snoc (hex_digits fuel (n / 16)) (digit_code (n % 16))
          (leads-hex_digits fuel (n / 16) (omega (arith, less, sixteen)) (omega (arith, sixteen)))
          (is_hex_digit-digit_code (n % 16) (omega arith)))
]

hex_digits-is_canonical_hex : (n : ℕ) → is_canonical_hex (hex_digits (n + 1) n) ≡ true
hex_digits-is_canonical_hex zero = refl
hex_digits-is_canonical_hex (suc n) =
    leads-is_canonical_hex (hex_digits (suc n + 1) (suc n))
      (leads-hex_digits (suc n + 1) (suc n) (omega arith) (omega arith))

-- The hexadecimal text of a 256-bit number is read back as the number.
pub parse_value-printed : (n : ℕ) → n ≤ max_uint256 → parse_value (text (printed n)) ≡ ok n
unfolding parse_value printed
parse_value-printed n small =
    rw (hex_digits-is_canonical_hex n, hex_value-hex_digits (n + 1) n (omega arith))
      (ground (arith, small))
