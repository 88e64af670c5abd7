-- ===== src/Preflight/Quantity.antt =====
-- lucent/preflight.py, `parse_value`: the value that a transaction sends. `printed` is Python's
-- `hex`, on natural numbers.
pub mod Laws
use lucent.Prelude.{
  ℕ, zero, suc, ◌+◌, ◌-◌, ◌*◌, ◌/◌, ◌%◌, Text, codes, String, List, [], ◌∷◌, ◌++◌, Bool, true,
  false, not, ◌&&◌, ◌||◌, ltb, leb, nat_beq, if◌then◌else◌, Result, ok, err,
}

abbrev pub max_uint256 : ℕ
max_uint256 = 115792089237316195423570985008687907853269984665640564039457584007913129639935

-- A transaction's value in the request.
pub data Quantity : Type 0 where
  flag : Bool → Quantity
  natural : ℕ → Quantity
  negative : ℕ → Quantity
  text : Text → Quantity
  other : Quantity

abbrev pub is_hex_digit : ℕ → Bool
is_hex_digit c =
    (leb b'0' c && leb c b'9') || (leb b'a' c && leb c b'f') || (leb b'A' c && leb c b'F')

abbrev pub all_hex : Text → Bool
all_hex [] = true
all_hex (c ∷ t) = is_hex_digit c && all_hex t

-- `0|[1-9a-fA-F][0-9a-fA-F]*`
abbrev pub is_canonical_hex : Text → Bool
is_canonical_hex [] = false
is_canonical_hex (c ∷ []) = is_hex_digit c
is_canonical_hex (c ∷ d ∷ t) = not (nat_beq c b'0') && is_hex_digit c && all_hex (d ∷ t)

abbrev pub digit_value : ℕ → ℕ
digit_value c = if leb c b'9' then c - b'0' else if leb c b'F' then c - 55 else c - 87

abbrev pub hex_value : ℕ → Text → ℕ
hex_value acc [] = acc
hex_value acc (c ∷ t) = hex_value (acc * 16 + digit_value c) t

-- the test of the range
abbrev pub in_uint256 : ℕ → Result String ℕ
in_uint256 amount = if ltb max_uint256 amount then err "INVALID_VALUE" else ok amount

abbrev parse_text : Text → Result String ℕ
parse_text (z ∷ x ∷ t) =
    if nat_beq z b'0' && nat_beq x b'x' && is_canonical_hex t
    then in_uint256 (hex_value 0 t)
    else err "INVALID_VALUE"
parse_text _ = err "INVALID_VALUE"

-- `parse_value`; an error is its code
unfoldable pub parse_value : Quantity → Result String ℕ
parse_value (flag b) = err "INVALID_VALUE"
parse_value (natural n) = in_uint256 n
parse_value (negative n) = err "INVALID_VALUE"
parse_value (text t) = parse_text t
parse_value other = err "INVALID_VALUE"

abbrev pub digit_code : ℕ → ℕ
digit_code d = if ltb d 10 then d + b'0' else d + 87

-- the digits of a number, on fuel that is above it
abbrev pub hex_digits : ℕ → ℕ → Text
hex_digits zero n = []
hex_digits (suc fuel) n =
    let front = hex_digits fuel (n / 16) in
    if ltb n 16 then digit_code n ∷ [] else front ++ digit_code (n % 16) ∷ []

-- `hex(n)`
unfoldable pub printed : ℕ → Text
printed n = b'0' ∷ b'x' ∷ hex_digits (n + 1) n
