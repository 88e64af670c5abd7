-- ===== src/Access/Idempotency/Response.antt =====
-- lucent/access.py, `IdempotencyResponse`: a response that is kept for exact replay. The body is
-- its bytes; a header's length counts the bytes of UTF-8.
use Prim.Native.String.{len}
use lucent.Prelude.{
  ℕ, ◌+◌, String, List, [], ◌∷◌, length, Bool, true, false, not, ◌||◌, ◌&&◌, ltb, leb, nat_beq,
  if◌then◌else◌, Text, codes, Result, ok, err,
}
use lucent.Access.Errors.{Error, value_error}

abbrev pub max_cached_headers : ℕ
max_cached_headers = 64

abbrev pub max_header_line_bytes : ℕ
max_header_line_bytes = 8192

abbrev pub contains_code : ℕ → Text → Bool
contains_code c [] = false
contains_code c (d ∷ t) = nat_beq c d || contains_code c t

-- a character of `_HEADER_NAME_RE`
abbrev is_token_code : ℕ → Bool
is_token_code c =
    (leb b'0' c && leb c b'9')
    || (leb b'A' c && leb c b'Z')
    || (leb b'a' c && leb c b'z')
    || contains_code c (codes "!#$%&'*+.^_`|~-")

abbrev all_tokens : Text → Bool
all_tokens [] = true
all_tokens (c ∷ t) = is_token_code c && all_tokens t

-- `_HEADER_NAME_RE.fullmatch(name)`
abbrev pub is_header_name : String → Bool
is_header_name name = not (nat_beq (length (codes name)) 0) && all_tokens (codes name)

-- `"\r" in value or "\n" in value`
abbrev pub has_newline : String → Bool
has_newline value = contains_code 13 (codes value) || contains_code 10 (codes value)

pub record Response : Type 0 where
  pub status_code : ℕ
  pub body : List ℕ
  pub headers : List (String × String)

header_bytes : List (String × String) → ℕ
header_bytes [] = 0
header_bytes ((name, value) ∷ rest) = len name + len value + header_bytes rest

unfoldable pub size_bytes : Response → ℕ
unfolding header_bytes
size_bytes r = length r.body + header_bytes r.headers

-- The loop of `__post_init__` over the headers.
unfoldable pub check_headers : List (String × String) → Result Error (Unit {0})
check_headers [] = ok tt
check_headers ((name, value) ∷ rest) =
    let others = check_headers rest in
    if not (is_header_name name)
    then err (value_error "header names must be valid HTTP tokens")
    else if has_newline value
    then err (value_error "header values may not contain newlines")
    else if ltb max_header_line_bytes (len name + len value)
    then err (value_error "cached header lines may not exceed 8192 bytes")
    else others

-- `IdempotencyResponse.from_parts`, with the checks of `__post_init__`
unfoldable pub from_parts : ℕ → List ℕ → List (String × String) → Result Error Response
unfolding check_headers
from_parts status body headers =
    if not (leb 100 status && leb status 599)
    then err (value_error "status_code must be between 100 and 599")
    else if ltb max_cached_headers (length headers)
    then err (value_error "headers may not exceed 64 entries")
    else elim (check_headers headers) [
      | ok _ ↦ ok (record { status_code = status; body = body; headers = headers })
      | err why ↦ err why
    ]
