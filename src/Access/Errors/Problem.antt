-- ===== src/Access/Errors/Problem.antt =====
-- Problem objects keep their fixed fields.
use lucent.Prelude.{◌≡◌, refl, String, string_eq, Option, none, some}
use lucent.Prelude.Dict.{Dict, get}
use lucent.Access.Errors.{
  AccessError, authentication_failed, ProblemValue, text, number, code, title, status_code, detail,
  retry_after, as_problem, text_of, seconds_of,
}

-- The fixed fields of the object `problem` of an error.
abbrev pub HasFields : AccessError → Option String → Dict String ProblemValue → Type 0
HasFields e request_id problem =
    (get "type" problem ≡ some (text "about:blank"))
    × (get "status" problem ≡ some (number (status_code e)))
    × (get "code" problem ≡ some (text (code e)))
    × (get "title" problem ≡ some (text (title e)))
    × (get "detail" problem ≡ some (text (detail e)))
    × (get "retry_after_seconds" problem ≡ seconds_of (retry_after e))
    × (get "request_id" problem ≡ text_of request_id)

without_id : (e : AccessError) → HasFields e none (as_problem e none)
unfolding as_problem
without_id authentication_failed = (refl, refl, refl, refl, refl, refl, refl)
without_id _ = (refl, refl, refl, refl, refl, refl, refl)

with_id : (e : AccessError) (r : String) → HasFields e (some r) (as_problem e (some r))
unfolding as_problem
with_id authentication_failed r = (refl, refl, refl, refl, refl, refl, refl)
with_id _ r = (refl, refl, refl, refl, refl, refl, refl)

-- The object of every error, with or without a request id, has the error's own status, code, title
-- and detail, its waiting time and the request id: no context entry overwrites one of them.
pub as_problem-HasFields :
    (e : AccessError) (request_id : Option String)
    → HasFields e request_id (as_problem e request_id)
as_problem-HasFields e none = without_id e
as_problem-HasFields e (some r) = with_id e r
