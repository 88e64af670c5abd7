-- ===== src/Access/Errors.antt =====
-- lucent/access.py: the structured failures at the access-control boundary, the problem objects
-- and headers that they become, and the other exceptions that the module raises.
-- A clock reading is a whole number of nanoseconds. A duration is a fraction of nanoseconds.
pub mod Problem
use lucent.Prelude.{
  string_eq, decimal, ℕ, ◌+◌, ◌-◌, ◌*◌, ◌/◌, max, String, Option, none, some, List, [], ◌∷◌, Result,
  ok, err, Bool, if◌then◌else◌,
}
use lucent.Prelude.Dict.{Dict, set}

abbrev pub ticks_per_second : ℕ
ticks_per_second = 1_000_000_000

-- `over` is not zero.
pub record Duration : Type 0 where
  pub ticks : ℕ
  pub over : ℕ

abbrev pub whole : ℕ → Duration
whole t = record { ticks = t; over = 1 }

-- `math.ceil` of a duration in seconds
unfoldable pub ceil_seconds : Duration → ℕ
ceil_seconds d = let unit = d.over * ticks_per_second in (d.ticks + (unit - 1)) / unit

pub data AccessError : Type 0 where
  authentication_failed : AccessError
  quota_exceeded : ℕ → ℕ → Duration → AccessError
  idempotency_conflict : AccessError
  idempotency_in_progress : Duration → AccessError
  idempotency_capacity : Duration → AccessError
  invalid_idempotency_input : String → AccessError
  invalid_reservation : AccessError
  idempotency_response_too_large : ℕ → AccessError

-- What a method of the module raises. `no_fuel` is the model's own: a loop that has used up its
-- fuel.
pub data Error : Type 0 where
  access : AccessError → Error
  value_error : String → Error
  key_error : Error
  runtime_error : String → Error
  no_fuel : Error

pub data ProblemValue : Type 0 where
  text : String → ProblemValue
  number : ℕ → ProblemValue
  seconds : Duration → ProblemValue

unfoldable pub code : AccessError → String
code authentication_failed = "AUTHENTICATION_FAILED"
code (quota_exceeded limit remaining retry) = "QUOTA_EXCEEDED"
code idempotency_conflict = "IDEMPOTENCY_CONFLICT"
code (idempotency_in_progress retry) = "IDEMPOTENCY_IN_PROGRESS"
code (idempotency_capacity retry) = "IDEMPOTENCY_CAPACITY_EXCEEDED"
code (invalid_idempotency_input why) = "INVALID_IDEMPOTENCY_INPUT"
code invalid_reservation = "INVALID_IDEMPOTENCY_RESERVATION"
code (idempotency_response_too_large bytes) = "IDEMPOTENCY_RESPONSE_TOO_LARGE"

unfoldable pub title : AccessError → String
title authentication_failed = "Unauthorized"
title (quota_exceeded limit remaining retry) = "Too Many Requests"
title idempotency_conflict = "Conflict"
title (idempotency_in_progress retry) = "Conflict"
title (idempotency_capacity retry) = "Service Unavailable"
title (invalid_idempotency_input why) = "Bad Request"
title invalid_reservation = "Conflict"
title (idempotency_response_too_large bytes) = "Internal Server Error"

unfoldable pub status_code : AccessError → ℕ
status_code authentication_failed = 401
status_code (quota_exceeded limit remaining retry) = 429
status_code idempotency_conflict = 409
status_code (idempotency_in_progress retry) = 409
status_code (idempotency_capacity retry) = 503
status_code (invalid_idempotency_input why) = 400
status_code invalid_reservation = 409
status_code (idempotency_response_too_large bytes) = 500

unfoldable pub detail : AccessError → String
detail authentication_failed = "a valid API key is required"
detail (quota_exceeded limit remaining retry) = "tenant request quota exceeded"
detail idempotency_conflict = "idempotency key was already used for a different request"
detail (idempotency_in_progress retry) = "an equivalent request is still in progress"
detail (idempotency_capacity retry) = "idempotency capacity is temporarily exhausted"
detail (invalid_idempotency_input why) = why
detail invalid_reservation = "idempotency reservation is no longer active"
detail (idempotency_response_too_large bytes) = "response exceeds the idempotency cache limit"

unfoldable pub retry_after : AccessError → Option Duration
retry_after (quota_exceeded limit remaining retry) = some retry
retry_after (idempotency_in_progress retry) = some retry
retry_after (idempotency_capacity retry) = some retry
retry_after _ = none

unfoldable pub context : AccessError → Dict String ProblemValue
context (quota_exceeded limit remaining retry) =
    ("limit", number limit) ∷ ("remaining", number remaining) ∷ []
context (idempotency_response_too_large bytes) = ("max_bytes", number bytes) ∷ []
context _ = []

-- `problem[key] = value` for an optional value
unfoldable pub set_some :
    String → Option ProblemValue → Dict String ProblemValue → Dict String ProblemValue
set_some key none problem = problem
set_some key (some value) problem = set key value problem

-- `problem.update(context)`
unfoldable pub update :
    Dict String ProblemValue → Dict String ProblemValue → Dict String ProblemValue
update problem [] = problem
update problem ((key, value) ∷ rest) = update (set key value problem) rest

unfoldable pub text_of : Option String → Option ProblemValue
text_of none = none
text_of (some t) = some (text t)

unfoldable pub seconds_of : Option Duration → Option ProblemValue
seconds_of none = none
seconds_of (some d) = some (seconds d)

unfoldable pub as_problem : AccessError → Option String → Dict String ProblemValue
unfolding code title status_code detail retry_after context set_some update text_of seconds_of
as_problem e request_id =
    update
      (set_some "retry_after_seconds" (seconds_of (retry_after e)) (
        set_some "request_id" (text_of request_id) (
          ("type", text "about:blank")
          ∷ ("title", text (title e))
          ∷ ("status", number (status_code e))
          ∷ ("code", text (code e))
          ∷ ("detail", text (detail e))
          ∷ [])))
      (context e)

unfoldable pub retry_header : Option Duration → List (String × String)
unfolding ceil_seconds
retry_header none = []
retry_header (some d) = ("Retry-After", decimal (max 1 (ceil_seconds d))) ∷ []

unfoldable pub response_headers : AccessError → List (String × String)
unfolding retry_header retry_after
response_headers authentication_failed = ("WWW-Authenticate", "ApiKey realm=\"lucent\"") ∷ []
response_headers e = retry_header (retry_after e)
