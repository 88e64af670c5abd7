-- ===== src/Api/BodySize.antt =====
-- lucent/api.py, `MaxBodySizeMiddleware`: which requests reach the application, by their size.
use lucent.Prelude.{
  ℕ, ◌+◌, ◌≤◌, ◌||◌, Text, Option, none, some, List, [], ◌∷◌, ◌++◌, length, Bool, true, false, not,
  ltb, if◌then◌else◌, ◌≡◌, refl, ap, ◌∙◌, arith,
}

-- A message of the connection: a piece of the body with `more_body`, the end of the connection, or a
-- message of another type.
pub data Message : Type 0 where
  http_request : Text → Bool → Message
  http_disconnect other : Message

-- A refused request, the messages that the application is given, or a wait for the next message.
pub data Reception : Type 0 where
  rejected awaiting : Reception
  passed : List Message → Reception

-- the `while` of `__call__`, on the messages that arrive
unfoldable pub receive_all : ℕ → ℕ → List Message → List Message → Reception
receive_all max_bytes received messages [] = awaiting
receive_all max_bytes received messages (http_request body more_body ∷ stream) =
    let total = received + length body in
    let rest = receive_all max_bytes total (messages ++ http_request body more_body ∷ []) stream in
    if ltb max_bytes total
    then rejected
    else if not more_body
    then passed (messages ++ http_request body more_body ∷ [])
    else rest
receive_all max_bytes received messages (http_disconnect ∷ stream) =
    passed (messages ++ http_disconnect ∷ [])
receive_all max_bytes received messages (other ∷ stream) =
    receive_all max_bytes received (messages ++ other ∷ []) stream

-- `__call__` for a request over HTTP. The declared length is what `int` reads from the header, none
-- where there is no header, or it is no number or negative.
unfoldable pub receive_request : ℕ → Option ℕ → List Message → Reception
receive_request max_bytes none stream = receive_all max_bytes 0 [] stream
receive_request max_bytes (some content_length) stream =
    let rest = receive_all max_bytes 0 [] stream in
    if ltb max_bytes content_length then rejected else rest

-- The messages of the first request, through its last piece or the end of the connection.
abbrev pub first_request : List Message → List Message
first_request [] = []
first_request (http_request body true ∷ stream) = http_request body true ∷ first_request stream
first_request (http_request body false ∷ stream) = http_request body false ∷ []
first_request (http_disconnect ∷ stream) = http_disconnect ∷ []
first_request (other ∷ stream) = other ∷ first_request stream

-- Whether that last message has arrived.
abbrev pub is_complete : List Message → Bool
is_complete [] = false
is_complete (http_request body true ∷ stream) = is_complete stream
is_complete (http_request body false ∷ stream) = true
is_complete (http_disconnect ∷ stream) = true
is_complete (other ∷ stream) = is_complete stream

abbrev pub body_size : List Message → ℕ
body_size [] = 0
body_size (http_request body more_body ∷ stream) = length body + body_size stream
body_size (http_disconnect ∷ stream) = body_size stream
body_size (other ∷ stream) = body_size stream

abbrev pub declares_more : ℕ → Option ℕ → Bool
declares_more max_bytes none = false
declares_more max_bytes (some content_length) = ltb max_bytes content_length

add_last :
    (xs : List Message) (x : Message) (ys : List Message) → (xs ++ x ∷ []) ++ ys ≡ xs ++ x ∷ ys
add_last [] x ys = refl
add_last (y ∷ xs) x ys = ap (λ l. y ∷ l) (add_last xs x ys)

abbrev outcome : ℕ → ℕ → List Message → Bool → Reception
outcome max_bytes size messages complete =
    if ltb max_bytes size then rejected else if complete then passed messages else awaiting

after_piece :
    (max_bytes received piece more : ℕ) (messages : List Message) (complete : Bool)
    (rest : Reception)
    → (received + piece ≤ max_bytes
        → rest ≡ outcome max_bytes (received + piece + more) messages complete)
    → (if ltb max_bytes (received + piece) then rejected else rest)
      ≡ outcome max_bytes (received + (piece + more)) messages complete
after_piece max_bytes received piece more messages complete rest h = ground (arith, h)

receive_all_lem :
    (max_bytes received : ℕ) (messages stream : List Message)
    → received ≤ max_bytes
    → receive_all max_bytes received messages stream
      ≡ outcome max_bytes
          (received + body_size (first_request stream))
          (messages ++ first_request stream)
          (is_complete stream)
unfolding receive_all
receive_all_lem max_bytes received messages [] h = ground arith
receive_all_lem max_bytes received messages (http_request body true ∷ stream) h =
    after_piece max_bytes received (length body) (body_size (first_request stream))
      (messages ++ http_request body true ∷ first_request stream) (is_complete stream)
      (receive_all max_bytes (received + length body) (messages ++ http_request body true ∷ [])
        stream)
      (λ fits.
        receive_all_lem max_bytes (received + length body) (messages ++ http_request body true ∷ [])
          stream fits
        ∙ ap
            (λ l.
              outcome max_bytes (received + length body + body_size (first_request stream)) l
                (is_complete stream))
            (add_last messages (http_request body true) (first_request stream)))
receive_all_lem max_bytes received messages (http_request body false ∷ stream) h = ground arith
receive_all_lem max_bytes received messages (http_disconnect ∷ stream) h = ground arith
receive_all_lem max_bytes received messages (other ∷ stream) h =
    receive_all_lem max_bytes received (messages ++ other ∷ []) stream h
    ∙ ap
        (λ l.
          outcome max_bytes (received + body_size (first_request stream)) l (is_complete stream))
        (add_last messages other (first_request stream))

-- A request is refused exactly when it declares a length over the limit or the pieces of its body
-- that have arrived exceed it; the application is given the messages of any other request, whole,
-- once the last of them has arrived.
pub receive_request_lem :
    (max_bytes : ℕ) (content_length : Option ℕ) (stream : List Message)
    → receive_request max_bytes content_length stream ≡ (
        if declares_more max_bytes content_length
          || ltb max_bytes (body_size (first_request stream))
        then rejected
        else if is_complete stream
        then passed (first_request stream)
        else awaiting)
unfolding receive_request
receive_request_lem max_bytes none stream =
    ground (arith, receive_all_lem max_bytes 0 [] stream (omega arith))
receive_request_lem max_bytes (some content_length) stream =
    ground (arith, receive_all_lem max_bytes 0 [] stream (omega arith))
