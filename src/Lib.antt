-- ===== src/Lib.antt =====
-- Lucent checks that a pending call can be shown to a signer truthfully, and serves that check
-- over HTTP. This library models the part of it that decides who may call, how often, and what a
-- repeated call gets back, how a call is paid for, and the part that turns findings about a call
-- into a verdict.
--
-- Access (lucent/access.py) is the access-control boundary of the hosted service. Its parts, and
-- how they interact: an `AccessController` owns an authenticator, a limiter and an idempotency
-- store. `authorize` authenticates an API key and charges the tenant's token bucket.
-- `reserve_idempotency` grants, replays or refuses keyed work, and the caller then ends the work
-- with the store's `commit` or `abort`.
-- - Access.Errors: `AccessError` and its subclasses, `as_problem` and `response_headers`. One
--   constructor stands for each subclass.
-- - Access.Auth: `hash_api_key`, `_parse_api_key_hash`, `_bounded_text`, `ApiKeyAuthenticator`.
--   The digest of SHA-256 is a parameter.
-- - Access.Quota: `QuotaPolicy`, `TokenBucketLimiter.consume`.
-- - Access.Idempotency.Store: the entries of `IdempotencyStore` and the helpers `_expire`,
--   `_remove`, `_make_room`, `_make_response_room`, `_capacity_error`, `_oldest_completed_key`.
-- - Access.Idempotency.Methods: `reserve`, `commit`, `abort`, `_owns`, `__len__`,
--   `cached_response_bytes`. The modules beside it hold the proofs: Accounting, Eviction,
--   Validity and Change describe one call, Perform and History any sequence of calls, Replay,
--   Exclusion and Outcomes the results.
-- - Access.Controller: `AccessController` and its constructor, over the parts above.
-- - Prelude: insertion-ordered dictionaries (Dict), equality and order tests, and the monad of
--   methods that mutate an object and may raise.
--
-- State is passed explicitly: a method is a function from the object to its result, or the
-- exception that it raises, and the object that it leaves. The lock of each object makes a method
-- atomic, so threads are sequences of calls. The reading of the clock and the fresh token are
-- arguments of the call that takes them, and no order between two readings is assumed unless a
-- statement says so.
--
-- A clock reading is a whole number of nanoseconds, an amount of tokens a whole number of
-- picotokens (the source's tolerance 1e-12), and a duration a fraction; the rounding of floats is
-- not modelled, nor are the checks that a float is finite. Counters are natural numbers: where
-- the source raises on an underflow, the negative value is not kept. Tests of Python types are
-- left to the types of the model.
--
-- Fuel: the walk of `_validate_facilitator_json` pops at most 20,000 nodes before it ends or
-- raises, and runs on one round more. `_make_response_room` loops until there is room; the model
-- runs it on the number of entries and one more, which is enough since every round drops an entry
-- or ends the loop.
--
-- Payments (lucent/payments.py) is the gateway that checks a payment proof against the server's
-- terms, has a facilitator verify it, and settles it once.
-- - Payments.Errors, Payments.Terms: `PaymentError`, the requirements, the authorization and its
--   fingerprint. SHA-256 and the printing of the canonical JSON are parameters.
-- - Payments.Gateway: `PaymentGateway.verify`. The x402 library's decoding of a header and the
--   facilitator are parameters. The state is the list of calls sent to the facilitator. Its
--   children: Preliminary shows what never happens before a settlement, Examination and Laws
--   what a verified payment is.
-- - Payments.Config: `PaymentConfig.from_env`, `_strict_bool`, `_server_https_url`. The
--   environment is a function from names; the parsing of URLs and floats is a parameter.
-- - Payments.Json, Payments.Client: `_validate_facilitator_json` and `UrllibFacilitatorClient`.
--   The exchange over the network, an exception that the client does not catch included, and
--   `json.loads` are parameters.
-- - Payments.Settle: `settle`, `verify_and_settle` and `assert_replay_proof`.
--
-- Api (lucent/api.py, with lucent/hosted.py) joins the parts. `POST /v1/preflight` admits a
-- request by its access mode, reserves its key, analyses the call, verifies the payment and
-- claims its authorization, binds the analysis to the verified source, commits the claim, settles
-- the payment, and keeps the answer for a replay.
-- - Api.Problems: the exceptions and the handlers that turn them into problem responses,
--   `_payment_failure_headers`.
-- - Api.Source: `_bind_verified_source` and `_verified_source_summary`.
-- - Api.Service: the request, the shared objects, the clocks. A handler is atomic but for its
--   awaits, and an await is a list of calls that other requests make on the stores.
-- - Api.Admission: `transaction_preflight` before its `try`, `_replay_response`,
--   `_payment_required`, `_quota_headers`.
-- - Api.Handler: the `try` and its handlers of exceptions, `_commit_payment_claim`,
--   `_commit_terminal_payment_failure`.
-- - Api.BodySize: `MaxBodySizeMiddleware`, over the list of the messages that arrive.
-- - Api.Identity: `_runtime_identity`, `health` and `ready`, by their status.
-- - Api.Hosted: the stores that `HostedRuntime.from_env` makes.
-- - Api.Triples, Api.Once: what every step keeps of the claims, and that requests that are
--   served one after the other settle an authorization once. The settlements that overlapping
--   requests submit during an await are not counted; their calls on the stores are in the model.
--
-- Of a request, the fingerprint of its body and the results of the analyses, of the provider of
-- sources and of the rendering are arguments. The assertions of the handler, a task that is
-- cancelled and the log are not modelled. The same text is a list of code points in the payments
-- and a native string in the stores, and `shown` goes between.
--
-- Preflight (lucent/preflight.py, with scripts/common.py, scripts/danger.py and
-- scripts/comprehend.py) turns what the analyzers find about a pending call into a verdict.
-- `preflight_transaction` assesses the function, weakens the dangers by the decoded arguments,
-- and combines the verdicts on the value, the analyzers and the binding of the screen.
-- - Preflight.Abi: `canonical_type`, `signature`, `signable_functions`. An ABI entry has the
--   names and types that the source's validation requires, in ASCII.
-- - Preflight.Danger: `assess` and `scan`.
-- - Preflight.Comprehension (scripts/comprehend.py, `classify`) and its child Refined
--   (`_apply_call_dependent_comprehension`): the tier, the reason and the sentence of a call.
--   Names are lowered as ASCII.
-- - Preflight.Request: `_resolve_call` and `_deployment_matches`. The hash of a signature is a
--   parameter, and an input error is its code. Of a deployment, the two values that are read are
--   kept as they stand in the descriptor, and normalised as scripts/common.py does.
-- - Preflight.Arguments: the decoded arguments.
-- - Preflight.Verdict: `overall_verdict`, `_call_verdict`, `_binding_verdict`, `_value_verdict`,
--   `_apply_call_dependent_danger` and the end of `preflight_transaction`. The findings of the
--   audit and of the binding, and the decoded arguments, are arguments.
-- - Preflight.Quantity: `parse_value`, with `hex` of Python, on natural numbers, as the printer
--   of its round trip.
--
-- Not modelled: of the preflight, the audit (scripts/audit.py), the presentation binding, the
-- decoding of calldata and the validation of a descriptor, whose results are arguments of the
-- verdict; of the payments, the challenge and the body that is sent to the facilitator
-- (lucent/payments.py); of the HTTP service, `request_context`, the schemas and the settings from
-- the environment (lucent/api.py, lucent/hosted.py); the MCP transport (scripts/mcp_server.py),
-- the cache of verified sources, the fetching of verified sources (lucent/verified_source.py),
-- and the remaining scripts, which read the network or print reports. In lucent/access.py itself
-- `fingerprint_request` and `TenantConfig.from_api_key` are left out.
pub mod Access
pub mod Api
pub mod Payments
pub mod Preflight
pub mod Prelude
