-- ===== src/Access/Idempotency.antt =====
-- lucent/access.py, `IdempotencyStore`: a bounded store of reservations and finished responses.
pub mod Response
pub mod Store
pub mod Methods
pub mod Accounting
pub mod Eviction
pub mod Validity
pub mod Behaviour
pub mod Publishing
pub mod Change
pub mod Perform
pub mod History
pub mod Replay
pub mod Outcomes
pub mod Exclusion
pub mod Claims
