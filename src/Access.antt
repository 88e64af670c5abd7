-- ===== src/Access.antt =====
-- lucent/access.py: authentication, quotas and idempotency of the hosted service.
pub mod Errors
pub mod Idempotency
pub mod Quota
pub mod Auth
pub mod Controller
mod Tests
