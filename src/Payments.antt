-- ===== src/Payments.antt =====
-- lucent/payments.py: the terms of a payment, its proof, and its verification and settlement.
pub mod Errors
pub mod Terms
pub mod Gateway
pub mod Settle
pub mod Config
pub mod Json
pub mod Client
pub mod Sample
mod Tests
