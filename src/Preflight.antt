-- ===== src/Preflight.antt =====
-- lucent/preflight.py and the analyzers that it calls: what a pending call's findings come to.
pub mod Abi
pub mod Arguments
pub mod Danger
pub mod Comprehension
pub mod Request
pub mod Verdict
mod Tests
pub mod Quantity
