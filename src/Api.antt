-- ===== src/Api.antt =====
-- lucent/api.py: the HTTP service, from the handler of `POST /v1/preflight` to the problem
-- objects of its errors.
pub mod Problems
pub mod Hosted
pub mod Service
pub mod Source
pub mod Admission
pub mod Identity
pub mod BodySize
pub mod Triples
pub mod Handler
pub mod Once
mod Sample
mod Tests
