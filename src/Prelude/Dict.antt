-- ===== src/Prelude/Dict.antt =====
-- Python's ordered dictionaries, as association lists in insertion order.
mod Defs
mod Laws
pub use Defs.*
pub use Laws.*
