-- ===== src/Schema.antt =====
-- data/schema/schema.py: schemas as texts, and the properties that they describe.
pub mod Normalize
pub mod Line
pub mod Parse
pub mod Idempotent
pub mod Matched
pub mod RoundTrip
pub mod Whole
