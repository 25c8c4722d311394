-- ===== src/Base/Field.antt =====
-- The field classes of core/base/fields.py.
pub mod Data
pub mod Patterns
pub mod Scalar
pub mod Nested
