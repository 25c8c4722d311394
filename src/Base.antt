-- ===== src/Base.antt =====
-- jumpscale/core/base: typed fields, instances, factories and the stores that keep them.
pub mod Value
pub mod Entries
pub mod Field
pub mod Meta
pub mod Instance
pub mod Factory
pub mod Store
