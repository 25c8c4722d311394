-- ===== src/Base/Store.antt =====
-- core/base/store.py: the encryption of configs, and the stores.
pub mod Config
pub mod Chain
pub mod Storable
pub mod AsIs
pub mod RoundTrip
pub mod Location
pub mod Files
pub mod Redis
pub mod FilesLaws
pub mod Listing
pub mod SameListing
