-- ===== src/Oci.antt =====
-- wings/oci: references to images, and manifests.
pub mod Reference
pub mod Canonical
pub mod Cutting
pub mod Parsed
pub mod Manifest
pub mod Choice
pub mod Layers
pub mod Config
pub mod Auth
pub mod Authorized
pub mod Cache
pub mod Plain
pub mod Stored
pub mod Refined
