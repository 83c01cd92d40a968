-- ===== src/Filesystem.antt =====
-- The crate's filesystem (src/filesystem): its limits, paths, rights, quotas, handles and codec.
pub mod Limits
pub mod Handle
pub mod Path
pub mod Quota
pub mod Capability
pub mod Codec
