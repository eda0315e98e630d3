-- ===== src/Keyword.antt =====
-- src/keyword: keys resolved to payload indices by a minimal perfect hash and an overlay of keys
-- added since it was derived.
pub mod Key
pub mod Error
pub mod Mphf
pub mod Directory
