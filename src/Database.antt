-- ===== src/Database.antt =====
-- The plaintext database: its layout, its coefficient matrices and their contents.
pub mod Layout
pub mod Matrix
pub mod Storage
