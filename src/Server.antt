-- ===== src/Server.antt =====
-- src/server/: matrix products over the database, and the server that answers queries.
pub mod Float
pub mod Gemm
pub mod MaskProduct
pub mod BodyProduct
pub mod Timings
pub mod Respond
