-- ===== src/Lib.antt =====
-- Verification of poulpy-pir, private information retrieval over RLWE: a server holds a database of
-- payloads in a grid of `i16` digits, and a client learns one of them without telling which.
--
-- The program and the files that model it (paths from the repository's root):
--   src/error.rs                Error.antt: `PirError`, `Result` with a `panic` for failed assertions.
--   src/payload.rs              Payload.antt, Payload/: the trait `Payload` as a record, `P65536` and
--                               `P65535` (four 64-bit limbs divided by 65535 in place).
--   src/config.rs               Config/: `Config` and `Collapse` (Scheme, Checks), the presets (Presets), the
--                               table of 108 shapes (Table), `resolve` (Resolve), `name` and
--                               `from_name` (Names).
--   src/database/layout.rs and address.rs   Database/Layout.antt: dimensions, capacity, addressing.
--   src/database/coeff_matrix.rs            Database/Matrix.antt: `CoeffMatrix`, row-major.
--   src/database/storage.rs and preprocessing.rs   Database/Storage.antt: `Database` and its
--                               constructors; Storage/Scatter.antt: `try_encode_shard`, its chunks and
--                               loops; Storage/Access.antt: digits, records and `payload`.
--   src/encoding.rs             Encoding.antt: `ModPEncoder`, rounding to the torus grid and back,
--                               of numbers and of columns of poulpy's polynomials (`Limbs`).
--   src/serialization.rs        Wire.antt: length prefixes, keys and gadget ciphertexts; Wire/Query.antt
--                               and Wire/Response.antt: the messages.
--   src/parameters.rs           Parameters.antt: the scalars of a configuration and the sizes of messages.
--   src/parallel.rs             Parallel.antt: worker budgets, `assign_panels`, `assign_blocks`.
--   src/keyword/mphf.rs         Keyword/Mphf.antt: the hash index and `first_duplicate`.
--   src/keyword/directory.rs    Keyword/Directory.antt: keys to payload indices, and the envelopes that
--                               keep a client's directory in step with the server's.
--   src/packing/packing_mask_preprocessing.rs   Packing.antt: the ring operations that the code calls;
--                               Packing/Tree.antt: `binary_tree_step`; Packing/Mask.antt: the
--                               preprocessing of a mask, on one thread and on several;
--                               Packing/Partial.antt: the same for a partial packing.
--   src/packing/packing_precomputations.rs   Packing/Precompute.antt: the schedule of a packing in groups
--                               of baby steps.
--   src/packing/packing.rs and packing_keys.rs   Packing/Pack.antt: the online packing `pack_default`.
--   src/server/gemm.rs          Server/Gemm.antt: the trait `Gemm`, the conversion of tiles, the portable
--                               kernels.
--   src/server/common.rs        Server/MaskProduct.antt: `mask_product_acc` and its two splits;
--                               Server/BodyProduct.antt: `full_torus_f64_body_product_batch` up to its
--                               encoding, `body_product_acc_parallel`.
--   src/server/mod.rs           Server/Respond.antt: the choice of a construction for a query and a batch;
--                               Server/Timings.antt: the timings of the online phases.
--   src/client/seed.rs          Client/Seed.antt: the public seeds and the seeds of blocks.
--   src/client/core.rs, recursion.rs and state.rs   Client/OneHot.antt: the one-hot blocks of a query;
--                               Client/Decode.antt and Client/Recompose.antt: the decoding of a response.
-- The layout takes the number of digits of a payload from the codec, the presets combine a scheme, a
-- layout and a codec, and the directory turns a key into the index that the layout resolves. The
-- storage keeps the digits of each payload down one column of one matrix, and its sharded encoder
-- hands chunks of matrices to workers. The client encrypts the column of a payload as one-hot blocks, the
-- server multiplies its matrices with them and packs the result, and the client decodes the digits at the
-- payload's place in the column that comes back.
-- Loop.antt holds loops over ranges with a body that can fail. Io.antt holds byte streams: a reader is a function from the bytes left to a value and the rest, a
-- writer the list of its bytes. Prelude/ holds lists, signed integers, little-endian bytes and
-- quotients over native numbers.
--
-- Bounds and fuel: a `usize` is a natural number, and so is a `Duration`. `u64` and `u16` arithmetic is written with its
-- modulus where the source can wrap or truncate. The inner loop of `assign_blocks` runs on the length of a
-- group, since a round takes a block at least; `chunks` runs on the number of elements, since a chunk
-- has one at least; the decimal printer runs on the number itself.
--
-- The tiles of `gemm_i16_f64_add` run on the number of rows, since a tile has a row at least.
--
-- Not modelled: the vendored crate ptr_hash (a parameter, `PtrHash`), the homomorphic arithmetic of
-- poulpy, which the records `Ciphertexts`, `Cipher`, `Module` and `DftModule` stand for, its polynomials
-- in limbs (`Limbs`), the BLAS and the kernels for x86-64 (`Gemm` stands for any kernel, `Float` for the
-- floating-point numbers), and what is only a call of these: key generation, key switches, interpolation, the phases of the server around its products
-- (the interface `Online` of the dispatch), the offline timings and the exchange of databases;
-- scratch memory, threads, NUMA placement and environment access.
pub mod Prelude
pub mod Error
pub mod Loop
pub mod Payload
pub mod Config
pub mod Database
pub mod Encoding
pub mod Io
pub mod Keyword
pub mod Wire
pub mod Parameters
pub mod Parallel
pub mod Packing
pub mod Server
pub mod Client
mod Tests
