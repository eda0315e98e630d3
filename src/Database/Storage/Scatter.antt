-- ===== src/Database/Storage/Scatter.antt =====
-- src/database/storage.rs, `try_encode_shard`: the scatter of a shard over the matrices. A scope of
-- workers is the sequence of its chunks: each worker owns the matrices of its chunk.
use poulpy_pir.Prelude.{
  ℕ, zero, suc, ◌+◌, ◌-◌, ◌*◌, ◌/◌, ◌%◌, min, List, [], ◌∷◌, ◌++◌, ℤ, leb, ltb, ◌==◌, length, take,
  drop, div_ceil, if◌then◌else◌,
}
use poulpy_pir.Error.{
  Result, ok, ◌>>=◌, ◌>>◌, assert, ensure, unwrap, shard_length_overflow, shard_out_of_bounds,
}
use poulpy_pir.Loop.{for_range, for_until, at}
use poulpy_pir.Payload.{Payload}
use poulpy_pir.Parallel.{Host, num_threads}
use poulpy_pir.Database.Matrix.{CoeffMatrix, set_cell}
use poulpy_pir.Database.Storage.{
  Database, column_blocks, column_height, payload_capacity, payloads_per_column,
  payloads_per_grid_row, rows_per_physical_group, usize_max,
}

-- `for (k, &d) in digits.iter().enumerate() { matrix.row_mut(row + k)[c] = d; }`.
unfoldable pub write_column : CoeffMatrix → (row c : ℕ) → List ℤ → Result CoeffMatrix
unfolding set_cell
write_column x row c [] = ok x
write_column x row c (d ∷ ds) = set_cell x row c d >>= λ y. write_column y (row + 1) c ds

-- `chunks_mut(per)`, for a positive `per`. There are no more chunks than elements.
unfoldable pub chunks {ℓ} : {A : Type ℓ} → (fuel per : ℕ) → List A → List (List A)
chunks zero per xs = []
chunks (suc fuel) per [] = []
chunks (suc fuel) per (x ∷ xs) = take per (x ∷ xs) ∷ chunks fuel per (drop per (x ∷ xs))

module _ (p : Payload) (db : Database) (start : ℕ) (payloads : List (List ℕ)) where
  abbrev pub end : ℕ
  end = start + length payloads

  -- The column interval of one run of payloads, for matrix `m`.
  unfoldable pub fill_run : (m local_row pic : ℕ) → CoeffMatrix → Result CoeffMatrix
  unfolding write_column for_range
  fill_run m local_row pic x =
      let block = m % column_blocks db in
      let width = min (db.cols - block * db.n) db.n in
      let grid_row = m / column_blocks db * rows_per_physical_group db + local_row in
      let base = grid_row * payloads_per_grid_row p db + pic * db.cols + block * db.n in
      let c_lo = min (start - base) width in
      let c_hi = min (end - base) width in
      let row_off = local_row * column_height db + pic * p.exponent in
      if leb c_hi c_lo
      then ok x
      else for_range (c_hi - c_lo) c_lo
          (λ c y. do v ← at payloads (base + c - start); write_column y row_off c (p.encode v)) x

  unfoldable pub fill_matrix : ℕ → CoeffMatrix → Result CoeffMatrix
  unfolding fill_run for_until
  fill_matrix m x =
      for_until
        (λ local_row.
          leb db.grid_rows (m / column_blocks db * rows_per_physical_group db + local_row))
        (rows_per_physical_group db) 0
        (λ local_row y.
          for_range (payloads_per_column p db) 0 (λ pic z. fill_run m local_row pic z) y)
        x

  -- One worker: the matrices of its chunk, numbered from `m`.
  unfoldable pub fill_chunk : ℕ → List CoeffMatrix → Result (List CoeffMatrix)
  unfolding fill_matrix
  fill_chunk m [] = ok []
  fill_chunk m (x ∷ xs) = do y ← fill_matrix m x; ys ← fill_chunk (m + 1) xs; ok (y ∷ ys)

  unfoldable pub fill_chunks : (per m : ℕ) → List (List CoeffMatrix) → Result (List CoeffMatrix)
  unfolding fill_chunk
  fill_chunks per m [] = ok []
  fill_chunks per m (chunk ∷ rest) = do
    ys ← fill_chunk m chunk
    zs ← fill_chunks per (m + per) rest
    ok (ys ++ zs)

  abbrev pub m_lo : ℕ
  m_lo = start / payloads_per_grid_row p db / rows_per_physical_group db * column_blocks db

  abbrev pub m_hi : ℕ
  m_hi =
      min
        (((end - 1) / payloads_per_grid_row p db / rows_per_physical_group db + 1)
          * column_blocks db)
        (length db.matrices)

  -- The scatter of a shard that is not empty. `slice[m_lo..m_hi]` and `chunks_mut` panic where the
  -- assertions fail.
  unfoldable pub scatter : Host → Result Database
  unfolding fill_chunks chunks num_threads
  scatter host = do
    assert (leb m_lo m_hi)
    let count = m_hi - m_lo
    let per = div_ceil count (num_threads host count)
    assert (ltb 0 per)
    let window = take count (drop m_lo db.matrices)
    filled ← fill_chunks per m_lo (chunks (length window) per window)
    ok (record db { matrices = take m_lo db.matrices ++ (filled ++ drop m_hi db.matrices) })

  unfoldable pub try_encode_shard : Host → Result Database
  unfolding scatter
  try_encode_shard host = do
    ensure (leb end usize_max) shard_length_overflow
    ensure (leb end (payload_capacity p db)) (shard_out_of_bounds end (payload_capacity p db))
    if length payloads == 0 then ok db else scatter host

  unfoldable pub encode_shard : Host → Result Database
  unfolding try_encode_shard
  encode_shard host = unwrap (try_encode_shard host)
