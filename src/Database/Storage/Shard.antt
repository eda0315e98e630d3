-- ===== src/Database/Storage/Shard.antt =====
-- `try_encode_shard`: what a shard changes, for every number of workers.
use poulpy_pir.Prelude.{
  ℕ, zero, suc, ◌+◌, ◌-◌, ◌*◌, ◌≤◌, ◌<◌, ◌≡◌, ap, ◌∙◌, List, some, Bool, true, false, ◌&&◌, leb,
  ltb, length, get_elem?, get_elem?-some, take, drop, All, All-take, All-drop, length-take,
  length-drop, arith, div_ceil, le→leb, lt→ltb, le-div_ceil-mul, ℤ, div_mono, mul_mono, splice,
}
use mathlib.Core.Path.{subst}
use poulpy_pir.Error.{ok}
use poulpy_pir.Loop.{at}
use poulpy_pir.Payload.{Payload, IsBlock, IsCodec}
use poulpy_pir.Parallel.{Host, num_threads}
use poulpy_pir.Parallel.Threads.{num_threads-IsBudget}
use poulpy_pir.Database.Matrix.{CoeffMatrix, cell}
use poulpy_pir.Database.Matrix.Patch.{IsSquare, Wrote}
use poulpy_pir.Database.Storage.{Database, column_blocks, rows_per_physical_group, payload_capacity}
use poulpy_pir.Database.Storage.Scatter.{scatter, m_lo, m_hi}
use poulpy_pir.Database.Storage.Access.{read_column}
use poulpy_pir.Database.Storage.Shape.{IsShaped}
use poulpy_pir.Database.Storage.Run.{digits_of, digits_of-in}
use poulpy_pir.Database.Storage.Window.{matrix_patch, Filled, fill_chunks-Filled}
use poulpy_pir.Database.Storage.Place.{
  Place, place_of, first_row, patch-at, block-lt, rpg_pos, column-lt, ppr_pos,
}
use poulpy_pir.Database.Storage.Read.{
  read_column_list, read_column_same, cell_of_entry, cell_same, map-as_i16, row-lt, matrix-lt,
  decoded,
}

pos_of_le_mul : (a b c : ℕ) → 0 < a → a ≤ b * c → 0 < b
pos_of_le_mul a zero c pos le = absurd (grind arith)
pos_of_le_mul a (suc b) c pos le = omega arith

module _ (p : Payload) (codec : IsCodec p) (e_pos : 0 < p.exponent) (db : Database)
    (s : IsShaped p.exponent db) (start : ℕ) (payloads : List (List ℕ))
    (blocks : All (IsBlock p.block_len) payloads) where
  -- Where a matrix of the new database comes from, and what that makes of a payload.
  module _ (i : ℕ) (lt : i < payload_capacity p db) (x y : CoeffMatrix) (sx : IsSquare db.n x) where
    abbrev a : Place
    a = place_of p db i

    abbrev pub in_shard : Bool
    in_shard = leb start i && ltb i (start + length payloads)

    module _ (w : Wrote db.n (matrix_patch p codec db s start payloads blocks a.matrix) x y) where
      written :
          (k : ℕ) (v : ℤ)
          → in_shard ≡ true
          → get_elem? (digits_of p start payloads i) k ≡ some v
          → k < p.exponent
          → cell y (first_row p db a + k) a.column ≡ ok v
      written k v inside found k_lt =
          cell_of_entry db.n y (first_row p db a + k) a.column v w.square
            (row-lt p db s e_pos i lt k k_lt) (column-lt p db s e_pos i lt)
            (w.cells (first_row p db a + k) a.column (row-lt p db s e_pos i lt k k_lt)
                (column-lt p db s e_pos i lt)
              ∙ rw (patch-at p db s e_pos i lt codec start payloads blocks k k_lt, inside, found))

      kept :
          (k : ℕ)
          → in_shard ≡ false
          → k < p.exponent
          → cell y (first_row p db a + k) a.column ≡ cell x (first_row p db a + k) a.column
      kept k outside k_lt =
          cell_same db.n x y (first_row p db a + k) a.column sx w.square
            (row-lt p db s e_pos i lt k k_lt) (column-lt p db s e_pos i lt)
            (w.cells (first_row p db a + k) a.column (row-lt p db s e_pos i lt k k_lt)
                (column-lt p db s e_pos i lt)
              ∙ rw (patch-at p db s e_pos i lt codec start payloads blocks k k_lt, outside))

      -- A payload of the shard reads back as it was given.
      pub read_written :
          in_shard ≡ true
          → (v : List ℕ) × (at payloads (i - start) ≡ ok v)
            × (decoded p db s e_pos i lt (read_column y (first_row p db a) a.column p.exponent)
                ≡ ok v)
      read_written inside =
          let (v, given, digits, block) =
            digits_of-in p codec start payloads blocks i (ground (arith, inside))
              (ground (arith, inside)) in
          let len : length (p.encode v) ≡ p.exponent = codec.length-encode v block in
          let cells = read_column_list y (first_row p db a) a.column (p.encode v) (λ k d found.
            written k d inside (ap (λ ds. get_elem? ds k) digits ∙ found)
              (omega (arith, len, get_elem?-some (p.encode v) k d found))) in
          let all =
            subst (λ (m : ℕ). read_column y (first_row p db a) a.column m ≡ ok (p.encode v)) len
              cells in
          (
            v,
            given,
            rw (all, map-as_i16 (p.encode v) (codec.encode-IsI16 v block))
                (ap ok (codec.decode-encode v block)),
          )

      pub read_kept :
          in_shard ≡ false
          → decoded p db s e_pos i lt (read_column y (first_row p db a) a.column p.exponent)
            ≡ decoded p db s e_pos i lt (read_column x (first_row p db a) a.column p.exponent)
      read_kept outside = ap (decoded p db s e_pos i lt) (
          read_column_same x y (first_row p db a) a.column p.exponent
            (λ k k_lt. kept k outside k_lt))

  module _ (some_ : 0 < length payloads)
      (room : start + length payloads ≤ payload_capacity p db) where
    abbrev last : ℕ
    last = start + length payloads - 1

    -- The matrices of the shard's payloads lie in the window.
    pub in_window :
        (i : ℕ)
        → i < payload_capacity p db
        → start ≤ i
        → i < start + length payloads
        → (m_lo p db start payloads ≤ (place_of p db i).matrix)
          × ((place_of p db i).matrix < m_hi p db start payloads)
    unfolding place_of
    in_window i lt le lt' =
        let pos = ppr_pos p db s e_pos i lt in
        let rpg = rpg_pos p db s e_pos i lt in
        let low =
          mul_mono _ _ (column_blocks db)
            (div_mono _ _ (rows_per_physical_group db) rpg (div_mono start i _ pos le)) in
        let high =
          mul_mono _ _ (column_blocks db)
            (div_mono _ _ (rows_per_physical_group db) rpg (div_mono i last _ pos (omega arith))) in
        let block = block-lt p db s e_pos i lt in
        let whole = matrix-lt p db s e_pos i lt in
        (omega (arith, low), omega (arith, high, block, whole))

    abbrev pub window : List CoeffMatrix
    window =
        take (m_hi p db start payloads - m_lo p db start payloads)
          (drop (m_lo p db start payloads) db.matrices)

    pub first_in :
        (m_lo p db start payloads ≤ (place_of p db start).matrix)
        × ((place_of p db start).matrix < m_hi p db start payloads)
    first_in = in_window start (omega arith) (omega arith) (omega arith)

    pub length-window : length window ≡ m_hi p db start payloads - m_lo p db start payloads
    length-window =
        length-take _ (drop (m_lo p db start payloads) db.matrices)
          (omega (arith, length-drop (m_lo p db start payloads) db.matrices))

    per_pos :
        (host : Host)
        → let count = m_hi p db start payloads - m_lo p db start payloads in
          0 < div_ceil count (num_threads host count)
    per_pos host =
        let count = m_hi p db start payloads - m_lo p db start payloads in
        let t = num_threads host count in
        let budget = (num_threads-IsBudget host count).0.0 in
        let some_count : 0 < count = omega (arith, first_in.0, first_in.1) in
        pos_of_le_mul count (div_ceil count t) t some_count
          (le-div_ceil-mul count t (omega (arith, budget)))

    pub scatter_lem :
        (host : Host)
        → (ys : List CoeffMatrix) × (scatter p db start payloads host
            ≡ ok (record db {
              matrices =
                  splice (m_lo p db start payloads) (m_hi p db start payloads) db.matrices ys;
            }))
          × Filled p codec db s start payloads blocks (m_lo p db start payloads) window ys
    unfolding scatter
    scatter_lem host =
        let lo = m_lo p db start payloads in
        let hi = m_hi p db start payloads in
        let squares =
          All-take (IsSquare db.n) (hi - lo) (drop lo db.matrices)
            (All-drop (IsSquare db.n) lo db.matrices s.squares) in
        let (ys, ran, filled) =
          fill_chunks-Filled p codec db s start payloads blocks (length window)
            (div_ceil (hi - lo) (num_threads host (hi - lo))) lo window squares (per_pos host)
            (omega arith) in
        (
          ys,
          rw (
            le→leb lo hi (omega (arith, first_in.0, first_in.1)),
            lt→ltb 0 (div_ceil (hi - lo) (num_threads host (hi - lo))) (per_pos host),
            ran,
          ),
          filled,
        )
