-- ===== src/Wire/Query.antt =====
-- src/serialization.rs: `Query`, written and read.
use poulpy_pir.Prelude.{ℕ, List, ◌++◌, ◌==◌, div_ceil, if◌then◌else◌}
use poulpy_pir.Io.{invalid_data, read_u64}
use poulpy_pir.Config.Scheme.{Config, Collapse}
use poulpy_pir.Database.Layout.{DatabaseLayout, column_blocks, grid_rows_for}
use poulpy_pir.Wire.{
  Ciphertexts, Gadget, AutoKey, CompressedKey, tag_interpolation, tag_recursion, matmul_base2k,
  ensure_len, write_u8, read_u8, read_n, write_vec, read_vec, write_gadget, read_gadget,
  write_auto_key, read_auto_key, write_compressed_key, read_compressed_key,
}
use poulpy_pir.Wire.Outcome.{WireResult, ok, err, ◌>>=◌, ◌>>◌, lift, checked}

pub data Query (c : Ciphertexts) : Type 0 where
  interpolation :
      (blocks : List c.GlweCompressed) (key_g key_h : AutoKey c.Entry) (root : Gadget c.Entry)
      → Query c
  recursion :
      (src0 src1 : List c.GlweCompressed) (gamma0 gamma1 gamma2 : CompressedKey c.Entry) → Query c

module _ (c : Ciphertexts) where
  open c use {
    Glwe, GlweCompressed, Entry, write_glwe, read_glwe, write_glwe_compressed, read_glwe_compressed,
    ggsw_seeds, ggsw_entries,
  }

  -- `Query::write_to`.
  unfoldable pub write_query : Query c → List ℕ
  unfolding write_vec write_auto_key write_gadget write_compressed_key write_u8
  write_query (interpolation blocks key_g key_h root) =
      write_u8 tag_interpolation
      ++ (write_vec write_glwe_compressed blocks
          ++ (write_auto_key c key_g ++ (write_auto_key c key_h ++ write_gadget c root)))
  write_query (recursion src0 src1 gamma0 gamma1 gamma2) =
      write_u8 tag_recursion
      ++ (write_vec write_glwe_compressed src0
          ++ (write_vec write_glwe_compressed src1
              ++ (write_compressed_key c gamma0
                  ++ (write_compressed_key c gamma1 ++ write_compressed_key c gamma2))))

  -- The branches of `Query::read_from` behind the tag and the check of the collapse.
  unfoldable pub read_interpolation_query :
      Config → DatabaseLayout → List ℕ → WireResult (Query c × List ℕ)
  unfolding read_vec read_auto_key read_gadget column_blocks
  read_interpolation_query params layout input = do
    (blocks, r0) ← lift (
        read_vec (read_glwe_compressed matmul_base2k params.k) (column_blocks layout params.n)
          input)
    (key_g, r1) ← lift (read_auto_key c r0)
    (key_h, r2) ← lift (read_auto_key c r1)
    (root, r3) ← lift (read_gadget c ggsw_seeds ggsw_entries r2)
    ok (interpolation blocks key_g key_h root, r3)

  unfoldable pub read_recursion_query :
      Config → (gamma0 : ℕ) → DatabaseLayout → List ℕ → WireResult (Query c × List ℕ)
  unfolding read_vec read_compressed_key column_blocks grid_rows_for
  read_recursion_query params gamma0_ layout input = do
    (src0, r0) ← lift (
        read_vec (read_glwe_compressed params.base2k params.k) (column_blocks layout params.n)
          input)
    (n1, r0') ← lift (read_u64 r0)
    t ← checked (grid_rows_for layout gamma0_)
    lift (ensure_len n1 (div_ceil t params.n))
    (src1, r1) ← lift (read_n (read_glwe_compressed params.base2k params.k) n1 r0')
    (gamma0, r2) ← lift (read_compressed_key c r1)
    (gamma1, r3) ← lift (read_compressed_key c r2)
    (gamma2, r4) ← lift (read_compressed_key c r3)
    ok (recursion src0 src1 gamma0 gamma1 gamma2, r4)

  abbrev query_of : ℕ → Config → Collapse → DatabaseLayout → List ℕ → WireResult (Query c × List ℕ)
  query_of tag params collapse layout rest =
      if tag == tag_interpolation
      then elim collapse [
        | Collapse.interpolation ↦ read_interpolation_query params layout rest
        | Collapse.recursion gamma0 gamma1 gamma2 ↦
            err (invalid_data "interpolation query received for non-interpolation parameters")
      ]
      else if tag == tag_recursion
      then elim collapse [
        | Collapse.interpolation ↦
            err (invalid_data "recursion query received for non-recursion parameters")
        | Collapse.recursion gamma0 gamma1 gamma2 ↦ read_recursion_query params gamma0 layout rest
      ]
      else err (invalid_data "unknown Query serialization tag")

  -- `Query::read_from`.
  unfoldable pub read_query : Config → DatabaseLayout → List ℕ → WireResult (Query c × List ℕ)
  unfolding read_u8 read_interpolation_query read_recursion_query
  read_query params layout input = do
    (tag, rest) ← lift (read_u8 input)
    query_of tag params params.collapse layout rest
