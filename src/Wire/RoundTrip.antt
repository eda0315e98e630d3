-- ===== src/Wire/RoundTrip.antt =====
-- A message that fits the receiver's parameters comes back from its bytes.
use poulpy_pir.Prelude.{
  ℕ, ◌*◌, ◌^◌, ◌<◌, ◌≡◌, refl, ap, ◌∙◌, List, ◌++◌, length, All, div_ceil, eq→==,
}
use mathlib.Core.List.{append_assoc}
use poulpy_pir.Error.{Result}
use poulpy_pir.Io.{read_u64-append, write_u64}
use poulpy_pir.Config.Scheme.{Config, Collapse}
use poulpy_pir.Database.Layout.{DatabaseLayout, column_blocks, grid_rows_for}
use poulpy_pir.Wire.{
  Ciphertexts, AutoKey, CompressedKey, Gadget, matmul_base2k, qtilde_bits, ensure_len, write_u8,
  write_all, write_vec, write_gadget, write_auto_key, write_compressed_key,
}
use poulpy_pir.Wire.Outcome.{ok}
use poulpy_pir.Wire.Query.{
  Query, write_query, read_query, read_interpolation_query, read_recursion_query,
}
use poulpy_pir.Wire.Response.{Response, write_response, read_response, read_recursion_response}
use poulpy_pir.Wire.Parts.{
  ComesBack, read_u8-write_u8, read_n-write_all, read_vec-write_vec, IsGadget, IsAutoKey,
  IsCompressedKey, read_gadget-write_gadget, read_auto_key-write_auto_key,
  read_compressed_key-write_compressed_key,
}

module _ (c : Ciphertexts) (params : Config) (layout : DatabaseLayout) where
  open c use {
    Glwe, GlweCompressed, Entry, write_glwe, read_glwe, write_glwe_compressed, read_glwe_compressed,
    ggsw_seeds, ggsw_entries,
  }

  -- A query that fits the parameters: the collapse, the numbers of blocks, and parts that poulpy
  -- reads back.
  abbrev pub FitsAs : Collapse → Query c → Type 0
  FitsAs Collapse.interpolation (Query.interpolation blocks key_g key_h root) =
      (length blocks ≡ column_blocks layout params.n)
      × (length blocks < 2 ^ 64)
      × All (ComesBack write_glwe_compressed (read_glwe_compressed matmul_base2k params.k)) blocks
      × IsAutoKey c key_g
      × IsAutoKey c key_h
      × IsGadget c ggsw_seeds ggsw_entries root
  FitsAs (Collapse.recursion gamma0_ _ _) (Query.recursion src0 src1 gamma0 gamma1 gamma2) =
      (length src0 ≡ column_blocks layout params.n)
      × (length src0 < 2 ^ 64)
      × All (ComesBack write_glwe_compressed (read_glwe_compressed params.base2k params.k)) src0
      × (grid : ℕ) × (grid_rows_for layout gamma0_ ≡ Result.ok grid)
      × (length src1 ≡ div_ceil grid params.n)
      × (length src1 < 2 ^ 64)
      × All (ComesBack write_glwe_compressed (read_glwe_compressed params.base2k params.k)) src1
      × IsCompressedKey c gamma0
      × IsCompressedKey c gamma1
      × IsCompressedKey c gamma2
  FitsAs _ _ = ⊥

  interpolation_back :
      (blocks : List GlweCompressed) (key_g key_h : AutoKey Entry) (root : Gadget Entry)
      (rest : List ℕ)
      → FitsAs Collapse.interpolation (Query.interpolation blocks key_g key_h root)
      → read_interpolation_query c params layout (
          write_vec write_glwe_compressed blocks
          ++ (write_auto_key c key_g ++ (write_auto_key c key_h ++ (write_gadget c root ++ rest))))
        ≡ ok (Query.interpolation blocks key_g key_h root, rest)
  unfolding read_interpolation_query
  interpolation_back blocks key_g key_h root rest (len, small, back, g, h, r) = rw (← len) (
      rw
        (read_vec-write_vec write_glwe_compressed (read_glwe_compressed matmul_base2k params.k)
          blocks _ back small)
        (rw (read_auto_key-write_auto_key c key_g g _) (
          rw (read_auto_key-write_auto_key c key_h h _)
            (rw (read_gadget-write_gadget c ggsw_seeds ggsw_entries root r rest)))))

  recursion_back :
      (gamma0_ gamma1_ gamma2_ : ℕ) (src0 src1 : List GlweCompressed)
      (gamma0 gamma1 gamma2 : CompressedKey Entry) (rest : List ℕ)
      → FitsAs
          (Collapse.recursion gamma0_ gamma1_ gamma2_)
          (Query.recursion src0 src1 gamma0 gamma1 gamma2)
      → read_recursion_query c params gamma0_ layout (
          write_vec write_glwe_compressed src0
          ++ (write_vec write_glwe_compressed src1
              ++ (write_compressed_key c gamma0
                  ++ (write_compressed_key c gamma1 ++ (write_compressed_key c gamma2 ++ rest)))))
        ≡ ok (Query.recursion src0 src1 gamma0 gamma1 gamma2, rest)
  unfolding read_recursion_query write_vec ensure_len
  recursion_back g0 g1 g2 src0 src1 k0 k1 k2 rest
        (len, small, back, grid, shaped, len', small', back', h0, h1, h2) =
      rw (← len) (
        rw
          (read_vec-write_vec write_glwe_compressed (read_glwe_compressed params.base2k params.k)
            src0 _ back small)
          (rw (append_assoc (write_u64 (length src1)) (write_all write_glwe_compressed src1) _) (
            rw (read_u64-append (length src1) _ small') (
              rw shaped (
                rw (eq→== (length src1) (div_ceil grid params.n) len') (
                  rw
                    (read_n-write_all write_glwe_compressed
                      (read_glwe_compressed params.base2k params.k) src1 _ back')
                    (rw (read_compressed_key-write_compressed_key c k0 h0 _) (
                      rw (read_compressed_key-write_compressed_key c k1 h1 _)
                        (rw (read_compressed_key-write_compressed_key c k2 h2 rest))))))))))

  query_back :
      (collapse : Collapse) (q : Query c) (rest : List ℕ)
      → params.collapse ≡ collapse
      → FitsAs collapse q
      → read_query c params layout (write_query c q ++ rest) ≡ ok (q, rest)
  unfolding read_query write_query
  query_back Collapse.interpolation (Query.interpolation blocks key_g key_h root) rest same fits =
      rw same (
        rw (append_assoc (write_u8 0) _ rest) (
          rw (read_u8-write_u8 0 _) (
            rw (append_assoc (write_vec write_glwe_compressed blocks) _ rest) (
              rw (append_assoc (write_auto_key c key_g) _ rest) (
                rw (append_assoc (write_auto_key c key_h) _ rest)
                  (interpolation_back blocks key_g key_h root rest fits))))))
  query_back (Collapse.recursion g0 g1 g2) (Query.recursion src0 src1 k0 k1 k2) rest same fits =
      rw same (
        rw (append_assoc (write_u8 1) _ rest) (
          rw (read_u8-write_u8 1 _) (
            rw (append_assoc (write_vec write_glwe_compressed src0) _ rest) (
              rw (append_assoc (write_vec write_glwe_compressed src1) _ rest) (
                rw (append_assoc (write_compressed_key c k0) _ rest) (
                  rw (append_assoc (write_compressed_key c k1) _ rest)
                    (recursion_back g0 g1 g2 src0 src1 k0 k1 k2 rest fits)))))))
  query_back Collapse.interpolation (Query.recursion src0 src1 k0 k1 k2) rest same fits =
      absurd fits
  query_back (Collapse.recursion g0 g1 g2) (Query.interpolation blocks key_g key_h root) rest same
        fits =
      absurd fits

  -- A query that fits the parameters and the layout is read back from its bytes, and the bytes that
  -- follow are left.
  pub read_query-write_query :
      (q : Query c)
      → FitsAs params.collapse q
      → (rest : List ℕ) → read_query c params layout (write_query c q ++ rest) ≡ ok (q, rest)
  read_query-write_query q fits rest = query_back params.collapse q rest refl fits

  abbrev tau : ℕ
  tau = div_ceil qtilde_bits matmul_base2k

  abbrev pub ResponseFitsAs : Collapse → Response c → Type 0
  ResponseFitsAs Collapse.interpolation (Response.interpolation selected) =
      ComesBack write_glwe (read_glwe params.base2k params.k) selected
  ResponseFitsAs (Collapse.recursion gamma0 gamma1 gamma2) (Response.recursion resp1 resp2) =
      (length resp1 ≡ div_ceil (params.n * tau) gamma1)
      × (length resp1 < 2 ^ 64)
      × All (ComesBack write_glwe (read_glwe matmul_base2k qtilde_bits)) resp1
      × (length resp2 ≡ div_ceil (gamma0 * tau) gamma2)
      × (length resp2 < 2 ^ 64)
      × All (ComesBack write_glwe (read_glwe matmul_base2k qtilde_bits)) resp2
  ResponseFitsAs _ _ = ⊥

  selected_bytes :
      (selected : Glwe) (rest : List ℕ)
      → write_response c (Response.interpolation selected) ++ rest
        ≡ write_u8 0 ++ (write_glwe selected ++ rest)
  unfolding write_response
  selected_bytes selected rest = append_assoc (write_u8 0) (write_glwe selected) rest

  vectors_bytes :
      (resp1 resp2 : List Glwe) (rest : List ℕ)
      → write_response c (Response.recursion resp1 resp2) ++ rest
        ≡ write_u8 1 ++ (write_vec write_glwe resp1 ++ (write_vec write_glwe resp2 ++ rest))
  unfolding write_response
  vectors_bytes resp1 resp2 rest =
      append_assoc (write_u8 1) (write_vec write_glwe resp1 ++ write_vec write_glwe resp2) rest
      ∙ ap (λ bytes. write_u8 1 ++ bytes)
          (append_assoc (write_vec write_glwe resp1) (write_vec write_glwe resp2) rest)

  response_back :
      (collapse : Collapse) (r : Response c) (rest : List ℕ)
      → params.collapse ≡ collapse
      → ResponseFitsAs collapse r
      → read_response c params (write_response c r ++ rest) ≡ ok (r, rest)
  unfolding read_response read_recursion_response
  response_back Collapse.interpolation (Response.interpolation selected) rest same fits =
      rw (same, selected_bytes selected rest)
        (rw (read_u8-write_u8 0 (write_glwe selected ++ rest)) (rw (fits rest)))
  response_back (Collapse.recursion g0 g1 g2) (Response.recursion resp1 resp2) rest same
        (len, small, back, len', small', back') =
      rw (same, vectors_bytes resp1 resp2 rest)
        (rw
          (read_u8-write_u8 1 (write_vec write_glwe resp1 ++ (write_vec write_glwe resp2 ++ rest)))
          (rw (← len, ← len')
            (rw
              (read_vec-write_vec write_glwe (read_glwe matmul_base2k qtilde_bits) resp1 _ back
                small)
              (rw (
                read_vec-write_vec write_glwe (read_glwe matmul_base2k qtilde_bits) resp2 rest back'
                  small')))))
  response_back Collapse.interpolation (Response.recursion resp1 resp2) rest same fits = absurd fits
  response_back (Collapse.recursion g0 g1 g2) (Response.interpolation selected) rest same fits =
      absurd fits

  -- A response that fits the parameters is read back from its bytes, and the bytes that follow are
  -- left.
  pub read_response-write_response :
      (r : Response c)
      → ResponseFitsAs params.collapse r
      → (rest : List ℕ) → read_response c params (write_response c r ++ rest) ≡ ok (r, rest)
  read_response-write_response r fits rest = response_back params.collapse r rest refl fits
