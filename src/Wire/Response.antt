-- ===== src/Wire/Response.antt =====
-- src/serialization.rs: `Response`, written and read.
use poulpy_pir.Prelude.{ℕ, ◌*◌, List, ◌++◌, ◌==◌, div_ceil, if◌then◌else◌}
use poulpy_pir.Io.{invalid_data}
use poulpy_pir.Config.Scheme.{Config, Collapse}
use poulpy_pir.Wire.{
  Ciphertexts, tag_interpolation, tag_recursion, matmul_base2k, qtilde_bits, write_u8, read_u8,
  write_vec, read_vec,
}
use poulpy_pir.Wire.Outcome.{WireResult, ok, err, ◌>>=◌, lift}

pub data Response (c : Ciphertexts) : Type 0 where
  interpolation : (selected : c.Glwe) → Response c
  recursion : (resp1 resp2 : List c.Glwe) → Response c

module _ (c : Ciphertexts) where
  open c use {
    Glwe, GlweCompressed, Entry, write_glwe, read_glwe, write_glwe_compressed, read_glwe_compressed,
    ggsw_seeds, ggsw_entries,
  }

  -- `Response::write_to`.
  unfoldable pub write_response : Response c → List ℕ
  unfolding write_vec write_u8
  write_response (interpolation selected) = write_u8 tag_interpolation ++ write_glwe selected
  write_response (recursion resp1 resp2) =
      write_u8 tag_recursion ++ (write_vec write_glwe resp1 ++ write_vec write_glwe resp2)

  unfoldable pub read_recursion_response :
      Config → (gamma0 gamma1 gamma2 : ℕ) → List ℕ → WireResult (Response c × List ℕ)
  unfolding read_vec qtilde_bits
  read_recursion_response params gamma0 gamma1 gamma2 input = do
    let tau = div_ceil qtilde_bits matmul_base2k
    (resp1, r0) ←
        lift
          (read_vec (read_glwe matmul_base2k qtilde_bits) (div_ceil (params.n * tau) gamma1) input)
    (resp2, r1) ←
        lift (read_vec (read_glwe matmul_base2k qtilde_bits) (div_ceil (gamma0 * tau) gamma2) r0)
    ok (recursion resp1 resp2, r1)

  abbrev response_of : ℕ → Config → Collapse → List ℕ → WireResult (Response c × List ℕ)
  response_of tag params collapse rest =
      if tag == tag_interpolation
      then elim collapse [
        | Collapse.interpolation ↦ do
          (selected, r0) ← lift (read_glwe params.base2k params.k rest)
          ok (interpolation selected, r0)
        | Collapse.recursion gamma0 gamma1 gamma2 ↦
            err (invalid_data "interpolation response received for non-interpolation parameters")
      ]
      else if tag == tag_recursion
      then elim collapse [
        | Collapse.interpolation ↦
            err (invalid_data "recursion response received for non-recursion parameters")
        | Collapse.recursion gamma0 gamma1 gamma2 ↦
            read_recursion_response params gamma0 gamma1 gamma2 rest
      ]
      else err (invalid_data "unknown Response serialization tag")

  -- `Response::read_from`.
  unfoldable pub read_response : Config → List ℕ → WireResult (Response c × List ℕ)
  unfolding read_u8 read_recursion_response
  read_response params input = do
    (tag, rest) ← lift (read_u8 input)
    response_of tag params params.collapse rest
