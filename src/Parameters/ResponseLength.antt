-- ===== src/Parameters/ResponseLength.antt =====
-- The size of a response is the length of the written message.
use poulpy_pir.Prelude.{ℕ, ◌*◌, ◌≡◌, refl, ap, length, length-append, All, arith}
use poulpy_pir.Config.Scheme.{Config, Collapse}
use poulpy_pir.Database.Layout.{DatabaseLayout}
use poulpy_pir.Wire.{Ciphertexts, write_u8, write_vec, qtilde_bits}
use poulpy_pir.Wire.Response.{Response, write_response}
use poulpy_pir.Wire.RoundTrip.{ResponseFitsAs}
use poulpy_pir.Parameters.{total_response_size, glwe_wire_bytes, response_size}
use poulpy_pir.Parameters.QueryLength.{length-write_vec}

module _ (c : Ciphertexts) (params : Config) (layout : DatabaseLayout) where
  -- Each ciphertext of a response has the size that poulpy writes at its precision: `k` in the
  -- interpolation scheme, two limbs of the matrix base after the second recursion.
  abbrev pub HasGlweSizes : Response c → Type 0
  HasGlweSizes (Response.interpolation selected) =
      length (c.write_glwe selected) ≡ glwe_wire_bytes params.n params.k
  HasGlweSizes (Response.recursion resp1 resp2) =
      All (λ x. length (c.write_glwe x) ≡ glwe_wire_bytes params.n qtilde_bits) resp1
      × All (λ x. length (c.write_glwe x) ≡ glwe_wire_bytes params.n qtilde_bits) resp2

  abbrev vector_size : ℕ
  vector_size = glwe_wire_bytes params.n qtilde_bits

  length_response_as :
      (collapse : Collapse) (r : Response c)
      → params.collapse ≡ collapse
      → ResponseFitsAs c params layout collapse r
      → HasGlweSizes r
      → length (write_response c r) ≡ total_response_size (response_size params)
  unfolding response_size total_response_size write_response write_u8 qtilde_bits
  length_response_as Collapse.interpolation (Response.interpolation selected) same fits sized =
      rw same (omega (arith, sized))
  length_response_as (Collapse.recursion g0 g1 g2) (Response.recursion resp1 resp2) same
        (len, small, back, len', small', back') (sized, sized') =
      rw same (
        omega (
          arith,
          length-append (write_vec c.write_glwe resp1) (write_vec c.write_glwe resp2),
          length-write_vec c.write_glwe vector_size resp1 sized,
          length-write_vec c.write_glwe vector_size resp2 sized',
          ap (λ (m : ℕ). m * vector_size) len,
          ap (λ (m : ℕ). m * vector_size) len',
        ))
  length_response_as Collapse.interpolation (Response.recursion resp1 resp2) same fits sized =
      absurd fits
  length_response_as (Collapse.recursion g0 g1 g2) (Response.interpolation selected) same fits
        sized =
      absurd fits

  -- A response that fits the parameters, and whose ciphertexts have the sizes that the parameters
  -- state, is written as as many bytes as `response_size` adds up to.
  pub length-write_response :
      (r : Response c)
      → ResponseFitsAs c params layout params.collapse r
      → HasGlweSizes r
      → length (write_response c r) ≡ total_response_size (response_size params)
  length-write_response r fits sized = length_response_as params.collapse r refl fits sized
