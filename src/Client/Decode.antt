-- ===== src/Client/Decode.antt =====
-- src/client/core.rs: the checks and the decoding of a response.
use poulpy_pir.Prelude.{ℕ, ◌+◌, ◌*◌, ℤ, pos, List, length, map, take, drop, leb, if◌then◌else◌}
use Prim.Native.String.{String}
use text.Mathlib.Text.{◌==◌ as str_eq}
use poulpy_pir.Error.{
  Result, ok, err, panic, ◌>>=◌, ◌>>◌, ensure, unwrap, digit_run_out_of_bounds,
  wrong_response_variant,
}
use poulpy_pir.Payload.{Payload}
use poulpy_pir.Encoding
use poulpy_pir.Encoding.{ModPEncoder, decode_coeffs}
use poulpy_pir.Config.Scheme.{Config, Collapse}
use poulpy_pir.Database.Layout.{Address, DatabaseLayout}
use poulpy_pir.Database.Storage.Access.{as_i16}
use poulpy_pir.Wire.{Ciphertexts, matmul_base2k}
use poulpy_pir.Wire.Response.{Response}
use poulpy_pir.Client.{Cipher}
use poulpy_pir.Client.Recompose.{extract_response}

abbrev pub collapse_name : Collapse → String
collapse_name Collapse.interpolation = "Interpolation"
collapse_name (Collapse.recursion gamma0 gamma1 gamma2) = "Recursion"

pub record Client : Type 0 where
  pub params : Config
  pub layout : DatabaseLayout

module _ {c : Ciphertexts} (x : Cipher c) (p : Payload) where
  open x use {Sk, glwe_decrypt, decode_torus}

  pub record QueryState : Type 0 where
    pub sk : Sk
    pub address : Address

  abbrev pub response_name : Response c → String
  response_name (Response.interpolation selected) = "Interpolation"
  response_name (Response.recursion resp1 resp2) = "Recursion"

  unfoldable pub ensure_response_matches : Client → Response c → Result (Unit {0})
  ensure_response_matches client response =
      let expected = collapse_name client.params.collapse in
      let actual = response_name response in
      if str_eq expected actual then ok tt else err (wrong_response_variant expected actual)

  -- `Parameters::encoder`.
  unfoldable pub encoder : Config → Result ModPEncoder
  unfolding Encoding.new
  encoder params = Encoding.new (pos p.basis) params.k

  abbrev decrypt_recursion : Config → Collapse → (resp1 resp2 : List c.Glwe) → Sk → Result (List ℤ)
  decrypt_recursion params Collapse.interpolation resp1 resp2 sk = panic
  decrypt_recursion params (Collapse.recursion gamma0 gamma1 gamma2) resp1 resp2 sk =
      extract_response x sk params.n gamma0 gamma1 gamma2 matmul_base2k (2 * matmul_base2k) resp1
        resp2

  unfoldable pub decrypt_unchecked : Client → Response c → Sk → Result (List ℤ)
  unfolding encoder decode_coeffs
  decrypt_unchecked client (Response.interpolation selected) sk = do
    enc ← encoder client.params
    ok (
        decode_coeffs enc
          (decode_torus client.params.base2k enc.torus_bits (glwe_decrypt selected sk)))
  decrypt_unchecked client (Response.recursion resp1 resp2) sk =
      decrypt_recursion client.params client.params.collapse resp1 resp2 sk

  unfoldable pub try_decrypt : Client → Response c → Sk → Result (List ℤ)
  unfolding ensure_response_matches decrypt_unchecked
  try_decrypt client response sk = do
    ensure_response_matches client response
    decrypt_unchecked client response sk

  unfoldable pub decrypt : Client → Response c → Sk → Result (List ℤ)
  unfolding try_decrypt
  decrypt client response sk = unwrap (try_decrypt client response sk)

  unfoldable pub try_decrypt_digits : Client → Response c → QueryState → Result (List ℤ)
  unfolding try_decrypt
  try_decrypt_digits client response state = try_decrypt client response state.sk

  -- The digits of the payload, out of those of the column.
  abbrev pub payload_digits : ℕ → List ℤ → List ℤ
  payload_digits start digits = map as_i16 (take p.exponent (drop start digits))

  unfoldable pub try_decode : Client → Response c → QueryState → Result (List ℕ)
  unfolding try_decrypt_digits
  try_decode client response state = do
    digits ← try_decrypt_digits client response state
    let start = state.address.row_offset
    let refused = digit_run_out_of_bounds start p.exponent (length digits)
    ensure (leb (start + p.exponent) (length digits)) refused
    ok (p.decode (payload_digits start digits))

  unfoldable pub decode : Client → Response c → QueryState → Result (List ℕ)
  unfolding try_decode
  decode client response state = unwrap (try_decode client response state)
