-- ===== src/Client/Refused.antt =====
-- src/client/core.rs: what `try_decode` answers when there is no payload to decode.
use Prim.Native.String.{String}
use text.Mathlib.Text.{◌==◌ as str_eq}
use poulpy_pir.Payload.{Payload}
use poulpy_pir.Wire.{Ciphertexts}
use poulpy_pir.Wire.Response.{Response}
use poulpy_pir.Client.{Cipher}
use poulpy_pir.Client.Decode.{Client, QueryState, collapse_name}

module _ {c : Ciphertexts} (x : Cipher c) (p : Payload) (client : Client)
    (st : QueryState x p) where
  abbrev expected : String
  expected = collapse_name client.params.collapse
