-- ===== src/Client/Recompose.antt =====
-- src/client/recursion.rs: the digits of the two packed responses, put together into one ciphertext;
-- and the order in which src/server/recursion/ lays these digits out.
use poulpy_pir.Prelude.{
  ℕ, zero, suc, ◌+◌, ◌-◌, ◌*◌, ℤ, pos, List, [], ◌∷◌, ◌++◌, take, replicate, div_ceil,
}
use poulpy_pir.Error.{Result, ok, ◌>>=◌}
use poulpy_pir.Loop.{at}
use poulpy_pir.Wire.{Ciphertexts}
use poulpy_pir.Client.{Cipher}

-- `packing::recursion::decompose_digits`.
unfoldable pub decompose_digits : ℕ → ℕ
decompose_digits qtilde_bits = div_ceil qtilde_bits 16

-- `values[c * tau + l]` for `c` from `i` on: the limb `l` of some coefficients.
abbrev pub limb : List ℤ → (tau l i count : ℕ) → Result (List ℤ)
limb values tau l i zero = ok []
limb values tau l i (suc count) = do
  v ← at values (i * tau + l)
  vs ← limb values tau l (i + 1) count
  ok (v ∷ vs)

-- The limbs `l`, …, of `count` coefficients, each filled up to the degree `n`, which starts at zero.
abbrev pub limb_rows : List ℤ → (n tau count l left : ℕ) → Result (List (List ℤ))
limb_rows values n tau count l zero = ok []
limb_rows values n tau count l (suc left) = do
  x ← limb values tau l 0 count
  xs ← limb_rows values n tau count (l + 1) left
  ok ((x ++ replicate (n - count) (pos 0)) ∷ xs)

module _ {c : Ciphertexts} (x : Cipher c) where
  open x use {Sk, glwe_decrypt, decode_vec, glwe_of_limbs}

  abbrev all_digits : Sk → (gamma k_pt : ℕ) → List c.Glwe → List ℤ
  all_digits sk gamma k_pt [] = []
  all_digits sk gamma k_pt (r ∷ rest) =
      take gamma (decode_vec k_pt (glwe_decrypt r sk)) ++ all_digits sk gamma k_pt rest

  unfoldable pub unpack_response_digits : Sk → List c.Glwe → (gamma total k_pt : ℕ) → List ℤ
  unpack_response_digits sk response gamma total k_pt =
      take total (all_digits sk gamma k_pt response)

  unfoldable pub recompose_response :
      Sk
      → (n gamma0 gamma1 gamma2 k_pt qtilde_bits : ℕ) → (resp1 resp2 : List c.Glwe) → Result c.Glwe
  unfolding decompose_digits unpack_response_digits
  recompose_response sk n gamma0 gamma1 gamma2 k_pt qtilde_bits resp1 resp2 = do
    let tau = decompose_digits qtilde_bits
    let mask_vals = unpack_response_digits sk resp1 gamma1 (n * tau) k_pt
    let body_vals = unpack_response_digits sk resp2 gamma2 (gamma0 * tau) k_pt
    mask ← limb_rows mask_vals n tau n 0 tau
    body ← limb_rows body_vals n tau gamma0 0 tau
    ok (glwe_of_limbs mask body)

  unfoldable pub extract_response :
      Sk
      → (n gamma0 gamma1 gamma2 k_pt qtilde_bits : ℕ) → (resp1 resp2 : List c.Glwe)
      → Result (List ℤ)
  unfolding recompose_response
  extract_response sk n gamma0 gamma1 gamma2 k_pt qtilde_bits resp1 resp2 = do
    recomposed ← recompose_response sk n gamma0 gamma1 gamma2 k_pt qtilde_bits resp1 resp2
    ok (take gamma0 (decode_vec k_pt (glwe_decrypt recomposed sk)))
