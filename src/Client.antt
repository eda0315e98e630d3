-- ===== src/Client.antt =====
-- src/client/: seeds, queries and the decoding of responses. Encryption and decryption are calls of
-- poulpy, the parameter `Cipher`.
pub mod Seed
pub mod OneHot
pub mod Recompose
pub mod Decode
pub mod Retrieve
pub mod Refused
use poulpy_pir.Prelude.{ℕ, ℤ, List}
use poulpy_pir.Wire.{Ciphertexts, AutoKey, Gadget}

-- What the client calls. A `Source` is a pseudo-random generator, from which an encryption draws its
-- noise.
pub record Cipher (c : Ciphertexts) : Type 1 where
  pub Source : Type 0
  pub source_new : List ℕ → Source
  pub new_seed : Source → List ℕ × Source
  pub Sk : Type 0
  pub Plaintext : Type 0
  pub zero_plaintext : Plaintext
  -- `encode_coeff base2k torus_bits slot value` rewrites the coefficient `slot` only.
  pub encode_coeff : (base2k torus_bits slot : ℕ) → ℤ → Plaintext → Plaintext
  -- `GLWEPlaintext::encode_vec_i64`, at a precision, and its inverse.
  pub encode_vec : ℕ → List ℤ → Plaintext
  pub decode_vec : ℕ → Plaintext → List ℤ
  -- `VecZnx::decode_vec_i64`.
  pub decode_torus : (base2k torus_bits : ℕ) → Plaintext → List ℤ
  pub glwe_compressed_encrypt : Plaintext → Sk → List ℕ → Source → c.GlweCompressed × Source
  pub glwe_decrypt : c.Glwe → Sk → Plaintext
  -- The automorphism key for `X -> X^p`.
  pub automorphism_key_encrypt : ℤ → Sk → List ℕ → Source → AutoKey c.Entry × Source
  -- The GGSW encryption of `sign * X^exponent`.
  pub ggsw_encrypt : (exponent : ℕ) → (sign : ℤ) → Sk → List ℕ → Source → Gadget c.Entry × Source
  pub fresh_secret : Sk
  pub galois_element : ℕ → ℤ
  -- The ciphertext with the given limbs of the mask and of the body.
  pub glwe_of_limbs : (mask body : List (List ℤ)) → c.Glwe
