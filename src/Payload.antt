-- ===== src/Payload.antt =====
-- src/payload.rs, the trait `Payload`: a codec between a block of bytes and a run of centred
-- `i16` digits. A block is the list of its bytes; `encode` and `decode` return what the source
-- writes through its `&mut` argument.
pub mod P65536
pub mod P65535
use poulpy_pir.Prelude.{ℕ, ◌*◌, ◌≡◌, List, ℤ, length, All, IsByte, IsI16, arith, zero, suc, refl}
use P65536
use P65535

-- The trait. `block_len` is the size of `Block` in bytes.
pub record Payload : Type 0 where
  pub block_len : ℕ
  pub basis : ℕ
  pub exponent : ℕ
  pub encode : List ℕ → List ℤ
  pub decode : List ℤ → List ℕ

abbrev pub IsBlock : ℕ → List ℕ → Type 0
IsBlock len v = (length v ≡ len) × All IsByte v

-- What the database and the client rely on: a block fills `exponent` digits, each of which fits
-- an `i16`, and comes back from them.
pub record IsCodec (p : Payload) : Type 0 where
  pub length-encode : (v : List ℕ) → IsBlock p.block_len v → length (p.encode v) ≡ p.exponent
  pub encode-IsI16 : (v : List ℕ) → IsBlock p.block_len v → All IsI16 (p.encode v)
  pub decode-encode : (v : List ℕ) → IsBlock p.block_len v → p.decode (p.encode v) ≡ v

-- `P65536<[u8; N]>` for `N = 2 * words`.
abbrev pub p65536 : ℕ → Payload
p65536 words = record {
  block_len = 2 * words;
  basis = 65536;
  exponent = P65536.exponent (2 * words);
  encode = P65536.encode;
  decode = P65536.decode;
}

abbrev pub p65535 : Payload
p65535 = record {
  block_len = 32;
  basis = 65535;
  exponent = P65535.exponent;
  encode = P65535.encode;
  decode = P65535.decode;
}

abbrev pub u256_p65536 : Payload
u256_p65536 = p65536 16

abbrev pub u512_p65536 : Payload
u512_p65536 = p65536 32

-- `P65536<[u8; N]>` is a codec for every even `N`: a block of `N` bytes has `N / 2` digits, each an
-- `i16`, that decode to the block.
pub p65536-IsCodec : (words : ℕ) → IsCodec (p65536 words)
unfolding P65536.exponent
p65536-IsCodec words = record {
  length-encode = λ v h. omega (arith, P65536.length-encode words v h.0);
  encode-IsI16 = λ v h. P65536.encode-IsI16 v h.1;
  decode-encode = λ v h. P65536.decode-encode words v h.0 h.1;
}

-- `P65535<[u8; 32]>` is a codec: 32 bytes have 17 digits, each an `i16`, that decode to the bytes.
pub p65535-IsCodec : IsCodec p65535
unfolding P65535.exponent
p65535-IsCodec = record {
  length-encode = λ v h. P65535.length-encode v h.0 h.1;
  encode-IsI16 = λ v h. P65535.encode-IsI16 v h.0 h.1;
  decode-encode = λ v h. P65535.decode-encode v h.0 h.1;
}
