-- ===== src/Client/OneHot.antt =====
-- src/client/core.rs: `encrypt_one_hot_blocks`, the encryption of a position among many in blocks of
-- one ring degree each.
use poulpy_pir.Prelude.{
  ℕ, zero, suc, ◌+◌, ◌-◌, ◌*◌, ◌/◌, ◌%◌, ◌≤◌, ◌<◌, ◌≡◌, refl, ap, min, ltb, leb, ◌&&◌,
  if◌then◌else◌, Option, some, none, Bool, true, false, ℤ, pos, List, [], ◌∷◌, length, replicate,
  set, div_ceil, lt→ltb, le→ltb, le→leb, lt→leb, eq→==, ne→==, ◌==◌, ◌^◌, mul_mono, get_elem?, take,
  ◌++◌, to_le_bytes, mod_bound, arith,
}
use package.native.Mathlib.Nat.{div-add-mod}
use package.native.Mathlib.Decide.{dec_lt, ℕ_discrete}
use mathlib.Core.Path.{subst}
use poulpy_pir.Error.{Result, ok, assert, ◌>>=◌, ◌>>◌}
use poulpy_pir.Encoding.{ModPEncoder}
use poulpy_pir.Wire.{Ciphertexts}
use poulpy_pir.Client.{Cipher}
use poulpy_pir.Client.Seed.{MaskSeeds, seed, seed_lem}

pub data OneHotEncoding : Type 0 where
  mod_p : OneHotEncoding
  native : (precision : ℕ) → OneHotEncoding

-- The slot of the block at `start` that is hot, if the position falls in the block.
abbrev pub hot_slot : (idx start width : ℕ) → Option ℕ
hot_slot idx start width =
    if leb start idx && ltb idx (start + width) then some (idx - start) else none

module _ {c : Ciphertexts} (x : Cipher c) where
  open x use {
    Source, Sk, Plaintext, zero_plaintext, encode_coeff, encode_vec, glwe_compressed_encrypt,
  }

  -- `encode_one_hot_into` and `encode_zero_into`, or a vector with a 1 at the hot slot.
  abbrev pub block_plaintext :
      ModPEncoder → (n matmul_base2k : ℕ) → OneHotEncoding → Option ℕ → Plaintext
  block_plaintext enc n matmul_base2k mod_p none = zero_plaintext
  block_plaintext enc n matmul_base2k mod_p (some slot) =
      encode_coeff matmul_base2k enc.torus_bits slot (pos enc.encoded_unit) zero_plaintext
  block_plaintext enc n matmul_base2k (native precision) none =
      encode_vec precision (replicate n (pos 0))
  block_plaintext enc n matmul_base2k (native precision) (some slot) =
      encode_vec precision (set (replicate n (pos 0)) slot (pos 1))

  -- The blocks from `block` on, and the noise source after them.
  abbrev pub encrypt_blocks :
      ModPEncoder
      → (n matmul_base2k idx len : ℕ) → MaskSeeds
      → Sk
      → OneHotEncoding
      → (block count : ℕ) → Source
      → Result (List c.GlweCompressed × Source)
  encrypt_blocks enc n matmul_base2k idx len seeds sk encoding block zero xe = ok ([], xe)
  encrypt_blocks enc n matmul_base2k idx len seeds sk encoding block (suc count) xe = do
    let start = block * n
    let width = min (len - start) n
    s ← seed seeds block
    let plaintext = block_plaintext enc n matmul_base2k encoding (hot_slot idx start width)
    let (ct, xe') = glwe_compressed_encrypt plaintext sk s xe
    (cts, xe'') ← encrypt_blocks enc n matmul_base2k idx len seeds sk encoding (block + 1) count xe'
    ok (ct ∷ cts, xe'')

  unfoldable pub encrypt_one_hot_blocks :
      ModPEncoder
      → (n matmul_base2k idx len : ℕ) → (seed_root : List ℕ) → Sk
      → OneHotEncoding
      → Source
      → Result (List c.GlweCompressed × Source)
  unfolding seed div_ceil
  encrypt_one_hot_blocks enc n matmul_base2k idx len seed_root sk encoding xe = do
    assert (ltb idx len)
    encrypt_blocks enc n matmul_base2k idx len (record { root = seed_root }) sk encoding 0
        (div_ceil len n) xe

-- The hot slot lies in the block `idx / n`, at `idx % n`, and every other block has none.
hot_slot_lem :
    (idx len n b : ℕ)
    → 0 < n
    → idx < len
    → hot_slot idx (b * n) (min (len - b * n) n) ≡ (if b == idx / n then some (idx % n) else none)
hot_slot_lem idx len n b n_pos lt =
    let parts = div-add-mod idx n in
    let small = mod_bound idx n n_pos in
    elim (ℕ_discrete b (idx / n)) [
      | yes e ↦
          let at_block : b * n + idx % n ≡ idx = rw e (omega arith) in
          rw
            (
              eq→== b (idx / n) e,
              le→leb (b * n) idx (omega arith),
              lt→ltb idx (b * n + min (len - b * n) n) (omega arith),
            )
            (ap some (omega arith))
      | no ne ↦ elim (dec_lt b (idx / n)) [
        | yes before ↦ rw (
          ne→== b (idx / n) ne,
          le→leb (b * n) idx (omega (arith, mul_mono b (idx / n) n (omega arith))),
          le→ltb idx (b * n + min (len - b * n) n)
              (omega (arith, mul_mono (suc b) (idx / n) n before)),
        )
        | no after ↦ rw (
          ne→== b (idx / n) ne,
          lt→leb (b * n) idx (omega (arith, mul_mono (suc (idx / n)) b n (omega arith))),
        )
      ]
    ]

-- The vector of zeros, and the one with a 1 in one slot.
abbrev pub zeros : ℕ → List ℤ
zeros zero = []
zeros (suc n) = pos 0 ∷ zeros n

abbrev pub unit_vector : (slot n : ℕ) → List ℤ
unit_vector slot zero = []
unit_vector zero (suc n) = pos 1 ∷ zeros n
unit_vector (suc slot) (suc n) = pos 0 ∷ unit_vector slot n

replicate_lem : (n : ℕ) → replicate n (pos 0) ≡ zeros n
replicate_lem zero = refl
replicate_lem (suc n) = ap (λ vs. pos 0 ∷ vs) (replicate_lem n)

set-replicate : (slot n : ℕ) → set (replicate n (pos 0)) slot (pos 1) ≡ unit_vector slot n
set-replicate slot zero = refl
set-replicate zero (suc n) = ap (λ vs. pos 1 ∷ vs) (replicate_lem n)
set-replicate (suc slot) (suc n) = ap (λ vs. pos 0 ∷ vs) (set-replicate slot n)

module _ {c : Ciphertexts} (x : Cipher c) (enc : ModPEncoder) (n matmul_base2k idx len : ℕ)
    (seed_root : List ℕ) (sk : x.Sk) (encoding : OneHotEncoding) (pos_n : 0 < n) (lt : idx < len)
    (few : div_ceil len n ≤ 2 ^ 32) where
  open x use {Source, Plaintext, zero_plaintext, encode_coeff, encode_vec, glwe_compressed_encrypt}

  -- What a block holds, by its encoding: the plaintext of zeros, or the one with the unit in one slot.
  abbrev zero_block : OneHotEncoding → Plaintext
  zero_block mod_p = zero_plaintext
  zero_block (native precision) = encode_vec precision (zeros n)

  abbrev unit_block : OneHotEncoding → (slot : ℕ) → Plaintext
  unit_block mod_p slot =
      encode_coeff matmul_base2k enc.torus_bits slot (pos enc.encoded_unit) zero_plaintext
  unit_block (native precision) slot = encode_vec precision (unit_vector slot n)

  abbrev pub plaintext_of : (b : ℕ) → Plaintext
  plaintext_of b = if b == idx / n then unit_block encoding (idx % n) else zero_block encoding

  -- The ciphertext of the block `b`, encrypted with some state of the noise source.
  abbrev pub IsBlockOf : ℕ → Option c.GlweCompressed → Type 0
  IsBlockOf b ct =
      (s : List ℕ) × (xe : Source) × (seed (record { root = seed_root }) b ≡ ok s)
      × (ct ≡ some (glwe_compressed_encrypt (plaintext_of b) sk s xe).0)

  plaintext_lem :
      (coding : OneHotEncoding) (hot : Bool)
      → block_plaintext x enc n matmul_base2k coding (if hot then some (idx % n) else none)
        ≡ (if hot then unit_block coding (idx % n) else zero_block coding)
  plaintext_lem mod_p true = refl
  plaintext_lem mod_p false = refl
  plaintext_lem (native precision) true = ap (encode_vec precision) (set-replicate (idx % n) n)
  plaintext_lem (native precision) false = ap (encode_vec precision) (replicate_lem n)

  blocks_lem :
      (count block : ℕ) (xe : Source)
      → block + count ≤ 2 ^ 32
      → (cts : List c.GlweCompressed) × (xe' : Source) × (encrypt_blocks x enc n matmul_base2k idx
            len
            (record { root = seed_root })
            sk
            encoding
            block
            count
            xe
          ≡ ok (cts, xe'))
        × (length cts ≡ count)
        × ((k : ℕ) → k < count → IsBlockOf (block + k) (get_elem? cts k))
  blocks_lem zero block xe le = ([], xe, refl, refl, λ k h. absurd (omega arith))
  blocks_lem (suc count) block xe le =
      let bytes = take 28 seed_root ++ to_le_bytes 4 block in
      let drawn = seed_lem (record { root = seed_root }) block (omega arith) in
      let (ct, xe1) = glwe_compressed_encrypt (plaintext_of block) sk bytes xe in
      let (cts, xe', run, size, all) = blocks_lem count (block + 1) xe1 (omega arith) in
      (
        ct ∷ cts,
        xe',
        rw (drawn, hot_slot_lem idx len n block pos_n lt)
            (rw (plaintext_lem encoding (block == idx / n)) (rw run)),
        ap suc size,
        λ k. elim k as (λ k. k < suc count → IsBlockOf (block + k) (get_elem? (ct ∷ cts) k)) [
          | zero ↦ λ h. let e : block + zero ≡ block = omega arith in rw e (bytes, xe, drawn, refl)
          | suc j ↦ λ h.
              let e : block + 1 + j ≡ block + suc j = omega arith in
              subst (λ (b : ℕ). IsBlockOf b (get_elem? cts j)) e (all j (omega arith))
        ],
      )

  -- For a positive ring degree `n`, a position `idx` below the length, and no more blocks than there are
  -- seeds, the client encrypts as many blocks as cover the length, each with the mask seed of its number.
  -- The block `idx / n` encrypts the unit in the slot `idx % n`, and every other block encrypts zero: for
  -- the encoding modulo `p` the encoder's unit in the plaintext of zeros, and that plaintext alone; for the
  -- native encoding the vector with a 1 in that slot and zeros elsewhere, and the vector of zeros.
  pub encrypt_one_hot_blocks_lem :
      (xe : Source)
      → (cts : List c.GlweCompressed) × (xe' : Source) × (encrypt_one_hot_blocks x enc n
            matmul_base2k idx len seed_root sk encoding xe
          ≡ ok (cts, xe'))
        × (length cts ≡ div_ceil len n)
        × ((b : ℕ) → b < div_ceil len n → IsBlockOf b (get_elem? cts b))
  unfolding encrypt_one_hot_blocks
  encrypt_one_hot_blocks_lem xe =
      let (cts, xe', run, size, all) = blocks_lem (div_ceil len n) 0 xe (omega (arith, few)) in
      (
        cts,
        xe',
        rw (lt→ltb idx len lt) run,
        size,
        λ b h.
            let e : 0 + b ≡ b = omega arith in
            subst (λ (k : ℕ). IsBlockOf k (get_elem? cts b)) e (all b h),
      )
