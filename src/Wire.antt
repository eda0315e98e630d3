-- ===== src/Wire.antt =====
-- src/serialization.rs: tags, length prefixes and the parts of queries and responses. A ciphertext's
-- own bytes are calls of poulpy, a parameter: each is repacked to base2k 63 and written, or read and
-- restored to the working base2k. A body matrix is the list of its entries, row by row.
pub mod Outcome
pub mod Query
pub mod Response
pub mod Parts
pub mod RoundTrip
pub mod Refused
use poulpy_pir.Prelude.{
  ℕ, zero, suc, ◌+◌, ◌*◌, ◌≡◌, List, [], ◌∷◌, ◌++◌, ◌==◌, length, div_ceil, if◌then◌else◌, Bool,
  true, false,
}
use poulpy_pir.Io.{
  IoResult, ok, err, Reader, invalid_data, read_exact, read_u64, write_u64, ◌>>=◌, ◌>>◌,
}

-- `Glwe`, `GlweCompressed` and `Entry` (one body entry of a gadget ciphertext) with their writers,
-- and their readers at a working base2k and precision; and the numbers of seeds and entries of the
-- receivers that poulpy allocates at `key_layout` and `ggsw_layout`.
pub record Ciphertexts : Type 1 where
  pub Glwe : Type 0
  pub GlweCompressed : Type 0
  pub Entry : Type 0
  pub write_glwe : Glwe → List ℕ
  pub read_glwe : (base2k k : ℕ) → Reader Glwe
  pub write_glwe_compressed : GlweCompressed → List ℕ
  pub read_glwe_compressed : (base2k k : ℕ) → Reader GlweCompressed
  pub write_entry : Entry → List ℕ
  pub read_entry : Reader Entry
  pub key_seeds : ℕ
  pub key_entries : ℕ
  pub ggsw_seeds : ℕ
  pub ggsw_entries : ℕ

abbrev pub tag_interpolation : ℕ
tag_interpolation = 0

abbrev pub tag_recursion : ℕ
tag_recursion = 1

abbrev pub matmul_base2k : ℕ
matmul_base2k = 16

unfoldable pub qtilde_bits : ℕ
qtilde_bits = 2 * matmul_base2k

unfoldable pub ensure_len : (got expected : ℕ) → IoResult (Unit {0})
ensure_len got expected = if got == expected then ok tt else err (invalid_data "length mismatch")

unfoldable pub write_u8 : ℕ → List ℕ
write_u8 v = v ∷ []

abbrev first_byte : List ℕ × List ℕ → ℕ × List ℕ
first_byte ([], rest) = (0, rest)
first_byte (b ∷ bs, rest) = (b, rest)

unfoldable pub read_u8 : Reader ℕ
unfolding read_exact
read_u8 input = do r ← read_exact 1 input; ok (first_byte r)

unfoldable pub write_all : {T : Type 0} → (T → List ℕ) → List T → List ℕ
write_all write [] = []
write_all write (x ∷ xs) = write x ++ write_all write xs

unfoldable pub read_n : {T : Type 0} → Reader T → ℕ → Reader (List T)
read_n read zero input = ok ([], input)
read_n read (suc count) input = do
  (x, rest) ← read input
  (xs, rest') ← read_n read count rest
  ok (x ∷ xs, rest')

-- A length prefix and that many parts.
unfoldable pub write_vec : {T : Type 0} → (T → List ℕ) → List T → List ℕ
unfolding write_all
write_vec write xs = write_u64 (length xs) ++ write_all write xs

unfoldable pub read_vec : {T : Type 0} → Reader T → (expected : ℕ) → Reader (List T)
unfolding read_n ensure_len
read_vec read expected input = do
  (count, rest) ← read_u64 input
  ensure_len count expected
  read_n read count rest

pub record Gadget (Entry : Type 0) : Type 0 where
  pub seeds : List (List ℕ)
  pub entries : List Entry

-- `p` is the 64-bit pattern of the Galois element.
pub record AutoKey (Entry : Type 0) : Type 0 where
  pub p : ℕ
  pub gadget : Gadget Entry

pub record CompressedKey (Entry : Type 0) : Type 0 where
  pub stride : ℕ
  pub key : AutoKey Entry

module _ (c : Ciphertexts) where
  open c use {
    Glwe, GlweCompressed, Entry, write_glwe, read_glwe, write_glwe_compressed, read_glwe_compressed,
    write_entry, read_entry, key_seeds, key_entries, ggsw_seeds, ggsw_entries,
  }

  -- `write_ggsw_compressed`, and the part of `write_auto_key` behind `p`.
  unfoldable pub write_gadget : Gadget Entry → List ℕ
  unfolding write_vec write_all
  write_gadget g = write_vec (λ seed. seed) g.seeds ++ write_all write_entry g.entries

  unfoldable pub read_gadget : (seeds entries : ℕ) → Reader (Gadget Entry)
  unfolding read_vec read_n
  read_gadget seeds entries input = do
    (s, rest) ← read_vec (read_exact 32) seeds input
    (body, rest') ← read_n read_entry entries rest
    ok (record { seeds = s; entries = body }, rest')

  unfoldable pub write_auto_key : AutoKey Entry → List ℕ
  unfolding write_gadget
  write_auto_key key = write_u64 key.p ++ write_gadget key.gadget

  unfoldable pub read_auto_key : Reader (AutoKey Entry)
  unfolding read_gadget
  read_auto_key input = do
    (p, rest) ← read_u64 input
    (g, rest') ← read_gadget key_seeds key_entries rest
    ok (record { p = p; gadget = g }, rest')

  unfoldable pub write_compressed_key : CompressedKey Entry → List ℕ
  unfolding write_auto_key
  write_compressed_key ck = write_u64 ck.stride ++ write_auto_key ck.key

  unfoldable pub read_compressed_key : Reader (CompressedKey Entry)
  unfolding read_auto_key
  read_compressed_key input = do
    (stride, rest) ← read_u64 input
    (key, rest') ← read_auto_key rest
    ok (record { stride = stride; key = key }, rest')
