-- ===== src/Tests/Client.antt =====
-- A client whose ciphertexts are lists of digits, over the small database of the storage tests.
use poulpy_pir.Prelude.{
  ℕ, ◌+◌, ◌^◌, ◌≤◌, ◌<◌, ◌≡◌, refl, pos, negsuc, ℤ, List, [], ◌∷◌, get_elem?, map, length,
  replicate, set, div_ceil, arith,
}
use poulpy_pir.Error.{ok}
use poulpy_pir.Io.{read_u64, write_u64}
use poulpy_pir.Payload.{Payload, p65536}
use poulpy_pir.Payload.P65536
use poulpy_pir.Encoding
use poulpy_pir.Encoding.{ModPEncoder}
use poulpy_pir.Config.Scheme.{Collapse}
use poulpy_pir.Database.Matrix.{CoeffMatrix}
use poulpy_pir.Database.Storage.{Database, payload_capacity, payload_address}
use poulpy_pir.Database.Storage.Access.{payload, read_record}
use poulpy_pir.Database.Storage.Shape.{IsShaped}
use poulpy_pir.Wire.{Ciphertexts}
use poulpy_pir.Io.{IoResult}
use poulpy_pir.Wire.Response.{Response}
use poulpy_pir.Client.{Cipher}
use poulpy_pir.Client.Seed.{seed, seed_injective}
use poulpy_pir.Client.OneHot.{
  OneHotEncoding, IsBlockOf, encrypt_one_hot_blocks, encrypt_one_hot_blocks_lem,
}
use poulpy_pir.Client.Decode.{Client, QueryState, try_decode, decrypt_unchecked}
use poulpy_pir.Client.Retrieve.{retrieve}

-- A ciphertext is the list of its digits, in the clear.
abbrev clear_ciphertexts : Ciphertexts
clear_ciphertexts = record {
  Glwe = List ℤ;
  GlweCompressed = List ℤ;
  Entry = ℕ;
  write_glwe = λ g. [];
  read_glwe = λ base2k k bytes. IoResult.ok ([], bytes);
  write_glwe_compressed = λ g. [];
  read_glwe_compressed = λ base2k k bytes. IoResult.ok ([], bytes);
  write_entry = write_u64;
  read_entry = read_u64;
  key_seeds = 1;
  key_entries = 2;
  ggsw_seeds = 1;
  ggsw_entries = 2;
}

-- A source counts its draws.
abbrev clear_cipher : Cipher clear_ciphertexts
clear_cipher = record {
  Source = ℕ;
  source_new = λ seed. 0;
  new_seed = λ source. (replicate 32 source, source + 1);
  Sk = ℕ;
  Plaintext = List ℤ;
  zero_plaintext = replicate 4 (pos 0);
  encode_coeff = λ base2k torus_bits slot value p. set p slot value;
  encode_vec = λ k values. values;
  decode_vec = λ k p. p;
  decode_torus = λ base2k torus_bits p. p;
  glwe_compressed_encrypt = λ p sk seed source. (p, source + 1);
  glwe_decrypt = λ c sk. c;
  automorphism_key_encrypt =
      λ p sk seed source. (record { p = 5; gadget = record { seeds = []; entries = [] } }, source);
  ggsw_encrypt = λ e sign sk seed source. (record { seeds = []; entries = [] }, source);
  fresh_secret = 0;
  galois_element = λ i. pos (5 ^ i);
  glwe_of_limbs = λ mask body. [];
}

abbrev root : List ℕ
root = replicate 32 9

seed_injective_example :
    (s s' : List ℕ) × (seed (record { root = root }) 3 ≡ ok s)
    × (seed (record { root = root }) 770 ≡ ok s')
    × (length s ≡ 32)
    × (s ≡ s' → ◌≡◌ {A = ℕ} 3 770)
seed_injective_example =
    seed_injective (record { root = root }) 3 770 refl (omega arith) (omega arith)

abbrev encoder : ModPEncoder
encoder = record {
  p = 65536;
  torus_bits = 30;
  torus_scale = 2 ^ 30;
  torus_half = 2 ^ 29;
  encoded_unit = 2 ^ 14;
}

three_blocks : div_ceil 10 4 ≤ 2 ^ 32
unfolding div_ceil
three_blocks = omega arith

encrypt_one_hot_blocks_lem_example :
    (cts : List (List ℤ)) × (xe' : ℕ) × (encrypt_one_hot_blocks clear_cipher encoder 4 16 6 10 root
        0 OneHotEncoding.mod_p 0
      ≡ ok (cts, xe'))
    × (length cts ≡ div_ceil 10 4)
    × ((b : ℕ)
        → b < div_ceil 10 4
        → IsBlockOf clear_cipher encoder 4 16 6 10 root 0 OneHotEncoding.mod_p
            (omega arith)
            (omega arith)
            three_blocks
            b
            (get_elem? cts b))
encrypt_one_hot_blocks_lem_example =
    encrypt_one_hot_blocks_lem clear_cipher encoder 4 16 6 10 root 0 OneHotEncoding.mod_p
      (omega arith) (omega arith) three_blocks 0

-- Payloads of 4 bytes, 2 digits, two of them in a column.
abbrev words : Payload
words = p65536 2

abbrev matrix_of_digits : CoeffMatrix
matrix_of_digits = record {
  rows_in = 4;
  rows_out = 4;
  flat =
      pos 1
      ∷ pos 2
      ∷ pos 3
      ∷ pos 4
      ∷ pos 5
      ∷ pos 6
      ∷ pos 7
      ∷ pos 8
      ∷ pos 9
      ∷ pos 258
      ∷ pos 11
      ∷ pos 12
      ∷ pos 13
      ∷ negsuc 1
      ∷ pos 15
      ∷ pos 16
      ∷ [];
}

abbrev square : Database
square = record {
  matrices = matrix_of_digits ∷ [];
  n = 4;
  base2k = 18;
  cols = 4;
  grid_rows = 1;
  physical_rows = 1;
  preprocessing = record { column_height = 4 };
}

square-IsShaped : IsShaped words.exponent square
unfolding P65536.exponent div_ceil
square-IsShaped = record {
  n_pos = omega arith;
  cols_pos = omega arith;
  height_pos = omega arith;
  whole = refl;
  fits = omega arith;
  groups = refl;
  count = refl;
  squares = (record { rows_in_eq = refl; rows_out_eq = refl; length_eq = refl }, tt);
}

abbrev client : Client
client = record {
  params = record { n = 4; base2k = 18; k = 30; collapse = Collapse.interpolation };
  layout = record { rows = 4; cols = 4 };
}

abbrev column : List ℤ
column = pos 2 ∷ pos 6 ∷ pos 258 ∷ negsuc 1 ∷ []

-- The column, each digit scaled to 30 bits.
abbrev response : Response clear_ciphertexts
response = Response.interpolation (map (Encoding.encode_coeff encoder) column)

abbrev state : QueryState clear_cipher words
state = record { sk = 0; address = record { matrix = 0; column = 1; row_offset = 2 } }

exponent_pos : 0 < words.exponent
unfolding P65536.exponent
exponent_pos = omega arith

in_range : 5 < payload_capacity words square
unfolding P65536.exponent
in_range = omega arith

at_address : payload_address words square 5 ≡ ok state.address
unfolding payload_address P65536.exponent
at_address = refl

its_column : read_record square 1 0 ≡ ok column
unfolding read_record div_ceil
its_column = refl

its_digits : decrypt_unchecked clear_cipher words client response 0 ≡ ok column
unfolding decrypt_unchecked Encoding.encode_coeff Encoding.decode_coeff
its_digits = refl

retrieve_example : try_decode clear_cipher words client response state ≡ payload words square 5
retrieve_example =
    retrieve clear_cipher words client response state column square 5 square-IsShaped exponent_pos
      in_range at_address its_column refl its_digits

-- A response of the other variant, and an address beyond the four digits of the column.
abbrev late : QueryState clear_cipher words
late = record { sk = 0; address = record { matrix = 0; column = 1; row_offset = 3 } }

abbrev other : Response clear_ciphertexts
other = Response.recursion [] []
