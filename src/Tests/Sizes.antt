-- ===== src/Tests/Sizes.antt =====
-- A query whose ciphertexts are words, padded to the sizes that the parameters state.
use poulpy_pir.Prelude.{
  ℕ, ◌+◌, ◌^◌, ◌<◌, ◌≡◌, refl, List, [], ◌∷◌, ◌++◌, replicate, length, length-append,
  length-replicate, div_ceil, arith,
}
use mathlib.Core.List.{append_assoc}
use poulpy_pir.Error.{Result}
use poulpy_pir.Io.{
  ok, Reader, read_exact, read_exact-append, read_u64, write_u64, read_u64-append, length-write_u64,
  ◌>>=◌,
}
use poulpy_pir.Config.Scheme.{Config, Collapse}
use poulpy_pir.Config.Presets.{DefaultScheme, DefaultPirParameters32B}
use poulpy_pir.Database.Layout.{DatabaseLayout, column_blocks}
use poulpy_pir.Wire.{qtilde_bits, Ciphertexts, Gadget, AutoKey}
use poulpy_pir.Wire.Query.{Query, write_query}
use poulpy_pir.Wire.Parts.{ComesBack, IsGadget, IsAutoKey}
use poulpy_pir.Wire.RoundTrip.{FitsAs, ResponseFitsAs}
use poulpy_pir.Parameters.{
  QuerySize, query_size, total_query_size, query_bytes, response_bytes, glwe_compressed_wire_bytes,
  rank0_glwe_wire_bytes, vec_znx_wire_bytes, transmitted_limbs, auto_key_wire_bytes,
  ggsw_wire_bytes, glwe_wire_bytes, total_response_size, response_size,
}
use poulpy_pir.Wire.Response.{Response, write_response}
use poulpy_pir.Parameters.ResponseLength.{HasGlweSizes, length-write_response}
use poulpy_pir.Parameters.QueryLength.{HasWireSizes, length-write_query}

abbrev padded : ℕ → ℕ → List ℕ
padded pad v = write_u64 v ++ replicate pad 0

abbrev read_padded : ℕ → Reader ℕ
read_padded pad input = do
  (v, rest) ← read_u64 input
  (zeros, rest') ← read_exact pad rest
  ok (v, rest')

padded_back : (pad v : ℕ) → v < 2 ^ 64 → ComesBack (padded pad) (read_padded pad) v
padded_back pad v h rest = rw (append_assoc (write_u64 v) (replicate pad 0) rest) (
    rw (read_u64-append v (replicate pad 0 ++ rest) h)
      (rw (read_exact-append pad (replicate pad 0) rest (length-replicate pad 0))))

length-padded : (pad v : ℕ) → length (padded pad v) ≡ 8 + pad
length-padded pad v = omega (
  arith,
  length-append (write_u64 v) (replicate pad 0),
  length-write_u64 v,
  length-replicate {A = ℕ} pad 0,
)

-- At degree 4 a compressed ciphertext has 112 bytes, and a body entry 76.
abbrev pub ciphertexts : Ciphertexts
ciphertexts = record {
  Glwe = ℕ;
  GlweCompressed = ℕ;
  Entry = ℕ;
  write_glwe = padded 100;
  read_glwe = λ base2k k. read_padded 100;
  write_glwe_compressed = padded 104;
  read_glwe_compressed = λ base2k k. read_padded 104;
  write_entry = padded 68;
  read_entry = read_padded 68;
  key_seeds = 3;
  key_entries = 3;
  ggsw_seeds = 6;
  ggsw_entries = 6;
}

abbrev pub params : Config
params = record { n = 4; base2k = 18; k = 54; collapse = Collapse.interpolation }

abbrev eight_by_eight : DatabaseLayout
eight_by_eight = record { rows = 8; cols = 8 }

ciphertexts-HasWireSizes : HasWireSizes ciphertexts params
unfolding glwe_compressed_wire_bytes rank0_glwe_wire_bytes vec_znx_wire_bytes transmitted_limbs
    div_ceil
ciphertexts-HasWireSizes = record {
  glwe_compressed = λ x. length-padded 104 x;
  entry = λ x. length-padded 68 x;
  key_seeds = refl;
  key_entries = refl;
  ggsw_seeds = refl;
  ggsw_entries = refl;
}

abbrev seed : List ℕ
seed = replicate 32 7

entry_back : ComesBack (padded 68) (read_padded 68) 1
entry_back = padded_back 68 1 (omega arith)

abbrev key_gadget : Gadget ℕ
key_gadget = record { seeds = seed ∷ seed ∷ seed ∷ []; entries = 1 ∷ 1 ∷ 1 ∷ [] }

key_gadget-IsGadget : IsGadget ciphertexts 3 3 key_gadget
key_gadget-IsGadget = record {
  seeds_len = refl;
  entries_len = refl;
  small = omega arith;
  seed_bytes = (refl, (refl, (refl, tt)));
  entries_back = (entry_back, (entry_back, (entry_back, tt)));
}

abbrev auto_key : AutoKey ℕ
auto_key = record { p = 5; gadget = key_gadget }

auto_key-IsAutoKey : IsAutoKey ciphertexts auto_key
auto_key-IsAutoKey = record { p_lt = omega arith; gadget = key_gadget-IsGadget }

abbrev root : Gadget ℕ
root = record {
  seeds = seed ∷ seed ∷ seed ∷ seed ∷ seed ∷ seed ∷ [];
  entries = 1 ∷ 1 ∷ 1 ∷ 1 ∷ 1 ∷ 1 ∷ [];
}

root-IsGadget : IsGadget ciphertexts 6 6 root
root-IsGadget = record {
  seeds_len = refl;
  entries_len = refl;
  small = omega arith;
  seed_bytes = (refl, (refl, (refl, (refl, (refl, (refl, tt))))));
  entries_back =
      (entry_back, (entry_back, (entry_back, (entry_back, (entry_back, (entry_back, tt))))));
}

two_blocks : 2 ≡ column_blocks eight_by_eight 4
unfolding column_blocks div_ceil
two_blocks = refl

abbrev pub query : Query ciphertexts
query = Query.interpolation (21 ∷ 22 ∷ []) auto_key auto_key root

query-FitsAs : FitsAs ciphertexts params eight_by_eight Collapse.interpolation query
query-FitsAs = (
  two_blocks,
  omega arith,
  (padded_back 104 21 (omega arith), (padded_back 104 22 (omega arith), tt)),
  auto_key-IsAutoKey,
  auto_key-IsAutoKey,
  root-IsGadget,
)

length-write_query_example :
    (size : QuerySize) × (query_size params eight_by_eight ≡ Result.ok size)
    × (length (write_query ciphertexts query) ≡ total_query_size size)
length-write_query_example =
    length-write_query ciphertexts params eight_by_eight ciphertexts-HasWireSizes query query-FitsAs

abbrev pub folded : Config
folded = record { n = 4; base2k = 18; k = 54; collapse = Collapse.recursion 2 4 4 }

abbrev response : Response ciphertexts
response = Response.recursion (31 ∷ 32 ∷ []) (33 ∷ [])

response-FitsAs : ResponseFitsAs ciphertexts folded eight_by_eight folded.collapse response
unfolding div_ceil qtilde_bits
response-FitsAs = (
  refl,
  omega arith,
  (padded_back 100 31 (omega arith), (padded_back 100 32 (omega arith), tt)),
  refl,
  omega arith,
  (padded_back 100 33 (omega arith), tt),
)

response-HasGlweSizes : HasGlweSizes ciphertexts folded eight_by_eight response
unfolding glwe_wire_bytes vec_znx_wire_bytes transmitted_limbs div_ceil qtilde_bits
response-HasGlweSizes =
    ((length-padded 100 31, (length-padded 100 32, tt)), (length-padded 100 33, tt))

length-write_response_example :
    length (write_response ciphertexts response) ≡ total_response_size (response_size folded)
length-write_response_example =
    length-write_response ciphertexts folded eight_by_eight response response-FitsAs
      response-HasGlweSizes

abbrev one_gib : DefaultPirParameters32B
one_gib = record { scheme = DefaultScheme.interpolation; db_gib = 1; cols = 8192 }

one_gib_query : query_bytes one_gib ≡ Result.ok 263425
unfolding query_bytes div_ceil glwe_compressed_wire_bytes vec_znx_wire_bytes transmitted_limbs
    auto_key_wire_bytes rank0_glwe_wire_bytes ggsw_wire_bytes
one_gib_query = refl

one_gib_response : response_bytes one_gib ≡ Result.ok 32813
unfolding response_bytes glwe_wire_bytes vec_znx_wire_bytes transmitted_limbs div_ceil
one_gib_response = refl
