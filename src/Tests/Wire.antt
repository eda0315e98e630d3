-- ===== src/Tests/Wire.antt =====
-- Messages whose ciphertexts are words.
use poulpy_pir.Prelude.{ℕ, ◌≡◌, ◌≢◌, refl, [], ◌∷◌, ◌++◌, replicate, div_ceil, arith}
use poulpy_pir.Io.{IoError, read_u64, write_u64, read_u64-append}
use poulpy_pir.Config.Scheme.{Config, Collapse}
use poulpy_pir.Database.Layout.{DatabaseLayout, column_blocks}
use poulpy_pir.Wire.{Ciphertexts, Gadget, AutoKey, write_u8}
use poulpy_pir.Wire.Outcome.{ok, err}
use poulpy_pir.Wire.Query.{Query, write_query, read_query}
use poulpy_pir.Wire.Response.{Response, write_response, read_response}
use poulpy_pir.Wire.Parts.{IsGadget, IsAutoKey}
use poulpy_pir.Wire.RoundTrip.{
  FitsAs, ResponseFitsAs, read_query-write_query, read_response-write_response,
}
use poulpy_pir.Wire.Refused.{read_query_refused}

abbrev word_ciphertexts : Ciphertexts
word_ciphertexts = record {
  Glwe = ℕ;
  GlweCompressed = ℕ;
  Entry = ℕ;
  write_glwe = write_u64;
  read_glwe = λ base2k k. read_u64;
  write_glwe_compressed = write_u64;
  read_glwe_compressed = λ base2k k. read_u64;
  write_entry = write_u64;
  read_entry = read_u64;
  key_seeds = 1;
  key_entries = 2;
  ggsw_seeds = 1;
  ggsw_entries = 2;
}

abbrev params : Config
params = record { n = 4; base2k = 18; k = 54; collapse = Collapse.interpolation }

abbrev eight_by_eight : DatabaseLayout
eight_by_eight = record { rows = 8; cols = 8 }

abbrev gadget : Gadget ℕ
gadget = record { seeds = replicate 32 7 ∷ []; entries = 11 ∷ 12 ∷ [] }

gadget-IsGadget : IsGadget word_ciphertexts 1 2 gadget
gadget-IsGadget = record {
  seeds_len = refl;
  entries_len = refl;
  small = omega arith;
  seed_bytes = (refl, tt);
  entries_back = (
    λ rest. read_u64-append 11 rest (omega arith),
    (λ rest. read_u64-append 12 rest (omega arith), tt),
  );
}

abbrev auto_key : AutoKey ℕ
auto_key = record { p = 5; gadget = gadget }

auto_key-IsAutoKey : IsAutoKey word_ciphertexts auto_key
auto_key-IsAutoKey = record { p_lt = omega arith; gadget = gadget-IsGadget }

abbrev query : Query word_ciphertexts
query = Query.interpolation (21 ∷ 22 ∷ []) auto_key auto_key gadget

two_blocks : 2 ≡ column_blocks eight_by_eight 4
unfolding column_blocks div_ceil
two_blocks = refl

query-FitsAs : FitsAs word_ciphertexts params eight_by_eight Collapse.interpolation query
query-FitsAs = (
  two_blocks,
  omega arith,
  (
    λ rest. read_u64-append 21 rest (omega arith),
    (λ rest. read_u64-append 22 rest (omega arith), tt),
  ),
  auto_key-IsAutoKey,
  auto_key-IsAutoKey,
  gadget-IsGadget,
)

read_query-write_query_example :
    read_query word_ciphertexts params eight_by_eight
      (write_query word_ciphertexts query ++ (9 ∷ []))
    ≡ ok (query, 9 ∷ [])
read_query-write_query_example =
    read_query-write_query word_ciphertexts params eight_by_eight query query-FitsAs (9 ∷ [])

abbrev response : Response word_ciphertexts
response = Response.interpolation 31

response-ResponseFitsAs :
    ResponseFitsAs word_ciphertexts params eight_by_eight Collapse.interpolation response
response-ResponseFitsAs rest = read_u64-append 31 rest (omega arith)

read_response-write_response_example :
    read_response word_ciphertexts params (write_response word_ciphertexts response ++ [])
    ≡ ok (response, [])
read_response-write_response_example =
    read_response-write_response word_ciphertexts params eight_by_eight response
      response-ResponseFitsAs []

three_blocks : 3 ≢ column_blocks eight_by_eight 4
unfolding column_blocks div_ceil
three_blocks e = omega arith

read_query_refused_example :
    (e : IoError) × (read_query word_ciphertexts params eight_by_eight
        (write_u8 0 ++ (write_u64 3 ++ []))
      ≡ err e)
read_query_refused_example =
    read_query_refused word_ciphertexts params eight_by_eight 0 3 [] (omega arith) three_blocks
