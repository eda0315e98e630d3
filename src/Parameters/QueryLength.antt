-- ===== src/Parameters/QueryLength.antt =====
-- The computed sizes are the lengths of the written messages.
use poulpy_pir.Prelude.{
  ℕ, ◌+◌, ◌*◌, ◌≡◌, refl, ap, List, [], ◌∷◌, ◌++◌, length, length-append, All, div_ceil, arith,
}
use poulpy_pir.Error.{Result}
use poulpy_pir.Io.{write_u64, length-write_u64}
use poulpy_pir.Config.Scheme.{Config, Collapse}
use poulpy_pir.Database.Layout.{DatabaseLayout, column_blocks}
use poulpy_pir.Wire.{
  Ciphertexts, Gadget, AutoKey, CompressedKey, write_u8, write_all, write_vec, write_gadget,
  write_auto_key, write_compressed_key,
}
use poulpy_pir.Wire.Query.{Query, write_query}
use poulpy_pir.Wire.Parts.{IsGadget, IsAutoKey, IsCompressedKey}
use poulpy_pir.Wire.RoundTrip.{FitsAs}
use poulpy_pir.Parameters.{
  dnum, no_bytes, QuerySize, total_query_size, glwe_compressed_wire_bytes, rank0_glwe_wire_bytes,
  auto_key_wire_bytes, compressed_key_wire_bytes, ggsw_wire_bytes, query_size,
}

length-write_all :
    {T : Type 0} (write : T → List ℕ) (size : ℕ) (xs : List T)
    → All (λ x. length (write x) ≡ size) xs
    → length (write_all write xs) ≡ length xs * size
unfolding write_all
length-write_all write size [] h = omega arith
length-write_all write size (x ∷ xs) h =
    omega
      (arith, length-append (write x) (write_all write xs), h.0, length-write_all write size xs h.1)

pub length-write_vec :
    {T : Type 0} (write : T → List ℕ) (size : ℕ) (xs : List T)
    → All (λ x. length (write x) ≡ size) xs
    → length (write_vec write xs) ≡ 8 + length xs * size
unfolding write_vec
length-write_vec write size xs h = omega (
  arith,
  length-append (write_u64 (length xs)) (write_all write xs),
  length-write_u64 (length xs),
  length-write_all write size xs h,
)

all_of : {T : Type 0} (P : T → Type 0) → ((x : T) → P x) → (xs : List T) → All P xs
all_of P h [] = tt
all_of P h (x ∷ xs) = (h x, all_of P h xs)

-- The sizes of the ciphertexts that poulpy writes under the parameters, and the numbers of seeds and
-- entries at `dnum` rows and rank 1.
pub record HasWireSizes (c : Ciphertexts) (params : Config) : Type 0 where
  pub glwe_compressed :
      (x : c.GlweCompressed)
      → length (c.write_glwe_compressed x) ≡ glwe_compressed_wire_bytes params.n params.k
  pub entry : (x : c.Entry) → length (c.write_entry x) ≡ rank0_glwe_wire_bytes params.n params.k
  pub key_seeds : c.key_seeds ≡ dnum
  pub key_entries : c.key_entries ≡ dnum
  pub ggsw_seeds : c.ggsw_seeds ≡ dnum * 2
  pub ggsw_entries : c.ggsw_entries ≡ dnum * 2

module _ (c : Ciphertexts) (params : Config) (layout : DatabaseLayout)
    (sizes : HasWireSizes c params) where
  abbrev entry_size : ℕ
  entry_size = rank0_glwe_wire_bytes params.n params.k

  abbrev block_size : ℕ
  block_size = glwe_compressed_wire_bytes params.n params.k

  length-write_gadget :
      (seeds entries : ℕ) (g : Gadget c.Entry)
      → IsGadget c seeds entries g
      → length (write_gadget c g) ≡ 8 + seeds * 32 + entries * entry_size
  unfolding write_gadget
  length-write_gadget seeds entries g h =
      rw (← h.seeds_len, ← h.entries_len)
        (omega (
          arith,
          length-append (write_vec (λ seed. seed) g.seeds) (write_all c.write_entry g.entries),
          length-write_vec (λ seed. seed) 32 g.seeds h.seed_bytes,
          length-write_all c.write_entry entry_size g.entries (all_of _ sizes.entry g.entries),
        ))

  length-write_auto_key :
      (key : AutoKey c.Entry)
      → IsAutoKey c key
      → length (write_auto_key c key) ≡ auto_key_wire_bytes params
  unfolding write_auto_key auto_key_wire_bytes
  length-write_auto_key key h =
      let g = length-write_gadget c.key_seeds c.key_entries key.gadget h.gadget in
      let counted = rw (sizes.key_seeds, sizes.key_entries) at g in
      omega (
        arith,
        length-append (write_u64 key.p) (write_gadget c key.gadget),
        length-write_u64 key.p,
        counted,
      )

  length-write_compressed_key :
      (ck : CompressedKey c.Entry)
      → IsCompressedKey c ck
      → length (write_compressed_key c ck) ≡ compressed_key_wire_bytes params
  unfolding write_compressed_key compressed_key_wire_bytes
  length-write_compressed_key ck h = omega (
    arith,
    length-append (write_u64 ck.stride) (write_auto_key c ck.key),
    length-write_u64 ck.stride,
    length-write_auto_key ck.key h.key,
  )

  length-blocks :
      (xs : List c.GlweCompressed)
      → length (write_vec c.write_glwe_compressed xs) ≡ 8 + length xs * block_size
  length-blocks xs =
      length-write_vec c.write_glwe_compressed block_size xs (all_of _ sizes.glwe_compressed xs)

  length-write_gadget_root :
      (root : Gadget c.Entry)
      → IsGadget c c.ggsw_seeds c.ggsw_entries root
      → length (write_gadget c root) ≡ ggsw_wire_bytes params
  unfolding ggsw_wire_bytes
  length-write_gadget_root root h = omega (
    arith,
    length-write_gadget c.ggsw_seeds c.ggsw_entries root h,
    ap (λ (m : ℕ). m * 32) sizes.ggsw_seeds,
    ap (λ (m : ℕ). m * entry_size) sizes.ggsw_entries,
  )

  abbrev interpolation_size : QuerySize
  interpolation_size = record no_bytes {
    tag = 1;
    length_prefixes = 8;
    one_hot = column_blocks layout params.n * block_size;
    key_g = auto_key_wire_bytes params;
    key_h = auto_key_wire_bytes params;
    ggsw = ggsw_wire_bytes params;
  }

  abbrev recursion_size : ℕ → QuerySize
  recursion_size grid = record no_bytes {
    tag = 1;
    length_prefixes = 2 * 8;
    src0_one_hot = column_blocks layout params.n * block_size;
    src1_one_hot = div_ceil grid params.n * block_size;
    key_gamma0 = compressed_key_wire_bytes params;
    key_gamma1 = compressed_key_wire_bytes params;
    key_gamma2 = compressed_key_wire_bytes params;
  }

  length_as :
      (collapse : Collapse) (q : Query c)
      → params.collapse ≡ collapse
      → FitsAs c params layout collapse q
      → (size : QuerySize) × (query_size params layout ≡ Result.ok size)
        × (length (write_query c q) ≡ total_query_size size)
  unfolding query_size total_query_size write_query write_u8
  length_as Collapse.interpolation (Query.interpolation blocks key_g key_h root) same
        (len, small, back, g, h, r) =
      (
        interpolation_size,
        rw same,
        omega (
          arith,
          length-append (write_vec c.write_glwe_compressed blocks)
              (write_auto_key c key_g ++ (write_auto_key c key_h ++ write_gadget c root)),
          length-append (write_auto_key c key_g) (write_auto_key c key_h ++ write_gadget c root),
          length-append (write_auto_key c key_h) (write_gadget c root),
          length-blocks blocks,
          ap (λ (m : ℕ). m * block_size) len,
          length-write_auto_key key_g g,
          length-write_auto_key key_h h,
          length-write_gadget_root root r,
        ),
      )
  length_as (Collapse.recursion g0 g1 g2) (Query.recursion src0 src1 k0 k1 k2) same
        (len, small, back, grid, shaped, len', small', back', h0, h1, h2) =
      (
        recursion_size grid,
        rw (same, shaped),
        omega (
          arith,
          length-append (write_vec c.write_glwe_compressed src0) (
              write_vec c.write_glwe_compressed src1
              ++ (write_compressed_key c k0
                  ++ (write_compressed_key c k1 ++ write_compressed_key c k2))),
          length-append (write_vec c.write_glwe_compressed src1) (
              write_compressed_key c k0
              ++ (write_compressed_key c k1 ++ write_compressed_key c k2)),
          length-append (write_compressed_key c k0)
              (write_compressed_key c k1 ++ write_compressed_key c k2),
          length-append (write_compressed_key c k1) (write_compressed_key c k2),
          length-blocks src0,
          length-blocks src1,
          ap (λ (m : ℕ). m * block_size) len,
          ap (λ (m : ℕ). m * block_size) len',
          length-write_compressed_key k0 h0,
          length-write_compressed_key k1 h1,
          length-write_compressed_key k2 h2,
        ),
      )
  length_as Collapse.interpolation (Query.recursion src0 src1 k0 k1 k2) same fits = absurd fits
  length_as (Collapse.recursion g0 g1 g2) (Query.interpolation blocks key_g key_h root) same fits =
      absurd fits

  -- Where the ciphertexts have the sizes that the parameters state, `query_size` returns, and its
  -- total is the number of bytes that a query that fits the parameters and the layout is written as.
  pub length-write_query :
      (q : Query c)
      → FitsAs c params layout params.collapse q
      → (size : QuerySize) × (query_size params layout ≡ Result.ok size)
        × (length (write_query c q) ≡ total_query_size size)
  length-write_query q fits = length_as params.collapse q refl fits
