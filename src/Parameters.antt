-- ===== src/Parameters.antt =====
-- src/parameters.rs: the scalars of a configuration, and the sizes of serialized messages.
pub mod QueryLength
pub mod ResponseLength
use poulpy_pir.Prelude.{ℕ, ◌+◌, ◌*◌, div_ceil}
use poulpy_pir.Error.{Result, ok, ◌>>=◌}
use poulpy_pir.Config.Scheme.{Config, Collapse}
use poulpy_pir.Config.Presets.{DefaultPirParameters32B}
use poulpy_pir.Config.Resolve
use poulpy_pir.Config.Resolve.{DefaultPirConfig32B, resolve}
use poulpy_pir.Database.Layout.{DatabaseLayout, column_blocks, grid_rows_for}
use poulpy_pir.Wire.{matmul_base2k, qtilde_bits}

abbrev pub transmit_base2k : ℕ
transmit_base2k = 63

abbrev pub seed_bytes : ℕ
seed_bytes = 32

abbrev pub dnum : ℕ
dnum = 3

abbrev pub dsize : ℕ
dsize = 1

abbrev pub baby_size : ℕ
baby_size = 8

abbrev pub mask_base2k : ℕ
mask_base2k = 32

unfoldable pub size_at : Config → ℕ → ℕ
size_at c base2k = div_ceil c.k base2k

pub record QuerySize : Type 0 where
  pub tag : ℕ
  pub length_prefixes : ℕ
  pub one_hot : ℕ
  pub src0_one_hot : ℕ
  pub src1_one_hot : ℕ
  pub key_g : ℕ
  pub key_h : ℕ
  pub ggsw : ℕ
  pub key_gamma0 : ℕ
  pub key_gamma1 : ℕ
  pub key_gamma2 : ℕ

-- `QuerySize::default()`.
abbrev pub no_bytes : QuerySize
no_bytes = record {
  tag = 0;
  length_prefixes = 0;
  one_hot = 0;
  src0_one_hot = 0;
  src1_one_hot = 0;
  key_g = 0;
  key_h = 0;
  ggsw = 0;
  key_gamma0 = 0;
  key_gamma1 = 0;
  key_gamma2 = 0;
}

unfoldable pub total_query_size : QuerySize → ℕ
total_query_size s =
    s.tag + s.length_prefixes + s.one_hot + s.src0_one_hot + s.src1_one_hot + s.key_g + s.key_h
    + s.ggsw + s.key_gamma0 + s.key_gamma1 + s.key_gamma2

pub record ResponseSize : Type 0 where
  pub tag : ℕ
  pub length_prefixes : ℕ
  pub selected : ℕ
  pub resp1 : ℕ
  pub resp2 : ℕ

unfoldable pub total_response_size : ResponseSize → ℕ
total_response_size s = s.tag + s.length_prefixes + s.selected + s.resp1 + s.resp2

unfoldable pub transmitted_limbs : ℕ → ℕ
transmitted_limbs k = div_ceil k transmit_base2k

unfoldable pub vec_znx_wire_bytes : (n cols size : ℕ) → ℕ
vec_znx_wire_bytes n cols size = 5 * 8 + n * cols * size * 8

unfoldable pub glwe_wire_bytes : (n k : ℕ) → ℕ
glwe_wire_bytes n k = 4 + vec_znx_wire_bytes n 2 (transmitted_limbs k)

unfoldable pub glwe_compressed_wire_bytes : (n k : ℕ) → ℕ
glwe_compressed_wire_bytes n k = 4 + 4 + seed_bytes + vec_znx_wire_bytes n 1 (transmitted_limbs k)

unfoldable pub rank0_glwe_wire_bytes : (n k : ℕ) → ℕ
rank0_glwe_wire_bytes n k = 4 + vec_znx_wire_bytes n 1 (transmitted_limbs k)

unfoldable pub auto_key_wire_bytes : Config → ℕ
auto_key_wire_bytes c = 8 + 8 + dnum * seed_bytes + dnum * rank0_glwe_wire_bytes c.n c.k

unfoldable pub compressed_key_wire_bytes : Config → ℕ
unfolding auto_key_wire_bytes
compressed_key_wire_bytes c = 8 + auto_key_wire_bytes c

unfoldable pub ggsw_wire_bytes : Config → ℕ
ggsw_wire_bytes c = 8 + dnum * 2 * seed_bytes + dnum * 2 * rank0_glwe_wire_bytes c.n c.k

abbrev query_size_as : Config → DatabaseLayout → Collapse → Result QuerySize
query_size_as c layout Collapse.interpolation = ok (record no_bytes {
  tag = 1;
  length_prefixes = 8;
  one_hot = column_blocks layout c.n * glwe_compressed_wire_bytes c.n c.k;
  key_g = auto_key_wire_bytes c;
  key_h = auto_key_wire_bytes c;
  ggsw = ggsw_wire_bytes c;
})
query_size_as c layout (Collapse.recursion gamma0 gamma1 gamma2) = do
  t ← grid_rows_for layout gamma0
  ok (record no_bytes {
    tag = 1;
    length_prefixes = 2 * 8;
    src0_one_hot = column_blocks layout c.n * glwe_compressed_wire_bytes c.n c.k;
    src1_one_hot = div_ceil t c.n * glwe_compressed_wire_bytes c.n c.k;
    key_gamma0 = compressed_key_wire_bytes c;
    key_gamma1 = compressed_key_wire_bytes c;
    key_gamma2 = compressed_key_wire_bytes c;
  })

unfoldable pub query_size : Config → DatabaseLayout → Result QuerySize
unfolding grid_rows_for column_blocks
query_size c layout = query_size_as c layout c.collapse

abbrev response_size_as : Config → Collapse → ResponseSize
response_size_as c Collapse.interpolation = record {
  tag = 1;
  length_prefixes = 0;
  selected = glwe_wire_bytes c.n c.k;
  resp1 = 0;
  resp2 = 0;
}
response_size_as c (Collapse.recursion gamma0 gamma1 gamma2) =
    let bits = 2 * matmul_base2k in
    let tau = div_ceil bits matmul_base2k in
    record {
      tag = 1;
      length_prefixes = 2 * 8;
      selected = 0;
      resp1 = div_ceil (c.n * tau) gamma1 * glwe_wire_bytes c.n bits;
      resp2 = div_ceil (gamma0 * tau) gamma2 * glwe_wire_bytes c.n bits;
    }

unfoldable pub response_size : Config → ResponseSize
response_size c = response_size_as c c.collapse

-- `DefaultPirParameters32B::query_bytes` and `response_bytes`.
abbrev query_bytes_as : DefaultPirConfig32B → Result ℕ
query_bytes_as (Resolve.interpolation p) = do
  s ← query_size p.config p.layout
  ok (total_query_size s)
query_bytes_as (Resolve.recursion p) = do s ← query_size p.config p.layout; ok (total_query_size s)

unfoldable pub query_bytes : DefaultPirParameters32B → Result ℕ
unfolding resolve query_size total_query_size
query_bytes v = do c ← resolve v; query_bytes_as c

abbrev response_bytes_as : DefaultPirConfig32B → Result ℕ
response_bytes_as (Resolve.interpolation p) = ok (total_response_size (response_size p.config))
response_bytes_as (Resolve.recursion p) = ok (total_response_size (response_size p.config))

unfoldable pub response_bytes : DefaultPirParameters32B → Result ℕ
unfolding resolve response_size total_response_size
response_bytes v = do c ← resolve v; response_bytes_as c
