-- ===== src/Config/Resolve.antt =====
-- src/config.rs: presets resolved to their configuration, layout and payload type.
use poulpy_pir.Prelude.{
  ℕ, ◌*◌, ◌^◌, ◌≡◌, refl, Bool, true, false, ◌==◌, arith, All, All-every, Option, none, some,
}
use poulpy_pir.Error.{Result, ok, err, panic, ◌>>=◌}
use poulpy_pir.Payload.{Payload, p65535, u256_p65536}
use poulpy_pir.Payload.P65535
use poulpy_pir.Payload.P65536
use poulpy_pir.Config.Scheme
use poulpy_pir.Config.Scheme.{Config, Collapse, default_n, default_base2k, default_k, column_height}
use poulpy_pir.Config.Presets.{DefaultPirParameters32B, DefaultScheme, rows, collapse}
use poulpy_pir.Config.Table.{all}
use poulpy_pir.Database.Layout
use poulpy_pir.Database.Layout.{DatabaseLayout, num_payloads, interpolation_t}

pub record DefaultPirInterpolationParams32B : Type 0 where
  pub db_size_gib : ℕ
  pub config : Config
  pub layout : DatabaseLayout

pub record DefaultPirRecursionParams32B : Type 0 where
  pub db_size_gib : ℕ
  pub gamma0 : ℕ
  pub gamma1 : ℕ
  pub gamma2 : ℕ
  pub config : Config
  pub layout : DatabaseLayout

pub data DefaultPirConfig32B : Type 0 where
  interpolation : DefaultPirInterpolationParams32B → DefaultPirConfig32B
  recursion : DefaultPirRecursionParams32B → DefaultPirConfig32B

abbrev default_config : Collapse → Config
default_config c = record { n = default_n; base2k = default_base2k; k = default_k; collapse = c }

abbrev resolve_as : DefaultPirParameters32B → DatabaseLayout → Collapse → DefaultPirConfig32B
resolve_as v layout Collapse.interpolation = interpolation (record {
  db_size_gib = v.db_gib;
  config = default_config Collapse.interpolation;
  layout = layout;
})
resolve_as v layout (Collapse.recursion gamma0 gamma1 gamma2) = recursion (record {
  db_size_gib = v.db_gib;
  gamma0 = gamma0;
  gamma1 = gamma1;
  gamma2 = gamma2;
  config = default_config (Collapse.recursion gamma0 gamma1 gamma2);
  layout = layout;
})

-- `DatabaseLayout::new` panics on an empty dimension.
unfoldable pub resolve : DefaultPirParameters32B → Result DefaultPirConfig32B
unfolding Layout.new rows collapse
resolve v = do layout ← Layout.new (rows v) v.cols; ok (resolve_as v layout (collapse v))

abbrev only_interpolation : DefaultPirConfig32B → Option DefaultPirInterpolationParams32B
only_interpolation (interpolation params) = some params
only_interpolation (recursion params) = none

abbrev only_recursion : DefaultPirConfig32B → Option DefaultPirRecursionParams32B
only_recursion (interpolation params) = none
only_recursion (recursion params) = some params

unfoldable pub interpolation_params :
    DefaultPirParameters32B → Result (Option DefaultPirInterpolationParams32B)
unfolding resolve
interpolation_params v = do c ← resolve v; ok (only_interpolation c)

unfoldable pub recursion_params :
    DefaultPirParameters32B → Result (Option DefaultPirRecursionParams32B)
unfolding resolve
recursion_params v = do c ← resolve v; ok (only_recursion c)

-- The number of payloads of a database with the given payload type, configuration and layout.
pub capacity_with : Payload → Config → DatabaseLayout → Result ℕ
capacity_with p config layout = do
  params ← Scheme.new p config
  num_payloads layout p.exponent (column_height params)

capacity_as : DefaultPirConfig32B → Result ℕ
capacity_as (interpolation r) = capacity_with p65535 r.config r.layout
capacity_as (recursion r) = capacity_with u256_p65536 r.config r.layout

-- A preset resolved, instantiated at its payload type, and asked for its capacity.
pub capacity : DefaultPirParameters32B → Result ℕ
capacity v = do c ← resolve v; capacity_as c

-- 2048 coefficients of a column hold 120 payloads of 17 digits, or 128 of 16 digits.
pub expected_capacity : DefaultScheme → ℕ → ℕ
expected_capacity DefaultScheme.interpolation db_gib = 120 * 2 ^ 18 * db_gib
expected_capacity (DefaultScheme.recursion gamma0) db_gib = 2 ^ 25 * db_gib

answers : Result ℕ → ℕ → Bool
answers (ok n) m = n == m
answers r m = false

answers-ok : (r : Result ℕ) (m : ℕ) → answers r m ≡ true → r ≡ ok m
unfolding answers
answers-ok (ok n) m h = ground arith
answers-ok (err e) m h = cc
answers-ok panic m h = cc

-- Every preset of the table resolves, passes `Config::new` and the assertions of the layout, and
-- has the stated capacity: 2^25 payloads of 32 bytes for each GiB with recursion, 120/128 of that
-- with interpolation.
pub preset_capacity : All (λ v. capacity v ≡ ok (expected_capacity v.scheme v.db_gib)) all
unfolding capacity capacity_as capacity_with expected_capacity answers resolve Scheme.new
    num_payloads P65535.exponent P65536.exponent
preset_capacity =
    All-every _ (λ v. answers (capacity v) (expected_capacity v.scheme v.db_gib))
      (λ v h. answers-ok (capacity v) _ h) all refl
