-- ===== src/Config/Presets.antt =====
-- src/config.rs: `DefaultScheme`, `DefaultPirParameters32B` and what is computed from a preset.
use poulpy_pir.Prelude.{ℕ, ◌*◌, ◌/◌, ◌^◌, List, [], ◌∷◌, Option, none, some, ◌==◌, if◌then◌else◌}
use poulpy_pir.Error.{Result, ok, panic}
use poulpy_pir.Config.Scheme.{Collapse}

pub data DefaultScheme : Type 0 where
  interpolation : DefaultScheme
  recursion : (gamma0 : ℕ) → DefaultScheme

pub record DefaultPirParameters32B : Type 0 where
  pub scheme : DefaultScheme
  pub db_gib : ℕ
  pub cols : ℕ

abbrev pub schemes : List DefaultScheme
schemes = interpolation ∷ recursion 16 ∷ recursion 32 ∷ recursion 64 ∷ []

abbrev pub db_sizes_gib : List ℕ
db_sizes_gib = 1 ∷ 2 ∷ 4 ∷ 8 ∷ 16 ∷ 32 ∷ []

unfoldable pub canonical : DefaultScheme → ℕ → DefaultPirParameters32B
canonical scheme db_gib = record { scheme = scheme; db_gib = db_gib; cols = 2 ^ 13 * db_gib }

-- The inclusive window of `log2(cols)`; any other size panics.
unfoldable pub cols_window : ℕ → Result (ℕ × ℕ)
cols_window db_gib =
    if db_gib == 1
    then ok (12, 15)
    else if db_gib == 2
    then ok (12, 16)
    else if db_gib == 4
    then ok (13, 16)
    else if db_gib == 8
    then ok (13, 17)
    else if db_gib == 16
    then ok (14, 18)
    else if db_gib == 32
    then ok (15, 18)
    else panic

unfoldable pub total_u16 : DefaultPirParameters32B → ℕ
total_u16 v = 2 ^ 29 * v.db_gib

unfoldable pub rows : DefaultPirParameters32B → ℕ
unfolding total_u16
rows v = total_u16 v / v.cols

unfoldable pub layout_rows_cols : DefaultPirParameters32B → ℕ × ℕ
unfolding rows
layout_rows_cols v = (rows v, v.cols)

abbrev pub collapse_of : DefaultScheme → Collapse
collapse_of interpolation = Collapse.interpolation
collapse_of (recursion gamma0) = Collapse.recursion gamma0 1024 gamma0

unfoldable pub collapse : DefaultPirParameters32B → Collapse
collapse v = collapse_of v.scheme

abbrev gamma0_of : DefaultScheme → Option ℕ
gamma0_of interpolation = none
gamma0_of (recursion gamma0) = some gamma0

abbrev gamma1_of : DefaultScheme → Option ℕ
gamma1_of interpolation = none
gamma1_of (recursion gamma0) = some 1024

unfoldable pub gamma0 : DefaultPirParameters32B → Option ℕ
gamma0 v = gamma0_of v.scheme

unfoldable pub gamma1 : DefaultPirParameters32B → Option ℕ
gamma1 v = gamma1_of v.scheme

unfoldable pub gamma2 : DefaultPirParameters32B → Option ℕ
unfolding gamma0
gamma2 v = gamma0 v
