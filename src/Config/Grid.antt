-- ===== src/Config/Grid.antt =====
-- The hard-coded table is the full grid of schemes, sizes and window columns, and has the
-- canonical shapes.
use poulpy_pir.Prelude.{
  ℕ, zero, suc, ◌+◌, ◌-◌, ◌^◌, ◌≡◌, refl, List, [], ◌∷◌, ◌++◌, Bool, true, false, ◌&&◌, ◌||◌, ◌==◌,
  arith, All, every, All-every,
}
use poulpy_pir.Error.{Result, ok}
use poulpy_pir.Config.Presets.{
  DefaultScheme, interpolation, recursion, DefaultPirParameters32B, schemes, db_sizes_gib,
  cols_window, canonical,
}
use poulpy_pir.Config.Table.{all}

-- The presets of one scheme and size whose `log2(cols)` is one of `lo`, …, `lo + count - 1`.
pub shapes : DefaultScheme → (db_gib lo count : ℕ) → List DefaultPirParameters32B
shapes scheme db_gib lo zero = []
shapes scheme db_gib lo (suc count) =
    record { scheme = scheme; db_gib = db_gib; cols = 2 ^ lo } ∷ shapes scheme db_gib (lo + 1) count

in_window : DefaultScheme → ℕ → Result (ℕ × ℕ) → List DefaultPirParameters32B
in_window scheme db_gib (ok (lo, hi)) = shapes scheme db_gib lo (hi + 1 - lo)
in_window scheme db_gib _ = []

of_sizes : DefaultScheme → List ℕ → List DefaultPirParameters32B
of_sizes scheme [] = []
of_sizes scheme (db_gib ∷ sizes) =
    in_window scheme db_gib (cols_window db_gib) ++ of_sizes scheme sizes

of_schemes : List DefaultScheme → List DefaultPirParameters32B
of_schemes [] = []
of_schemes (scheme ∷ rest) = of_sizes scheme db_sizes_gib ++ of_schemes rest

-- Every scheme, with every size, with every power of two of the size's window.
pub grid : List DefaultPirParameters32B
grid = of_schemes schemes

-- The table lists the grid, in scheme-major order, then by size, then by columns: no entry is
-- missing, wrong or doubled.
pub all-eq-grid : all ≡ grid
unfolding grid of_schemes of_sizes in_window shapes cols_window
all-eq-grid = refl

same_scheme : DefaultScheme → DefaultScheme → Bool
same_scheme interpolation interpolation = true
same_scheme (recursion a) (recursion b) = a == b
same_scheme _ _ = false

-- `PartialEq` of the presets.
unfoldable pub same_preset : DefaultPirParameters32B → DefaultPirParameters32B → Bool
unfolding same_scheme
same_preset v w = same_scheme v.scheme w.scheme && (v.db_gib == w.db_gib && v.cols == w.cols)

same_scheme→eq : (a b : DefaultScheme) → same_scheme a b ≡ true → a ≡ b
unfolding same_scheme
same_scheme→eq interpolation interpolation h = refl
same_scheme→eq interpolation (recursion b) h = cc
same_scheme→eq (recursion a) interpolation h = cc
same_scheme→eq (recursion a) (recursion b) h = ground arith

pub same_preset→eq : (v w : DefaultPirParameters32B) → same_preset v w ≡ true → v ≡ w
unfolding same_preset
same_preset→eq v w h = ground (arith, same_scheme→eq v.scheme w.scheme)

pub listed : DefaultPirParameters32B → List DefaultPirParameters32B → Bool
listed v [] = false
listed v (w ∷ ws) = same_preset v w || listed v ws

-- The canonical shape of every scheme and size is in the table.
pub canonical-listed :
    All (λ scheme. All (λ db_gib. listed (canonical scheme db_gib) all ≡ true) db_sizes_gib) schemes
unfolding canonical listed same_preset same_scheme
canonical-listed =
    All-every _ (λ scheme. every (λ db_gib. listed (canonical scheme db_gib) all) db_sizes_gib)
      (λ scheme.
        All-every _ (λ db_gib. listed (canonical scheme db_gib) all) (λ db_gib h. h) db_sizes_gib)
      schemes refl
