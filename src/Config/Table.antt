-- ===== src/Config/Table.antt =====
-- src/config.rs, `DefaultPirParameters32B::ALL`: the hard-coded table, in four parts by scheme.
use poulpy_pir.Prelude.{ℕ, List, [], ◌∷◌, ◌++◌}
use poulpy_pir.Config.Presets.{DefaultScheme, interpolation, recursion, DefaultPirParameters32B}

abbrev entry : DefaultScheme → ℕ → ℕ → DefaultPirParameters32B
entry scheme db_gib cols = record { scheme = scheme; db_gib = db_gib; cols = cols }

abbrev pub interpolation_grid : List DefaultPirParameters32B
interpolation_grid =
    entry interpolation 1 4096
    ∷ entry interpolation 1 8192
    ∷ entry interpolation 1 16384
    ∷ entry interpolation 1 32768
    ∷ entry interpolation 2 4096
    ∷ entry interpolation 2 8192
    ∷ entry interpolation 2 16384
    ∷ entry interpolation 2 32768
    ∷ entry interpolation 2 65536
    ∷ entry interpolation 4 8192
    ∷ entry interpolation 4 16384
    ∷ entry interpolation 4 32768
    ∷ entry interpolation 4 65536
    ∷ entry interpolation 8 8192
    ∷ entry interpolation 8 16384
    ∷ entry interpolation 8 32768
    ∷ entry interpolation 8 65536
    ∷ entry interpolation 8 131072
    ∷ entry interpolation 16 16384
    ∷ entry interpolation 16 32768
    ∷ entry interpolation 16 65536
    ∷ entry interpolation 16 131072
    ∷ entry interpolation 16 262144
    ∷ entry interpolation 32 32768
    ∷ entry interpolation 32 65536
    ∷ entry interpolation 32 131072
    ∷ entry interpolation 32 262144
    ∷ []

abbrev pub recursion_16_grid : List DefaultPirParameters32B
recursion_16_grid =
    entry (recursion 16) 1 4096
    ∷ entry (recursion 16) 1 8192
    ∷ entry (recursion 16) 1 16384
    ∷ entry (recursion 16) 1 32768
    ∷ entry (recursion 16) 2 4096
    ∷ entry (recursion 16) 2 8192
    ∷ entry (recursion 16) 2 16384
    ∷ entry (recursion 16) 2 32768
    ∷ entry (recursion 16) 2 65536
    ∷ entry (recursion 16) 4 8192
    ∷ entry (recursion 16) 4 16384
    ∷ entry (recursion 16) 4 32768
    ∷ entry (recursion 16) 4 65536
    ∷ entry (recursion 16) 8 8192
    ∷ entry (recursion 16) 8 16384
    ∷ entry (recursion 16) 8 32768
    ∷ entry (recursion 16) 8 65536
    ∷ entry (recursion 16) 8 131072
    ∷ entry (recursion 16) 16 16384
    ∷ entry (recursion 16) 16 32768
    ∷ entry (recursion 16) 16 65536
    ∷ entry (recursion 16) 16 131072
    ∷ entry (recursion 16) 16 262144
    ∷ entry (recursion 16) 32 32768
    ∷ entry (recursion 16) 32 65536
    ∷ entry (recursion 16) 32 131072
    ∷ entry (recursion 16) 32 262144
    ∷ []

abbrev pub recursion_32_grid : List DefaultPirParameters32B
recursion_32_grid =
    entry (recursion 32) 1 4096
    ∷ entry (recursion 32) 1 8192
    ∷ entry (recursion 32) 1 16384
    ∷ entry (recursion 32) 1 32768
    ∷ entry (recursion 32) 2 4096
    ∷ entry (recursion 32) 2 8192
    ∷ entry (recursion 32) 2 16384
    ∷ entry (recursion 32) 2 32768
    ∷ entry (recursion 32) 2 65536
    ∷ entry (recursion 32) 4 8192
    ∷ entry (recursion 32) 4 16384
    ∷ entry (recursion 32) 4 32768
    ∷ entry (recursion 32) 4 65536
    ∷ entry (recursion 32) 8 8192
    ∷ entry (recursion 32) 8 16384
    ∷ entry (recursion 32) 8 32768
    ∷ entry (recursion 32) 8 65536
    ∷ entry (recursion 32) 8 131072
    ∷ entry (recursion 32) 16 16384
    ∷ entry (recursion 32) 16 32768
    ∷ entry (recursion 32) 16 65536
    ∷ entry (recursion 32) 16 131072
    ∷ entry (recursion 32) 16 262144
    ∷ entry (recursion 32) 32 32768
    ∷ entry (recursion 32) 32 65536
    ∷ entry (recursion 32) 32 131072
    ∷ entry (recursion 32) 32 262144
    ∷ []

abbrev pub recursion_64_grid : List DefaultPirParameters32B
recursion_64_grid =
    entry (recursion 64) 1 4096
    ∷ entry (recursion 64) 1 8192
    ∷ entry (recursion 64) 1 16384
    ∷ entry (recursion 64) 1 32768
    ∷ entry (recursion 64) 2 4096
    ∷ entry (recursion 64) 2 8192
    ∷ entry (recursion 64) 2 16384
    ∷ entry (recursion 64) 2 32768
    ∷ entry (recursion 64) 2 65536
    ∷ entry (recursion 64) 4 8192
    ∷ entry (recursion 64) 4 16384
    ∷ entry (recursion 64) 4 32768
    ∷ entry (recursion 64) 4 65536
    ∷ entry (recursion 64) 8 8192
    ∷ entry (recursion 64) 8 16384
    ∷ entry (recursion 64) 8 32768
    ∷ entry (recursion 64) 8 65536
    ∷ entry (recursion 64) 8 131072
    ∷ entry (recursion 64) 16 16384
    ∷ entry (recursion 64) 16 32768
    ∷ entry (recursion 64) 16 65536
    ∷ entry (recursion 64) 16 131072
    ∷ entry (recursion 64) 16 262144
    ∷ entry (recursion 64) 32 32768
    ∷ entry (recursion 64) 32 65536
    ∷ entry (recursion 64) 32 131072
    ∷ entry (recursion 64) 32 262144
    ∷ []

-- `ALL`, and its view `all()`.
abbrev pub all : List DefaultPirParameters32B
all = interpolation_grid ++ (recursion_16_grid ++ (recursion_32_grid ++ recursion_64_grid))
