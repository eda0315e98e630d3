-- ===== src/Tests/Config.antt =====
-- A preset by its name, and the checks of a configuration.
use poulpy_pir.Prelude.{ℕ, ◌≡◌, ◌↔◌, refl, some}
use poulpy_pir.Error.{Result, invalid_config}
use poulpy_pir.Payload.{p65535}
use poulpy_pir.Payload.P65535.{exponent}
use poulpy_pir.Config.Scheme.{Config, Collapse, try_new, column_height}
use poulpy_pir.Config.Checks.{HoldsPayloads, try_new_lem}
use poulpy_pir.Config.Presets.{recursion, DefaultPirParameters32B}
use poulpy_pir.Config.Names.{name, from_name}

abbrev recursion_1_gib : DefaultPirParameters32B
recursion_1_gib = record { scheme = recursion 16; db_gib = 1; cols = 8192 }

parsed : from_name "InsPIRe2-g16-1GiB-c8192" ≡ some recursion_1_gib
unfolding from_name name
parsed = refl

abbrev folded : ℕ → Config
folded gamma0 = record { n = 2048; base2k = 18; k = 54; collapse = Collapse.recursion gamma0 64 16 }

two_payloads : try_new p65535 (folded 34) ≡ Result.ok (folded 34)
unfolding try_new column_height exponent
two_payloads = refl

partial_payload :
    try_new p65535 (folded 32)
    ≡ Result.err (invalid_config "Recursion gamma0 must be a whole number of payloads")
unfolding try_new column_height exponent
partial_payload = refl

try_new_lem_example :
    (try_new p65535 (folded 34) ≡ Result.ok (folded 34))
    ↔ ((folded 34 ≡ folded 34) × HoldsPayloads p65535.exponent (folded 34))
try_new_lem_example = try_new_lem p65535 (folded 34) (folded 34)
