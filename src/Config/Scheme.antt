-- ===== src/Config/Scheme.antt =====
-- src/config.rs: `Collapse` and `Config`, and the checks of `Config::try_new`.
use poulpy_pir.Prelude.{ℕ, ◌%◌, leb, ◌==◌}
use poulpy_pir.Error.{Result, ok, ◌>>◌, ensure, invalid_config, unwrap}
use poulpy_pir.Payload.{Payload}

pub data Collapse : Type 0 where
  interpolation : Collapse
  recursion : (gamma0 gamma1 gamma2 : ℕ) → Collapse

abbrev pub default_n : ℕ
default_n = 2048

abbrev pub default_base2k : ℕ
default_base2k = 18

abbrev pub default_k : ℕ
default_k = 54

-- `Config<P>`; the payload type is an argument of the operations that use it.
pub record Config : Type 0 where
  pub n : ℕ
  pub base2k : ℕ
  pub k : ℕ
  pub collapse : Collapse

unfoldable pub with_collapse : Collapse → Config
with_collapse collapse = record {
  n = default_n;
  base2k = default_base2k;
  k = default_k;
  collapse = collapse;
}

abbrev pub height_of : ℕ → Collapse → ℕ
height_of n interpolation = n
height_of n (recursion gamma0 gamma1 gamma2) = gamma0

unfoldable pub column_height : Config → ℕ
column_height c = height_of c.n c.collapse

-- The second check of `try_new`; `is_multiple_of(0)` holds of 0 alone, as `% 0` does here.
abbrev pub whole_payloads : ℕ → Collapse → Result (Unit {0})
whole_payloads e interpolation = ok tt
whole_payloads e (recursion gamma0 gamma1 gamma2) =
    ensure (gamma0 % e == 0) (invalid_config "Recursion gamma0 must be a whole number of payloads")

-- `Config::try_new`; the parameters are the configuration and a module of degree `n`.
unfoldable pub try_new : Payload → Config → Result Config
unfolding column_height
try_new p c = do
  ensure (leb p.exponent (column_height c))
      (invalid_config "payload digits must fit within one scheme column")
  whole_payloads p.exponent c.collapse
  ok c

unfoldable pub new : Payload → Config → Result Config
unfolding try_new
new p c = unwrap (try_new p c)
