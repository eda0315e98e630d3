-- ===== src/Config/Checks.antt =====
-- `Config::try_new` of src/config.rs: which configurations it accepts.
use poulpy_pir.Prelude.{ℕ, Bool, true, false, ◌≤◌, ◌%◌, ◌≡◌, ◌↔◌, refl, leb, arith}
use poulpy_pir.Error.{Result, PirError, ok, ensure, ◌>>◌}
use poulpy_pir.Payload.{Payload}
use poulpy_pir.Config.Scheme.{Config, Collapse, column_height, whole_payloads, try_new}

-- What a configuration must guarantee of one column.
pub record HoldsPayloads (e : ℕ) (c : Config) : Type 0 where
  pub fits : e ≤ column_height c
  pub whole :
      (gamma0 gamma1 gamma2 : ℕ)
      → c.collapse ≡ Collapse.recursion gamma0 gamma1 gamma2
      → gamma0 % e ≡ 0

whole_payloads_lem :
    (e : ℕ) (c : Collapse)
    → whole_payloads e c ≡ ok tt
    → (gamma0 gamma1 gamma2 : ℕ) → c ≡ Collapse.recursion gamma0 gamma1 gamma2
    → gamma0 % e ≡ 0
whole_payloads_lem e Collapse.interpolation h g0 g1 g2 same = cc
whole_payloads_lem e (Collapse.recursion a b c) h g0 g1 g2 same = ground arith

whole_payloads_accepts :
    (e : ℕ) (c : Collapse)
    → ((gamma0 gamma1 gamma2 : ℕ) → c ≡ Collapse.recursion gamma0 gamma1 gamma2 → gamma0 % e ≡ 0)
    → whole_payloads e c ≡ ok tt
whole_payloads_accepts e Collapse.interpolation h = refl
whole_payloads_accepts e (Collapse.recursion a b c) h =
    let whole = h a b c refl in ground (arith, whole)

-- Two checks in a row: both have passed where a value comes out.
both_passed :
    {A : Type 0} (b : Bool) (e : PirError) (r : Result (Unit {0})) (c c' : A)
    → ensure b e >> (r >> ok c) ≡ ok c'
    → (c ≡ c') × (b ≡ true) × (r ≡ ok tt)
both_passed true e (Result.ok u) c c' h = (cc, refl, refl)
both_passed true e (Result.err x) c c' h = cc
both_passed true e Result.panic c c' h = cc
both_passed false e r c c' h = cc

-- `try_new` returns a configuration exactly when it is the one given, a payload fits in one column,
-- and, in the recursion scheme, the first fold keeps a whole number of payloads.
pub try_new_lem :
    (p : Payload) (c c' : Config) → (try_new p c ≡ ok c') ↔ ((c ≡ c') × HoldsPayloads p.exponent c)
unfolding try_new
try_new_lem p c c' = (
  (λ h.
      let (same, fits, accepted) =
        both_passed (leb p.exponent (column_height c)) _ (whole_payloads p.exponent c.collapse) c c'
          h in
      (
        same,
        record {
          fits = ground (arith, fits);
          whole = whole_payloads_lem p.exponent c.collapse accepted;
        },
      )),
  (λ (same, holds).
      rw (whole_payloads_accepts p.exponent c.collapse holds.whole)
        (let fits = holds.fits in ground arith)),
)
