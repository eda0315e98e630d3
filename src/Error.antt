-- ===== src/Error.antt =====
-- src/error.rs: `PirError`, and the results of fallible code. A failed `assert!`, an index out of
-- bounds and an `unwrap_or_else(|err| panic!(..))` end in `panic`.
use Prim.Native.String.{String}
use poulpy_pir.Prelude.{ℕ, Bool, true, false, ◌≡◌, refl}

pub data PirError : Type 0 where
  invalid_layout : String → PirError
  invalid_config : String → PirError
  payload_out_of_bounds : (index capacity : ℕ) → PirError
  shard_length_overflow : PirError
  shard_out_of_bounds : (end capacity : ℕ) → PirError
  digit_run_out_of_bounds : (offset len column_height : ℕ) → PirError
  wrong_query_variant : (expected actual : String) → PirError
  wrong_response_variant : (expected actual : String) → PirError

pub data Result {ℓ} (A : Type ℓ) : Type ℓ where
  ok : A → Result A
  err : PirError → Result A
  panic : Result A

infixl 5 ◌>>=◌ ◌>>◌
abbrev pub ◌>>=◌ {ℓ κ} : {T : Type ℓ} {U : Type κ} → Result T → (T → Result U) → Result U
panic >>= next = panic
err failure >>= next = err failure
ok value >>= next = next value

abbrev pub ◌>>◌ {ℓ} : {U : Type ℓ} → Result (Unit {0}) → Result U → Result U
first >> second = first >>= λ _. second

-- `assert!(b)`.
abbrev pub assert : Bool → Result (Unit {0})
assert true = ok tt
assert false = panic

-- `if !b { return Err(e); }`.
abbrev pub ensure : Bool → PirError → Result (Unit {0})
ensure true e = ok tt
ensure false e = err e

-- `.unwrap_or_else(|err| panic!("{err}"))`.
abbrev pub unwrap {ℓ} : {A : Type ℓ} → Result A → Result A
unwrap (ok a) = ok a
unwrap (err e) = panic
unwrap panic = panic

-- What a successful step gave.
pub >>=-ok {ℓ κ} :
    {A : Type ℓ} {B : Type κ} (m : Result A) (f : A → Result B) (b : B)
    → (m >>= f) ≡ ok b
    → (a : A) × (m ≡ ok a) × (f a ≡ ok b)
>>=-ok (Result.ok a) f b h = (a, refl, h)
>>=-ok (Result.err e) f b h = cc
>>=-ok Result.panic f b h = cc
