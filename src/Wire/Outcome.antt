-- ===== src/Wire/Outcome.antt =====
-- What reading a message can end in: a failed assertion panics.
use poulpy_pir.Error.{Result}
use poulpy_pir.Io.{IoResult, IoError}

pub data WireResult (T : Type 0) : Type 0 where
  err : IoError → WireResult T
  panic : WireResult T
  ok : T → WireResult T

infixl 5 ◌>>=◌ ◌>>◌
abbrev pub ◌>>=◌ : {T U : Type 0} → WireResult T → (T → WireResult U) → WireResult U
err failure >>= next = err failure
panic >>= next = panic
ok value >>= next = next value

abbrev pub ◌>>◌ : {U : Type 0} → WireResult (Unit {0}) → WireResult U → WireResult U
first >> second = first >>= λ _. second

abbrev pub lift : {T : Type 0} → IoResult T → WireResult T
lift (IoResult.err failure) = err failure
lift (IoResult.ok value) = ok value

abbrev pub checked : {T : Type 0} → Result T → WireResult T
checked (Result.ok value) = ok value
checked (Result.err e) = panic
checked Result.panic = panic
