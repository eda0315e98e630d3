-- ===== src/Io.antt =====
-- Byte streams: `std::io` readers as functions that return what they read and the rest. A writer
-- is the list of the bytes that it is given. `read_u64` is that of src/keyword/directory.rs and
-- src/serialization.rs.
use Prim.Native.String.{String}
use poulpy_pir.Prelude.{
  ℕ, ◌^◌, ◌<◌, ◌≡◌, List, ◌++◌, leb, arith, if◌then◌else◌, length, take, drop, take-append,
  drop-append, length-append, to_le_bytes, from_le_bytes, length-to_le_bytes,
  from_le_bytes-to_le_bytes, le→leb, ap, ap₂,
}

pub data IoError : Type 0 where
  unexpected_eof : IoError
  invalid_data : String → IoError
  invalid_input : String → IoError

pub data IoResult {ℓ} (T : Type ℓ) : Type ℓ where
  err : IoError → IoResult T
  ok : T → IoResult T

infixl 5 ◌>>=◌ ◌>>◌
abbrev pub ◌>>=◌ {ℓ κ} : {T : Type ℓ} {U : Type κ} → IoResult T → (T → IoResult U) → IoResult U
err failure >>= next = err failure
ok value >>= next = next value

abbrev pub ◌>>◌ {ℓ} : {U : Type ℓ} → IoResult (Unit {0}) → IoResult U → IoResult U
first >> second = first >>= λ _. second

abbrev pub Reader {ℓ} : Type ℓ → Type ℓ
Reader A = List ℕ → IoResult (A × List ℕ)

-- `read_exact` into a buffer of `k` bytes.
unfoldable pub read_exact : ℕ → List ℕ → IoResult (List ℕ × List ℕ)
read_exact k input =
    if leb k (length input) then ok (take k input, drop k input) else err unexpected_eof

unfoldable pub read_u64 : List ℕ → IoResult (ℕ × List ℕ)
read_u64 input = do (bytes, rest) ← read_exact 8 input; ok (from_le_bytes bytes, rest)

unfoldable pub write_u64 : ℕ → List ℕ
unfolding to_le_bytes
write_u64 v = to_le_bytes 8 v

-- A reader takes back exactly what was written in front of the rest.
pub read_exact-append :
    (k : ℕ) (xs rest : List ℕ) → length xs ≡ k → read_exact k (xs ++ rest) ≡ ok (xs, rest)
unfolding read_exact
read_exact-append k xs rest e = rw (← e) (
    rw (le→leb (length xs) (length (xs ++ rest)) (omega (arith, length-append xs rest)))
      (ap₂ (λ a b. ok (a, b)) (take-append xs rest) (drop-append xs rest)))

pub read_u64-append :
    (v : ℕ) (rest : List ℕ) → v < 2 ^ 64 → read_u64 (write_u64 v ++ rest) ≡ ok (v, rest)
unfolding read_u64 write_u64
read_u64-append v rest h =
    rw (read_exact-append 8 (to_le_bytes 8 v) rest (length-to_le_bytes 8 v))
      (ap (λ n. ok (n, rest)) (from_le_bytes-to_le_bytes 8 v h))

pub length-write_u64 : (v : ℕ) → length (write_u64 v) ≡ 8
unfolding write_u64
length-write_u64 v = length-to_le_bytes 8 v
