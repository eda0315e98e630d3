-- ===== src/Keyword/Directory.antt =====
-- src/keyword/directory.rs: `KeywordDirectory`. A reader that fails leaves the keys it has appended
-- in place, so the directory comes back beside the result.
pub mod Invariant
pub mod Push
pub mod Envelope
pub mod Sync
pub mod Persist
pub mod Reachable
use poulpy_pir.Prelude.{
  ℕ, zero, suc, ◌+◌, ◌-◌, ◌^◌, ◌%◌, ◌≤◌, ◌<◌, min, ◌≡◌, List, [], ◌∷◌, ◌++◌, Bool, true, false,
  Option, none, some, ltb, leb, ◌==◌, length, take, drop, if◌then◌else◌,
}
use poulpy_pir.Io.{
  IoResult, Reader, ok, err, IoError, invalid_data, invalid_input, read_exact, read_u64, write_u64,
  ◌>>=◌, ◌>>◌,
}
use poulpy_pir.Keyword.Key.{KeyMap, lookup, same_key}
use poulpy_pir.Keyword.Error.{KeywordResult, duplicate_key, capacity_exceeded}
use poulpy_pir.Keyword.Mphf
use poulpy_pir.Keyword.Mphf.{PtrHash, KeywordIndex}

pub record KeywordDirectory (Phf : Type 0) : Type 0 where
  pub mphf : KeywordIndex Phf
  pub delta_keys : List (List ℕ)
  pub delta_lookup : KeyMap
  pub version : ℕ
  pub capacity : ℕ

abbrev pub default_rebuild_threshold : ℕ
default_rebuild_threshold = 400_000

-- b"PIRDLT1\0"
abbrev pub delta_envelope_magic : List ℕ
delta_envelope_magic = b'P' ∷ b'I' ∷ b'R' ∷ b'D' ∷ b'L' ∷ b'T' ∷ b'1' ∷ 0 ∷ []

abbrev pub usize_max : ℕ
usize_max = 2 ^ 64 - 1

abbrev pub contains_key : List ℕ → KeyMap → Bool
contains_key key m = elim (lookup key m) [ none ↦ false | some j ↦ true ]

-- The fields of an envelope behind its magic.
pub record Header : Type 0 where
  pub version : ℕ
  pub base_len : ℕ
  pub start : ℕ
  pub count : ℕ
  pub capacity : ℕ

abbrev pub require : Bool → IoError → IoResult (Unit {0})
require true e = ok tt
require false e = err e

abbrev pub write_keys : List (List ℕ) → List ℕ
write_keys [] = []
write_keys (key ∷ keys) = key ++ write_keys keys

-- The magic and the five words behind it.
unfoldable pub read_header : List ℕ → IoResult (Header × List ℕ)
unfolding same_key
read_header input = do
  (magic, r0) ← read_exact 8 input
  require (same_key magic delta_envelope_magic)
      (invalid_data "invalid keyword delta envelope magic")
  (version, r1) ← read_u64 r0
  (base_len, r2) ← read_u64 r1
  (start, r3) ← read_u64 r2
  (count, r4) ← read_u64 r3
  (capacity, r5) ← read_u64 r4
  let header : Header = record {
    version = version;
    base_len = base_len;
    start = start;
    count = count;
    capacity = capacity;
  }
  ok (header, r5)

module _ {Phf : Type 0} where
  abbrev pub len : KeywordDirectory Phf → ℕ
  len d = d.mphf.n + length d.delta_keys

  -- `delta_lookup.insert(key, delta_keys.len() as u32)` and `delta_keys.push(key)`.
  unfoldable pub append_key : KeywordDirectory Phf → List ℕ → KeywordDirectory Phf
  append_key d key = record d {
    delta_keys = d.delta_keys ++ key ∷ [];
    delta_lookup = (key, length d.delta_keys % 2 ^ 32) ∷ d.delta_lookup;
  }

  unfoldable pub new :
      KeywordIndex Phf → (capacity version : ℕ) → KeywordResult (KeywordDirectory Phf)
  new mphf capacity version =
      if ltb capacity mphf.n
      then KeywordResult.err (capacity_exceeded mphf.n capacity)
      else KeywordResult.ok (record {
        mphf = mphf;
        delta_keys = [];
        delta_lookup = [];
        version = version;
        capacity = capacity;
      })

  unfoldable pub push : KeywordDirectory Phf → List ℕ → KeywordDirectory Phf × KeywordResult ℕ
  unfolding append_key
  push d key =
      if contains_key key d.delta_lookup
      then (d, KeywordResult.err (duplicate_key key))
      else if leb d.capacity (len d)
      then (d, KeywordResult.err (capacity_exceeded (len d + 1) d.capacity))
      else (append_key d key, KeywordResult.ok (len d))

  unfoldable pub is_empty : KeywordDirectory Phf → Bool
  is_empty d = len d == 0

  unfoldable pub delta_len : KeywordDirectory Phf → ℕ
  delta_len d = length d.delta_keys

  unfoldable pub remaining_capacity : KeywordDirectory Phf → ℕ
  remaining_capacity d = d.capacity - len d

  unfoldable pub needs_rebuild_at : KeywordDirectory Phf → ℕ → Bool
  needs_rebuild_at d threshold = leb threshold (length d.delta_keys)

  unfoldable pub needs_rebuild : KeywordDirectory Phf → Bool
  unfolding needs_rebuild_at
  needs_rebuild d = needs_rebuild_at d default_rebuild_threshold

  -- `have.min(delta_keys.len())` keys are skipped.
  unfoldable pub write_delta_from : KeywordDirectory Phf → ℕ → List ℕ
  write_delta_from d have =
      let tail = drop (min have (length d.delta_keys)) d.delta_keys in
      write_u64 (length tail) ++ write_keys tail

  abbrev pub envelope : KeywordDirectory Phf → ℕ → List (List ℕ) → List ℕ
  envelope d have tail =
      delta_envelope_magic
      ++ (write_u64 d.version
          ++ (write_u64 d.mphf.n
              ++ (write_u64 have
                  ++ (write_u64 (length tail) ++ (write_u64 d.capacity ++ write_keys tail)))))

  unfoldable pub write_delta_envelope_from : KeywordDirectory Phf → ℕ → IoResult (List ℕ)
  write_delta_envelope_from d have =
      if ltb (length d.delta_keys) have
      then err (invalid_input "delta start is beyond the server delta length")
      else ok (envelope d have (drop have d.delta_keys))

  -- The loop of `read_delta_entries`, over keys of `size` bytes.
  unfoldable pub read_keys :
      ℕ → ℕ → KeywordDirectory Phf → List ℕ → KeywordDirectory Phf × IoResult (List ℕ)
  unfolding append_key
  read_keys size zero d input = (d, ok input)
  read_keys size (suc count) d input = elim (read_exact size input) [
    | err e ↦ (d, err e)
    | ok (key, rest) ↦ elim (contains_key key d.delta_lookup) [
      | true ↦ (d, err (invalid_data "duplicate key in keyword delta"))
      | false ↦ read_keys size count (append_key d key) rest
    ]
  ]

  unfoldable pub read_delta_entries :
      ℕ → ℕ → KeywordDirectory Phf → List ℕ → KeywordDirectory Phf × IoResult (List ℕ)
  unfolding read_keys
  read_delta_entries size count d input =
      if ltb d.capacity (min (len d + count) usize_max)
      then (d, err (invalid_data "keyword delta exceeds directory capacity"))
      else read_keys size count d input

  unfoldable pub read_delta :
      ℕ → KeywordDirectory Phf → List ℕ → KeywordDirectory Phf × IoResult (List ℕ)
  unfolding read_delta_entries read_u64
  read_delta size d input = elim (read_u64 input) [
    | err e ↦ (d, err e)
    | ok (count, rest) ↦ read_delta_entries size count d rest
  ]

  unfoldable pub apply_delta :
      ℕ → KeywordDirectory Phf → List ℕ → KeywordDirectory Phf × IoResult (List ℕ)
  unfolding read_delta
  apply_delta = read_delta

  unfoldable pub check_header : KeywordDirectory Phf → Header → IoResult (Unit {0})
  check_header d header = do
    require (header.version == d.version)
        (invalid_data "keyword delta version does not match client directory")
    require (header.base_len == d.mphf.n)
        (invalid_data "keyword delta base length does not match client directory")
    require (header.start == length d.delta_keys)
        (invalid_data "keyword delta start offset does not match client directory")
    require (header.capacity == d.capacity)
        (invalid_data "keyword delta capacity does not match client directory")

  unfoldable pub apply_delta_envelope :
      ℕ → KeywordDirectory Phf → List ℕ → KeywordDirectory Phf × IoResult (List ℕ)
  unfolding read_delta_entries read_header check_header
  apply_delta_envelope size d input = elim (read_header input) [
    | err e ↦ (d, err e)
    | ok (header, rest) ↦ elim (check_header d header) [
      | err e ↦ (d, err e)
      | ok _ ↦ read_delta_entries size header.count d rest
    ]
  ]

module _ (h : PtrHash) where
  open h use {Phf}

  -- The delta first, the hash second.
  unfoldable pub index : KeywordDirectory Phf → List ℕ → ℕ
  unfolding Mphf.index
  index d key = elim (lookup key d.delta_lookup) [
    | some j ↦ d.mphf.n + j
    | none ↦ Mphf.index h d.mphf key
  ]

  abbrev pub renew :
      KeywordDirectory Phf → KeywordResult (KeywordIndex Phf) → KeywordResult (KeywordDirectory Phf)
  renew d (KeywordResult.err e) = KeywordResult.err e
  renew d (KeywordResult.ok mphf) = new mphf d.capacity (d.version + 1)

  unfoldable pub rebuilt :
      KeywordDirectory Phf → List (List ℕ) → KeywordResult (KeywordDirectory Phf)
  unfolding new Mphf.build
  rebuilt d all_keys = renew d (Mphf.build h all_keys)

  unfoldable pub write_to : KeywordDirectory Phf → List ℕ
  unfolding Mphf.write_to write_delta_from
  write_to d =
      write_u64 d.version
      ++ (write_u64 d.capacity ++ (Mphf.write_to h d.mphf ++ write_delta_from d 0))

  abbrev both : KeywordDirectory Phf → IoResult (List ℕ) → IoResult (KeywordDirectory Phf × List ℕ)
  both d (ok rest) = ok (d, rest)
  both d (err e) = err e

  unfoldable pub read_from : ℕ → List ℕ → IoResult (KeywordDirectory Phf × List ℕ)
  unfolding Mphf.read_from read_delta
  read_from size input = do
    (version, r0) ← read_u64 input
    (capacity, r1) ← read_u64 r0
    (mphf, r2) ← Mphf.read_from h r1
    require (leb mphf.n capacity) (invalid_data "MPHF length exceeds directory capacity")
    let empty : KeywordDirectory Phf = record {
      mphf = mphf;
      delta_keys = [];
      delta_lookup = [];
      version = version;
      capacity = capacity;
    }
    both (read_delta size empty r2).0 (read_delta size empty r2).1
