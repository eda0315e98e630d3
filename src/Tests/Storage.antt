-- ===== src/Tests/Storage.antt =====
-- A small database: 3 grid rows of 5 columns of height 2, in four matrices of 4 by 4.
use poulpy_pir.Prelude.{
  ℕ, ◌+◌, ◌-◌, ◌/◌, ◌≤◌, ◌<◌, ◌≡◌, ◌≢◌, ◌⊎◌, inr, refl, List, [], ◌∷◌, All, map, pos, negsuc,
  length, replicate, none, arith, div_ceil,
}
use poulpy_pir.Error.{ok}
use poulpy_pir.Loop.{at}
use poulpy_pir.Payload.{Payload, IsBlock, p65536, p65536-IsCodec}
use poulpy_pir.Payload.P65536
use poulpy_pir.Parallel.{Host}
use poulpy_pir.Database.Layout.{DatabaseLayout}
use poulpy_pir.Database.Matrix.{zeros}
use poulpy_pir.Database.Matrix.Patch.{IsSquare}
use poulpy_pir.Database.Storage.{Database, column_height, payload_capacity, from_layout, usize_max}
use poulpy_pir.Database.Storage.Scatter.{try_encode_shard}
use poulpy_pir.Database.Storage.Access.{payload, try_write_digits, read_digits, as_i16}
use poulpy_pir.Database.Storage.Shape.{IsShaped, from_layout-IsShaped}
use poulpy_pir.Database.Storage.Payloads.{try_encode_shard_lem}
use poulpy_pir.Database.Storage.Digits.{IsRecord}
use poulpy_pir.Database.Storage.Records.{try_write_digits_lem}

-- Payloads of 4 bytes, 2 digits.
abbrev words : Payload
words = p65536 2

abbrev small : Database
small = record {
  matrices = replicate 4 (zeros 4 4);
  n = 4;
  base2k = 18;
  cols = 5;
  grid_rows = 3;
  physical_rows = 2;
  preprocessing = record { column_height = 2 };
}

empty-IsSquare : IsSquare 4 (zeros 4 4)
unfolding zeros
empty-IsSquare = record { rows_in_eq = refl; rows_out_eq = refl; length_eq = refl }

small-IsShaped : IsShaped words.exponent small
unfolding P65536.exponent div_ceil
small-IsShaped = record {
  n_pos = omega arith;
  cols_pos = omega arith;
  height_pos = omega arith;
  whole = refl;
  fits = omega arith;
  groups = refl;
  count = refl;
  squares = (empty-IsSquare, (empty-IsSquare, (empty-IsSquare, (empty-IsSquare, tt))));
}

abbrev single_core : Host
single_core = record { env = λ var. none; parallelism = none }

abbrev two_payloads : List (List ℕ)
two_payloads = (1 ∷ 2 ∷ 3 ∷ 4 ∷ []) ∷ (255 ∷ 255 ∷ 0 ∷ 128 ∷ []) ∷ []

two_blocks : All (IsBlock 4) two_payloads
two_blocks = ((refl, omega arith), ((refl, omega arith), tt))

exponent_pos : 0 < words.exponent
unfolding P65536.exponent
exponent_pos = omega arith

room : 4 + length two_payloads ≤ payload_capacity words small
unfolding P65536.exponent
room = omega arith

try_encode_shard_lem_example :
    (db' : Database) × (try_encode_shard words small 4 two_payloads single_core ≡ ok db')
    × IsShaped words.exponent db'
    × (payload_capacity words db' ≡ payload_capacity words small)
    × ((i : ℕ)
        → 4 ≤ i
        → i < 4 + length two_payloads
        → payload words db' i ≡ at two_payloads (i - 4))
    × ((i : ℕ)
        → i < payload_capacity words small
        → (i < 4) ⊎ (4 + length two_payloads ≤ i)
        → payload words db' i ≡ payload words small i)
try_encode_shard_lem_example =
    try_encode_shard_lem words (p65536-IsCodec 2) exponent_pos small small-IsShaped 4 two_payloads
      two_blocks single_core (omega arith) room

abbrev six_by_five : DatabaseLayout
six_by_five = record { rows = 6; cols = 5 }

from_layout-IsShaped_example :
    (db : Database) × (from_layout 2 4 six_by_five 18 2 ≡ ok db)
    × IsShaped 2 db
    × (db.n ≡ 4)
    × (db.cols ≡ 5)
    × (db.grid_rows ≡ 6 / 2)
    × (column_height db ≡ 2)
from_layout-IsShaped_example =
    from_layout-IsShaped 2 4 six_by_five 18 2 (omega arith) (omega arith) (omega arith)
      (omega arith) refl refl

four-IsRecord : IsRecord small 4 1
four-IsRecord = record { column_lt = omega arith; row_lt = omega arith }

try_write_digits_lem_example :
    (db' : Database) × (try_write_digits small 4 1 0 (pos 7 ∷ negsuc 1 ∷ []) ≡ ok db')
    × (read_digits db' 4 1 0 2 ≡ ok (map as_i16 (pos 7 ∷ negsuc 1 ∷ [])))
    × ((column' grid_row' off' len' : ℕ)
        → IsRecord small column' grid_row'
        → off' + len' ≤ 2
        → (column' ≢ 4) ⊎ (grid_row' ≢ 1)
        → read_digits db' column' grid_row' off' len'
          ≡ read_digits small column' grid_row' off' len')
try_write_digits_lem_example =
    try_write_digits_lem words.exponent small small-IsShaped 4 1 four-IsRecord 0
      (pos 7 ∷ negsuc 1 ∷ []) (omega arith) (omega arith)

too_long : (usize_max < 1 + 2) ⊎ (2 < 1 + 2)
too_long = inr (omega arith)
