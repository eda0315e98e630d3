-- ===== src/Wire/Refused.antt =====
-- Messages that the receiver's parameters rule out are refused before any part is read.
use poulpy_pir.Prelude.{
  ℕ, ◌^◌, ◌<◌, ◌≡◌, ◌≢◌, refl, List, ◌++◌, ◌==◌, arith, if◌then◌else◌, Bool-cases, inl, inr,
}
use poulpy_pir.Io.{IoResult, IoError, invalid_data, write_u64, read_u64-append}
use poulpy_pir.Config.Scheme.{Config, Collapse}
use poulpy_pir.Database.Layout.{DatabaseLayout, column_blocks}
use poulpy_pir.Wire.{Ciphertexts, ensure_len, write_u8, read_vec}
use poulpy_pir.Wire.Outcome.{err}
use poulpy_pir.Wire.Query.{read_query, read_interpolation_query, read_recursion_query}
use poulpy_pir.Wire.Parts.{read_u8-write_u8}

read_vec_refused :
    {T : Type 0} (read : List ℕ → IoResult (T × List ℕ)) (count expected : ℕ) (rest : List ℕ)
    → count < 2 ^ 64
    → count ≢ expected
    → read_vec read expected (write_u64 count ++ rest)
      ≡ IoResult.err (invalid_data "length mismatch")
unfolding read_vec ensure_len
read_vec_refused read count expected rest small ne =
    rw (read_u64-append count rest small) (ground (arith, ne))

module _ (c : Ciphertexts) (params : Config) (layout : DatabaseLayout) where
  tagged :
      (tag : ℕ) (collapse : Collapse) (rest : List ℕ)
      → params.collapse ≡ collapse
      → read_query c params layout (write_u8 tag ++ rest) ≡ (
          if tag == 0
          then elim collapse [
            | Collapse.interpolation ↦ read_interpolation_query c params layout rest
            | Collapse.recursion gamma0 gamma1 gamma2 ↦
                err (invalid_data "interpolation query received for non-interpolation parameters")
          ]
          else if tag == 1
          then elim collapse [
            | Collapse.interpolation ↦
                err (invalid_data "recursion query received for non-recursion parameters")
            | Collapse.recursion gamma0 gamma1 gamma2 ↦
                read_recursion_query c params gamma0 layout rest
          ]
          else err (invalid_data "unknown Query serialization tag"))
  unfolding read_query
  tagged tag collapse rest same = rw (read_u8-write_u8 tag rest, same)

  interpolation_refused :
      (count : ℕ) (rest : List ℕ)
      → count < 2 ^ 64
      → count ≢ column_blocks layout params.n
      → read_interpolation_query c params layout (write_u64 count ++ rest)
        ≡ err (invalid_data "length mismatch")
  unfolding read_interpolation_query
  interpolation_refused count rest small ne = rw (read_vec_refused _ count _ rest small ne)

  recursion_refused :
      (gamma0 count : ℕ) (rest : List ℕ)
      → count < 2 ^ 64
      → count ≢ column_blocks layout params.n
      → read_recursion_query c params gamma0 layout (write_u64 count ++ rest)
        ≡ err (invalid_data "length mismatch")
  unfolding read_recursion_query
  recursion_refused gamma0 count rest small ne = rw (read_vec_refused _ count _ rest small ne)

  refused_as :
      (collapse : Collapse) (tag count : ℕ) (rest : List ℕ)
      → params.collapse ≡ collapse
      → count < 2 ^ 64
      → count ≢ column_blocks layout params.n
      → (e : IoError) × (read_query c params layout (write_u8 tag ++ (write_u64 count ++ rest))
          ≡ err e)
  refused_as Collapse.interpolation tag count rest same small ne = elim (Bool-cases (tag == 0)) [
    | inl here ↦ (
      invalid_data "length mismatch",
      rw (tagged tag Collapse.interpolation (write_u64 count ++ rest) same, here)
          (interpolation_refused count rest small ne),
    )
    | inr other ↦ elim (Bool-cases (tag == 1)) [
      | inl crossed ↦ (
        invalid_data "recursion query received for non-recursion parameters",
        rw (tagged tag Collapse.interpolation (write_u64 count ++ rest) same, other, crossed),
      )
      | inr unknown ↦ (
        invalid_data "unknown Query serialization tag",
        rw (tagged tag Collapse.interpolation (write_u64 count ++ rest) same, other, unknown),
      )
    ]
  ]
  refused_as (Collapse.recursion g0 g1 g2) tag count rest same small ne =
      elim (Bool-cases (tag == 0)) [
        | inl crossed ↦ (
          invalid_data "interpolation query received for non-interpolation parameters",
          rw (tagged tag (Collapse.recursion g0 g1 g2) (write_u64 count ++ rest) same, crossed),
        )
        | inr other ↦ elim (Bool-cases (tag == 1)) [
          | inl here ↦ (
            invalid_data "length mismatch",
            rw
                (
                  tagged tag (Collapse.recursion g0 g1 g2) (write_u64 count ++ rest) same,
                  other,
                  here,
                )
                (recursion_refused g0 count rest small ne),
          )
          | inr unknown ↦ (
            invalid_data "unknown Query serialization tag",
            rw (
              tagged tag (Collapse.recursion g0 g1 g2) (write_u64 count ++ rest) same,
              other,
              unknown,
            ),
          )
        ]
      ]

  -- Whatever the tag, a query whose first length prefix is not the number of blocks of the layout is
  -- refused with an error, without a panic.
  pub read_query_refused :
      (tag count : ℕ) (rest : List ℕ)
      → count < 2 ^ 64
      → count ≢ column_blocks layout params.n
      → (e : IoError) × (read_query c params layout (write_u8 tag ++ (write_u64 count ++ rest))
          ≡ err e)
  read_query_refused tag count rest small ne =
      refused_as params.collapse tag count rest refl small ne
