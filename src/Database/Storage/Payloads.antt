-- ===== src/Database/Storage/Payloads.antt =====
-- The contract of `encode_shard` and `payload`: a database is an array of payloads.
use poulpy_pir.Prelude.{
  ℕ, ◌+◌, ◌-◌, ◌≤◌, ◌<◌, ◌≡◌, refl, sym, ap, ◌∙◌, ◌⊎◌, List, ◌++◌, some, length, get_elem?,
  get_elem?-lt, take, drop, get_elem?-take, get_elem?-drop, All, All-take, All-drop, All-get,
  All-append, arith, splice, splice-inside, splice-before, splice-after, length-splice, le→leb,
  eq→==, pos→==,
}
use mathlib.Core.Path.{subst}
use native.Mathlib.Decide.{dec_lt}
use poulpy_pir.Error.{ok}
use poulpy_pir.Loop.{at}
use poulpy_pir.Payload.{Payload, IsBlock, IsCodec}
use poulpy_pir.Parallel.{Host}
use poulpy_pir.Database.Matrix.{CoeffMatrix}
use poulpy_pir.Database.Matrix.Patch.{IsSquare, Wrote}
use poulpy_pir.Database.Storage.{Database, payload_capacity, usize_max}
use poulpy_pir.Database.Storage.Scatter.{try_encode_shard, m_lo, m_hi}
use poulpy_pir.Database.Storage.Access.{payload, read_column}
use poulpy_pir.Database.Storage.Shape.{IsShaped}
use poulpy_pir.Database.Storage.Window.{
  Filled, Filled-get, Filled-length, Filled-squares, matrix_patch,
}
use poulpy_pir.Database.Storage.Place.{place_of, first_row}
use poulpy_pir.Database.Storage.Read.{matrix-lt, decoded, payload-at}
use poulpy_pir.Database.Storage.Shard.{
  read_written, read_kept, in_window, first_in, window, length-window, scatter_lem,
}

module _ (p : Payload) (codec : IsCodec p) (e_pos : 0 < p.exponent) (db : Database)
    (s : IsShaped p.exponent db) (start : ℕ) (payloads : List (List ℕ))
    (blocks : All (IsBlock p.block_len) payloads) where
  abbrev lo : ℕ
  lo = m_lo p db start payloads

  abbrev hi : ℕ
  hi = m_hi p db start payloads

  -- The database with the matrices of the window replaced.
  abbrev replaced : List CoeffMatrix → Database
  replaced ys = record db { matrices = splice lo hi db.matrices ys }

  module _ (some_ : 0 < length payloads) (room : start + length payloads ≤ payload_capacity p db)
      (ys : List CoeffMatrix)
      (filled : Filled p codec db s start payloads blocks lo
        (window p codec e_pos db s start payloads blocks some_ room)
        ys) where
    ys_len : length ys ≡ hi - lo
    ys_len =
        Filled-length p codec db s start payloads blocks lo _ ys filled
        ∙ length-window p codec e_pos db s start payloads blocks some_ room

    first : (lo ≤ (place_of p db start).matrix) × ((place_of p db start).matrix < hi)
    first = first_in p codec e_pos db s start payloads blocks some_ room

    lo_le : lo ≤ hi
    lo_le = omega (arith, first.0, first.1)

    hi_le : hi ≤ length db.matrices
    hi_le = omega arith

    replaced-IsShaped : IsShaped p.exponent (replaced ys)
    replaced-IsShaped = record {
      n_pos = s.n_pos;
      cols_pos = s.cols_pos;
      height_pos = s.height_pos;
      whole = s.whole;
      fits = s.fits;
      groups = s.groups;
      count = length-splice db.matrices ys lo hi 0 lo_le hi_le ys_len ∙ s.count;
      squares =
          All-append (IsSquare db.n) (take lo db.matrices) (ys ++ drop hi db.matrices)
            (All-take (IsSquare db.n) lo db.matrices s.squares)
            (All-append (IsSquare db.n) ys (drop hi db.matrices)
              (Filled-squares p codec db s start payloads blocks lo _ ys filled)
              (All-drop (IsSquare db.n) hi db.matrices s.squares));
    }

    module _ (i : ℕ) (lt : i < payload_capacity p db) where
      abbrev m : ℕ
      m = (place_of p db i).matrix

      found : (x : CoeffMatrix) × (get_elem? db.matrices m ≡ some x)
      found = get_elem?-lt db.matrices m (matrix-lt p db s e_pos i lt)

      square : IsSquare db.n found.0
      square = All-get (IsSquare db.n) db.matrices m found.0 s.squares found.1

      before :
          payload p db i
          ≡ decoded p db s e_pos i lt (
              read_column found.0
                (first_row p db (place_of p db i))
                (place_of p db i).column
                p.exponent)
      before = payload-at p db s e_pos i lt found.0 found.1

      after :
          (y : CoeffMatrix)
          → get_elem? (splice lo hi db.matrices ys) m ≡ some y
          → payload p (replaced ys) i
            ≡ decoded p db s e_pos i lt (
                read_column y
                  (first_row p db (place_of p db i))
                  (place_of p db i).column
                  p.exponent)
      unfolding place_of
      after y here = payload-at p (replaced ys) replaced-IsShaped e_pos i lt y here

      in_window_written :
          lo ≤ m
          → m < hi
          → (y : CoeffMatrix) × (get_elem? (splice lo hi db.matrices ys) m ≡ some y)
            × Wrote db.n (matrix_patch p codec db s start payloads blocks m) found.0 y
      in_window_written le lt' =
          let back : lo + (m - lo) ≡ m = omega arith in
          let there =
            get_elem?-take (hi - lo) (drop lo db.matrices) (m - lo) (omega arith)
            ∙ get_elem?-drop lo db.matrices (m - lo)
            ∙ ap (get_elem? db.matrices) back
            ∙ found.1 in
          let (y, here, w) =
            Filled-get p codec db s start payloads blocks lo _ ys (m - lo) found.0 filled there in
          (
            y,
            splice-inside db.matrices ys lo hi m lo_le hi_le ys_len le lt' ∙ here,
            subst
                (λ (k : ℕ).
                  Wrote db.n (matrix_patch p codec db s start payloads blocks k) found.0 y)
                back w,
          )

      payload_inside :
          start ≤ i
          → i < start + length payloads
          → payload p (replaced ys) i ≡ at payloads (i - start)
      payload_inside le lt' =
          let (low, high) =
            in_window p codec e_pos db s start payloads blocks some_ room i lt le lt' in
          let (y, here, w) = in_window_written low high in
          let (v, given, read) =
            read_written p codec e_pos db s start payloads blocks i lt found.0 y square w
              (ground arith) in
          after y here ∙ read ∙ sym given

      payload_outside :
          (i < start) ⊎ (start + length payloads ≤ i) → payload p (replaced ys) i ≡ payload p db i
      payload_outside apart = elim (dec_lt m lo) [
        | yes under ↦
            after found.0 (splice-before db.matrices ys lo hi m lo_le hi_le ys_len under ∙ found.1)
            ∙ sym before
        | no not_under ↦ elim (dec_lt m hi) [
          | no past ↦
              after found.0
                (splice-after db.matrices ys lo hi m lo_le hi_le ys_len (omega arith) ∙ found.1)
              ∙ sym before
          | yes within ↦
              let (y, here, w) = in_window_written (omega arith) within in
              after y here
              ∙ read_kept p codec e_pos db s start payloads blocks i lt found.0 y square w
                  (ground arith)
              ∙ sym before
        ]
      ]

  -- A shard within the capacity is stored, whatever the number of workers: afterwards each payload of
  -- the shard reads back from its index, every other payload is what it was, and shape and capacity
  -- are kept.
  pub try_encode_shard_lem :
      (host : Host)
      → start + length payloads ≤ usize_max
      → start + length payloads ≤ payload_capacity p db
      → (db' : Database) × (try_encode_shard p db start payloads host ≡ ok db')
        × IsShaped p.exponent db'
        × (payload_capacity p db' ≡ payload_capacity p db)
        × ((i : ℕ)
            → start ≤ i
            → i < start + length payloads
            → payload p db' i ≡ at payloads (i - start))
        × ((i : ℕ)
            → i < payload_capacity p db
            → (i < start) ⊎ (start + length payloads ≤ i)
            → payload p db' i ≡ payload p db i)
  unfolding try_encode_shard
  try_encode_shard_lem host word room = elim (dec_lt 0 (length payloads)) [
    | no none_ ↦ (
      db,
      rw (
        le→leb _ usize_max word,
        le→leb _ (payload_capacity p db) room,
        eq→== (length payloads) 0 (omega arith),
      ),
      s,
      refl,
      λ i le lt. absurd (omega arith),
      λ i lt apart. refl,
    )
    | yes some_ ↦
        let (ys, ran, filled) =
          scatter_lem p codec e_pos db s start payloads blocks some_ room host in
        (
          replaced ys,
          rw
              (
                le→leb _ usize_max word,
                le→leb _ (payload_capacity p db) room,
                pos→== (length payloads) some_,
              )
              ran,
          replaced-IsShaped some_ room ys filled,
          refl,
          λ i le lt. payload_inside some_ room ys filled i (omega arith) le lt,
          λ i lt apart. payload_outside some_ room ys filled i lt apart,
        )
  ]
