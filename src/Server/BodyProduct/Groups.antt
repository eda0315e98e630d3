-- ===== src/Server/BodyProduct/Groups.antt =====
-- The parallel products of all row groups against the products of each row group by itself.
use poulpy_pir.Prelude.{
  ℕ, zero, suc, ◌+◌, ◌*◌, ◌≤◌, ◌<◌, ◌≡◌, refl, sym, ap, ◌∙◌, max, true, List, [], ◌∷◌, length,
  length-replicate, replicate, some, get_elem?, lt→ltb, div_ceil, arith,
}
use poulpy_pir.Error.{Result, ok, ◌>>=◌}
use poulpy_pir.Server.Float.{Float}
use poulpy_pir.Server.Gemm.{Gemm, IsKernel}
use poulpy_pir.Server.Gemm.Products.{IsVectorKernel}
use poulpy_pir.Server.MaskProduct.{PreparedF64}
use poulpy_pir.Server.BodyProduct.{
  stack_columns, batch_blocks, same_lengths, body_product_batch, decode_all, group_products,
  body_product_acc_parallel,
}
use poulpy_pir.Server.BodyProduct.Bands.{AreFit, stack_lem}
use poulpy_pir.Server.BodyProduct.Bands.Whole.{group_lem}

-- Prepared blocks of `rows_out` rows, with columns as wide as `widths` says, and none wider than the ring.
abbrev pub AreBlocks : (degree rows_out : ℕ) → List ℕ → List PreparedF64 → Type 0
AreBlocks degree rows_out [] [] = Unit {0}
AreBlocks degree rows_out (w ∷ widths) (u ∷ us) =
    (u.rows_in ≡ w)
    × (w ≤ degree)
    × (u.rows_out ≡ rows_out)
    × (length u.values ≡ rows_out * w)
    × AreBlocks degree rows_out widths us
AreBlocks degree rows_out [] (u ∷ us) = ⊥
AreBlocks degree rows_out (w ∷ widths) [] = ⊥

-- Row groups that all have blocks of the same shapes.
abbrev pub AreGroups : (degree rows_out : ℕ) → List ℕ → List (List PreparedF64) → Type 0
AreGroups degree rows_out widths [] = Unit {0}
AreGroups degree rows_out widths (views ∷ rest) =
    AreBlocks degree rows_out widths views × AreGroups degree rows_out widths rest

length-blocks :
    (degree rows_out : ℕ) (widths : List ℕ) (us : List PreparedF64)
    → AreBlocks degree rows_out widths us
    → length us ≡ length widths
length-blocks degree rows_out [] [] fit = refl
length-blocks degree rows_out [] (u ∷ us) fit = absurd fit
length-blocks degree rows_out (w ∷ widths) [] fit = absurd fit
length-blocks degree rows_out (w ∷ widths) (u ∷ us) (e, le, rows, size, more) =
    ap suc (length-blocks degree rows_out widths us more)

same_lengths_lem :
    {Body : Type 0} (n : ℕ) (queries : List (List Body)) (j : ℕ) (bodies : List Body)
    → same_lengths n queries ≡ true
    → get_elem? queries j ≡ some bodies
    → length bodies ≡ n
same_lengths_lem n [] j bodies same found = cc
same_lengths_lem n (b ∷ rest) zero bodies same found =
    let here : length b ≡ n = ground (arith, same) in
    let e : b ≡ bodies = cc in ap length (sym e) ∙ here
same_lengths_lem n (b ∷ rest) (suc j) bodies same found =
    let more : same_lengths n rest ≡ true = ground (arith, same) in
    same_lengths_lem n rest j bodies more found

module _ (f : Float) {Body : Type 0} (reals : Body → List f.F64) (degree : ℕ)
    (full : (body : Body) → length (reals body) ≡ degree) (queries : List (List Body))
    (rows_out : ℕ) (g : Gemm f) where
  open f use {F64, zero_f}

  abbrev q : ℕ
  q = length queries

  abbrev IsFit : (bc : ℕ) → List ℕ → List (List F64) → Type 0
  IsFit bc widths rhs_all =
      (vs : List PreparedF64)
      → AreBlocks degree rows_out widths vs
      → AreFit f reals degree full q queries rows_out bc vs rhs_all

  empty-IsFit : (bc : ℕ) → IsFit bc [] []
  empty-IsFit bc [] fit = fit
  empty-IsFit bc (v ∷ vs) fit = absurd fit

  cons-IsFit :
      (bc w : ℕ) (widths : List ℕ) (rhs : List F64) (rest : List (List F64))
      → stack_columns f reals w q bc 0 queries (replicate (w * q) zero_f) ≡ ok rhs
      → length rhs ≡ w * q
      → IsFit (bc + 1) widths rest
      → IsFit bc (w ∷ widths) (rhs ∷ rest)
  cons-IsFit bc w widths rhs rest run len others [] fit = absurd fit
  cons-IsFit bc w widths rhs rest run len others (v ∷ vs) (e, room, rows, size, more) =
      (rows, rw e size, rw e len, rw e run, others vs more)

  -- The columns decoded for one row group are the columns of every row group of the same shape.
  decode_lem :
      (n bc : ℕ) (widths : List ℕ) (us : List PreparedF64)
      → AreBlocks degree rows_out widths us
      → same_lengths n queries ≡ true
      → bc + length us ≤ n
      → (rhs_all : List (List F64)) × (decode_all f reals q bc us queries ≡ ok rhs_all)
        × IsFit bc widths rhs_all
  unfolding decode_all
  decode_lem n bc [] [] fit same le = ([], refl, empty-IsFit bc)
  decode_lem n bc [] (u ∷ us) fit same le = absurd fit
  decode_lem n bc (w ∷ widths) [] fit same le = absurd fit
  decode_lem n bc (w ∷ widths) (u ∷ us) (e, room, rows, size, more) same le =
      let (rhs, run, len) =
        stack_lem f reals degree full w q bc 0 queries (replicate (w * q) zero_f) room (omega arith)
          (λ j b found. omega (arith, le, same_lengths_lem n queries j b same found))
          (length-replicate (w * q) zero_f) in
      let (rest, run', others) = decode_lem n (bc + 1) widths us more same (omega arith) in
      (rhs ∷ rest, rw e (rw run (rw run' refl)), cons-IsFit bc w widths rhs rest run len others)

  module _ (kernel : IsKernel f g) (vectors : IsVectorKernel f g) where
    -- Each row group by itself.
    abbrev pub batches : List (List PreparedF64) → Result (List (List F64))
    batches [] = ok []
    batches (views ∷ rest) = do
      acc ← body_product_batch f reals g views queries
      accs ← batches rest
      ok (acc ∷ accs)

    batch_one :
        (w : ℕ) (widths : List ℕ) (views : List PreparedF64) (out : List F64)
        → AreBlocks degree rows_out (w ∷ widths) views
        → 0 < q
        → same_lengths (length views) queries ≡ true
        → batch_blocks f reals g views queries rows_out q 0 (replicate (rows_out * q) zero_f)
          ≡ ok out
        → body_product_batch f reals g views queries ≡ ok out
    unfolding body_product_batch
    batch_one w widths [] out fit pos same run = absurd fit
    batch_one w widths (u ∷ us) out (e, room, rows, size, more) pos same run =
        rw (lt→ltb 0 q pos, lt→ltb 0 (suc (length us)) (omega arith))
          (rw same (
            ap (λ r. batch_blocks f reals g (u ∷ us) queries r q 0 (replicate (r * q) zero_f)) rows
            ∙ run))

    groups_lem :
        (w : ℕ) (widths : List ℕ) (groups : List (List PreparedF64)) (rhs_all : List (List F64))
        (band : ℕ)
        → AreGroups degree rows_out (w ∷ widths) groups
        → IsFit 0 (w ∷ widths) rhs_all
        → 0 < q
        → same_lengths (suc (length widths)) queries ≡ true
        → 0 < band
        → (accs : List (List F64)) × (group_products f reals g groups rhs_all
              (suc (length widths))
              q
              rows_out
              band
            ≡ ok accs)
          × (batches groups ≡ ok accs)
    unfolding group_products
    groups_lem w widths [] rhs_all band groups fit pos same band_pos = ([], refl, refl)
    groups_lem w widths (views ∷ rest) rhs_all band (blocks, more) fit pos same band_pos =
        let e = length-blocks degree rows_out (w ∷ widths) views blocks in
        let (acc, run, alone) =
          group_lem f reals degree full q queries rows_out g kernel vectors views rhs_all
            (fit views blocks) band band_pos in
        let (accs, run', alone') =
          groups_lem w widths rest rhs_all band more fit pos same band_pos in
        let one =
          batch_one w widths views acc blocks pos (ap (λ n. same_lengths n queries) e ∙ same)
            alone in
        (acc ∷ accs, rw (← e) (rw run (rw e (rw run' refl))), rw one (rw alone' refl))

    parallel_run :
        (u : PreparedF64) (us : List PreparedF64) (rest : List (List PreparedF64)) (nthreads : ℕ)
        (rhs_all accs : List (List F64))
        → 0 < q
        → same_lengths (suc (length us)) queries ≡ true
        → decode_all f reals q 0 (u ∷ us) queries ≡ ok rhs_all
        → u.rows_out ≡ rows_out
        → group_products f reals g
            ((u ∷ us) ∷ rest)
            rhs_all
            (suc (length us))
            q
            rows_out
            (max (div_ceil rows_out (max (div_ceil nthreads (suc (length rest))) 1)) 1)
          ≡ ok accs
        → body_product_acc_parallel f reals g ((u ∷ us) ∷ rest) queries nthreads ≡ ok accs
    unfolding body_product_acc_parallel
    parallel_run u us rest nthreads rhs_all accs pos same decoded rows run =
        rw (lt→ltb 0 q pos, lt→ltb 0 (suc (length rest)) (omega arith))
          (rw same (
            rw decoded (
              ap
                (λ r.
                  group_products f reals g ((u ∷ us) ∷ rest) rhs_all (suc (length us)) q r
                    (max (div_ceil r (max (div_ceil nthreads (suc (length rest))) 1)) 1))
                rows
              ∙ run)))

    -- For kernels whose cells depend only on the old cell, the row and the column (for vectors: on the vector
    -- in place of the column), not on how many rows and columns are computed with them; for bodies that
    -- decode to a ring degree of reals each; for one row group at least, all with one block at least and
    -- the same shapes, no column longer than the degree; and for one query at least, each with a body for
    -- each block: `body_product_acc_parallel` returns, for any number of threads, for each row group the
    -- accumulator of `full_torus_f64_body_product_batch` on that row group by itself.
    pub body_product_acc_parallel_lem :
        (w : ℕ) (widths : List ℕ) (views : List PreparedF64) (rest : List (List PreparedF64))
        (nthreads : ℕ)
        → AreGroups degree rows_out (w ∷ widths) (views ∷ rest)
        → 0 < q
        → same_lengths (suc (length widths)) queries ≡ true
        → (accs : List (List F64)) × (body_product_acc_parallel f reals g
              (views ∷ rest)
              queries
              nthreads
            ≡ ok accs)
          × (batches (views ∷ rest) ≡ ok accs)
    body_product_acc_parallel_lem w widths [] rest nthreads (blocks, more) pos same = absurd blocks
    body_product_acc_parallel_lem w widths (u ∷ us) rest nthreads
          ((e, room, rows, size, more), others) pos same =
        let blocks : AreBlocks degree rows_out (w ∷ widths) (u ∷ us) =
          (e, room, rows, size, more) in
        let len = length-blocks degree rows_out widths us more in
        let (rhs_all, run, fit) =
          decode_lem (suc (length widths)) 0 (w ∷ widths) (u ∷ us) blocks same
            (omega (arith, len)) in
        let band : ℕ = max (div_ceil rows_out (max (div_ceil nthreads (suc (length rest))) 1)) 1 in
        let (accs, run', each) =
          groups_lem w widths ((u ∷ us) ∷ rest) rhs_all band (blocks, others) fit pos same
            (omega arith) in
        let run'' =
          parallel_run u us rest nthreads rhs_all accs pos
            (ap (λ n. same_lengths n queries) (ap suc len) ∙ same) run rows
            (ap (λ n. group_products f reals g ((u ∷ us) ∷ rest) rhs_all n q rows_out band)
                (ap suc len)
              ∙ run') in
        (accs, run'', each)
