-- ===== src/Database/Storage/Window.antt =====
-- What `try_encode_shard` writes into each matrix of its window, whatever the number of workers.
use poulpy_pir.Prelude.{
  ℕ, zero, suc, ◌+◌, ◌-◌, ◌*◌, ◌/◌, ◌%◌, ◌≤◌, ◌<◌, min, ◌≡◌, refl, sym, ap, List, [], ◌∷◌, ◌++◌,
  none, some, Bool, true, false, leb, length, get_elem?, All, All-take, All-drop, take, drop,
  length-take, length-drop, nil_of_length, take-append-drop, arith, if◌then◌else◌,
}
use mathlib.Core.Path.{subst}
use native.Mathlib.Decide.{dec_le}
use native.Mathlib.Nat.{div-add-mod}
use poulpy_pir.Error.{ok}
use poulpy_pir.Payload.{Payload, IsBlock, IsCodec}
use poulpy_pir.Database.Matrix.{CoeffMatrix}
use poulpy_pir.Database.Matrix.Patch.{
  IsSquare, Patch, Wrote, Wrote-ext, patches, for_range-Wrote, for_until-Wrote,
}
use poulpy_pir.Database.Storage.{
  Database, column_height, column_blocks, rows_per_physical_group, payloads_per_column,
  payloads_per_grid_row,
}
use poulpy_pir.Database.Storage.Scatter.{fill_run, fill_matrix, fill_chunk, fill_chunks, chunks}
use poulpy_pir.Database.Storage.Shape.{IsShaped}
use poulpy_pir.Database.Storage.Run.{columns, columns-Wrote}

row_fits :
    (n h e local_row pic : ℕ) → local_row < n / h → pic < h / e → local_row * h + pic * e + e ≤ n
row_fits n h e local_row pic k l =
    let inner : pic * e + e ≤ h = grind (arith, div-add-mod h e) in
    let outer : local_row * h + h ≤ n = grind (arith, div-add-mod n h) in
    omega (arith, inner, outer)

module _ (p : Payload) (codec : IsCodec p) (db : Database) (s : IsShaped p.exponent db) (start : ℕ)
    (payloads : List (List ℕ)) (blocks : All (IsBlock p.block_len) payloads) where
  abbrev pub width_of : ℕ → ℕ
  width_of m = min (db.cols - m % column_blocks db * db.n) db.n

  abbrev pub grid_row_of : (m local_row : ℕ) → ℕ
  grid_row_of m local_row = m / column_blocks db * rows_per_physical_group db + local_row

  -- The index of the first payload of a run.
  abbrev pub base_of : (m local_row pic : ℕ) → ℕ
  base_of m local_row pic =
      grid_row_of m local_row * payloads_per_grid_row p db
      + pic * db.cols
      + m % column_blocks db * db.n

  abbrev pub row_of : (local_row pic : ℕ) → ℕ
  row_of local_row pic = local_row * column_height db + pic * p.exponent

  abbrev pub run : (m local_row pic : ℕ) → Patch
  run m local_row pic =
      columns p codec start payloads blocks (base_of m local_row pic) (width_of m)
        (row_of local_row pic)

  fill_run-Wrote :
      (m local_row pic : ℕ) (x : CoeffMatrix)
      → local_row < rows_per_physical_group db
      → pic < payloads_per_column p db
      → IsSquare db.n x
      → (y : CoeffMatrix) × (fill_run p db start payloads m local_row pic x ≡ ok y)
        × Wrote db.n (run m local_row pic) x y
  unfolding fill_run
  fill_run-Wrote m local_row pic x h k sq =
      columns-Wrote p codec start payloads blocks db.n (base_of m local_row pic) (width_of m)
        (row_of local_row pic) (omega arith)
        (row_fits db.n (column_height db) p.exponent local_row pic h k) x sq

  abbrev over : (m local_row : ℕ) → Bool
  over m local_row = leb db.grid_rows (grid_row_of m local_row)

  unfoldable pub rows : (m local_row : ℕ) → Patch
  rows m local_row r c =
      if over m local_row
      then none
      else patches db.n (run m local_row) (payloads_per_column p db) 0 r c

  unfoldable pub matrix_patch : ℕ → Patch
  matrix_patch m = patches db.n (rows m) (rows_per_physical_group db) 0

  over_off : (m j r c : ℕ) → over m j ≡ true → rows m j r c ≡ none
  unfolding rows
  over_off m j r c h = rw h

  not_over :
      (m j r c : ℕ)
      → over m j ≡ false
      → patches db.n (run m j) (payloads_per_column p db) 0 r c ≡ rows m j r c
  unfolding rows
  not_over m j r c h = rw h

  over_up : (m j : ℕ) → over m j ≡ true → over m (j + 1) ≡ true
  over_up m j h = ground arith

  pub fill_matrix-Wrote :
      (m : ℕ) (x : CoeffMatrix)
      → IsSquare db.n x
      → (y : CoeffMatrix) × (fill_matrix p db start payloads m x ≡ ok y)
        × Wrote db.n (matrix_patch m) x y
  unfolding fill_matrix matrix_patch
  fill_matrix-Wrote m x sq =
      for_until-Wrote db.n (rows m) (over m) _ (over_up m) (over_off m) (rows_per_physical_group db)
        0
        (λ j t le lt go sq'.
          let (y, ran, w) =
            for_range-Wrote db.n (run m j) _ (payloads_per_column p db) 0
              (λ pic u le' lt' sq''. fill_run-Wrote m j pic u (omega arith) (omega arith) sq'') t
              sq' in
          (y, ran, Wrote-ext db.n _ (rows m j) t y (λ r c. not_over m j r c go) w))
        x sq

  -- `ys` is `xs` with the shard written into each matrix, numbered from `m`.
  pub Filled : ℕ → List CoeffMatrix → List CoeffMatrix → Type 0
  Filled m [] [] = Unit {0}
  Filled m [] (y ∷ ys) = ⊥
  Filled m (x ∷ xs) [] = ⊥
  Filled m (x ∷ xs) (y ∷ ys) = Wrote db.n (matrix_patch m) x y × Filled (m + 1) xs ys

  Filled-append :
      (m : ℕ) (xs ys xs' ys' : List CoeffMatrix)
      → Filled m xs ys
      → Filled (m + length xs) xs' ys'
      → Filled m (xs ++ xs') (ys ++ ys')
  unfolding Filled
  Filled-append m [] [] xs' ys' h h' = subst (λ k. Filled k xs' ys') (omega arith) h'
  Filled-append m [] (y ∷ ys) xs' ys' h h' = absurd h
  Filled-append m (x ∷ xs) [] xs' ys' h h' = absurd h
  Filled-append m (x ∷ xs) (y ∷ ys) xs' ys' (w, h) h' =
      (w, Filled-append (m + 1) xs ys xs' ys' h (subst (λ k. Filled k xs' ys') (omega arith) h'))

  pub Filled-get :
      (m : ℕ) (xs ys : List CoeffMatrix) (j : ℕ) (x : CoeffMatrix)
      → Filled m xs ys
      → get_elem? xs j ≡ some x
      → (y : CoeffMatrix) × (get_elem? ys j ≡ some y) × Wrote db.n (matrix_patch (m + j)) x y
  unfolding Filled
  Filled-get m [] ys j x h e = cc
  Filled-get m (a ∷ xs) [] j x h e = absurd h
  Filled-get m (a ∷ xs) (y ∷ ys) zero x (w, h) e =
      let same : a ≡ x = cc e in
      (
        y,
        refl,
        subst (λ b. Wrote db.n (matrix_patch (m + 0)) b y) same
            (subst (λ k. Wrote db.n (matrix_patch k) a y) (omega arith) w),
      )
  Filled-get m (a ∷ xs) (y ∷ ys) (suc j) x (w, h) e =
      let (z, found, w') = Filled-get (m + 1) xs ys j x h e in
      (z, found, subst (λ k. Wrote db.n (matrix_patch k) x z) (omega arith) w')

  pub Filled-length : (m : ℕ) (xs ys : List CoeffMatrix) → Filled m xs ys → length ys ≡ length xs
  unfolding Filled
  Filled-length m [] [] h = refl
  Filled-length m [] (y ∷ ys) h = absurd h
  Filled-length m (x ∷ xs) [] h = absurd h
  Filled-length m (x ∷ xs) (y ∷ ys) h = ap suc (Filled-length (m + 1) xs ys h.1)

  pub Filled-squares : (m : ℕ) (xs ys : List CoeffMatrix) → Filled m xs ys → All (IsSquare db.n) ys
  unfolding Filled
  Filled-squares m [] [] h = tt
  Filled-squares m [] (y ∷ ys) h = absurd h
  Filled-squares m (x ∷ xs) [] h = absurd h
  Filled-squares m (x ∷ xs) (y ∷ ys) h = (h.0.square, Filled-squares (m + 1) xs ys h.1)

  fill_chunk-Filled :
      (m : ℕ) (xs : List CoeffMatrix)
      → All (IsSquare db.n) xs
      → (ys : List CoeffMatrix) × (fill_chunk p db start payloads m xs ≡ ok ys) × Filled m xs ys
  unfolding fill_chunk Filled
  fill_chunk-Filled m [] sq = ([], refl, tt)
  fill_chunk-Filled m (x ∷ xs) sq =
      let (y, ran, w) = fill_matrix-Wrote m x sq.0 in
      let (ys, ran', h) = fill_chunk-Filled (m + 1) xs sq.1 in (y ∷ ys, rw (ran, ran'), (w, h))

  Filled-nil : (m k : ℕ) (xs ys : List CoeffMatrix) → xs ≡ [] → Filled m xs ys → Filled k xs ys
  unfolding Filled
  Filled-nil m k [] [] e h = tt
  Filled-nil m k [] (y ∷ ys) e h = absurd h
  Filled-nil m k (x ∷ xs) ys e h = cc e

  -- Where the next chunk starts.
  chunk_end :
      (per m : ℕ) (xs zs : List CoeffMatrix)
      → Filled (m + per) (drop per xs) zs
      → Filled (m + length (take per xs)) (drop per xs) zs
  chunk_end per m xs zs h = elim (dec_le per (length xs)) [
    | yes whole ↦ subst (λ k. Filled (m + k) (drop per xs) zs) (sym (length-take per xs whole)) h
    | no short ↦
        Filled-nil (m + per) (m + length (take per xs)) (drop per xs) zs
          (nil_of_length (drop per xs) (omega (arith, length-drop per xs))) h
  ]

  -- The workers' chunks together are the window.
  pub fill_chunks-Filled :
      (fuel per m : ℕ) (xs : List CoeffMatrix)
      → All (IsSquare db.n) xs
      → 0 < per
      → length xs ≤ fuel
      → (ys : List CoeffMatrix) × (fill_chunks p db start payloads per m (chunks fuel per xs)
          ≡ ok ys)
        × Filled m xs ys
  unfolding fill_chunks chunks
  fill_chunks-Filled zero per m [] sq pos le = ([], refl, unfold Filled in tt)
  fill_chunks-Filled zero per m (x ∷ xs) sq pos le = absurd (omega arith)
  fill_chunks-Filled (suc fuel) per m [] sq pos le = ([], refl, unfold Filled in tt)
  fill_chunks-Filled (suc fuel) per m (x ∷ xs) sq pos le =
      let all = x ∷ xs in
      let (ys, ran, h) = fill_chunk-Filled m (take per all) (All-take (IsSquare db.n) per all sq) in
      let (zs, ran', h') =
        fill_chunks-Filled fuel per (m + per) (drop per all) (All-drop (IsSquare db.n) per all sq)
          pos (omega (arith, length-drop per all)) in
      (
        ys ++ zs,
        rw (ran, ran'),
        subst (λ ws. Filled m ws (ys ++ zs)) (take-append-drop per all)
            (Filled-append m (take per all) ys (drop per all) zs h (chunk_end per m all zs h')),
      )
