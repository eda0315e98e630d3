-- ===== src/Packing/Partial/Columns.antt =====
-- Every component of a partial packing, on one thread and on several.
pub mod Whole
use poulpy_pir.Prelude.{
  ℕ, zero, suc, ◌+◌, ◌*◌, ◌/◌, ◌%◌, ◌≤◌, ◌<◌, ◌≡◌, ◌≢◌, refl, sym, ap, ◌∙◌, max, ℤ, List, [], ◌∷◌,
  set, some, map, length, replicate, length-replicate, length-map, length-set, get_elem?,
  get_elem?-set_self, get_elem?-set_ne, get_elem?-map, eq→==, arith,
}
use native.Mathlib.Decide.{ℕ_discrete}
use poulpy_pir.Error.{Result, ok, ◌>>=◌}
use poulpy_pir.Loop.{for_range, at}
use poulpy_pir.Loop.Suffix.{at-some}
use poulpy_pir.Parallel.{clamp_from_one, group_len, ranges}
use poulpy_pir.Parallel.Dealt.{dealt, dealt_whole}
use poulpy_pir.Packing.{Module, IsAdditive, trailing_zeros}
use poulpy_pir.Packing.Mask.{range, shifted}
use poulpy_pir.Packing.Mask.Columns.{get_elem?-range}
use poulpy_pir.Packing.Partial.{
  add_term, process_h_partial, strided_h_list, partial_worker, partial_workers, merge,
  packing_mask_preprocessing_partial_work, packing_mask_preprocessing_partial_work_threaded,
}
use poulpy_pir.Packing.Partial.Terms.{component, whole_column, process_h_partial_lem}

module _ {ℓ} {A : Type ℓ} (f : ℕ → A) where
  -- Round `j` writes `f j` at `j`.
  abbrev pub write_run : (count i : ℕ) → List A → List A
  write_run zero i dst = dst
  write_run (suc count) i dst = write_run count (i + 1) (set dst i (f i))

  pub length-write_run : (count i : ℕ) (dst : List A) → length (write_run count i dst) ≡ length dst
  length-write_run zero i dst = refl
  length-write_run (suc count) i dst =
      length-write_run count (i + 1) (set dst i (f i)) ∙ length-set dst i (f i)

  write_run_before :
      (count i j : ℕ) (dst : List A) → j < i → get_elem? (write_run count i dst) j ≡ get_elem? dst j
  write_run_before zero i j dst lt = refl
  write_run_before (suc count) i j dst lt =
      write_run_before count (i + 1) j (set dst i (f i)) (omega arith)
      ∙ get_elem?-set_ne dst i j (f i) (λ e. absurd (omega arith))

  pub write_run_inside :
      (count i j : ℕ) (dst : List A)
      → i ≤ j
      → j < i + count
      → j < length dst
      → get_elem? (write_run count i dst) j ≡ some (f j)
  write_run_inside zero i j dst ge lt room = absurd (omega arith)
  write_run_inside (suc count) i j dst ge lt room = elim (ℕ_discrete i j) [
    | yes e ↦
        write_run_before count (i + 1) j (set dst i (f i)) (omega arith)
        ∙ rw e (get_elem?-set_self dst j (f j) room)
    | no ne ↦
        write_run_inside count (i + 1) j (set dst i (f i)) (omega arith) (omega arith)
          (omega (arith, length-set dst i (f i), room))
  ]

  pub write_run-add :
      (k l i : ℕ) (dst : List A) → write_run (k + l) i dst ≡ write_run l (i + k) (write_run k i dst)
  write_run-add zero l i dst =
      let e : zero + l ≡ l = omega arith in let e' : i + zero ≡ i = omega arith in rw (e, e')
  write_run-add (suc k) l i dst =
      let e : suc k + l ≡ suc (k + l) = omega arith in
      let e' : i + 1 + k ≡ i + suc k = omega arith in
      rw e (
        write_run-add k l (i + 1) (set dst i (f i))
        ∙ ap (λ (p : ℕ). write_run l p (write_run k (i + 1) (set dst i (f i)))) e')

pub get_elem?-replicate {ℓ} :
    {A : Type ℓ} (k j : ℕ) (x : A) → j < k → get_elem? (replicate k x) j ≡ some x
get_elem?-replicate zero j x lt = absurd (omega arith)
get_elem?-replicate (suc k) zero x lt = refl
get_elem?-replicate (suc k) (suc j) x lt = get_elem?-replicate k j x (omega arith)

-- The Galois element of the `j`-th component.
abbrev pub element : Module → (gamma j : ℕ) → ℤ
element m gamma j = m.galois_element (m.n / 2 / gamma * j)

module _ (m : Module) (gamma : ℕ) (t : List m.Poly) (len_t : length t ≡ gamma) where
  open m use {Poly, n, zero_poly}

  abbrev pub components : ℕ → Poly
  components j = component m (element m gamma j) t

  at-strided_h_list : (j : ℕ) → j < gamma → at (strided_h_list m gamma) j ≡ ok (element m gamma j)
  at-strided_h_list j lt = at-some (strided_h_list m gamma) j (element m gamma j) (
      get_elem?-map (element m gamma) (range 0 gamma) j (0 + j) (get_elem?-range 0 gamma j lt)
      ∙ ap some (ap (element m gamma) (omega arith)))

  -- The rounds of one thread, on columns that are zero.
  pub sequential_rounds :
      (count i : ℕ) (dst : List Poly)
      → i + count ≡ gamma
      → length dst ≡ gamma
      → ((j : ℕ) → i ≤ j → j < gamma → get_elem? dst j ≡ some zero_poly)
      → for_range count i
          (λ j dst. do h ← at (strided_h_list m gamma) j; for_range gamma 0 (add_term m t h j) dst)
          dst
        ≡ ok (write_run components count i dst)
  unfolding for_range
  sequential_rounds zero i dst e len zeros = refl
  sequential_rounds (suc count) i dst e len zeros =
      let lt : i < gamma = omega arith in
      let whole : for_range gamma 0 (add_term m t (element m gamma i) i) dst
          ≡ ok (set dst i (components i)) =
        whole_column m t (element m gamma i) gamma i dst len_t (zeros i (omega arith) lt)
          (omega arith) in
      rw (at-strided_h_list i lt, whole)
        (sequential_rounds count (i + 1) (set dst i (components i)) (omega arith)
          (length-set dst i (components i) ∙ len)
          (λ j ge lt'.
            get_elem?-set_ne dst i j (components i) (λ e'. absurd (omega arith))
            ∙ zeros j (omega arith) lt'))

  -- A worker's rounds.
  worker_rounds :
      (start count i : ℕ) (dst : List Poly)
      → start + i + count ≤ gamma
      → i + count ≤ length dst
      → for_range count i
          (λ jj dst. do
            h ← at (strided_h_list m gamma) (start + jj)
            process_h_partial m t h gamma dst jj)
          dst
        ≡ ok (write_run (λ jj. components (start + jj)) count i dst)
  unfolding for_range
  worker_rounds start zero i dst le room = refl
  worker_rounds start (suc count) i dst le room =
      let here : start + i < gamma = omega arith in
      let next : List Poly = set dst i (components (start + i)) in
      rw
        (
          at-strided_h_list (start + i) here,
          process_h_partial_lem m t (element m gamma (start + i)) gamma i dst len_t (omega arith),
        )
        (worker_rounds start count (i + 1) next (omega arith)
          (omega (arith, length-set dst i (components (start + i)), room)))

  HasDone : (start len : ℕ) → List Poly → Type 0
  HasDone start len local = (jj : ℕ) → jj < len → at local jj ≡ ok (components (start + jj))

  partial_worker_lem :
      (start len : ℕ)
      → start + len ≤ gamma
      → (local : List Poly) × (partial_worker m t gamma start len ≡ ok local)
        × HasDone start len local
  unfolding HasDone
  partial_worker_lem start len le =
      let blank : List Poly = replicate (max len 1) zero_poly in
      let size : length blank ≡ max len 1 = length-replicate (max len 1) zero_poly in
      let mine : ℕ → Poly = λ jj. components (start + jj) in
      (
        write_run mine len 0 blank,
        worker_rounds start len 0 blank (omega arith) (omega (arith, size)),
        λ jj lt. at-some (write_run mine len 0 blank) jj (mine jj) (
            write_run_inside mine len 0 jj blank (omega arith) (omega arith) (omega (arith, size))),
      )

  merge_rounds :
      (start len : ℕ) (local : List Poly)
      → HasDone start len local
      → (count i : ℕ) (dst : List Poly) → i + count ≡ len
      → for_range count i (λ jj dst. do a ← at local jj; ok (set dst (start + jj) a)) dst
        ≡ ok (write_run components count (start + i) dst)
  unfolding for_range HasDone
  merge_rounds start len local done zero i dst e = refl
  merge_rounds start len local done (suc count) i dst e =
      let next : List Poly = set dst (start + i) (components (start + i)) in
      let e' : start + (i + 1) ≡ start + i + 1 = omega arith in
      rw (done i (omega arith)) (
        merge_rounds start len local done count (i + 1) next (omega arith)
        ∙ ap (λ (p : ℕ). ok (write_run components count p next)) e')

  pub gathered :
      (base rem left i start : ℕ)
      → start + dealt base rem left i ≤ gamma
      → (locals : List (ℕ × ℕ × List Poly)) × (partial_workers m t gamma
            (ranges base rem left i start)
          ≡ ok locals)
        × ((dst : List Poly)
            → merge m locals dst ≡ ok (write_run components (dealt base rem left i) start dst))
  unfolding dealt for_range
  gathered base rem zero i start le = ([], refl, λ dst. refl)
  gathered base rem (suc left) i start le =
      let len : ℕ = group_len base rem i in
      let (local, run, done) = partial_worker_lem start len (omega arith) in
      let (locals, run', rest) = gathered base rem left (i + 1) (start + len) (omega arith) in
      (
        (start, len, local) ∷ locals,
        rw (run, run'),
        λ dst.
            let e : start + 0 ≡ start = omega arith in
            rw (merge_rounds start len local done len 0 dst (omega arith), e)
              (rest (write_run components len start dst)
                ∙ ap ok
                    (sym (write_run-add components len (dealt base rem left (i + 1)) start dst))),
      )
