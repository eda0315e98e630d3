-- ===== src/Packing/Mask/Threads.antt =====
-- The preprocessing on several threads returns what it returns on one.
use poulpy_pir.Prelude.{
  ℕ, zero, suc, ◌+◌, ◌*◌, ◌/◌, ◌%◌, ◌^◌, ◌≤◌, ◌<◌, ◌≡◌, refl, sym, ap, ◌∙◌, max, true, false, List,
  [], ◌∷◌, set, length, replicate, length-replicate, arith,
}
use poulpy_pir.Error.{Result, ok, ◌>>=◌}
use poulpy_pir.Loop.{for_range, at}
use poulpy_pir.Loop.Suffix.{at-some}
use poulpy_pir.Parallel.{clamp_from_one, group_len, ranges}
use poulpy_pir.Parallel.Dealt.{dealt, dealt_whole}
use poulpy_pir.Packing.{Module, IsAdditive, trailing_zeros, is_power_of_two}
use poulpy_pir.Packing.Tree.{Tree}
use poulpy_pir.Packing.Mask.Leaves.{IsRoomy}
use poulpy_pir.Packing.Mask.{
  fresh, worker, workers, collect, packing_mask_preprocessing_work,
  packing_mask_preprocessing_work_threaded,
}
use poulpy_pir.Packing.Mask.Pairs.{AreApart, write_pairs, write_pairs_left, write_pairs_right}
use poulpy_pir.Packing.Mask.Columns.{
  first_column, second_column, rounds, input, length-input, power_of_two, even_of_power,
}

write_pairs-add {ℓ} :
    {A : Type ℓ} (ca cb : ℕ → ℕ) (a b : ℕ → A) (k l i : ℕ) (dst : List A)
    → write_pairs ca cb a b (k + l) i dst
      ≡ write_pairs ca cb a b l (i + k) (write_pairs ca cb a b k i dst)
write_pairs-add ca cb a b zero l i dst =
    let e : zero + l ≡ l = omega arith in let e' : i + zero ≡ i = omega arith in rw (e, e')
write_pairs-add ca cb a b (suc k) l i dst =
    let next = set (set dst (ca i) (a i)) (cb i) (b i) in
    let e : suc k + l ≡ suc (k + l) = omega arith in
    let e' : i + 1 + k ≡ i + suc k = omega arith in
    rw e (
      write_pairs-add ca cb a b k l (i + 1) next
      ∙ ap (λ (p : ℕ). write_pairs ca cb a b l p (write_pairs ca cb a b k (i + 1) next)) e')

locals-AreApart : (total : ℕ) → AreApart total (λ j. 2 * j) (λ j. 2 * j + 1)
locals-AreApart total = record {
  left = λ i j ne e. ne (omega arith);
  right = λ i j ne e. ne (omega arith);
  across = λ i j lt lt' e. absurd (omega arith);
}

module _ (m : Module) (laws : IsAdditive m) (t : List m.Poly) (log_n half : ℕ)
    (whole : m.n ≡ 2 ^ log_n) (len_t : length t ≡ m.n) where
  open m use {Poly, n, zero_poly}

  abbrev firsts : ℕ → Poly
  firsts = first_column m laws t log_n half whole len_t

  abbrev seconds : ℕ → Poly
  seconds = second_column m laws t log_n half whole len_t

  -- A worker that has done its range holds its columns in pairs.
  abbrev HasDone : (start len : ℕ) → List Poly → Type 0
  HasDone start len local =
      (jj : ℕ)
      → jj < len
      → (at local (2 * jj) ≡ ok (firsts (start + jj)))
        × (at local (2 * jj + 1) ≡ ok (seconds (start + jj)))

  blank_tree : Tree Poly
  blank_tree = record { levels = replicate log_n zero_poly; occupied = replicate log_n false }

  blank_tree-IsRoomy : IsRoomy m laws log_n blank_tree
  unfolding blank_tree
  blank_tree-IsRoomy = record {
    room = omega (arith, length-replicate log_n zero_poly);
    height = length-replicate log_n false;
  }

  worker_lem :
      (start len : ℕ)
      → start + len ≤ half
      → (local : List Poly) × (worker m t log_n half start len ≡ ok local) × HasDone start len local
  unfolding blank_tree
  worker_lem start len le =
      let columns : ℕ = 2 * max len 1 in
      let blank : List Poly = replicate columns zero_poly in
      let trees : List Poly = replicate log_n zero_poly in
      let size : length blank ≡ columns = length-replicate columns zero_poly in
      let (w, run, same) =
        rounds m laws t log_n half whole len_t (λ jj. start + jj) (λ jj. 2 * jj) (λ jj. 2 * jj + 1)
          len 0 (fresh m log_n trees trees blank) (λ j ge lt. omega arith) blank_tree-IsRoomy
          blank_tree-IsRoomy in
      (
        w.dst,
        rw run,
        λ jj lt. (
          at-some w.dst (2 * jj) (firsts (start + jj)) (
              rw same (
                write_pairs_left (λ j. 2 * j) (λ j. 2 * j + 1) (λ j. firsts (start + j))
                  (λ j. seconds (start + j)) len (locals-AreApart len) len 0 jj blank (omega arith)
                  (omega arith) (omega arith) (omega (arith, size)))),
          at-some w.dst (2 * jj + 1) (seconds (start + jj)) (
              rw same (
                write_pairs_right (λ j. 2 * j) (λ j. 2 * j + 1) (λ j. firsts (start + j))
                  (λ j. seconds (start + j)) len (locals-AreApart len) len 0 jj blank (omega arith)
                  (omega arith) (omega arith) (omega (arith, size)))),
        ),
      )

  -- The rounds of one thread, from `i` on.
  abbrev written : (count i : ℕ) → List Poly → List Poly
  written = write_pairs (λ j. j) (λ j. j + half) firsts seconds

  abbrev collect_round : List Poly → (start jj : ℕ) → List Poly → Result (List Poly)
  collect_round local start jj dst = do
    a ← at local (2 * jj)
    b ← at local (2 * jj + 1)
    ok (set (set dst (start + jj) a) (start + jj + half) b)

  collect_rounds :
      (start len : ℕ) (local : List Poly)
      → HasDone start len local
      → (count i : ℕ) (dst : List Poly) → i + count ≡ len
      → for_range count i (collect_round local start) dst ≡ ok (written count (start + i) dst)
  unfolding for_range
  collect_rounds start len local done zero i dst e = refl
  collect_rounds start len local done (suc count) i dst e =
      let (a, b) = done i (omega arith) in
      let next : List Poly =
        set (set dst (start + i) (firsts (start + i))) (start + i + half) (seconds (start + i)) in
      let e' : start + (i + 1) ≡ start + i + 1 = omega arith in
      rw (a, b)
        (collect_rounds start len local done count (i + 1) next (omega arith)
          ∙ ap (λ (p : ℕ). ok (written count p next)) e')

  gathered :
      (base rem left i start : ℕ)
      → start + dealt base rem left i ≤ half
      → (locals : List (ℕ × ℕ × List Poly)) × (workers m t log_n half (ranges base rem left i start)
          ≡ ok locals)
        × ((dst : List Poly)
            → collect m half locals dst ≡ ok (written (dealt base rem left i) start dst))
  unfolding dealt for_range
  gathered base rem zero i start le = ([], refl, λ dst. refl)
  gathered base rem (suc left) i start le =
      let len : ℕ = group_len base rem i in
      let (local, run, done) = worker_lem start len (omega arith) in
      let (locals, run', rest) = gathered base rem left (i + 1) (start + len) (omega arith) in
      (
        (start, len, local) ∷ locals,
        rw (run, run'),
        λ dst.
            let e : start + 0 ≡ start = omega arith in
            let more : ℕ = dealt base rem left (i + 1) in
            rw (collect_rounds start len local done len 0 dst (omega arith), e)
              (rest (written len start dst)
                ∙ ap ok (
                    sym (
                      write_pairs-add (λ j. j) (λ j. j + half) firsts seconds len more start dst))),
      )

module _ (m : Module) (laws : IsAdditive m) where
  open m use {Poly, n}

  -- For a ring degree that is a power of two, at least 2, and for scratch trees with a column for each
  -- level, any number of threads returns what one thread returns, whatever the destination and the input
  -- hold and however many columns they have.
  pub work_threaded-eq-work :
      (base2k intra_threads : ℕ) (a tree_a tree_b dst : List Poly)
      → is_power_of_two n ≡ true
      → 2 ≤ n
      → trailing_zeros n ≤ length tree_a
      → trailing_zeros n ≤ length tree_b
      → packing_mask_preprocessing_work_threaded m base2k intra_threads a dst
        ≡ packing_mask_preprocessing_work m base2k a tree_a tree_b dst
  unfolding packing_mask_preprocessing_work packing_mask_preprocessing_work_threaded
  work_threaded-eq-work base2k intra_threads a tree_a tree_b dst pow two room_a room_b =
      let log_n : ℕ = trailing_zeros n in
      let half : ℕ = n / 2 in
      let t : List Poly = input m laws base2k a in
      let whole : n ≡ 2 ^ log_n = power_of_two n pow in
      let len : length t ≡ n = length-input m laws base2k a in
      let even : half * 2 ≡ n = even_of_power n log_n whole two in
      let nt : ℕ = clamp_from_one intra_threads half in
      let (w, run, same) =
        rounds m laws t log_n half whole len (λ j. j) (λ j. j) (λ j. j + half) half 0
          (fresh m log_n tree_a tree_b dst) (λ j ge lt. omega arith)
          (record { room = room_a; height = length-replicate log_n false })
          (record { room = room_b; height = length-replicate log_n false }) in
      let share : dealt (half / nt) (half % nt) nt 0 ≡ half =
        dealt_whole intra_threads half (omega arith) in
      let (locals, run', all) =
        gathered m laws t log_n half whole len (half / nt) (half % nt) nt 0 0 (omega arith) in
      rw (run', all dst, share, run, same)
