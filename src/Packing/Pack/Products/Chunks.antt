-- ===== src/Packing/Pack/Products/Chunks.antt =====
-- One chunk after another adds up all groups.
use poulpy_pir.Prelude.{
  ℕ, zero, suc, ◌+◌, ◌-◌, ◌*◌, ◌≤◌, ◌<◌, ◌≡◌, refl, sym, ap, ◌∙◌, ◌⊎◌, inl, inr, min, List, some,
  length, get_elem?, mul_mono, arith,
}
use native.Mathlib.Decide.{dec_lt, ℕ_discrete}
use mathlib.Core.Path.{subst}
use poulpy_pir.Error.{ok, ◌>>=◌}
use poulpy_pir.Loop.{for_range, at}
use poulpy_pir.Loop.Suffix.{at-some}
use poulpy_pir.Packing.{Module}
use poulpy_pir.Packing.Precompute.{PackingPrecomputations}
use poulpy_pir.Packing.Pack.{
  DftModule, PackingKeys, baby_product, chunk_products, add_group, pack_chunk,
}
use poulpy_pir.Packing.Pack.Products.{Groups, slot, step_products}

-- A chunk ends where the next begins, or is the last.
reached :
    (start next count : ℕ)
    → start ≤ count
    → start ≤ next
    → let len = min next count - start in
      (start + len ≡ next) ⊎ ((count ≤ next) × (start + len ≡ count))
reached start next count below le = elim (dec_lt next count) [
  | yes more ↦ inl (omega arith)
  | no done ↦ inr (omega arith, omega arith)
]

module _ {m : Module} (d : DftModule m) (p : PackingPrecomputations m.Poly d.Dft d.Plan)
    (keys : PackingKeys d.Key) (groups : Groups d p keys) where
  open d use {Dft, dft_zero, dft_add_assign}
  open groups use {count, len_of, product, move}

  baby : ℕ
  baby = p.bsgs_baby_size

  -- The sum of `n` products of a group, from the `i`-th on.
  abbrev pub sum_from : (g i n : ℕ) → Dft → Dft
  sum_from g i zero s = s
  sum_from g i (suc n) s = sum_from g (i + 1) n (dft_add_assign s (product g i))

  -- The sums of `n` groups, from the group `g` on, each moved by its giant step.
  abbrev pub groups_from : (g n : ℕ) → Dft → Dft
  groups_from g zero acc = acc
  groups_from g (suc n) acc =
      groups_from (g + 1) n (dft_add_assign acc (move g (sum_from g 0 (len_of g) dft_zero)))

  pub groups_from-add :
      (a b g : ℕ) (acc : Dft)
      → groups_from g (a + b) acc ≡ groups_from (g + a) b (groups_from g a acc)
  groups_from-add zero b g acc =
      let e : zero + b ≡ b = omega arith in let e' : g + zero ≡ g = omega arith in rw (e, e')
  groups_from-add (suc a) b g acc =
      let e : suc a + b ≡ suc (a + b) = omega arith in
      let next : Dft = dft_add_assign acc (move g (sum_from g 0 (len_of g) dft_zero)) in
      rw e (
        groups_from-add a b (g + 1) next
        ∙ ap (λ (h : ℕ). groups_from h b (groups_from (g + 1) a next)) (omega arith))

  module _ (cs len : ℕ) (below : cs + len ≤ count) where
    -- The buffers hold the products of the steps below `b`.
    abbrev Hold : ℕ → List Dft → Type 0
    Hold b buffers =
        (g i : ℕ)
        → cs ≤ g
        → g < cs + len
        → i < b
        → i < len_of g
        → get_elem? buffers (slot d p keys groups cs g i) ≡ some (product g i)

    products_lem :
        (left b : ℕ) (buffers : List Dft)
        → b + left ≡ p.bsgs_baby_size
        → len * p.bsgs_baby_size ≤ length buffers
        → Hold b buffers
        → (after : List Dft) × (for_range left b
              (λ baby_idx buffers. for_range len cs (baby_product d p keys cs baby_idx) buffers)
              buffers
            ≡ ok after)
          × (length after ≡ length buffers)
          × Hold p.bsgs_baby_size after
    unfolding for_range
    products_lem zero b buffers e room held =
        let e' : b ≡ p.bsgs_baby_size = omega arith in
        (buffers, refl, refl, λ g i ge lt lt' long. held g i ge lt (omega arith) long)
    products_lem (suc left) b buffers e room held =
        let same : cs + len - cs ≡ len = omega arith in
        let (next, run, all) =
          step_products d p keys groups cs b len cs buffers (omega arith) (omega arith) below
            (rw same room) in
        let (after, run', size, held') =
          products_lem left (b + 1) next (omega arith) (rw (all.size) room) (λ g i ge lt lt' long.
            elim (ℕ_discrete i b) [
              | yes e' ↦ rw e' (all.stored g ge lt (omega (arith, e', long)))
              | no ne ↦
                  all.kept g i ge (omega (arith, groups.len_le g)) (inl ne)
                  ∙ held g i ge lt (omega arith) long
            ]) in
        (after, rw run run', size ∙ all.size, held')

    chunk_products_lem :
        (buffers : List Dft)
        → len * p.bsgs_baby_size ≤ length buffers
        → (after : List Dft) × (chunk_products d p keys cs len buffers ≡ ok after)
          × (length after ≡ length buffers)
          × Hold p.bsgs_baby_size after
    chunk_products_lem buffers room =
        products_lem p.bsgs_baby_size 0 buffers (omega arith) room
          (λ g i ge lt lt' long. absurd (omega arith))

    group_sum :
        (buffers : List Dft)
        → Hold p.bsgs_baby_size buffers
        → (g n i : ℕ) (s : Dft) → cs ≤ g
        → g < cs + len
        → i + n ≡ len_of g
        → for_range n i
            (λ baby_idx s. do
              product ← at buffers ((g - cs) * p.bsgs_baby_size + baby_idx)
              ok (dft_add_assign s product))
            s
          ≡ ok (sum_from g i n s)
    unfolding for_range
    group_sum buffers held g zero i s ge lt e = refl
    group_sum buffers held g (suc n) i s ge lt e =
        rw
          (at-some buffers ((g - cs) * p.bsgs_baby_size + i) (product g i)
            (held g i ge lt (omega (arith, groups.len_le g)) (omega arith)))
          (group_sum buffers held g n (i + 1) (dft_add_assign s (product g i)) ge lt (omega arith))

    add_groups :
        (buffers : List Dft)
        → Hold p.bsgs_baby_size buffers
        → (n g : ℕ) (acc : Dft) → cs ≤ g
        → g + n ≤ cs + len
        → for_range n g (add_group d p keys buffers cs) acc ≡ ok (groups_from g n acc)
    unfolding for_range
    add_groups buffers held zero g acc ge le = refl
    add_groups buffers held (suc n) g acc ge le =
        let (plan, at_plan, same) = groups.move_eq g (omega arith) in
        let total : Dft = sum_from g 0 (len_of g) dft_zero in
        rw (groups.len_eq g (omega arith)) (
          rw (group_sum buffers held g (len_of g) 0 dft_zero ge (omega arith) (omega arith)) (
            rw (at_plan, same total)
              (add_groups buffers held n (g + 1) (dft_add_assign acc (move g total)) (omega arith)
                (omega arith))))

  pack_chunk_lem :
      (chunk_size chunk_idx : ℕ) (buffers : List Dft) (acc : Dft)
      → chunk_idx * chunk_size ≤ count
      → length buffers ≡ chunk_size * p.bsgs_baby_size
      → let len = min ((chunk_idx + 1) * chunk_size) count - chunk_idx * chunk_size in
        (after : List Dft) × (pack_chunk d p keys chunk_size count chunk_idx (buffers, acc)
          ≡ ok (after, groups_from (chunk_idx * chunk_size) len acc))
        × (length after ≡ length buffers)
  pack_chunk_lem chunk_size chunk_idx buffers acc below size =
      let cs : ℕ = chunk_idx * chunk_size in
      let len : ℕ = min ((chunk_idx + 1) * chunk_size) count - cs in
      let within : cs + len ≤ count = omega arith in
      let few : len ≤ chunk_size = omega arith in
      let (after, run, size', held) =
        chunk_products_lem cs len within buffers
          (omega (arith, size, mul_mono len chunk_size p.bsgs_baby_size few)) in
      (
        after,
        rw run (rw (add_groups cs len within after held len cs acc (omega arith) (omega arith))),
        size',
      )

  -- The groups after a chunk, which are none after the last.
  onward :
      (start len next : ℕ) (acc : Dft)
      → start + len ≤ count
      → (start + len ≡ next) ⊎ ((count ≤ next) × (start + len ≡ count))
      → groups_from next (count - next) (groups_from start len acc)
        ≡ groups_from start (count - start) acc
  onward start len next acc le (inl e) =
      let e' : count - start ≡ len + (count - next) = omega arith in
      rw e' (
        sym (
          groups_from-add len (count - next) start acc
          ∙ ap (λ (h : ℕ). groups_from h (count - next) (groups_from start len acc)) e))
  onward start len next acc le (inr (past, e)) =
      let none : count - next ≡ 0 = omega arith in
      let whole : count - start ≡ len = omega arith in rw (none, whole)

  -- All chunks, from the `c`-th on.
  pub chunks_lem :
      (chunk_size left c : ℕ) (buffers : List Dft) (acc : Dft)
      → count ≤ (c + left) * chunk_size
      → (left ≡ 0) ⊎ ((c + left - 1) * chunk_size < count)
      → length buffers ≡ chunk_size * p.bsgs_baby_size
      → (after : List Dft) × (for_range left c (pack_chunk d p keys chunk_size count) (buffers, acc)
          ≡ ok (after, groups_from (c * chunk_size) (count - c * chunk_size) acc))
  unfolding for_range
  chunks_lem chunk_size zero c buffers acc whole last size =
      let reach : count ≤ c * chunk_size =
        subst (λ (x : ℕ). count ≤ x * chunk_size) (omega arith) whole in
      let none : count - c * chunk_size ≡ 0 = omega arith in (buffers, rw none)
  chunks_lem chunk_size (suc left) c buffers acc whole (inl none) size = absurd (omega arith)
  chunks_lem chunk_size (suc left) c buffers acc whole (inr last) size =
      let start : ℕ = c * chunk_size in
      let next : ℕ = (c + 1) * chunk_size in
      let below : start ≤ count =
        omega (arith, last, mul_mono c (c + suc left - 1) chunk_size (omega arith)) in
      let len : ℕ = min next count - start in
      let (after, run, size') = pack_chunk_lem chunk_size c buffers acc below size in
      let (after', run') =
        chunks_lem chunk_size left (c + 1) after (groups_from start len acc)
          (subst (λ (x : ℕ). count ≤ x * chunk_size) (omega arith) whole)
          (elim (ℕ_discrete left 0) [
            | yes e ↦ inl e
            | no ne ↦ inr (subst (λ (x : ℕ). x * chunk_size < count) (omega arith) last)
          ])
          (size' ∙ size) in
      let step : start + chunk_size ≡ next = omega arith in
      (
        after',
        rw run (
            run'
            ∙ ap (λ x. ok (after', x))
                (onward start len next acc (omega arith)
                  (reached start next count below (omega arith)))),
      )
