-- ===== src/Packing/Pack/Whole.antt =====
-- The online packing is the sum, over all groups, of the products of their steps, whatever the chunks.
use poulpy_pir.Prelude.{
  ℕ, zero, suc, ◌+◌, ◌-◌, ◌*◌, ◌≤◌, ◌<◌, ◌≡◌, refl, ap, ◌∙◌, ◌⊎◌, inl, inr, true, false, List,
  Option, none, some, Bool, length, get_elem?-lt, le→leb, le-div_ceil-mul, div_ceil_least, div_ceil,
  arith,
}
use native.Mathlib.Decide.{dec_lt}
use poulpy_pir.Error.{Result, ok, panic, ◌>>=◌}
use poulpy_pir.Loop.{for_range, at}
use poulpy_pir.Loop.Suffix.{at-some}
use poulpy_pir.Packing.{Module}
use poulpy_pir.Packing.Precompute.{PackingPrecomputations, bsgs_group_count}
use poulpy_pir.Packing.Precompute.Groups
use poulpy_pir.Packing.Precompute.Groups.{IsScheduled, count_lem, group_lem, start_of, len_of}
use poulpy_pir.Packing.Pack.{DftModule, PackingKeys, finish, pack_default, pack_chunk}
use poulpy_pir.Packing.Pack.Products
use poulpy_pir.Packing.Pack.Products.Chunks.{sum_from, groups_from, chunks_lem}

-- One chunk less does not reach all groups.
fewer :
    (count size : ℕ)
    → 0 < size
    → (div_ceil count size ≡ 0) ⊎ ((0 + div_ceil count size - 1) * size < count)
fewer count size pos = elim (dec_lt 0 (div_ceil count size)) [
  | no without ↦ inl (omega arith)
  | yes more ↦ elim (dec_lt ((0 + div_ceil count size - 1) * size) count) [
    | yes below ↦ inr below
    | no above ↦
        absurd
          (omega (arith, div_ceil_least count size (0 + div_ceil count size - 1) pos (omega arith)))
  ]
]

module _ {m : Module} (d : DftModule m) (p : PackingPrecomputations m.Poly d.Dft d.Plan)
    (keys : PackingKeys d.Key) where
  open m use {Poly}
  open d use {
    Dft, Plan, Key, dft_zero, dft_add_assign, dft_apply, vmp_apply, dft_automorphism, idft_apply,
    big_normalize,
  }

  -- The packing without chunks and buffers, on the steps and groups of the schedule: each product is added
  -- where it is computed.
  module _ (s : IsScheduled p) where
    abbrev pub direct_product : (g i : ℕ) → Result Dft
    direct_product g i = do
      mask ← at p.bsgs_masks (start_of p s g + i)
      key ← at keys.baby_key_g_bodies i
      ok (vmp_apply mask key)

    abbrev pub direct_sum : (i count : ℕ) → (g : ℕ) → Dft → Result Dft
    direct_sum i zero g t = ok t
    direct_sum i (suc count) g t = do
      x ← direct_product g i
      direct_sum (i + 1) count g (dft_add_assign t x)

    abbrev pub direct_groups : (g count : ℕ) → Dft → Result Dft
    direct_groups g zero acc = ok acc
    direct_groups g (suc count) acc = do
      group_acc ← direct_sum 0 (len_of p s g) g dft_zero
      plan ← at p.bsgs_giant_plans g
      direct_groups (g + 1) count (dft_add_assign acc (dft_automorphism plan group_acc))

    -- A full packing adds the product of the mask after all steps with `key_h` to what it has.
    abbrev pub direct_last : (partial : Bool) → Option Key → Dft → Result Dft
    direct_last true key acc = ok acc
    direct_last false none acc = panic
    direct_last false (some key) acc = do
      mask ← at p.bsgs_masks (s.halves * s.half)
      ok (dft_add_assign acc (vmp_apply mask key))

    unfoldable pub direct_pack : Poly → Result (Poly × Poly)
    direct_pack body = do
      acc ← direct_groups 0 (s.halves * Groups.groups p s) (dft_apply body)
      acc' ← direct_last p.partial keys.key_h_body acc
      ok (big_normalize p.base2k p.base2k (idft_apply acc'), p.final_mask)

  -- A schedule with its masks, plans and keys; a full packing has a mask and a key for its last step too.
  pub record IsReady (s : IsScheduled p) : Type 0 where
    pub masks_len : s.halves * s.half ≤ length p.bsgs_masks
    pub plans_len : s.halves * Groups.groups p s ≤ length p.bsgs_giant_plans
    pub keys_len : p.bsgs_baby_size ≤ length keys.baby_key_g_bodies
    pub last :
        (p.partial ≡ true)
        ⊎ ((key : Key) × (keys.key_h_body ≡ some key)
            × (p.partial ≡ false)
            × (s.halves * s.half < length p.bsgs_masks))

  abbrev value : Result Dft → Dft
  value (Result.ok x) = x
  value (Result.err e) = dft_zero
  value Result.panic = dft_zero

  module _ (s : IsScheduled p) (ready : IsReady s) where
    abbrev moved : ℕ → Dft → Result Dft
    moved g t = do plan ← at p.bsgs_giant_plans g; ok (dft_automorphism plan t)

    mask_at :
        (g i : ℕ)
        → g < s.halves * Groups.groups p s
        → i < len_of p s g
        → (mask : Dft) × (key : Key) × (at p.bsgs_masks (start_of p s g + i) ≡ ok mask)
          × (at keys.baby_key_g_bodies i ≡ ok key)
    mask_at g i lt long =
        let (at_start, _, room) = group_lem p s g lt in
        let (mask, found) =
          get_elem?-lt p.bsgs_masks (start_of p s g + i) (omega (arith, room, ready.masks_len)) in
        let (key, found') = get_elem?-lt keys.baby_key_g_bodies i (omega (arith, ready.keys_len)) in
        (
          mask,
          key,
          at-some p.bsgs_masks (start_of p s g + i) mask found,
          at-some keys.baby_key_g_bodies i key found',
        )

    plan_at :
        (g : ℕ)
        → g < s.halves * Groups.groups p s
        → (plan : Plan) × (at p.bsgs_giant_plans g ≡ ok plan)
    plan_at g lt =
        let (plan, found) = get_elem?-lt p.bsgs_giant_plans g (omega (arith, ready.plans_len)) in
        (plan, at-some p.bsgs_giant_plans g plan found)

    -- The groups of the schedule.
    groups_of : Products.Groups d p keys
    groups_of = record {
      count = s.halves * Groups.groups p s;
      len_of = λ g. len_of p s g;
      product = λ g i. value (direct_product s g i);
      move = λ g t. value (moved g t);
      len_eq = λ g lt. (group_lem p s g lt).1;
      len_le = λ g. omega arith;
      product_eq = λ g i lt long.
          let (at_start, _, room) = group_lem p s g lt in
          let (mask, key, here, here') = mask_at g i lt long in
          (start_of p s g, mask, key, at_start, here, here', rw (here, here'));
      move_eq = λ g lt. let (plan, here) = plan_at g lt in (plan, here, λ t. rw here);
    }

    count_eq : bsgs_group_count p ≡ ok groups_of.count
    unfolding groups_of
    count_eq = count_lem p s

    direct_sum_lem :
        (count g i : ℕ) (t : Dft)
        → g < s.halves * Groups.groups p s
        → i + count ≡ len_of p s g
        → direct_sum s i count g t ≡ ok (sum_from d p keys groups_of g i count t)
    unfolding groups_of
    direct_sum_lem zero g i t lt e = refl
    direct_sum_lem (suc count) g i t lt e =
        let (mask, key, here, here') = mask_at g i lt (omega arith) in
        let next =
          direct_sum_lem count g (i + 1) (dft_add_assign t (vmp_apply mask key)) lt (omega arith) in
        rw (here, here') next

    direct_groups_lem :
        (count g : ℕ) (acc : Dft)
        → g + count ≤ s.halves * Groups.groups p s
        → direct_groups s g count acc ≡ ok (groups_from d p keys groups_of g count acc)
    unfolding groups_of
    direct_groups_lem zero g acc le = refl
    direct_groups_lem (suc count) g acc le =
        let lt : g < s.halves * Groups.groups p s = omega arith in
        let (plan, here) = plan_at g lt in
        let t : Dft = sum_from d p keys groups_of g 0 (len_of p s g) dft_zero in
        rw (direct_sum_lem (len_of p s g) g 0 dft_zero lt (omega arith)) (
          rw here (
            direct_groups_lem count (g + 1) (dft_add_assign acc (dft_automorphism plan t))
              (omega arith)))

    -- The last step of a full packing.
    last_lem :
        (acc : Dft)
        → (acc' : Dft) × (finish d p keys p.partial acc ≡ ok acc')
          × (direct_last s p.partial keys.key_h_body acc ≡ ok acc')
    last_lem acc = elim ready.last [
      | inl one ↦ (
        acc,
        ap (λ b. finish d p keys b acc) one,
        ap (λ b. direct_last s b keys.key_h_body acc) one,
      )
      | inr (key, at_key, full, room) ↦
          let (mask, found) = get_elem?-lt p.bsgs_masks (s.halves * s.half) room in
          let here = at-some p.bsgs_masks (s.halves * s.half) mask found in
          (
            dft_add_assign acc (vmp_apply mask key),
            ap (λ b. finish d p keys b acc) full ∙ rw (s.kg_eq) (rw at_key (rw here)),
            ap (λ b. direct_last s b keys.key_h_body acc) full ∙ rw at_key (rw here),
          )
    ]

    -- For precomputations whose halves have as many steps, with a mask for each step, a giant plan for each
    -- group and a baby key for each baby step, and for a full packing a mask more and `key_h`; for a chunk
    -- of one group at least, and a scratch buffer for each step of a chunk, whatever it holds: the online
    -- packing returns the body that adds to the given one each product of a mask with its baby key
    -- directly, group by group, each group's sum moved by its giant step, and the product of the last mask
    -- with `key_h` for a full packing; and the precomputed mask. So it depends neither on the size of the
    -- chunks nor on what the buffers held.
    pub pack_default_lem :
        (chunk_size : ℕ) (buffers : List Dft) (body : Poly)
        → 1 ≤ chunk_size
        → length buffers ≡ chunk_size * p.bsgs_baby_size
        → (out : Poly × Poly) × (direct_pack s body ≡ ok out)
          × (pack_default d p keys chunk_size buffers body ≡ ok out)
    unfolding pack_default direct_pack groups_of
    pack_default_lem chunk_size buffers body some_size size =
        let count : ℕ = groups_of.count in
        let chunks : ℕ = div_ceil count chunk_size in
        let total : Dft = groups_from d p keys groups_of 0 count (dft_apply body) in
        let whole : count ≤ (0 + chunks) * chunk_size =
          omega (arith, le-div_ceil-mul count chunk_size some_size) in
        let (after, run) =
          chunks_lem d p keys groups_of chunk_size chunks 0 buffers (dft_apply body) whole
            (fewer count chunk_size some_size) size in
        let same : groups_from d p keys groups_of (0 * chunk_size) (count - 0 * chunk_size)
              (dft_apply body)
            ≡ total =
          let first : 0 * chunk_size ≡ 0 = omega arith in
          let all : count - 0 * chunk_size ≡ count = omega arith in rw (all, first) in
        let run_all : for_range chunks 0 (pack_chunk d p keys chunk_size count)
              (buffers, dft_apply body)
            ≡ ok (after, total) =
          run ∙ ap (λ x. ok (after, x)) same in
        let (acc', run', run'') = last_lem total in
        (
          (big_normalize p.base2k p.base2k (idft_apply acc'), p.final_mask),
          rw (direct_groups_lem count 0 (dft_apply body) (omega arith)) (rw run''),
          rw (le→leb 1 chunk_size some_size, count_eq) (rw run_all (rw run')),
        )
