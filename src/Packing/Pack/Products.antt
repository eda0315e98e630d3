-- ===== src/Packing/Pack/Products.antt =====
-- The products of a chunk, in the buffers, and their sums.
pub mod Chunks
use poulpy_pir.Prelude.{
  ℕ, zero, suc, ◌+◌, ◌-◌, ◌*◌, ◌/◌, ◌%◌, ◌≤◌, ◌<◌, ◌≡◌, ◌≢◌, refl, sym, ap, ◌∙◌, ◌⊎◌, inl, inr, leb,
  List, set, some, length, length-set, get_elem?, get_elem?-set_self, get_elem?-set_ne, lt→ltb,
  le→leb, lt→leb, div_of_parts, mod_of_parts, mul_mono, arith,
}
use native.Mathlib.Decide.{dec_lt, ℕ_discrete}
use poulpy_pir.Error.{Result, ok, ◌>>=◌}
use poulpy_pir.Loop.{for_range, at}
use poulpy_pir.Loop.Suffix.{at-some}
use poulpy_pir.Packing.{Module}
use poulpy_pir.Packing.Precompute.{PackingPrecomputations, bsgs_group_len, bsgs_group_start_step}
use poulpy_pir.Packing.Pack.{DftModule, PackingKeys, baby_product, chunk_products, add_group}

-- Different groups or steps have different buffers.
same_parts : (a i a' i' b : ℕ) → i < b → i' < b → a * b + i ≡ a' * b + i' → (a ≡ a') × (i ≡ i')
same_parts a i a' i' b lt lt' e = (
  sym (div_of_parts a i b lt) ∙ ap (λ (x : ℕ). x / b) e ∙ div_of_parts a' i' b lt',
  sym (mod_of_parts a i b lt) ∙ ap (λ (x : ℕ). x % b) e ∙ mod_of_parts a' i' b lt',
)

-- What the groups of a packing are: their lengths, the products of their steps and their giant steps.
pub record Groups {m : Module} (d : DftModule m) (p : PackingPrecomputations m.Poly d.Dft d.Plan)
    (keys : PackingKeys d.Key) : Type 0 where
  pub count : ℕ
  pub len_of : ℕ → ℕ
  pub product : (g i : ℕ) → d.Dft
  pub move : ℕ → d.Dft → d.Dft
  pub len_eq : (g : ℕ) → g < count → bsgs_group_len p g ≡ ok (len_of g)
  pub len_le : (g : ℕ) → len_of g ≤ p.bsgs_baby_size
  pub product_eq :
      (g i : ℕ)
      → g < count
      → i < len_of g
      → (start : ℕ) × (mask : d.Dft) × (key : d.Key) × (bsgs_group_start_step p g ≡ ok start)
        × (at p.bsgs_masks (start + i) ≡ ok mask)
        × (at keys.baby_key_g_bodies i ≡ ok key)
        × (d.vmp_apply mask key ≡ product g i)
  pub move_eq :
      (g : ℕ)
      → g < count
      → (plan : d.Plan) × (at p.bsgs_giant_plans g ≡ ok plan)
        × ((s : d.Dft) → d.dft_automorphism plan s ≡ move g s)

module _ {m : Module} (d : DftModule m) (p : PackingPrecomputations m.Poly d.Dft d.Plan)
    (keys : PackingKeys d.Key) (groups : Groups d p keys) where
  open d use {Dft, dft_zero, dft_add_assign}
  open groups use {count, len_of, product, move}

  abbrev pub baby : ℕ
  baby = p.bsgs_baby_size

  -- The buffer of a step.
  abbrev pub slot : (chunk_start g i : ℕ) → ℕ
  slot chunk_start g i = (g - chunk_start) * baby + i

  module _ (cs : ℕ) where
    -- The buffers of one step, for a run of groups.
    pub record AreStored (b g left : ℕ) (before after : List Dft) : Type 0 where
      pub size : length after ≡ length before
      pub stored :
          (g' : ℕ)
          → g ≤ g'
          → g' < g + left
          → b < len_of g'
          → get_elem? after (slot cs g' b) ≡ some (product g' b)
      pub kept :
          (g' i : ℕ)
          → cs ≤ g'
          → i < baby
          → (i ≢ b) ⊎ (g' < g)
          → get_elem? after (slot cs g' i) ≡ get_elem? before (slot cs g' i)

    slot_apart :
        (b g g' i : ℕ)
        → cs ≤ g
        → cs ≤ g'
        → i < baby
        → b < baby
        → (i ≢ b) ⊎ (g' < g)
        → slot cs g b ≢ slot cs g' i
    slot_apart b g g' i le le' lt ltb' (inl ne) e =
        ne (sym ((same_parts (g - cs) b (g' - cs) i baby ltb' lt e).1))
    slot_apart b g g' i le le' lt ltb' (inr lt') e =
        let same = (same_parts (g - cs) b (g' - cs) i baby ltb' lt e).0 in
        absurd (omega (arith, same))

    -- One round, for a group that is too short and for one that is not.
    skipped :
        (b g : ℕ) (buffers : List Dft)
        → g < count
        → len_of g ≤ b
        → baby_product d p keys cs b g buffers ≡ ok buffers
    skipped b g buffers lt short = rw (groups.len_eq g lt) (rw (le→leb (len_of g) b short))

    done :
        (b g : ℕ) (buffers : List Dft)
        → g < count
        → b < len_of g
        → slot cs g b < length buffers
        → baby_product d p keys cs b g buffers ≡ ok (set buffers (slot cs g b) (product g b))
    done b g buffers lt long fits =
        let (start, mask, key, at_start, at_mask, at_key, same) = groups.product_eq g b lt long in
        rw (groups.len_eq g lt) (
          rw (lt→leb (len_of g) b long) (
            rw (at_start, at_mask, at_key) (rw (same, lt→ltb (slot cs g b) (length buffers) fits))))

    pub step_products :
        (b left g : ℕ) (buffers : List Dft)
        → b < baby
        → cs ≤ g
        → g + left ≤ count
        → (g + left - cs) * baby ≤ length buffers
        → (after : List Dft) × (for_range left g (baby_product d p keys cs b) buffers ≡ ok after)
          × AreStored b g left buffers after
    unfolding for_range
    step_products b zero g buffers lt le below room = (
      buffers,
      refl,
      record {
        size = refl;
        stored = λ g' ge lt'. absurd (omega arith);
        kept = λ g' i le' lt' ne. refl;
      },
    )
    step_products b (suc left) g buffers lt le below room = elim (dec_lt b (len_of g)) [
      | no short ↦
          let (after, run, all) =
            step_products b left (g + 1) buffers lt (omega arith) (omega arith) (
              omega (
                arith,
                room,
                mul_mono (g + 1 + left - cs) (g + suc left - cs) baby (omega arith),
              )) in
          (
            after,
            rw (skipped b g buffers (omega arith) (omega arith)) run,
            record {
              size = all.size;
              stored = λ g' ge lt' long. elim (ℕ_discrete g g') [
                | yes e ↦ absurd (omega (arith, ap len_of e))
                | no ne ↦ all.stored g' (omega arith) (omega arith) long
              ];
              kept = λ g' i le' lt' ne. all.kept g' i le' lt' (later ne);
            },
          )
      | yes long ↦
          let fits : slot cs g b < length buffers =
            omega (arith, room, mul_mono (g - cs + 1) (g + suc left - cs) baby (omega arith)) in
          let next : List Dft = set buffers (slot cs g b) (product g b) in
          let (after, run, all) = step_products b left (g + 1) next lt (omega arith) (omega arith) (
            omega (
              arith,
              room,
              length-set buffers (slot cs g b) (product g b),
              mul_mono (g + 1 + left - cs) (g + suc left - cs) baby (omega arith),
            )) in
          (
            after,
            rw (done b g buffers (omega arith) long fits) run,
            record {
              size = all.size ∙ length-set buffers (slot cs g b) (product g b);
              stored = λ g' ge lt' long'. elim (ℕ_discrete g g') [
                | yes e ↦ rw (← e) (
                    all.kept g b le lt (inr (omega arith))
                    ∙ get_elem?-set_self buffers (slot cs g b) (product g b) fits)
                | no ne ↦ all.stored g' (omega arith) (omega arith) long'
              ];
              kept = λ g' i le' lt' ne.
                  all.kept g' i le' lt' (later ne)
                  ∙ get_elem?-set_ne buffers (slot cs g b) (slot cs g' i) (product g b)
                      (slot_apart b g g' i le le' lt' lt ne);
            },
          )
    ]
      where
        later : {i b g g' : ℕ} → (i ≢ b) ⊎ (g' < g) → (i ≢ b) ⊎ (g' < g + 1)
        later (inl ne) = inl ne
        later (inr lt) = inr (omega arith)
