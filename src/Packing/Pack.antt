-- ===== src/Packing/Pack.antt =====
-- src/packing/packing.rs: the online packing, in chunks of groups of baby steps. The transformed domain of
-- the backend is a parameter, `DftModule`; a product with a key overwrites its destination.
pub mod Products
pub mod Whole
use poulpy_pir.Prelude.{
  ℕ, zero, suc, ◌+◌, ◌-◌, ◌*◌, min, Bool, true, false, leb, ltb, if◌then◌else◌, List, [], ◌∷◌,
  length, set, Option, some, none, div_ceil,
}
use poulpy_pir.Error.{Result, ok, panic, assert, ◌>>=◌, ◌>>◌}
use poulpy_pir.Loop.{for_range, at}
use poulpy_pir.Packing.{Module}
use poulpy_pir.Packing.Precompute.{
  PackingPrecomputations, bsgs_kg_steps, bsgs_group_count, bsgs_group_start_step, bsgs_group_len,
}

pub record DftModule (m : Module) : Type 1 where
  pub Dft : Type 0
  pub Big : Type 0
  pub Plan : Type 0
  pub Key : Type 0
  pub dft_zero : Dft
  pub dft_add_assign : Dft → Dft → Dft
  pub dft_apply : m.Poly → Dft
  pub vmp_apply : Dft → Key → Dft
  pub dft_automorphism : Plan → Dft → Dft
  pub idft_apply : Dft → Big
  pub big_normalize : (dst_base2k src_base2k : ℕ) → Big → m.Poly

-- The key bodies, that of `key_h` for a full packing only.
pub record PackingKeys (Key : Type 0) : Type 0 where
  pub baby_key_g_bodies : List Key
  pub key_h_body : Option Key

abbrev pub key_h : {Key : Type 0} → PackingKeys Key → Result Key
key_h keys = elim keys.key_h_body [ none ↦ panic | some key ↦ ok key ]

module _ {m : Module} (d : DftModule m) where
  open m use {Poly}
  open d use {
    Dft, Plan, Key, dft_zero, dft_add_assign, dft_apply, vmp_apply, dft_automorphism, idft_apply,
    big_normalize,
  }

  -- `buffers[i] = v`.
  abbrev pub store : List Dft → ℕ → Dft → Result (List Dft)
  store buffers i v = do assert (ltb i (length buffers)); ok (set buffers i v)

  module _ (p : PackingPrecomputations Poly Dft Plan) (keys : PackingKeys Key) where
    -- The product of the step `baby_idx` of a group, if the group has as many.
    abbrev pub baby_product : (chunk_start baby_idx group_idx : ℕ) → List Dft → Result (List Dft)
    baby_product chunk_start baby_idx group_idx buffers = do
      len ← bsgs_group_len p group_idx
      let slot = (group_idx - chunk_start) * p.bsgs_baby_size + baby_idx
      let live = bsgs_group_start_step p group_idx >>= λ start.
          at p.bsgs_masks (start + baby_idx) >>= λ mask.
          at keys.baby_key_g_bodies baby_idx >>= λ key. store buffers slot (vmp_apply mask key)
      if leb len baby_idx then ok buffers else live

    abbrev pub chunk_products : (chunk_start chunk_len : ℕ) → List Dft → Result (List Dft)
    chunk_products chunk_start chunk_len buffers =
        for_range p.bsgs_baby_size 0
          (λ baby_idx buffers.
            for_range chunk_len chunk_start (baby_product chunk_start baby_idx) buffers)
          buffers

    -- The sum of a group's products, moved by its giant step, added to the accumulator.
    abbrev pub add_group : List Dft → (chunk_start group_idx : ℕ) → Dft → Result Dft
    add_group buffers chunk_start group_idx acc = do
      len ← bsgs_group_len p group_idx
      group_acc ←
          for_range len 0
            (λ baby_idx s. do
              product ← at buffers ((group_idx - chunk_start) * p.bsgs_baby_size + baby_idx)
              ok (dft_add_assign s product))
            dft_zero
      plan ← at p.bsgs_giant_plans group_idx
      ok (dft_add_assign acc (dft_automorphism plan group_acc))

    abbrev pub pack_chunk :
        (chunk_size group_count chunk_idx : ℕ) → List Dft × Dft → Result (List Dft × Dft)
    pack_chunk chunk_size group_count chunk_idx (buffers, acc) = do
      let chunk_start = chunk_idx * chunk_size
      let chunk_end = min ((chunk_idx + 1) * chunk_size) group_count
      buffers' ← chunk_products chunk_start (chunk_end - chunk_start) buffers
      acc' ← for_range (chunk_end - chunk_start) chunk_start (add_group buffers' chunk_start) acc
      ok (buffers', acc')

    abbrev pub add_key_h : Dft → Result Dft
    add_key_h acc = do
      kg_steps ← bsgs_kg_steps p
      key ← key_h keys
      mask ← at p.bsgs_masks kg_steps
      ok (dft_add_assign acc (vmp_apply mask key))

    -- The last step, of a full packing only.
    abbrev pub finish : (partial : Bool) → Dft → Result Dft
    finish true acc = ok acc
    finish false acc = add_key_h acc

    -- The body and the mask of the result; `buffers` is scratch.
    unfoldable pub pack_default :
        (chunk_size : ℕ) → (buffers : List Dft) → (body : Poly) → Result (Poly × Poly)
    unfolding for_range bsgs_group_count bsgs_group_start_step bsgs_kg_steps div_ceil
    pack_default chunk_size buffers body = do
      assert (leb 1 chunk_size)
      group_count ← bsgs_group_count p
      (_, acc) ←
          for_range (div_ceil group_count chunk_size) 0 (pack_chunk chunk_size group_count)
            (buffers, dft_apply body)
      acc' ← finish p.partial acc
      ok (big_normalize p.base2k p.base2k (idft_apply acc'), p.final_mask)
